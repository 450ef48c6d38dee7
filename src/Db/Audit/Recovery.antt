-- ===== src/Db/Audit/Recovery.antt =====
-- What the start-up recovery of core/src/db/dao/audit.rs leaves behind.
use read_flow.Prelude.{
  String, Bool, true, false, not, ◌&&◌, List, [], ◌∷◌, length, any, retain, update, All, eqb,
  if◌then◌else◌, ◌≡◌, refl, arith, some,
}
use read_flow.Audit.{interrupted, operation_interrupted, AuditOutcome, object, is_object}
use read_flow.Db.Result.{ok}
use read_flow.Db.Tables.{Db, AuditOperationRecord}
use read_flow.Db.Monad.{continue-pure, M, for_each}
use read_flow.Db.Audit.{
  insert_event, is_started, open_with_id, close_with, stale_ids, append_audit_event,
  finish_audit_operation_on_connection, interrupt_operation, interrupt_stale_operations,
}

append_event-operations :
    (op : String) (db : Db) (at : String)
    → (append_audit_event op operation_interrupted AuditOutcome.failed at
        (object [])
        []
        db).1.operations
      ≡ db.operations
unfolding append_audit_event insert_event for_each is_object
append_event-operations op db at = ground arith

abbrev interrupt_row : String → AuditOperationRecord → AuditOperationRecord
interrupt_row at = close_with interrupted at (some "interrupted_on_startup") (object [])

interrupt_operation-operations :
    (at op : String) (db : Db)
    → (interrupt_operation at op db).1.operations
      ≡ update (open_with_id op) (interrupt_row at) db.operations
unfolding interrupt_operation finish_audit_operation_on_connection
interrupt_operation-operations at op db = ground (arith, append_event-operations op db at)

-- Every operation that is still started has its id in the list.
abbrev Closing : List String → List AuditOperationRecord → Type 0
Closing ids os = All (λ o. (is_started o.status && not (any (eqb o.id) ids)) ≡ false) os

Closing-cons :
    (i : String) (ids : List String) (os : List AuditOperationRecord)
    → Closing ids os
    → Closing (i ∷ ids) os
Closing-cons i ids [] c = tt
Closing-cons i ids (o ∷ os) c = (ground arith, Closing-cons i ids os c.1)

Closing-head :
    (o : AuditOperationRecord) (ids : List String) (os : List AuditOperationRecord) (b : Bool)
    → is_started o.status ≡ b
    → Closing ids os
    → Closing (if b then o.id ∷ ids else ids) (o ∷ os)
Closing-head o ids os true e c = (ground arith, Closing-cons o.id ids os c)
Closing-head o ids os false e c = (ground arith, c)

Closing-stale : (os : List AuditOperationRecord) → Closing (stale_ids os) os
Closing-stale [] = tt
Closing-stale (o ∷ os) =
    Closing-head o (stale_ids os) os (is_started o.status) refl (Closing-stale os)

Closing-update :
    (at i : String) (ids : List String) (os : List AuditOperationRecord)
    → Closing (i ∷ ids) os
    → Closing ids (update (open_with_id i) (interrupt_row at) os)
Closing-update at i ids [] c = tt
Closing-update at i ids (o ∷ os) c = (ground arith, Closing-update at i ids os c.1)

Closing-nil :
    (os : List AuditOperationRecord) → Closing [] os → retain (λ o. is_started o.status) os ≡ []
Closing-nil [] c = refl
Closing-nil (o ∷ os) c = ground (arith, Closing-nil os c.1)

abbrev recover : String → List String → M (Unit {0})
recover at ids = for_each ids (interrupt_operation at)

interrupt_operation-ok : (at i : String) (db : Db) → (interrupt_operation at i db).0 ≡ ok tt
unfolding interrupt_operation
interrupt_operation-ok at i db = refl

recover-cons :
    (at i : String) (ids : List String) (db : Db)
    → recover at (i ∷ ids) db ≡ recover at ids (interrupt_operation at i db).1
unfolding for_each interrupt_operation
recover-cons at i ids db = refl

recover-Closing :
    (at : String) (ids : List String) (db : Db)
    → Closing ids db.operations
    → Closing [] (recover at ids db).1.operations
unfolding for_each
recover-Closing at [] db c = c
recover-Closing at (i ∷ ids) db c = rw (recover-cons at i ids db) (
    recover-Closing at ids (interrupt_operation at i db).1
      (rw (interrupt_operation-operations at i db) (Closing-update at i ids db.operations c)))

recover-ok : (at : String) (ids : List String) (db : Db) → (recover at ids db).0 ≡ ok tt
unfolding for_each
recover-ok at [] db = refl
recover-ok at (i ∷ ids) db =
    rw (recover-cons at i ids db) (recover-ok at ids (interrupt_operation at i db).1)

-- The recovery always succeeds, reports the number of operations that were open, and leaves none
-- open, whatever the store held before.
pub interrupt-none_started :
    (at : String) (db : Db)
    → ((interrupt_stale_operations at db).0 ≡ ok (length (stale_ids db.operations)))
      × (retain (λ o. is_started o.status) (interrupt_stale_operations at db).1.operations ≡ [])
unfolding interrupt_stale_operations
interrupt-none_started at db =
    let recovered = recover at (stale_ids db.operations) db in
    rw
      (continue-pure recovered (length (stale_ids db.operations))
        (recover-ok at (stale_ids db.operations) db))
      (
        refl,
        Closing-nil recovered.1.operations
            (recover-Closing at (stale_ids db.operations) db (Closing-stale db.operations)),
      )
