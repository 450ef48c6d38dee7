-- ===== src/Db/Audit/Lifecycle.antt =====
-- The life of an operation of the activity history: core/src/audit/operation.rs says which
-- transitions of its status there are, and core/src/db/dao/audit.rs makes them.
use read_flow.Prelude.{
  retain, ℕ, String, Bool, true, Option, some, List, [], ◌∷◌, ◌++◌, any, update, All, eqb,
  if◌then◌else◌, ◌≡◌, refl, sym, ◌∙◌, ◌⊎◌, inl, inr, arith, Bool-cases, subst,
}
use read_flow.Audit.{
  is_object, object, operation_interrupted, AuditEventType, OperationType, OperationStatus,
  AuditOutcome, AuditContext, Json, is_terminal, can_transition_to, interrupted,
}
use read_flow.Db.Result.{invalid_audit_event, Result, ok, err}
use read_flow.Db.Tables.{Db, AuditOperationRecord, AuditTargetSnapshot}
use read_flow.Db.Monad.{M, continue, for_each, continue-keeps, for_each-keeps}
use read_flow.Db.Audit.{
  open_with_id, close_with, stale_ids, create_audit_operation, append_audit_event, insert_event,
  insert_target, finish_audit_operation_on_connection, interrupt_operation,
  interrupt_stale_operations,
}

-- An operation stays as it is, or keeps what it was created with and makes an allowed transition.
abbrev pub Moves : AuditOperationRecord → AuditOperationRecord → Type 0
Moves o o' =
    (o ≡ o')
    ⊎ ((o'.id ≡ o.id)
        × (o'.operation_type ≡ o.operation_type)
        × (o'.actor ≡ o.actor)
        × (o'.started_at ≡ o.started_at)
        × (can_transition_to o.status o'.status ≡ true))

-- Every operation moves, in its place; the operations behind them are new.
abbrev pub Advances : List AuditOperationRecord → List AuditOperationRecord → Type 0
Advances [] new = Unit
Advances (o ∷ os) [] = ⊥
Advances (o ∷ os) (o' ∷ os') = Moves o o' × Advances os os'

Moves-trans : (a b c : AuditOperationRecord) → Moves a b → Moves b c → Moves a c
unfolding can_transition_to is_terminal
Moves-trans a b c p q = ground arith

Advances-refl : (os : List AuditOperationRecord) → Advances os os
Advances-refl [] = tt
Advances-refl (o ∷ os) = (inl refl, Advances-refl os)

Advances-trans :
    (xs bs cs : List AuditOperationRecord) → Advances xs bs → Advances bs cs → Advances xs cs
Advances-trans [] bs cs p q = tt
Advances-trans (a ∷ xs) [] cs p q = absurd p
Advances-trans (a ∷ xs) (b ∷ bs) [] p q = absurd q
Advances-trans (a ∷ xs) (b ∷ bs) (c ∷ cs) p q =
    (Moves-trans a b c p.0 q.0, Advances-trans xs bs cs p.1 q.1)

Advances-append : (os new : List AuditOperationRecord) → Advances os (os ++ new)
Advances-append [] new = tt
Advances-append (o ∷ os) new = (inl refl, Advances-append os new)

module _ (op : String) (status : OperationStatus) (at : String) (code : Option String)
    (counts : Json) (terminal : is_terminal status ≡ true) where
  close-Moves :
      (o : AuditOperationRecord)
      → Moves o (if open_with_id op o then close_with status at code counts o else o)
  unfolding can_transition_to
  close-Moves o = ground arith

  finish-Advances :
      (os : List AuditOperationRecord)
      → Advances os (update (open_with_id op) (close_with status at code counts) os)
  finish-Advances [] = tt
  finish-Advances (o ∷ os) = (close-Moves o, finish-Advances os)

-- The calls that change the history.
pub data Call : Type 0 where
  create : AuditContext → OperationType → Bool → String → Call
  append : String → AuditEventType → AuditOutcome → String → Json → List AuditTargetSnapshot → Call
  finish : String → OperationStatus → String → Option String → Json → Call
  recover : String → Call

-- The store after a call, whether it succeeded or not.
pub after_call : Call → Db → Db
after_call (create context operation_type dry_run at) db =
    (create_audit_operation context operation_type dry_run at db).1
after_call (append op event_type outcome at parameters targets) db =
    (append_audit_event op event_type outcome at parameters targets db).1
after_call (finish op status at code counts) db =
    (finish_audit_operation_on_connection op status at code counts db).1
after_call (recover at) db = (interrupt_stale_operations at db).1

pub after_calls : List Call → Db → Db
after_calls [] db = db
after_calls (c ∷ cs) db = after_calls cs (after_call c db)

-- An operation is finished with a terminal status, as every caller does.
abbrev pub EndsTerminally : Call → Type 0
EndsTerminally (finish op status at code counts) = is_terminal status ≡ true
EndsTerminally c = Unit

insert_target-operations :
    (id : ℕ) (t : AuditTargetSnapshot) (db : Db)
    → (insert_target id t db).1.operations ≡ db.operations
unfolding insert_target
insert_target-operations id t db = ground arith

module _ (op : String) (event_type : AuditEventType) (outcome : AuditOutcome) (at : String)
    (parameters : Json) where
  insert_event-operations :
      (db : Db) → (insert_event op event_type outcome at parameters db).1.operations ≡ db.operations
  unfolding insert_event
  insert_event-operations db = ground arith

  append-operations :
      (targets : List AuditTargetSnapshot) (db : Db)
      → (append_audit_event op event_type outcome at parameters targets db).1.operations
        ≡ db.operations
  unfolding append_audit_event
  append-operations targets db = elim (Bool-cases (is_object parameters)) [
    | inl valid ↦
        rw (valid, append_audit_event)
          (continue-keeps (λ d. d.operations) (insert_event op event_type outcome at parameters db)
              _
              (λ id d.
                continue-keeps (λ d'. d'.operations) (for_each targets (insert_target id) d) _
                  (λ _ _. refl)
                ∙ for_each-keeps (λ d'. d'.operations) targets (insert_target id) d
                    (insert_target-operations id))
            ∙ insert_event-operations db)
    | inr invalid ↦ rw (invalid, append_audit_event) refl
  ]

finish_call-operations :
    (op : String) (status : OperationStatus) (at : String) (code : Option String) (counts : Json)
    (db : Db)
    → (finish_audit_operation_on_connection op status at code counts db).1.operations
      ≡ update (open_with_id op) (close_with status at code counts) db.operations
unfolding finish_audit_operation_on_connection
finish_call-operations op status at code counts db = ground arith

interrupt_one-Advances :
    (at op : String) (db : Db) → Advances db.operations (interrupt_operation at op db).1.operations
unfolding interrupt_operation is_terminal
interrupt_one-Advances at op db =
    let after_append =
      (append_audit_event op operation_interrupted AuditOutcome.failed at (object []) [] db).1 in
    let code : Option String = some "interrupted_on_startup" in
    subst (Advances db.operations)
      (sym (finish_call-operations op interrupted at code (object []) after_append))
      (subst
        (λ os.
          Advances db.operations
            (update (open_with_id op) (close_with interrupted at code (object [])) os))
        (sym (append-operations op operation_interrupted AuditOutcome.failed at (object []) [] db))
        (finish-Advances op interrupted at code (object []) refl db.operations))

create-Advances :
    (context : AuditContext) (operation_type : OperationType) (dry_run : Bool) (at : String)
    (db : Db)
    → Advances db.operations
        (create_audit_operation context operation_type dry_run at db).1.operations
unfolding create_audit_operation
create-Advances context operation_type dry_run at db =
    elim (Bool-cases (any (λ o. eqb o.id context.operation_id) db.operations)) [
      | inl taken ↦ rw (taken, create_audit_operation) (Advances-refl db.operations)
      | inr fresh ↦ rw (fresh, create_audit_operation) (Advances-append db.operations _)
    ]

continue-Advances :
    {A B : Type 0} (os : List AuditOperationRecord) (r : Result A × Db) (k : A → M B)
    → Advances os r.1.operations
    → ((a : A) (db : Db) → Advances db.operations (k a db).1.operations)
    → Advances os (continue r k).1.operations
continue-Advances os (ok a, db) k first keep = Advances-trans os _ _ first (keep a db)
continue-Advances os (err e, db) k first keep = first

recover_all-Advances :
    (at : String) (ids : List String) (db : Db)
    → Advances db.operations (for_each ids (interrupt_operation at) db).1.operations
unfolding for_each
recover_all-Advances at [] db = Advances-refl db.operations
recover_all-Advances at (i ∷ ids) db =
    continue-Advances db.operations (interrupt_operation at i db) _ (interrupt_one-Advances at i db)
      (λ _ d. recover_all-Advances at ids d)

interrupt-Advances :
    (at : String) (db : Db) → Advances db.operations (interrupt_stale_operations at db).1.operations
unfolding interrupt_stale_operations
interrupt-Advances at db =
    continue-Advances db.operations (for_each (stale_ids db.operations) (interrupt_operation at) db)
      _ (recover_all-Advances at (stale_ids db.operations) db) (λ _ d. Advances-refl d.operations)

after_call-Advances :
    (c : Call) (db : Db) → EndsTerminally c → Advances db.operations (after_call c db).operations
unfolding after_call
after_call-Advances (create context operation_type dry_run at) db t =
    create-Advances context operation_type dry_run at db
after_call-Advances (append op event_type outcome at parameters targets) db t =
    subst (Advances db.operations)
      (sym (append-operations op event_type outcome at parameters targets db))
      (Advances-refl db.operations)
after_call-Advances (finish op status at code counts) db t =
    subst (Advances db.operations) (sym (finish_call-operations op status at code counts db))
      (finish-Advances op status at code counts t db.operations)
after_call-Advances (recover at) db t = interrupt-Advances at db

-- Over any history of calls that finish operations with terminal statuses only, an operation keeps
-- its place, its id, type, actor and start, and its status changes at most once, from `started` to
-- a terminal status: a terminal record is never rewritten, and none disappears.
pub after_calls-Advances :
    (cs : List Call) (db : Db)
    → All EndsTerminally cs
    → Advances db.operations (after_calls cs db).operations
unfolding after_calls
after_calls-Advances [] db t = Advances-refl db.operations
after_calls-Advances (c ∷ cs) db t =
    Advances-trans db.operations (after_call c db).operations _ (after_call-Advances c db t.0)
      (after_calls-Advances cs (after_call c db) t.1)

no_rows-update :
    (f : AuditOperationRecord → AuditOperationRecord) (p : AuditOperationRecord → Bool)
    (os : List AuditOperationRecord)
    → retain p os ≡ []
    → update p f os ≡ os
no_rows-update f p [] h = refl
no_rows-update f p (o ∷ os) h = ground (arith, no_rows-update f p os)

module _ (op : String) (status : OperationStatus) (at : String) (code : Option String)
    (counts : Json) (terminal : is_terminal status ≡ true) where
  retain-close :
      (os : List AuditOperationRecord)
      → retain (open_with_id op) (update (open_with_id op) (close_with status at code counts) os)
        ≡ []
  unfolding is_terminal
  retain-close [] = refl
  retain-close (o ∷ os) = ground (arith, retain-close os)

  -- An operation that was finished with a terminal status cannot be finished again: the second
  -- call is refused, whatever its arguments, and changes no operation.
  pub finish_twice :
      (status' : OperationStatus) (at' : String) (code' : Option String) (counts' : Json) (db : Db)
      → let first = (finish_audit_operation_on_connection op status at code counts db).1 in
        let second = finish_audit_operation_on_connection op status' at' code' counts' first in
        (second.0 ≡ err (invalid_audit_event "operation is missing or already terminal" op))
        × (second.1.operations ≡ first.operations)
  unfolding finish_audit_operation_on_connection
  finish_twice status' at' code' counts' db =
      let closed = update (open_with_id op) (close_with status at code counts) db.operations in
      ground (
        arith,
        retain-close db.operations,
        no_rows-update (close_with status' at' code' counts') (open_with_id op) closed,
      )
