-- ===== src/Db/Audit/Closing.antt =====
-- core/src/db/dao/audit.rs: an operation that was just created can be finished.
use read_flow.Prelude.{
  String, Bool, false, Option, List, [], ◌∷◌, ◌++◌, any, retain, retain-append, eqb, eqb_refl, ◌≡◌,
  refl, arith,
}
use read_flow.Audit.{AuditContext, OperationType, OperationStatus, Json}
use read_flow.Db.Result.{ok}
use read_flow.Db.Tables.{Db, AuditOperationRecord}
use read_flow.Db.Audit.{
  new_operation, create_audit_operation, open_with_id, finish_audit_operation_on_connection,
}

-- The store with the operation's row.
abbrev pub with_operation : AuditContext → OperationType → String → Db → Db
with_operation c operation_type at db = record db {
  operations = db.operations ++ new_operation c operation_type false at ∷ [];
}

abbrev pub has_operation : String → List AuditOperationRecord → Bool
has_operation id = any (λ (o : AuditOperationRecord). eqb o.id id)

pub create-fresh :
    (c : AuditContext) (operation_type : OperationType) (at : String) (db : Db)
    → has_operation c.operation_id db.operations ≡ false
    → create_audit_operation c operation_type false at db
      ≡ (ok tt, with_operation c operation_type at db)
unfolding create_audit_operation
create-fresh c operation_type at db fresh = rw (fresh, create_audit_operation) refl

none_open :
    (id : String) (os : List AuditOperationRecord)
    → has_operation id os ≡ false
    → retain (open_with_id id) os ≡ []
none_open id [] fresh = refl
none_open id (o ∷ os) fresh = ground (arith, none_open id os)

pub finish-fresh :
    (c : AuditContext) (operation_type : OperationType) (at : String) (db : Db)
    (status : OperationStatus) (at' : String) (code : Option String) (counts : Json)
    → has_operation c.operation_id db.operations ≡ false
    → (finish_audit_operation_on_connection c.operation_id status at' code counts
        (with_operation c operation_type at db)).0
      ≡ ok tt
unfolding finish_audit_operation_on_connection new_operation
finish-fresh c operation_type at db status at' code counts fresh =
    rw
      (
        retain-append (open_with_id c.operation_id) db.operations
            (new_operation c operation_type false at ∷ []),
        none_open c.operation_id db.operations fresh,
        eqb_refl c.operation_id,
      )
      refl
