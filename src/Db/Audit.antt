-- ===== src/Db/Audit.antt =====
-- core/src/db/dao/audit.rs: the activity history.
pub mod Codec
pub mod RoundTrip
pub mod Recovery
pub mod Closing
pub mod Lifecycle
pub mod Sequence
use read_flow.Prelude.{
  ℕ, suc, ◌+◌, ◌==◌, max, String, Bool, true, false, not, ◌&&◌, Option, none, some, List, [], ◌∷◌,
  ◌++◌, map, length, any, retain, update, eqb, if◌then◌else◌,
}
use read_flow.Audit.{
  AuditEventType, OperationType, OperationStatus, started, interrupted, AuditOutcome, AuditActor,
  AuditChannel, AuditContext, Json, object, Scalar, is_object, operation_interrupted,
}
use read_flow.Db.Result.{
  Result, ok, err, unique_violation, foreign_key_violation, invalid_audit_event,
}
use read_flow.Db.Tables.{
  Db, AuditOperationRecord, AuditEventRow, AuditTargetRow, AuditTargetSnapshot,
}
use read_flow.Db.Monad.{
  M, ◌>>=◌, ◌>>◌, continue, pure, fail, query, execute, attempt, settle, for_each,
}

-- `AuditTargetSnapshot::file`, `::path` and `::document`.
unfoldable pub file_target : String → String → String → AuditTargetSnapshot
file_target id title path = record {
  target_kind = "file";
  target_id = id;
  title_snapshot = some title;
  path_snapshot = some path;
  fingerprint_snapshot = none;
}

unfoldable pub path_target : String → AuditTargetSnapshot
path_target path = record {
  target_kind = "path";
  target_id = path;
  title_snapshot = none;
  path_snapshot = some path;
  fingerprint_snapshot = none;
}

unfoldable pub document_target : String → String → AuditTargetSnapshot
document_target id title = record {
  target_kind = "document";
  target_id = id;
  title_snapshot = some title;
  path_snapshot = none;
  fingerprint_snapshot = none;
}

abbrev pub is_started : OperationStatus → Bool
is_started started = true
is_started s = false

unfoldable pub new_operation : AuditContext → OperationType → Bool → String → AuditOperationRecord
new_operation context operation_type dry_run started_at = record {
  id = context.operation_id;
  operation_type = operation_type;
  actor = context.actor;
  channel = context.channel;
  status = started;
  dry_run = dry_run;
  started_at = started_at;
  completed_at = none;
  error_code = none;
  counts = object [];
}

unfoldable pub create_audit_operation : AuditContext → OperationType → Bool → String → M (Unit {0})
create_audit_operation context operation_type dry_run started_at db =
    if any (λ (o : AuditOperationRecord). eqb o.id context.operation_id) db.operations
    then (err unique_violation, db)
    else (
      ok tt,
      record db {
        operations = db.operations ++ new_operation context operation_type dry_run started_at ∷ [];
      },
    )

-- `COALESCE(MAX(sequence), 0)` over the operation's events.
unfoldable pub max_sequence : String → List AuditEventRow → ℕ
max_sequence op [] = 0
max_sequence op (e ∷ es) =
    if eqb e.operation_id op then max e.sequence (max_sequence op es) else max_sequence op es

unfoldable pub insert_target : ℕ → AuditTargetSnapshot → M (Unit {0})
insert_target event_id t db =
    if any
      (λ (r : AuditTargetRow).
        r.event_id == event_id
        && (eqb r.target.target_kind t.target_kind && eqb r.target.target_id t.target_id))
      db.targets
    then (err unique_violation, db)
    else (
      ok tt,
      record db { targets = db.targets ++ record { event_id = event_id; target = t } ∷ [] },
    )

unfoldable pub insert_event : String → AuditEventType → AuditOutcome → String → Json → M ℕ
insert_event operation_id event_type outcome occurred_at parameters db =
    if any (λ (o : AuditOperationRecord). eqb o.id operation_id) db.operations
    then (
      ok db.next_event,
      record db {
        events =
            db.events
            ++ record {
              id = db.next_event;
              operation_id = operation_id;
              event_type = event_type;
              schema_version = 1;
              sequence = max_sequence operation_id db.events + 1;
              occurred_at = occurred_at;
              outcome = outcome;
              parameters = parameters;
            }
              ∷ [];
        next_event = suc db.next_event;
      },
    )
    else (err foreign_key_violation, db)

unfoldable pub append_audit_event :
    String → AuditEventType → AuditOutcome → String → Json → List AuditTargetSnapshot → M ℕ
append_audit_event operation_id event_type outcome occurred_at parameters targets =
    if is_object parameters
    then (do
      event_id ← insert_event operation_id event_type outcome occurred_at parameters
      for_each targets (insert_target event_id)
      pure event_id)
    else fail (invalid_audit_event "parameters must be a JSON object" operation_id)

-- The rows that the `UPDATE` of `finish_audit_operation_on_connection` meets.
abbrev pub open_with_id : String → AuditOperationRecord → Bool
open_with_id operation_id o = eqb o.id operation_id && is_started o.status

abbrev pub close_with :
    OperationStatus → String → Option String → Json → AuditOperationRecord → AuditOperationRecord
close_with status completed_at error_code counts o = record o {
  status = status;
  completed_at = some completed_at;
  error_code = error_code;
  counts = counts;
}

unfoldable pub finish_audit_operation_on_connection :
    String → OperationStatus → String → Option String → Json → M (Unit {0})
finish_audit_operation_on_connection operation_id status completed_at error_code counts db =
    let rows_affected = length (retain (open_with_id operation_id) db.operations) in
    let db' = record db {
      operations =
          update (open_with_id operation_id) (close_with status completed_at error_code counts)
            db.operations;
    } in
    if rows_affected == 1
    then (ok tt, db')
    else (err (invalid_audit_event "operation is missing or already terminal" operation_id), db')

-- The same on a connection of its own.
unfoldable pub finish_audit_operation :
    String → OperationStatus → String → Option String → Json → M (Unit {0})
unfolding finish_audit_operation_on_connection
finish_audit_operation = finish_audit_operation_on_connection

-- `SELECT id … WHERE status = 'started'`.
abbrev pub stale_ids : List AuditOperationRecord → List String
stale_ids [] = []
stale_ids (o ∷ os) = if is_started o.status then o.id ∷ stale_ids os else stale_ids os

unfoldable pub interrupt_operation : String → String → M (Unit {0})
interrupt_operation occurred_at operation_id = do
  attempt (
      append_audit_event operation_id operation_interrupted AuditOutcome.failed occurred_at
        (object []) [])
  attempt (
      finish_audit_operation_on_connection operation_id interrupted occurred_at
        (some "interrupted_on_startup") (object []))

unfoldable pub interrupt_stale_operations : String → M ℕ
interrupt_stale_operations occurred_at = do
  stale ← query (λ db. stale_ids db.operations)
  for_each stale (interrupt_operation occurred_at)
  pure (length stale)
