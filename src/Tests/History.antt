-- ===== src/Tests/History.antt =====
-- The theorems on the activity history at a run of it.
use read_flow.Prelude.{false, none, List, [], ◌∷◌, retain, str_dec, ◌≡◌, refl}
use read_flow.Audit.{
  AuditEventType, OperationType, OperationStatus, AuditOutcome, object, is_object, is_terminal,
}
use read_flow.Db.Result.{ok, err, invalid_audit_event}
use read_flow.Db.Monad.{for_each}
use read_flow.Db.Audit.{
  is_started, interrupt_stale_operations, create_audit_operation, new_operation, append_audit_event,
  insert_event, insert_target, max_sequence, finish_audit_operation_on_connection,
}
use read_flow.Db.Audit.Lifecycle.{Call, Advances, after_calls, after_calls-Advances, finish_twice}
use read_flow.Db.Audit.Sequence.{IsNumbered, append_audit_event-IsNumbered}
use read_flow.Db.Audit.Recovery.{interrupt-none_started}
use read_flow.Db.Audit.Closing.{with_operation}
use read_flow.Tests.Store.{context, store}

program : Unit {0}
unfolding str_dec for_each create_audit_operation new_operation append_audit_event insert_event
    insert_target max_sequence is_object finish_audit_operation_on_connection is_terminal
program = tt

-- Created, written to, finished, and visited by a later start-up.
abbrev calls : List Call
calls =
    Call.create context OperationType.scan false "t1"
    ∷ Call.append "op" AuditEventType.scan_started AuditOutcome.success "t2" (object []) []
    ∷ Call.finish "op" OperationStatus.completed "t3" none (object [])
    ∷ Call.recover "t4"
    ∷ []

after_calls-Advances_example : Advances store.operations (after_calls calls store).operations
unfolding program
after_calls-Advances_example = after_calls-Advances calls store (tt, (tt, (refl, (tt, tt))))

finish_twice_example :
    let first =
      (finish_audit_operation_on_connection "op" OperationStatus.completed "t3" none
        (object [])
        (with_operation context OperationType.scan "t1" store)).1 in
    let second =
      finish_audit_operation_on_connection "op" OperationStatus.failed "t5" none
        (object [])
        first in
    (second.0 ≡ err (invalid_audit_event "operation is missing or already terminal" "op"))
    × (second.1.operations ≡ first.operations)
unfolding program
finish_twice_example =
    finish_twice "op" OperationStatus.completed "t3" none (object []) refl OperationStatus.failed
      "t5" none (object []) (with_operation context OperationType.scan "t1" store)

append_audit_event-IsNumbered_example :
    IsNumbered "op"
      (append_audit_event "op" AuditEventType.scan_started AuditOutcome.success "t2"
        (object [])
        []
        (with_operation context OperationType.scan "t1" store)).1.events
unfolding program
append_audit_event-IsNumbered_example =
    append_audit_event-IsNumbered "op" "op" AuditEventType.scan_started AuditOutcome.success "t2"
      (object []) [] (with_operation context OperationType.scan "t1" store) tt

interrupt-none_started_example :
    (interrupt_stale_operations "t4" (with_operation context OperationType.scan "t1" store)).0
      ≡ ok 1
    × (retain
          (λ o. is_started o.status)
          (interrupt_stale_operations "t4"
            (with_operation context OperationType.scan "t1" store)).1.operations
        ≡ [])
unfolding program
interrupt-none_started_example =
    interrupt-none_started "t4" (with_operation context OperationType.scan "t1" store)
