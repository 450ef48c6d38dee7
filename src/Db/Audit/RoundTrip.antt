-- ===== src/Db/Audit/RoundTrip.antt =====
-- Every stored text of the history parses back to the value that it was written for.
use read_flow.Prelude.{◌≡◌, refl, str_dec}
use read_flow.Db.Result.{ok}
use read_flow.Audit.{
  AuditEventType, OperationType, OperationStatus, AuditOutcome, AuditActorKind, AuditChannel,
}
use read_flow.Db.Audit.Codec.{
  event_type_as_str, event_type_from_str, operation_type_as_str, operation_type_from_str,
  status_as_str, status_from_str, outcome_as_str, outcome_from_str, actor_kind_as_str,
  actor_kind_from_str, channel_as_str, channel_from_str,
}

event_type_from_str-as_str : (x : AuditEventType) → event_type_from_str (event_type_as_str x) ≡ ok x
unfolding event_type_from_str event_type_as_str str_dec
event_type_from_str-as_str AuditEventType.scan_started = refl
event_type_from_str-as_str AuditEventType.scan_completed = refl
event_type_from_str-as_str AuditEventType.scan_failed = refl
event_type_from_str-as_str AuditEventType.scan_file_discovered = refl
event_type_from_str-as_str AuditEventType.scan_file_content_changed = refl
event_type_from_str-as_str AuditEventType.scan_file_missing = refl
event_type_from_str-as_str AuditEventType.scan_tags_added = refl
event_type_from_str-as_str AuditEventType.scan_metadata_extraction_failed = refl
event_type_from_str-as_str AuditEventType.file_deleted = refl
event_type_from_str-as_str AuditEventType.file_delete_failed = refl
event_type_from_str-as_str AuditEventType.file_record_removed_missing = refl
event_type_from_str-as_str AuditEventType.document_merged = refl
event_type_from_str-as_str AuditEventType.document_content_removed = refl
event_type_from_str-as_str AuditEventType.document_metadata_changed = refl
event_type_from_str-as_str AuditEventType.document_tags_added = refl
event_type_from_str-as_str AuditEventType.document_tags_removed = refl
event_type_from_str-as_str AuditEventType.document_cover_changed = refl
event_type_from_str-as_str AuditEventType.document_status_changed = refl
event_type_from_str-as_str AuditEventType.maintenance_missing_files_checked = refl
event_type_from_str-as_str AuditEventType.maintenance_missing_files_purged = refl
event_type_from_str-as_str AuditEventType.operation_interrupted = refl

operation_type_from_str-as_str :
    (x : OperationType) → operation_type_from_str (operation_type_as_str x) ≡ ok x
unfolding operation_type_from_str operation_type_as_str str_dec
operation_type_from_str-as_str OperationType.scan = refl
operation_type_from_str-as_str OperationType.file_delete = refl
operation_type_from_str-as_str OperationType.document_merge = refl
operation_type_from_str-as_str OperationType.document_content_removed = refl
operation_type_from_str-as_str OperationType.metadata_edit = refl
operation_type_from_str-as_str OperationType.tag_edit = refl
operation_type_from_str-as_str OperationType.status_edit = refl
operation_type_from_str-as_str OperationType.cover_edit = refl
operation_type_from_str-as_str OperationType.missing_file_maintenance = refl

status_from_str-as_str : (x : OperationStatus) → status_from_str (status_as_str x) ≡ ok x
unfolding status_from_str status_as_str str_dec
status_from_str-as_str OperationStatus.started = refl
status_from_str-as_str OperationStatus.completed = refl
status_from_str-as_str OperationStatus.failed = refl
status_from_str-as_str OperationStatus.interrupted = refl

outcome_from_str-as_str : (x : AuditOutcome) → outcome_from_str (outcome_as_str x) ≡ ok x
unfolding outcome_from_str outcome_as_str str_dec
outcome_from_str-as_str AuditOutcome.success = refl
outcome_from_str-as_str AuditOutcome.completed_with_errors = refl
outcome_from_str-as_str AuditOutcome.failed = refl
outcome_from_str-as_str AuditOutcome.observed = refl
outcome_from_str-as_str AuditOutcome.proposed = refl

actor_kind_from_str-as_str : (x : AuditActorKind) → actor_kind_from_str (actor_kind_as_str x) ≡ ok x
unfolding actor_kind_from_str actor_kind_as_str str_dec
actor_kind_from_str-as_str AuditActorKind.user = refl
actor_kind_from_str-as_str AuditActorKind.local_identity = refl
actor_kind_from_str-as_str AuditActorKind.local_session = refl
actor_kind_from_str-as_str AuditActorKind.system = refl

channel_from_str-as_str : (x : AuditChannel) → channel_from_str (channel_as_str x) ≡ ok x
unfolding channel_from_str channel_as_str str_dec
channel_from_str-as_str AuditChannel.rest = refl
channel_from_str-as_str AuditChannel.cosmic = refl
channel_from_str-as_str AuditChannel.cli = refl
channel_from_str-as_str AuditChannel.internal = refl

-- Each of the six enumerations of the history is read back from its stored text.
pub from_str-as_str :
    ((x : AuditEventType) → event_type_from_str (event_type_as_str x) ≡ ok x)
    × ((x : OperationType) → operation_type_from_str (operation_type_as_str x) ≡ ok x)
    × ((x : OperationStatus) → status_from_str (status_as_str x) ≡ ok x)
    × ((x : AuditOutcome) → outcome_from_str (outcome_as_str x) ≡ ok x)
    × ((x : AuditActorKind) → actor_kind_from_str (actor_kind_as_str x) ≡ ok x)
    × ((x : AuditChannel) → channel_from_str (channel_as_str x) ≡ ok x)
from_str-as_str = (
  event_type_from_str-as_str, operation_type_from_str-as_str, status_from_str-as_str,
  outcome_from_str-as_str, actor_kind_from_str-as_str, channel_from_str-as_str,
)
