-- ===== src/Db/Audit/Codec.antt =====
-- The texts of core/src/audit and core/src/db/dao/audit.rs under which the enumerations of the
-- history are stored, and their parsers.
use read_flow.Prelude.{String, eqb, if◌then◌else◌}
use read_flow.Db.Result.{Result, ok, err, invalid_audit_event}
use read_flow.Audit.{
  AuditEventType, OperationType, OperationStatus, AuditOutcome, AuditActorKind, AuditChannel,
}

unfoldable pub event_type_as_str : AuditEventType → String
event_type_as_str AuditEventType.scan_started = "scan.started"
event_type_as_str AuditEventType.scan_completed = "scan.completed"
event_type_as_str AuditEventType.scan_failed = "scan.failed"
event_type_as_str AuditEventType.scan_file_discovered = "scan.file_discovered"
event_type_as_str AuditEventType.scan_file_content_changed = "scan.file_content_changed"
event_type_as_str AuditEventType.scan_file_missing = "scan.file_missing"
event_type_as_str AuditEventType.scan_tags_added = "scan.tags_added"
event_type_as_str AuditEventType.scan_metadata_extraction_failed = "scan.metadata_extraction_failed"
event_type_as_str AuditEventType.file_deleted = "file.deleted"
event_type_as_str AuditEventType.file_delete_failed = "file.delete_failed"
event_type_as_str AuditEventType.file_record_removed_missing = "file.record_removed_missing"
event_type_as_str AuditEventType.document_merged = "document.merged"
event_type_as_str AuditEventType.document_content_removed = "document.content_removed"
event_type_as_str AuditEventType.document_metadata_changed = "document.metadata_changed"
event_type_as_str AuditEventType.document_tags_added = "document.tags_added"
event_type_as_str AuditEventType.document_tags_removed = "document.tags_removed"
event_type_as_str AuditEventType.document_cover_changed = "document.cover_changed"
event_type_as_str AuditEventType.document_status_changed = "document.status_changed"
event_type_as_str AuditEventType.maintenance_missing_files_checked =
    "maintenance.missing_files_checked"
event_type_as_str AuditEventType.maintenance_missing_files_purged =
    "maintenance.missing_files_purged"
event_type_as_str AuditEventType.operation_interrupted = "operation.interrupted"

unfoldable pub event_type_from_str : String → Result AuditEventType
event_type_from_str value =
    if eqb value "scan.started"
    then ok AuditEventType.scan_started
    else if eqb value "scan.completed"
    then ok AuditEventType.scan_completed
    else if eqb value "scan.failed"
    then ok AuditEventType.scan_failed
    else if eqb value "scan.file_discovered"
    then ok AuditEventType.scan_file_discovered
    else if eqb value "scan.file_content_changed"
    then ok AuditEventType.scan_file_content_changed
    else if eqb value "scan.file_missing"
    then ok AuditEventType.scan_file_missing
    else if eqb value "scan.tags_added"
    then ok AuditEventType.scan_tags_added
    else if eqb value "scan.metadata_extraction_failed"
    then ok AuditEventType.scan_metadata_extraction_failed
    else if eqb value "file.deleted"
    then ok AuditEventType.file_deleted
    else if eqb value "file.delete_failed"
    then ok AuditEventType.file_delete_failed
    else if eqb value "file.record_removed_missing"
    then ok AuditEventType.file_record_removed_missing
    else if eqb value "document.merged"
    then ok AuditEventType.document_merged
    else if eqb value "document.content_removed"
    then ok AuditEventType.document_content_removed
    else if eqb value "document.metadata_changed"
    then ok AuditEventType.document_metadata_changed
    else if eqb value "document.tags_added"
    then ok AuditEventType.document_tags_added
    else if eqb value "document.tags_removed"
    then ok AuditEventType.document_tags_removed
    else if eqb value "document.cover_changed"
    then ok AuditEventType.document_cover_changed
    else if eqb value "document.status_changed"
    then ok AuditEventType.document_status_changed
    else if eqb value "maintenance.missing_files_checked"
    then ok AuditEventType.maintenance_missing_files_checked
    else if eqb value "maintenance.missing_files_purged"
    then ok AuditEventType.maintenance_missing_files_purged
    else if eqb value "operation.interrupted"
    then ok AuditEventType.operation_interrupted
    else err (invalid_audit_event "unknown event type" value)

unfoldable pub operation_type_as_str : OperationType → String
operation_type_as_str OperationType.scan = "scan"
operation_type_as_str OperationType.file_delete = "file_delete"
operation_type_as_str OperationType.document_merge = "document_merge"
operation_type_as_str OperationType.document_content_removed = "document_content_removed"
operation_type_as_str OperationType.metadata_edit = "metadata_edit"
operation_type_as_str OperationType.tag_edit = "tag_edit"
operation_type_as_str OperationType.status_edit = "status_edit"
operation_type_as_str OperationType.cover_edit = "cover_edit"
operation_type_as_str OperationType.missing_file_maintenance = "missing_file_maintenance"

unfoldable pub operation_type_from_str : String → Result OperationType
operation_type_from_str value =
    if eqb value "scan"
    then ok OperationType.scan
    else if eqb value "file_delete"
    then ok OperationType.file_delete
    else if eqb value "document_merge"
    then ok OperationType.document_merge
    else if eqb value "document_content_removed"
    then ok OperationType.document_content_removed
    else if eqb value "metadata_edit"
    then ok OperationType.metadata_edit
    else if eqb value "tag_edit"
    then ok OperationType.tag_edit
    else if eqb value "status_edit"
    then ok OperationType.status_edit
    else if eqb value "cover_edit"
    then ok OperationType.cover_edit
    else if eqb value "missing_file_maintenance"
    then ok OperationType.missing_file_maintenance
    else err (invalid_audit_event "unknown operation type" value)

unfoldable pub status_as_str : OperationStatus → String
status_as_str OperationStatus.started = "started"
status_as_str OperationStatus.completed = "completed"
status_as_str OperationStatus.failed = "failed"
status_as_str OperationStatus.interrupted = "interrupted"

unfoldable pub status_from_str : String → Result OperationStatus
status_from_str value =
    if eqb value "started"
    then ok OperationStatus.started
    else if eqb value "completed"
    then ok OperationStatus.completed
    else if eqb value "failed"
    then ok OperationStatus.failed
    else if eqb value "interrupted"
    then ok OperationStatus.interrupted
    else err (invalid_audit_event "unknown operation status" value)

unfoldable pub outcome_as_str : AuditOutcome → String
outcome_as_str AuditOutcome.success = "success"
outcome_as_str AuditOutcome.completed_with_errors = "completed_with_errors"
outcome_as_str AuditOutcome.failed = "failed"
outcome_as_str AuditOutcome.observed = "observed"
outcome_as_str AuditOutcome.proposed = "proposed"

unfoldable pub outcome_from_str : String → Result AuditOutcome
outcome_from_str value =
    if eqb value "success"
    then ok AuditOutcome.success
    else if eqb value "completed_with_errors"
    then ok AuditOutcome.completed_with_errors
    else if eqb value "failed"
    then ok AuditOutcome.failed
    else if eqb value "observed"
    then ok AuditOutcome.observed
    else if eqb value "proposed"
    then ok AuditOutcome.proposed
    else err (invalid_audit_event "unknown audit outcome" value)

unfoldable pub actor_kind_as_str : AuditActorKind → String
actor_kind_as_str AuditActorKind.user = "user"
actor_kind_as_str AuditActorKind.local_identity = "local_identity"
actor_kind_as_str AuditActorKind.local_session = "local_session"
actor_kind_as_str AuditActorKind.system = "system"

unfoldable pub actor_kind_from_str : String → Result AuditActorKind
actor_kind_from_str value =
    if eqb value "user"
    then ok AuditActorKind.user
    else if eqb value "local_identity"
    then ok AuditActorKind.local_identity
    else if eqb value "local_session"
    then ok AuditActorKind.local_session
    else if eqb value "system"
    then ok AuditActorKind.system
    else err (invalid_audit_event "unknown actor kind" value)

unfoldable pub channel_as_str : AuditChannel → String
channel_as_str AuditChannel.rest = "rest"
channel_as_str AuditChannel.cosmic = "cosmic"
channel_as_str AuditChannel.cli = "cli"
channel_as_str AuditChannel.internal = "internal"

unfoldable pub channel_from_str : String → Result AuditChannel
channel_from_str value =
    if eqb value "rest"
    then ok AuditChannel.rest
    else if eqb value "cosmic"
    then ok AuditChannel.cosmic
    else if eqb value "cli"
    then ok AuditChannel.cli
    else if eqb value "internal"
    then ok AuditChannel.internal
    else err (invalid_audit_event "unknown audit channel" value)
