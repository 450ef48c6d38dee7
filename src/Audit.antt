-- ===== src/Audit.antt =====
-- core/src/audit: the vocabulary of the activity history, its actors, and the state machine of an
-- operation's status.
use read_flow.Prelude.{ℕ, String, Bool, true, false, Option, none, some, List}

pub data AuditEventType : Type 0 where
  scan_started scan_completed scan_failed scan_file_discovered scan_file_content_changed
        scan_file_missing scan_tags_added scan_metadata_extraction_failed file_deleted
        file_delete_failed file_record_removed_missing document_merged document_content_removed
        document_metadata_changed document_tags_added document_tags_removed document_cover_changed
        document_status_changed maintenance_missing_files_checked maintenance_missing_files_purged
        operation_interrupted :
      AuditEventType

pub data OperationType : Type 0 where
  scan file_delete document_merge document_content_removed metadata_edit tag_edit status_edit
        cover_edit missing_file_maintenance :
      OperationType

pub data OperationStatus : Type 0 where
  started completed failed interrupted : OperationStatus

pub data AuditOutcome : Type 0 where
  success completed_with_errors failed observed proposed : AuditOutcome

pub data AuditActorKind : Type 0 where
  user local_identity local_session system : AuditActorKind

pub data AuditChannel : Type 0 where
  rest cosmic cli internal : AuditChannel

-- A JSON object of the history: its keys with scalar values. `other` is any value that is no object.
pub data Scalar : Type 0 where
  number : ℕ → Scalar
  text : String → Scalar
  flag : Bool → Scalar
  texts : List String → Scalar

pub data Json : Type 0 where
  object : List (String × Scalar) → Json
  other : Scalar → Json

unfoldable pub is_object : Json → Bool
is_object (object fields) = true
is_object (other s) = false

pub record AuditActor : Type 0 where
  pub kind : AuditActorKind
  pub id : Option String

unfoldable pub user_actor : String → AuditActor
user_actor id = record { kind = user; id = some id }

unfoldable pub local_identity_actor : String → AuditActor
local_identity_actor id = record { kind = local_identity; id = some id }

unfoldable pub local_session_actor : AuditActor
local_session_actor = record { kind = local_session; id = none }

unfoldable pub system_actor : AuditActor
system_actor = record { kind = system; id = none }

pub record AuditContext : Type 0 where
  pub operation_id : String
  pub actor : AuditActor
  pub channel : AuditChannel

-- `OperationStatus::is_terminal` and `can_transition_to`.
unfoldable pub is_terminal : OperationStatus → Bool
is_terminal started = false
is_terminal s = true

unfoldable pub can_transition_to : OperationStatus → OperationStatus → Bool
unfolding is_terminal
can_transition_to started next = is_terminal next
can_transition_to s next = false

unfoldable pub is_success : AuditOutcome → Bool
is_success success = true
is_success completed_with_errors = true
is_success observed = true
is_success o = false
