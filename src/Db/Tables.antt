-- ===== src/Db/Tables.antt =====
-- The tables of core/migrations as lists of rows in rowid order, with the row types of
-- core/src/db/models.rs. A column that holds an enumeration's text holds the value itself
-- (Db/Audit/RoundTrip); `percentage` is a number of units of 2^-1074, in which every finite
-- nonnegative double is whole.
use read_flow.Prelude.{ℕ, String, Bool, Option, List}
use read_flow.Audit.{
  AuditEventType, OperationType, OperationStatus, AuditOutcome, AuditActor, AuditChannel, Json,
}

-- A 64-bit integer of the database.
pub data ℤ : Type 0 where
  pos : ℕ → ℤ
  negsuc : ℕ → ℤ

pub record Document : Type 0 where
  pub id : ℕ
  pub guid : String

pub record Content : Type 0 where
  pub fingerprint : String
  pub document_id : Option ℕ

pub record ContentTag : Type 0 where
  pub fingerprint : String
  pub tag : String

-- A row of `files`.
pub record FileRow : Type 0 where
  pub id : ℕ
  pub guid : String
  pub path : String
  pub type_ : String
  pub size : ℤ
  pub fingerprint : String
  pub archive_path : Option String
  pub archive_inner_path : Option String
  pub imported_at : String

-- The `File` of `FILE_SELECT`: a row with the two joined columns.
pub record File : Type 0 where
  pub row : FileRow
  pub open row use *
  pub status : ℕ
  pub document_guid : Option String

pub record NewFile : Type 0 where
  pub guid : String
  pub path : String
  pub type_ : String
  pub size : ℤ
  pub fingerprint : String
  pub archive_path : Option String
  pub archive_inner_path : Option String

pub record DocumentUserMetadata : Type 0 where
  pub document_id : ℕ
  pub document_type : Option String
  pub title : Option String
  pub subtitle : Option String
  pub authors : Option String
  pub description : Option String
  pub language : Option String
  pub publisher : Option String
  pub identifier : Option String
  pub date : Option String
  pub subject : Option String
  pub updated_at : String
  pub selected_cover_fingerprint : Option String

-- `ExtractedMetadata` of core/src/scan/metadata.rs.
pub record ExtractedMetadata : Type 0 where
  pub title : Option String
  pub subtitle : Option String
  pub authors : List String
  pub description : Option String
  pub language : Option String
  pub publisher : Option String
  pub identifier : Option String
  pub date : Option String
  pub subject : Option String

pub record ReadingState : Type 0 where
  pub fingerprint : String
  pub status : ℕ
  pub position : String
  pub percentage : ℕ
  pub last_updated : String
  pub status_updated_at : String

-- A row of `reading_state`, whose key is the user and the fingerprint.
pub record ReadingRow : Type 0 where
  pub user_id : String
  pub state : ReadingState

pub record AuditOperationRecord : Type 0 where
  pub id : String
  pub operation_type : OperationType
  pub actor : AuditActor
  pub channel : AuditChannel
  pub status : OperationStatus
  pub dry_run : Bool
  pub started_at : String
  pub completed_at : Option String
  pub error_code : Option String
  pub counts : Json

pub record AuditTargetSnapshot : Type 0 where
  pub target_kind : String
  pub target_id : String
  pub title_snapshot : Option String
  pub path_snapshot : Option String
  pub fingerprint_snapshot : Option String

pub record AuditEventRow : Type 0 where
  pub id : ℕ
  pub operation_id : String
  pub event_type : AuditEventType
  pub schema_version : ℕ
  pub sequence : ℕ
  pub occurred_at : String
  pub outcome : AuditOutcome
  pub parameters : Json

pub record AuditTargetRow : Type 0 where
  pub event_id : ℕ
  pub target : AuditTargetSnapshot

-- The whole store. `next_document`, `next_file` and `next_event` are the AUTOINCREMENT counters;
-- of `covers` only the keys are kept.
pub record Db : Type 0 where
  pub documents : List Document
  pub next_document : ℕ
  pub contents : List Content
  pub content_tags : List ContentTag
  pub files : List FileRow
  pub next_file : ℕ
  pub metadata : List DocumentUserMetadata
  pub reading_state : List ReadingRow
  pub covers : List String
  pub operations : List AuditOperationRecord
  pub events : List AuditEventRow
  pub next_event : ℕ
  pub targets : List AuditTargetRow
