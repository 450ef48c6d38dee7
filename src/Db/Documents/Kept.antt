-- ===== src/Db/Documents/Kept.antt =====
-- The statements of documents.rs that leave documents and contents alone: the activity history and
-- the metadata.

use read_flow.Prelude.{
  ℕ, String, Bool, false, Option, none, some, List, Bool-cases, inl, inr, ◌≡◌, refl, ◌∙◌, arith,
}
use read_flow.Audit.{
  AuditOutcome, AuditContext, AuditEventType, OperationType, OperationStatus, Json, is_object,
}
use read_flow.Db.Tables.{Db, AuditTargetSnapshot, DocumentUserMetadata, ExtractedMetadata}
use read_flow.Db.Monad.{continue-keeps, for_each, for_each-keeps}
use read_flow.Db.Audit.{
  create_audit_operation, append_audit_event, insert_event, insert_target,
  finish_audit_operation_on_connection,
}
use read_flow.Db.Metadata.{
  AuthorsJson, get_document_user_metadata, merge_into, propagate_cover, merge_source,
  merge_document_metadata_from_document, merge_document_metadata_from_extracted, extracted_from,
}
use read_flow.Db.Documents.{begin_audit, end_audit, record_event}
use read_flow.Db.Documents.Owner.{Shelf}

abbrev pub shelf : Db → Shelf
shelf db = (db.documents, db.contents)

insert_event-shelf :
    (op : String) (event_type : AuditEventType) (outcome : AuditOutcome) (at : String)
    (parameters : Json) (db : Db)
    → shelf (insert_event op event_type outcome at parameters db).1 ≡ shelf db
unfolding insert_event
insert_event-shelf op event_type outcome at parameters db = ground arith

insert_target-shelf :
    (id : ℕ) (t : AuditTargetSnapshot) (db : Db) → shelf (insert_target id t db).1 ≡ shelf db
unfolding insert_target
insert_target-shelf id t db = ground arith

append-shelf :
    (op : String) (event_type : AuditEventType) (outcome : AuditOutcome) (at : String)
    (parameters : Json) (targets : List AuditTargetSnapshot) (db : Db)
    → shelf (append_audit_event op event_type outcome at parameters targets db).1 ≡ shelf db
unfolding append_audit_event
append-shelf op event_type outcome at parameters targets db =
    elim (Bool-cases (is_object parameters)) [
      | inl valid ↦
          rw (valid, append_audit_event)
            (continue-keeps shelf (insert_event op event_type outcome at parameters db) _ (λ id d.
                continue-keeps shelf (for_each targets (insert_target id) d) _ (λ _ _. refl)
                ∙ for_each-keeps shelf targets (insert_target id) d (insert_target-shelf id))
              ∙ insert_event-shelf op event_type outcome at parameters db)
      | inr invalid ↦ rw (invalid, append_audit_event) refl
    ]

create-shelf :
    (c : AuditContext) (operation_type : OperationType) (dry_run : Bool) (at : String) (db : Db)
    → shelf (create_audit_operation c operation_type dry_run at db).1 ≡ shelf db
unfolding create_audit_operation
create-shelf c operation_type dry_run at db = ground arith

finish-shelf :
    (op : String) (status : OperationStatus) (at : String) (code : Option String) (counts : Json)
    (db : Db)
    → shelf (finish_audit_operation_on_connection op status at code counts db).1 ≡ shelf db
unfolding finish_audit_operation_on_connection
finish-shelf op status at code counts db = ground arith

pub begin_audit-shelf :
    (context : Option AuditContext) (operation_type : OperationType) (at : String) (db : Db)
    → shelf (begin_audit context operation_type at db).1 ≡ shelf db
begin_audit-shelf none operation_type at db = refl
begin_audit-shelf (some c) operation_type at db = create-shelf c operation_type false at db

pub end_audit-shelf :
    (context : Option AuditContext) (status : OperationStatus) (at : String) (code : Option String)
    (counts : Json) (db : Db)
    → shelf (end_audit context status at code counts db).1 ≡ shelf db
end_audit-shelf none status at code counts db = refl
end_audit-shelf (some c) status at code counts db =
    finish-shelf c.operation_id status at code counts db

pub record_event-shelf :
    (context : Option AuditContext) (event_type : AuditEventType) (at : String) (parameters : Json)
    (targets : List AuditTargetSnapshot) (db : Db)
    → shelf (record_event context event_type at parameters targets db).1 ≡ shelf db
record_event-shelf none event_type at parameters targets db = refl
record_event-shelf (some c) event_type at parameters targets db =
    continue-keeps shelf
      (append_audit_event c.operation_id event_type AuditOutcome.success at parameters targets db) _
      (λ _ _. refl)
    ∙ append-shelf c.operation_id event_type AuditOutcome.success at parameters targets db

module _ (json : AuthorsJson) where
  merge_into-shelf :
      (now : String) (id : ℕ) (meta : ExtractedMetadata) (row : Option DocumentUserMetadata)
      (db : Db)
      → shelf (merge_into json now id meta row db).1 ≡ shelf db
  unfolding merge_into
  merge_into-shelf now id meta none db = ground arith
  merge_into-shelf now id meta (some existing) db = refl

  propagate_cover-shelf :
      (id : ℕ) (cover : Option String) (db : Db)
      → shelf (propagate_cover json id cover db).1 ≡ shelf db
  unfolding propagate_cover
  propagate_cover-shelf id none db = refl
  propagate_cover-shelf id (some fp) db = ground arith

  merge_source-shelf :
      (now : String) (id : ℕ) (src : Option DocumentUserMetadata) (db : Db)
      → shelf (merge_source json now id src db).1 ≡ shelf db
  unfolding merge_source merge_document_metadata_from_extracted
  merge_source-shelf now id none db = refl
  merge_source-shelf now id (some src) db =
      continue-keeps shelf
        (merge_document_metadata_from_extracted json now id (extracted_from json src) db) _
        (λ _ d. propagate_cover-shelf id src.selected_cover_fingerprint d)
      ∙ merge_into-shelf now id (extracted_from json src) (get_document_user_metadata id db) db

  pub merge_document-shelf :
      (now : String) (id source_id : ℕ) (db : Db)
      → shelf (merge_document_metadata_from_document json now id source_id db).1 ≡ shelf db
  unfolding merge_document_metadata_from_document
  merge_document-shelf now id source_id db =
      merge_source-shelf now id (get_document_user_metadata source_id db) db
