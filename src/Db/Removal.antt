-- ===== src/Db/Removal.antt =====
-- core/src/db/dao/documents.rs: `delete_content_from_document`. The outcome of `remove_file` at a
-- path is an argument.
pub mod Unfinished
pub mod Rows
pub mod Outcome
use read_flow.Prelude.{
  ℕ, ◌==◌, String, Bool, true, false, not, ◌&&◌, Option, none, some, List, [], ◌∷◌, ◌++◌, length,
  any, retain, find, update, eqb, if◌then◌else◌,
}
use mathlib.Core.Option
use read_flow.Audit.{
  OperationType, OperationStatus, completed, AuditContext, object, number, text, flag, texts,
}
use read_flow.Audit.{AuditEventType}
use read_flow.Db.Result.{ok, err, foreign_key_violation}
use read_flow.Db.Tables.{Db, Content, FileRow, DocumentUserMetadata}
use read_flow.Db.Monad.{M, ◌>>=◌, ◌>>◌, pure, query, execute, Ending, commit, rollback, transaction}
use read_flow.Db.Audit.{document_target}
use read_flow.Db.Contents.{delete_file_record}
use read_flow.Db.Documents.{
  document_id_of, linked_to, delete_document, document_title_snapshot, Times, begin_audit,
  end_audit, record_event,
}

-- `tokio::fs::remove_file`: done, `NotFound`, or another error.
pub data RemoveFile : Type 0 where
  removed not_found refused : RemoveFile

pub record DeleteContentResult : Type 0 where
  pub deleted_paths : List String
  pub document_deleted : Bool

abbrev pub clear_cover : DocumentUserMetadata → DocumentUserMetadata
clear_cover m = record m { selected_cover_fingerprint = none }

abbrev pub shows_cover : String → DocumentUserMetadata → Bool
shows_cover fingerprint m = elim m.selected_cover_fingerprint [
  | none ↦ false
  | some fp ↦ eqb fp fingerprint
]

-- `DELETE FROM contents`: refused while a file refers to the row; tags, reading states and covers
-- go with it, and the covers that were selected from it are cleared.
unfoldable pub delete_content : String → M (Unit {0})
delete_content fingerprint db =
    if any (λ (f : FileRow). eqb f.fingerprint fingerprint) db.files
    then (err foreign_key_violation, db)
    else (
      ok tt,
      record db {
        contents = retain (λ c. not (eqb c.fingerprint fingerprint)) db.contents;
        content_tags = retain (λ t. not (eqb t.fingerprint fingerprint)) db.content_tags;
        reading_state = retain (λ r. not (eqb r.state.fingerprint fingerprint)) db.reading_state;
        covers = retain (λ fp. not (eqb fp fingerprint)) db.covers;
        metadata = update (shows_cover fingerprint) clear_cover db.metadata;
      },
    )

-- The paths that the loop over the files reports: an archive member counts, a file on disk
-- unless its removal was refused.
abbrev pub counts_as_deleted : (String → RemoveFile) → FileRow → Bool
counts_as_deleted remove_file f = elim f.archive_path [
  | some _ ↦ true
  | none ↦ elim (remove_file f.path) [ refused ↦ false | _ ↦ true ]
]

-- The fingerprint is part of the document.
abbrev pub belongs_to : String → ℕ → Db → Bool
belongs_to fingerprint document_id db =
    elim (find (λ (c : Content). eqb c.fingerprint fingerprint) db.contents) [
      | none ↦ false
      | some c ↦ linked_to document_id c
    ]

module _ (remove_file : String → RemoveFile) where
  unfoldable pub remove_files : List FileRow → List String → M (List String)
  remove_files [] deleted = pure deleted
  remove_files (f ∷ fs) deleted = do
    delete_file_record f.id
    remove_files fs (if counts_as_deleted remove_file f then deleted ++ f.path ∷ [] else deleted)

  -- The rest of the transaction, for a fingerprint of the document.
  unfoldable pub remove_block :
      Option AuditContext → Times → String → String → ℕ → M (Ending (Option DeleteContentResult))
  remove_block context times document_guid fingerprint document_id = do
    title ← query (document_title_snapshot document_id)
    files ← query (λ db. retain (λ (f : FileRow). eqb f.fingerprint fingerprint) db.files)
    deleted ← remove_files files []
    delete_content fingerprint
    execute (λ db. record db {
      metadata =
          update (λ m. m.document_id == document_id && shows_cover fingerprint m) clear_cover
            db.metadata;
    })
    remaining ← query (λ db. length (retain (linked_to document_id) db.contents))
    let document_deleted = remaining == 0
    execute (if document_deleted then delete_document document_id else (λ db. db))
    record_event context AuditEventType.document_content_removed times.occurred_at
        (object (
          ("fingerprint", text fingerprint)
          ∷ ("deleted_file_count", number (length deleted))
          ∷ ("deleted_file_paths", texts deleted)
          ∷ ("document_deleted", flag document_deleted)
          ∷ []))
        (document_target document_guid (Option.get_or title "") ∷ [])
    pure (commit (some (record { deleted_paths = deleted; document_deleted = document_deleted })))

  abandon : Option AuditContext → Times → String → M (Ending (Option DeleteContentResult))
  abandon context times code = do
    end_audit context OperationStatus.failed times.completed_at (some code) (object [])
    pure (rollback none)

  unfoldable pub find_block :
      Option AuditContext
      → Times
      → String
      → String
      → Option ℕ
      → M (Ending (Option DeleteContentResult))
  unfolding abandon
  find_block context times document_guid fingerprint none =
      abandon context times "document_not_found"
  find_block context times document_guid fingerprint (some document_id) = do
    belongs ← query (belongs_to fingerprint document_id)
    if belongs
        then remove_block context times document_guid fingerprint document_id
        else abandon context times "fingerprint_not_in_document"

  unfoldable pub report_removal :
      Option AuditContext → Times → Option DeleteContentResult → M (Option DeleteContentResult)
  report_removal context times none = pure none
  report_removal context times (some r) = do
    end_audit context completed times.completed_at none (
        object (
          ("deleted", number (length r.deleted_paths))
          ∷ ("document_deleted", flag r.document_deleted)
          ∷ []))
    pure (some r)

  unfoldable pub delete_content_from_document :
      Option AuditContext → Times → String → String → M (Option DeleteContentResult)
  delete_content_from_document context times document_guid fingerprint = do
    begin_audit context OperationType.document_content_removed times.started_at
    result ← transaction (do
      document_id ← query (document_id_of document_guid)
      find_block context times document_guid fingerprint document_id)
    report_removal context times result
