-- ===== src/Source/Files.antt =====
-- `SqliteDataSource` of core/src/db/datasource.rs: the update of a file and the edits of its tags.
pub mod TagRows
pub mod Steps
pub mod Retagged
use read_flow.Db.Result.{foreign_key_violation, unique_violation, ok, err}
use read_flow.Db.Audit.{
  append_audit_event, create_audit_operation, finish_audit_operation, file_target,
}
use read_flow.Db.Contents.{
  has_content, upsert_content, delete_content_tags, upsert_many_content_tags,
  select_content_tags_by_fingerprint, select_file_by_guid,
}
use read_flow.Db.Documents.{Times}
use read_flow.Db.Monad.{query, attempt, ◌>>=◌, ◌>>◌, commit, rollback, transaction, pure, Ending, M}
use read_flow.Db.Tables.{FileRow, ContentTag, AuditTargetSnapshot, Db, File}
use read_flow.Source.{ApiFile}
use read_flow.Audit.{
  texts, number, AuditOutcome, object, completed, document_tags_added, tag_edit,
  document_tags_removed, AuditContext,
}
use read_flow.Prelude.{
  length, true, update, ◌&&◌, ◌==◌, false, eqb, any, retain, not, map, if◌then◌else◌, Bool, Option,
  List, String, ℕ, none, some, [], ◌∷◌,
}

-- `UPDATE files SET path, type, size, fingerprint WHERE id`, core/src/db/dao/files.rs: the path is
-- unique, and the fingerprint refers to a content row.
unfoldable pub update_file_row : ℕ → ApiFile → M (Unit {0})
update_file_row id file db =
    if not (any (λ (f : FileRow). f.id == id) db.files)
    then (ok tt, db)
    else if any (λ (f : FileRow). not (f.id == id) && eqb f.path file.path) db.files
    then (err unique_violation, db)
    else if has_content file.fingerprint db.contents
    then (
      ok tt,
      record db {
        files =
            update (λ (f : FileRow). f.id == id)
              (λ (f : FileRow). record f {
                path = file.path;
                type_ = file.type_;
                size = file.size;
                fingerprint = file.fingerprint;
              })
              db.files;
      },
    )
    else (err foreign_key_violation, db)

abbrev pub has_tag : String → List ContentTag → Bool
has_tag tag = any (λ (t : ContentTag). eqb t.tag tag)

abbrev pub tags_to_delete : ApiFile → List ContentTag → List String
tags_to_delete file existing =
    map (λ (t : ContentTag). t.tag)
      (retain (λ (t : ContentTag). not (any (λ tag. eqb tag t.tag) file.tags)) existing)

abbrev pub tags_to_add : ApiFile → List ContentTag → List ContentTag
tags_to_add file existing =
    map (λ tag. record { fingerprint = file.fingerprint; tag = tag })
      (retain (λ tag. not (has_tag tag existing)) file.tags)

unfoldable pub update_found : ApiFile → Option File → M (Ending (Unit {0}))
update_found file none = pure (rollback tt)
update_found file (some existing) = do
  if eqb existing.fingerprint file.fingerprint then pure tt else upsert_content file.fingerprint
  update_file_row existing.id file
  tags ← query (select_content_tags_by_fingerprint file.fingerprint)
  delete_content_tags file.fingerprint (tags_to_delete file tags)
  upsert_many_content_tags (tags_to_add file tags)
  pure (commit tt)

unfoldable pub update_file : String → ApiFile → M (Unit {0})
update_file user_id file =
    transaction
      (do existing ← query (select_file_by_guid user_id file.guid); update_found file existing)

abbrev pub tag_names : List ContentTag → List String
tag_names = map (λ (t : ContentTag). t.tag)

abbrev pub tags_of : Db → Option File → List String
tags_of db none = []
tags_of db (some file) = tag_names (select_content_tags_by_fingerprint file.fingerprint db)

unfoldable pub get_file_tags : String → String → Db → List String
get_file_tags user_id guid db = tags_of db (select_file_by_guid user_id guid db)

abbrev pub file_targets : File → List AuditTargetSnapshot
file_targets file = file_target file.guid file.path file.path ∷ []

-- The transaction of `add_file_tags_with_audit`; an unknown file commits with nothing done.
unfoldable pub add_tags_block :
    AuditContext → Times → List String → Option File → M (Ending (Option (List String)))
add_tags_block context times tags none = pure (commit none)
add_tags_block context times tags (some file) = do
  upsert_many_content_tags (map (λ tag. record { fingerprint = file.fingerprint; tag = tag }) tags)
  attempt (
      append_audit_event context.operation_id document_tags_added AuditOutcome.success
        times.occurred_at (object (("tags", texts tags) ∷ [])) (file_targets file))
  result ← query (select_content_tags_by_fingerprint file.fingerprint)
  pure (commit (some (tag_names result)))

-- An unknown file returns here, before the operation is finished.
unfoldable pub report_added :
    AuditContext → Times → List String → Option (List String) → M (List String)
report_added context times tags none = pure []
report_added context times tags (some result) = do
  attempt (
      finish_audit_operation context.operation_id completed times.completed_at none
        (object (("tags_added", number (length tags)) ∷ [])))
  pure result

unfoldable pub add_file_tags_with_audit :
    String → AuditContext → Times → String → List String → M (List String)
add_file_tags_with_audit user_id context times guid tags = do
  attempt (create_audit_operation context tag_edit false times.started_at)
  result ←
      transaction
        (do file ← query (select_file_by_guid user_id guid); add_tags_block context times tags file)
  report_added context times tags result

unfoldable pub delete_tags_block :
    AuditContext → Times → List String → Option File → M (Ending Bool)
delete_tags_block context times tags none = pure (commit false)
delete_tags_block context times tags (some file) = do
  delete_content_tags file.fingerprint tags
  attempt (
      append_audit_event context.operation_id document_tags_removed AuditOutcome.success
        times.occurred_at (object (("tags", texts tags) ∷ [])) (file_targets file))
  pure (commit true)

unfoldable pub delete_file_tags_with_audit :
    String → AuditContext → Times → String → List String → M (Unit {0})
delete_file_tags_with_audit user_id context times guid tags = do
  attempt (create_audit_operation context tag_edit false times.started_at)
  found ← transaction (do
    file ← query (select_file_by_guid user_id guid)
    delete_tags_block context times tags file)
  if found
      then attempt (
          finish_audit_operation context.operation_id completed times.completed_at none
            (object (("tags_removed", number (length tags)) ∷ [])))
      else pure tt
