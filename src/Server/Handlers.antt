-- ===== src/Server/Handlers.antt =====
-- The handlers of core/src/server/mod.rs for the files: each looks the file up as `visible_file`
-- does, and goes on to the data source of the request's user.
pub mod Hidden
use read_flow.Db.Contents.{select_file_by_guid, select_content_tags_by_fingerprint}
use read_flow.Source.Files.{delete_file_tags_with_audit, add_file_tags_with_audit, tag_names}
use read_flow.Server.Users.{dao, accepted, refused, Reply, HttpError}
use read_flow.Db.Documents.{Times}
use read_flow.Server.Users.{Reply}
use read_flow.Audit.{AuditContext}
use read_flow.Db.Tables.{ContentTag, File, Db}
use read_flow.Source.{tagged, ApiFile}
use read_flow.Server.Access.{can_see, Visibility}
use read_flow.Source.Files as Files
use read_flow.Db.Monad.{pure, query, ◌>>=◌, ◌>>◌}
use read_flow.Prelude.{
  if◌then◌else◌, false, true, Bool, Option, List, String, ℕ, none, some, [], ◌∷◌,
}
use read_flow.Db.Result.{Result, ok, err}

abbrev pub seen_file : Visibility → Db → Option File → Option (File × List ContentTag)
seen_file vis db none = none
seen_file vis db (some file) =
    let tags = select_content_tags_by_fingerprint file.fingerprint db in
    if can_see vis (tag_names tags) then some (file, tags) else none

unfoldable pub visible_file : Visibility → String → Db → Option (File × List ContentTag)
visible_file vis guid db = seen_file vis db (select_file_by_guid vis.user_id guid db)

unfoldable pub fingerprint_visible : Visibility → String → Db → Bool
fingerprint_visible vis fingerprint db =
    can_see vis (tag_names (select_content_tags_by_fingerprint fingerprint db))

-- Whether one of the guids is that of a visible file.
unfoldable pub some_visible : Visibility → List String → Db → Bool
some_visible vis [] db = false
some_visible vis (guid ∷ guids) db = elim (visible_file vis guid db) [
  | some _ ↦ true
  | none ↦ some_visible vis guids db
]

-- `document_visible`, of a document's `file_guids`.
abbrev pub document_visible : Visibility → List String → Db → Bool
document_visible vis [] db = true
document_visible vis (guid ∷ guids) db = some_visible vis (guid ∷ guids) db

-- What is sent for a file: `GET /files/{guid}` and `…/tags`, the edits of its tags, and
-- `PUT /files` with a whole file.
pub data FileRequest : Type 0 where
  get_file : String → FileRequest
  get_file_tags : String → FileRequest
  post_file_tags : String → List String → FileRequest
  delete_file_tags : String → List String → FileRequest
  update_file : ApiFile → FileRequest

abbrev pub guid_of : FileRequest → String
guid_of (get_file guid) = guid
guid_of (get_file_tags guid) = guid
guid_of (post_file_tags guid tags) = guid
guid_of (delete_file_tags guid tags) = guid
guid_of (update_file file) = file.guid

pub data FileReply : Type 0 where
  file : ApiFile → FileReply
  tags : List String → FileReply
  not_found : FileReply

abbrev pub answered : {A : Type 0} → (A → FileReply) → Result A × Db → Reply FileReply × Db
answered f (ok a, db) = (accepted (f a), db)
answered f (err e, db) = (refused (dao e), db)

-- `client_user` is the user of the module's data source, `times` are the clock's texts, and `context`
-- is that of `audit_context_for`.
module _ (vis : Visibility) (client_user : String) (context : AuditContext) (times : Times) where
  abbrev pub for_missing : FileRequest → Reply FileReply
  for_missing (get_file guid) = accepted not_found
  for_missing (get_file_tags guid) = accepted (tags [])
  for_missing (post_file_tags guid ts) = accepted (tags [])
  for_missing (delete_file_tags guid ts) = accepted (tags [])
  for_missing (update_file f) = refused HttpError.not_found

  abbrev pub for_found : FileRequest → File → List ContentTag → Db → Reply FileReply × Db
  for_found (get_file guid) f ts db = (accepted (file (tagged f ts db.covers)), db)
  for_found (get_file_tags guid) f ts db = (accepted (tags (tag_names ts)), db)
  for_found (post_file_tags guid added) f ts db =
      answered tags (add_file_tags_with_audit client_user context times f.guid added db)
  for_found (delete_file_tags guid deleted) f ts db = answered tags (
      (do
        delete_file_tags_with_audit client_user context times f.guid deleted
        updated ← query (select_content_tags_by_fingerprint f.fingerprint)
        pure (tag_names updated))
        db)
  for_found (update_file body) f ts db =
      answered (λ u. file body) (Files.update_file client_user body db)

  abbrev pub respond : FileRequest → Option (File × List ContentTag) → Db → Reply FileReply × Db
  respond request none db = (for_missing request, db)
  respond request (some (f, ts)) db = for_found request f ts db

  unfoldable pub handle : FileRequest → Db → Reply FileReply × Db
  handle request db = respond request (visible_file vis (guid_of request) db) db
