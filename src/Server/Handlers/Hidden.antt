-- ===== src/Server/Handlers/Hidden.antt =====
-- A hidden file is like a missing one.
use read_flow.Server.Authn.{ok}
use read_flow.Server.Access.Private.{visibility-private}
use read_flow.Source.Files.{tag_names}
use read_flow.Db.Contents.{select_content_tags_by_fingerprint, select_file_by_guid}
use read_flow.Db.Tables.{File, Db}
use read_flow.Server.Handlers.{
  FileReply, for_missing, ok, guid_of, visible_file, handle, FileRequest,
}
use read_flow.Db.Documents.{Times}
use read_flow.Chars.{Chars}
use read_flow.Audit.{AuditContext}
use read_flow.Server.Access.{private_mode, can_see, visible, visibility, Visibility}
use read_flow.Prelude.{
  sym, ◌∙◌, ap, inr, arith, inl, Bool-cases, eqb, any, ◌&&◌, ◌≡◌, List, Option, String, none, some,
  refl, true, false,
}
use read_flow.Server.Users.{has_role, AuthorizedUser, Reply}

module _ (vis : Visibility) (client_user : String) (context : AuditContext) (times : Times) where
  hidden_as_missing :
      (request : FileRequest) (db : Db) (f : File)
      → select_file_by_guid vis.user_id (guid_of request) db ≡ some f
      → can_see vis (tag_names (select_content_tags_by_fingerprint f.fingerprint db)) ≡ false
      → handle vis client_user context times request db
        ≡ (for_missing vis client_user context times request, db)
  unfolding handle visible_file
  hidden_as_missing request db f found hidden = rw (found, hidden) refl

  missing_file :
      (request : FileRequest) (db : Db)
      → select_file_by_guid vis.user_id (guid_of request) db ≡ none
      → handle vis client_user context times request db
        ≡ (for_missing vis client_user context times request, db)
  unfolding handle visible_file
  missing_file request db found = rw found refl

-- Unless it comes from an owner and asks for private mode, a request for a file with a private tag,
-- whether it reads the file or its tags or edits them, is answered as over any store without the
-- file, and leaves the store as it is.
pub handle-private :
    (user : AuthorizedUser) (header : Option Chars) (private_tags : List String) (vis : Visibility)
    (client_user : String) (context : AuditContext) (times : Times) (request : FileRequest)
    (db without : Db) (f : File)
    → visibility (ok user) header private_tags ≡ visible vis
    → (private_mode header && has_role "owner" user.roles) ≡ false
    → select_file_by_guid vis.user_id (guid_of request) db ≡ some f
    → any
        (λ tag. any (λ h. eqb h tag) private_tags)
        (tag_names (select_content_tags_by_fingerprint f.fingerprint db))
      ≡ true
    → select_file_by_guid vis.user_id (guid_of request) without ≡ none
    → ((handle vis client_user context times request db).0
        ≡ (handle vis client_user context times request without).0)
      × ((handle vis client_user context times request db).1 ≡ db)
handle-private user header private_tags vis client_user context times request db without f extracted
      no_owner found is_private missing =
    let tags : List String = tag_names (select_content_tags_by_fingerprint f.fingerprint db) in
    let hidden : can_see vis tags ≡ false = elim (Bool-cases (can_see vis tags)) [
      | inl seen ↦
          let (asked, owner, same) =
            visibility-private user header private_tags tags vis is_private extracted seen in
          ground (arith, asked, owner, no_owner)
      | inr unseen ↦ unseen
    ] in
    let as_missing = hidden_as_missing vis client_user context times request db f found hidden in
    (
      ap (λ (r : Reply FileReply × Db). r.0) as_missing
          ∙ sym (
              ap (λ (r : Reply FileReply × Db). r.0)
                (missing_file vis client_user context times request without missing)),
      ap (λ (r : Reply FileReply × Db). r.1) as_missing,
    )
