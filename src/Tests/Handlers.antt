-- ===== src/Tests/Handlers.antt =====
-- Requests for files with private tags, on a store of two files.
use read_flow.Server.Handlers.Hidden.{handle-private}
use read_flow.Tests.Store.{store, context, times}
use read_flow.Source.Files.{get_file_tags, update_file_row, update_found, update_file}
use read_flow.Db.Monad.{for_each}
use read_flow.Db.Contents.{
  upsert_content, upsert_content_tag, upsert_many_content_tags, delete_content_tags,
  select_content_tags_by_fingerprint, select_file_by_guid, status_of, join_file,
}
use read_flow.Server.Access.{can_see, visibility, private_mode, Visibility}
use read_flow.Source.{api_file, ApiFile}
use read_flow.Server.Handlers.{FileRequest, delete_file_tags, visible_file, handle}
use read_flow.Db.Tables.{pos, FileRow, Db}
use mathlib.Core.Option
use read_flow.Prelude.{◌≡◌, str_dec, String, none, some, [], ◌∷◌, refl, false}

program : Unit {0}
unfolding str_dec Option.bind join_file status_of select_file_by_guid
    select_content_tags_by_fingerprint private_mode visibility can_see visible_file handle
    delete_content_tags upsert_many_content_tags upsert_content_tag for_each update_file
    update_found update_file_row get_file_tags upsert_content
program = tt

abbrev book : String → String → FileRow
book guid fingerprint = record {
  id = 7;
  guid = guid;
  path = guid;
  type_ = "epub";
  size = pos 10;
  fingerprint = fingerprint;
  archive_path = none;
  archive_inner_path = none;
  imported_at = "t0";
}

-- The file `f` has the content `b`, which is private, and `g` the content `a`.
abbrev library : Db
library = record store {
  files = book "f" "b" ∷ record (book "g" "a") { id = 8 } ∷ [];
  content_tags = record { fingerprint = "b"; tag = "secret" } ∷ [];
}

abbrev without_f : Db
without_f = record library { files = record (book "g" "a") { id = 8 } ∷ [] }

abbrev guest : Visibility
guest = record { user_id = "bob"; hidden_tags = "secret" ∷ [] }

handle-private_example :
    ((handle guest "local" context times (delete_file_tags "f" ("secret" ∷ [])) library).0
      ≡ (handle guest "local" context times (delete_file_tags "f" ("secret" ∷ [])) without_f).0)
    × ((handle guest "local" context times (delete_file_tags "f" ("secret" ∷ [])) library).1
        ≡ library)
handle-private_example =
    handle-private (record { user_id = "bob"; roles = [] }) none ("secret" ∷ []) guest "local"
      context times (delete_file_tags "f" ("secret" ∷ [])) library without_f
      (record { row = book "f" "b"; status = 0; document_guid = some "g2" })
      (unfold program in refl) (unfold program in refl) (unfold program in refl)
      (unfold program in refl) (unfold program in refl)

-- The guest's own view of `g`, sent back with the private content's fingerprint.
abbrev forged : ApiFile
forged =
    record (api_file
      (record { row = record (book "g" "b") { id = 8 }; status = 0; document_guid = none }) []) {
        has_cover = false;
      }

-- A guest who names the private content in an update of a visible file takes its tags away.
test_forged :
    (handle guest "local" context times (FileRequest.update_file forged) library).1.content_tags
    ≡ []
unfolding program api_file
test_forged = refl
