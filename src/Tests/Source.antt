-- ===== src/Tests/Source.antt =====
-- Two files of one content, as the data source hands them out.
use read_flow.Db.Monad.{for_each}
use read_flow.Source.Files.Retagged.{update_file-tags}
use read_flow.Source.Files.{update_file_row, update_found, update_file}
use mathlib.Core.Option
use read_flow.Prelude.{false, any, String, [], ◌∷◌, map, none, some, str_dec, ◌≡◌, refl}
use read_flow.Db.Tables.{Db, FileRow, pos}
use read_flow.Db.Contents.{
  upsert_content, upsert_content_tag, upsert_many_content_tags, delete_content_tags, is_tag,
  join_file, status_of, select_all_files, select_file_by_guid, select_content_tags_by_fingerprint,
}
use read_flow.Source.{ApiFile, api_file, status_from, hand_out, get_files, get_file}
use read_flow.Source.Tags.{handed, get_files-handed}
use read_flow.Tests.Store.{store}

program : Unit {0}
unfolding str_dec Option.bind join_file status_of select_all_files select_file_by_guid
    select_content_tags_by_fingerprint api_file status_from hand_out get_files get_file update_file
    update_found update_file_row delete_content_tags upsert_many_content_tags upsert_content_tag
    upsert_content for_each
program = tt

abbrev copy : String → FileRow
copy guid = record {
  id = 7;
  guid = guid;
  path = guid;
  type_ = "epub";
  size = pos 10;
  fingerprint = "b";
  archive_path = none;
  archive_inner_path = none;
  imported_at = "t0";
}

abbrev copies : Db
copies = record store {
  files = copy "f1" ∷ record (copy "f2") { id = 8 } ∷ [];
  content_tags = record { fingerprint = "b"; tag = "novel" } ∷ [];
}

listed : map (λ (f : ApiFile). f.tags) (get_files "u" copies) ≡ ("novel" ∷ []) ∷ [] ∷ []
unfolding program
listed = refl

alone : Option.map (λ (f : ApiFile). f.tags) (get_file "u" "f2" copies) ≡ some ("novel" ∷ [])
unfolding program
alone = refl

get_files-handed_example : get_files "u" copies ≡ handed copies [] (select_all_files "u" copies)
get_files-handed_example = get_files-handed "u" copies

-- The second copy is sent back with other tags: both lose the old one.
abbrev edited : ApiFile
edited =
    record (api_file
      (record { row = record (copy "f2") { id = 8 }; status = 0; document_guid = some "g2" }) []) {
        tags = "essay" ∷ [];
      }

update_file-tags_example :
    any (is_tag "b" "novel") (update_file "u" edited copies).1.content_tags ≡ false
unfolding program
update_file-tags_example =
    update_file-tags "u" edited copies
      (record { row = record (copy "f2") { id = 8 }; status = 0; document_guid = some "g2" }) "b"
      "novel" refl refl
