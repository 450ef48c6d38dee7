-- ===== src/Tests/Removal.antt =====
-- The removal of a content, at the small store with a file on disk.
use mathlib.Core.Option
use read_flow.Prelude.{true, false, none, some, [], ◌∷◌, any, eqb, str_dec, ◌≡◌, refl}
use read_flow.Db.Result.{ok}
use read_flow.Db.Tables.{Db, FileRow, pos}
use read_flow.Db.Contents.{has_content, delete_file_record}
use read_flow.Db.Documents.{document_id_of, document_title_snapshot}
use read_flow.Db.Removal.{
  RemoveFile, delete_content_from_document, find_block, remove_block, remove_files, delete_content,
  report_removal,
}
use read_flow.Db.Removal.Outcome.{delete_content_from_document-outcome}
use read_flow.Tests.Store.{times, store}

program : Unit {0}
unfolding str_dec Option.bind delete_content_from_document find_block remove_block remove_files
    delete_content report_removal delete_file_record document_title_snapshot
program = tt

abbrev on_disk : Db
on_disk = record store {
  files =
      record {
        id = 7;
        guid = "f";
        path = "/books/b.epub";
        type_ = "epub";
        size = pos 10;
        fingerprint = "b";
        archive_path = none;
        archive_inner_path = none;
        imported_at = "t0";
      }
      ∷ [];
  next_file = 8;
}

delete_content_from_document-outcome_example :
    let out =
      delete_content_from_document (λ _. RemoveFile.not_found) none times "g2" "b" on_disk in
    (out.0 ≡ ok (some (record { deleted_paths = "/books/b.epub" ∷ []; document_deleted = true })))
    × ((has_content "b" out.1.contents ≡ false)
        × ((any (λ (f : FileRow). eqb f.fingerprint "b") out.1.files ≡ false)
            × (document_id_of "g2" out.1 ≡ none)))
unfolding program
delete_content_from_document-outcome_example =
    delete_content_from_document-outcome (λ _. RemoveFile.not_found) times "g2" "b" 2 on_disk
      (((refl, refl), tt), (tt, tt)) refl refl

-- A file that could not be removed is not reported, but its row goes.
kept_on_disk :
    (delete_content_from_document (λ _. RemoveFile.refused) none times "g2" "b" on_disk).0
    ≡ ok (some (record { deleted_paths = []; document_deleted = true }))
unfolding program
kept_on_disk = refl
