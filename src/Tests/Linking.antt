-- ===== src/Tests/Linking.antt =====
-- The pass after a scan on stores in which files share a stem.
use read_flow.Paths.{parent, file_stem, file_name, components}
use read_flow.Chars.{Chars, codes, rsplit_once, split, same_text}
use read_flow.Db.Documents.{upsert_document}
use read_flow.Db.Metadata.{
  merge_source, get_document_user_metadata, merge_document_metadata_from_extracted, merge_into,
  propagate_cover, merged_row, merge_document_metadata_from_document,
}
use read_flow.Db.Monad.{for_each}
use read_flow.Db.Tables.{pos, Db, FileRow}
use read_flow.Db.Linking.{link_group, key_of, push_row, group_rows, auto_link_documents}
use read_flow.Prelude.{eqb, if◌then◌else◌, ℕ, zero, String, none, some, [], ◌∷◌, ◌≡◌, refl, str_dec}
use read_flow.Tests.Store.{store, json, content}

program : Unit {0}
unfolding str_dec auto_link_documents group_rows push_row key_of link_group for_each same_text split
    rsplit_once components file_name file_stem parent merge_document_metadata_from_document
    upsert_document merge_source get_document_user_metadata merge_document_metadata_from_extracted
    merge_into propagate_cover merged_row
program = tt

abbrev file_at : String → String → FileRow
file_at path fingerprint = record {
  id = 0;
  guid = path;
  path = path;
  type_ = "";
  size = pos 0;
  fingerprint = fingerprint;
  archive_path = none;
  archive_inner_path = none;
  imported_at = "t0";
}

-- Two documents whose files share a stem, and a file of its own.
abbrev shelf : Db
shelf = record store {
  contents = content "a" (some 1) ∷ content "b" (some 2) ∷ content "c" none ∷ [];
  files = file_at "/x/emma.pdf" "a" ∷ file_at "/x/emma.epub" "b" ∷ file_at "/y/c.pdf" "c" ∷ [];
}

abbrev linked : Db → Db
linked db = (auto_link_documents json (λ _. "g") "t1" (λ groups. groups) db).1

test_linked :
    (linked shelf).contents ≡ content "a" (some 1) ∷ content "b" (some 1) ∷ content "c" none ∷ []
unfolding program
test_linked = refl

-- A content in the groups of two stems: the rows are read before the first group is linked, so the
-- second group takes it away, and the two files of the first stem have different documents.
abbrev copied : Db
copied = record store {
  documents = [];
  next_document = 0;
  contents = content "a" none ∷ content "b" none ∷ content "c" none ∷ [];
  files =
      file_at "/x/one.pdf" "a"
      ∷ file_at "/x/one.epub" "b"
      ∷ file_at "/y/two.pdf" "a"
      ∷ file_at "/y/two.epub" "c"
      ∷ [];
  metadata = [];
}

abbrev fresh : ℕ → String
fresh zero = "g0"
fresh _ = "g1"

split_apart :
    (auto_link_documents json fresh "t1" (λ groups. groups) copied).1.contents
    ≡ content "a" (some 1) ∷ content "b" (some 0) ∷ content "c" (some 1) ∷ []
unfolding program
split_apart = refl

abbrev place : String → Chars × Chars
place path = if eqb path "/y/c.pdf" then (codes "/y", codes "c") else (codes "/x", codes "emma")
