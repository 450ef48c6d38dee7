-- ===== src/Db/Contents.antt =====
-- core/src/db/dao/tags.rs and files.rs: contents, their tags and the files that hold them, with the
-- scan writer. `now` is the text of `strftime(…, 'now')`, and `guid` a fresh UUID.
pub mod Filed
pub mod Rescan
use read_flow.Prelude.{
  update, ℕ, suc, ◌-◌, ◌%◌, ◌^◌, ◌==◌, ltb, String, Bool, true, false, not, ◌&&◌, ◌||◌, Option,
  none, some, List, [], ◌∷◌, ◌++◌, any, retain, find, eqb, if◌then◌else◌,
}
use mathlib.Core.Option
use read_flow.Db.Result.{row_not_found, ok, err, unique_violation, foreign_key_violation}
use read_flow.Db.Tables.{
  ℤ, pos, negsuc, Db, Document, Content, ContentTag, FileRow, File, NewFile, ReadingRow,
}
use read_flow.Db.Monad.{fail, pure, ◌>>=◌, M, ◌>>◌, query, execute, for_each}

abbrev pub has_content : String → List Content → Bool
has_content fingerprint = any (λ (c : Content). eqb c.fingerprint fingerprint)

unfoldable pub upsert_content : String → M (Unit {0})
upsert_content fingerprint db = if has_content fingerprint db.contents then (ok tt, db) else (
  ok tt,
  record db {
    contents = db.contents ++ record { fingerprint = fingerprint; document_id = none } ∷ [];
  },
)

abbrev pub is_tag : String → String → ContentTag → Bool
is_tag fingerprint tag t = eqb t.fingerprint fingerprint && eqb t.tag tag

-- `OR IGNORE` ignores a duplicate, not a missing content row.
unfoldable pub upsert_content_tag : ContentTag → M (Unit {0})
upsert_content_tag t db =
    if any (is_tag t.fingerprint t.tag) db.content_tags
    then (ok tt, db)
    else if has_content t.fingerprint db.contents
    then (ok tt, record db { content_tags = db.content_tags ++ t ∷ [] })
    else (err foreign_key_violation, db)

unfoldable pub upsert_many_content_tags : List ContentTag → M (Unit {0})
upsert_many_content_tags tags = for_each tags upsert_content_tag

unfoldable pub delete_content_tags : String → List String → M (Unit {0})
delete_content_tags fingerprint tags = for_each tags λ tag.
    execute λ db. record db {
      content_tags = retain (λ t. not (is_tag fingerprint tag t)) db.content_tags;
    }

unfoldable pub select_content_tags_by_fingerprint : String → Db → List ContentTag
select_content_tags_by_fingerprint fingerprint db =
    retain (λ t. eqb t.fingerprint fingerprint) db.content_tags

-- `COALESCE(rs.status, 0)` over the user's row.
unfoldable pub status_of : String → String → List ReadingRow → ℕ
status_of user_id fingerprint rows =
    elim (find (λ (r : ReadingRow). eqb r.user_id user_id && eqb r.state.fingerprint fingerprint)
      rows) [ none ↦ 0 | some r ↦ r.state.status ]

abbrev pub guid_of : ℕ → List Document → Option String
guid_of id documents = Option.map (λ (d : Document). d.guid) (find (λ d. d.id == id) documents)

-- The joins of `FILE_SELECT` for one row: none without its content row.
unfoldable pub join_file : String → Db → FileRow → Option File
unfolding status_of
join_file user_id db f =
    Option.map
      (λ (c : Content). record {
        row = f;
        status = status_of user_id f.fingerprint db.reading_state;
        document_guid = Option.bind c.document_id (λ id. guid_of id db.documents);
      })
      (find (λ c. eqb c.fingerprint f.fingerprint) db.contents)

abbrev join_files : String → Db → List FileRow → List File
join_files user_id db [] = []
join_files user_id db (f ∷ fs) = elim (join_file user_id db f) [
  | none ↦ join_files user_id db fs
  | some r ↦ r ∷ join_files user_id db fs
]

unfoldable pub select_all_files : String → Db → List File
unfolding join_file
select_all_files user_id db = join_files user_id db db.files

unfoldable pub select_file_by_guid : String → String → Db → Option File
unfolding join_file
select_file_by_guid user_id guid db =
    Option.bind (find (λ (f : FileRow). eqb f.guid guid) db.files) (join_file user_id db)

unfoldable pub select_file_by_path : String → String → Db → Option File
unfolding join_file
select_file_by_path user_id path db =
    Option.bind (find (λ (f : FileRow). eqb f.path path) db.files) (join_file user_id db)

abbrev pub file_row : ℕ → String → NewFile → FileRow
file_row id now f = record {
  id = id;
  guid = f.guid;
  path = f.path;
  type_ = f.type_;
  size = f.size;
  fingerprint = f.fingerprint;
  archive_path = f.archive_path;
  archive_inner_path = f.archive_inner_path;
  imported_at = now;
}

abbrev pub clashes : NewFile → FileRow → Bool
clashes n f = eqb f.guid n.guid || eqb f.path n.path

abbrev pub add_row : String → NewFile → Db → Db
add_row now f db = record db {
  files = db.files ++ file_row db.next_file now f ∷ [];
  next_file = suc db.next_file;
}

abbrev pub local_user_id : String
local_user_id = "local"

abbrev pub or_not_found : Option File → M File
or_not_found none = fail row_not_found
or_not_found (some f) = pure f

unfoldable pub insert_file_row : String → NewFile → M (Unit {0})
insert_file_row now f db =
    if any (clashes f) db.files
    then (err unique_violation, db)
    else if has_content f.fingerprint db.contents
    then (ok tt, add_row now f db)
    else (err foreign_key_violation, db)

unfoldable pub insert_file : String → NewFile → M File
insert_file now f = do
  insert_file_row now f
  row ← query (select_file_by_path local_user_id f.path)
  or_not_found row

unfoldable pub upsert_file : String → NewFile → M (Unit {0})
upsert_file now f db =
    if any (clashes f) db.files
    then (ok tt, db)
    else if has_content f.fingerprint db.contents
    then (ok tt, add_row now f db)
    else (err foreign_key_violation, db)

unfoldable pub delete_file_record : ℕ → M (Unit {0})
delete_file_record id = execute λ db. record db { files = retain (λ f. not (f.id == id)) db.files }

-- `size as i32`, for a file size.
unfoldable pub as_i32 : ℕ → ℤ
as_i32 size = let m = size % 2 ^ 32 in if ltb m (2 ^ 31) then pos m else negsuc (2 ^ 32 - m - 1)

abbrev pub eqb_ℤ : ℤ → ℤ → Bool
eqb_ℤ (pos a) (pos b) = a == b
eqb_ℤ (pos a) (negsuc b) = false
eqb_ℤ (negsuc a) (pos b) = false
eqb_ℤ (negsuc a) (negsuc b) = a == b

-- `UPDATE files SET size = ?, fingerprint = ? WHERE id = ?`. The size is stored whole; how the driver
-- reads one of 2^31 or more back into an `i32` is not modelled.
abbrev pub set_size_and_fingerprint : ℕ → ℤ → String → M (Unit {0})
set_size_and_fingerprint id size fingerprint db =
    if has_content fingerprint db.contents || not (any (λ (f : FileRow). f.id == id) db.files)
    then (
      ok tt,
      record db {
        files =
            update (λ f. f.id == id) (λ f. record f { size = size; fingerprint = fingerprint })
              db.files;
      },
    )
    else (err foreign_key_violation, db)

abbrev pub new_file : String → String → String → ℕ → String → Option (String × String) → NewFile
new_file guid path extension size fingerprint archive = record {
  guid = guid;
  path = path;
  type_ = extension;
  size = as_i32 size;
  fingerprint = fingerprint;
  archive_path = Option.map (λ (p : String × String). p.0) archive;
  archive_inner_path = Option.map (λ (p : String × String). p.1) archive;
}

-- The `match` of `write_scanned_file`, on the file that is known under the path.
unfoldable pub write_file_row :
    String
    → String
    → String
    → String
    → ℕ
    → String
    → Option (String × String)
    → Option File
    → M (Bool × Bool)
write_file_row now guid path extension size fingerprint archive none = do
  _ ← insert_file now (new_file guid path extension size fingerprint archive)
  pure (true, false)
write_file_row now guid path extension size fingerprint archive (some existing) =
    if eqb_ℤ existing.size (pos size) && eqb existing.fingerprint fingerprint
    then pure (false, false)
    else (do
      upsert_content fingerprint
      set_size_and_fingerprint existing.id (pos size) fingerprint
      pure (false, true))

-- `(was_new, was_updated)`.
unfoldable pub write_scanned_file :
    String
    → String
    → String
    → String
    → ℕ
    → String
    → List String
    → Option (String × String)
    → M (Bool × Bool)
write_scanned_file now guid path extension size fingerprint tags archive = do
  upsert_content fingerprint
  existing ← query (select_file_by_path local_user_id path)
  written ← write_file_row now guid path extension size fingerprint archive existing
  for_each tags (λ tag. upsert_content_tag (record { fingerprint = fingerprint; tag = tag }))
  pure written
