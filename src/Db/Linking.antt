-- ===== src/Db/Linking.antt =====
-- core/src/db/dao/documents.rs and covers.rs: the document that a content is given, and the pass after
-- a scan that links the contents of files that differ in their extension only. A fresh UUID is `fresh`
-- of the number that the new row gets.
pub mod Links
pub mod Places
pub mod Rows
pub mod Groups
pub mod Lookup
pub mod Twins
pub mod Apart
pub mod Sound
pub mod Shared
pub mod Pass
use read_flow.Db.Contents.{has_content}
use read_flow.Db.Result.{foreign_key_violation, row_not_found, ok, err}
use read_flow.Db.Documents.{link, upsert_document}
use read_flow.Chars.{codes, same_text, Chars}
use read_flow.Db.Metadata.{merge_document_metadata_from_document, AuthorsJson}
use read_flow.Paths.{file_stem, parent}
use read_flow.Db.Monad.{query, ◌>>=◌, ◌>>◌, for_each, pure, continue, execute, M}
use read_flow.Db.Tables.{Document, FileRow, Content, Db}
use mathlib.Core.Option
use read_flow.Prelude.{
  ℕ, ◌==◌, String, Bool, true, false, not, ◌&&◌, ◌||◌, Option, none, some, List, [], ◌∷◌, ◌++◌,
  retain, find, update, any, all, eqb, if◌then◌else◌,
}

abbrev pub document_of : String → Db → Option ℕ
document_of fingerprint db =
    Option.bind (find (λ (c : Content). eqb c.fingerprint fingerprint) db.contents)
      (λ c. c.document_id)

abbrev pub known_document : ℕ → M ℕ
known_document id db =
    if any (λ (d : Document). d.id == id) db.documents then (ok id, db) else (err row_not_found, db)

-- `UPDATE contents SET document_id = ? WHERE fingerprint = ?`.
abbrev pub link_content : String → ℕ → M (Unit {0})
link_content fingerprint id =
    execute λ db. record db {
      contents = update (λ c. eqb c.fingerprint fingerprint) (link id) db.contents;
    }

abbrev pub new_document : (ℕ → String) → M ℕ
new_document fresh db = continue (upsert_document (fresh db.next_document) db) (λ d. pure d.id)

-- The id of the document; what `load_api_document` then reads is left out.
unfoldable pub ensure_document_for_fingerprint : (ℕ → String) → String → M ℕ
unfolding upsert_document
ensure_document_for_fingerprint fresh fingerprint = do
  known ← query (document_of fingerprint)
  elim known [
    | some id ↦ known_document id
    | none ↦ (do id ← new_document fresh; link_content fingerprint id; pure id)
  ]

-- `upsert_cover`; of the covers only the keys are kept.
unfoldable pub upsert_cover : String → M (Unit {0})
upsert_cover fingerprint db =
    if any (λ k. eqb k fingerprint) db.covers
    then (ok tt, db)
    else if has_content fingerprint db.contents
    then (ok tt, record db { covers = db.covers ++ fingerprint ∷ [] })
    else (err foreign_key_violation, db)

-- `FileForLinking`.
pub record FileForLinking : Type 0 where
  pub path : String
  pub fingerprint : String
  pub document_id : Option ℕ

abbrev pub files_for_linking : List Content → List FileRow → List FileForLinking
files_for_linking contents [] = []
files_for_linking contents (f ∷ fs) =
    elim (find (λ (c : Content). eqb c.fingerprint f.fingerprint) contents) [
      | none ↦ files_for_linking contents fs
      | some c ↦
          record { path = f.path; fingerprint = f.fingerprint; document_id = c.document_id }
          ∷ files_for_linking contents fs
    ]

-- The parent directory and the stem.
abbrev pub Key : Type 0
Key = Chars × Chars

unfoldable pub key_of : FileForLinking → Key
unfolding parent file_stem
key_of f = (parent (codes f.path), file_stem (codes f.path))

abbrev pub same_key : Key → Key → Bool
same_key a b = same_text a.0 b.0 && same_text a.1 b.1

-- `groups.entry(key).or_default().push(row)`.
unfoldable pub push_row :
    Key → FileForLinking → List (Key × List FileForLinking) → List (Key × List FileForLinking)
unfolding same_text
push_row k row [] = (k, row ∷ []) ∷ []
push_row k row ((j, rows) ∷ groups) =
    if same_key j k then (j, rows ++ row ∷ []) ∷ groups else (j, rows) ∷ push_row k row groups

unfoldable pub group_rows :
    List FileForLinking → List (Key × List FileForLinking) → List (Key × List FileForLinking)
unfolding key_of push_row
group_rows [] groups = groups
group_rows (row ∷ rows) groups = group_rows rows (push_row (key_of row) row groups)

abbrev pub one_fingerprint : List FileForLinking → Bool
one_fingerprint [] = true
one_fingerprint (f ∷ fs) = all (λ g. eqb g.fingerprint f.fingerprint) fs

-- The documents of a group, each once, in the order of its files.
abbrev pub distinct_doc_ids : List FileForLinking → List ℕ
distinct_doc_ids [] = []
distinct_doc_ids (f ∷ fs) = elim f.document_id [
  | none ↦ distinct_doc_ids fs
  | some id ↦ id ∷ retain (λ j. not (j == id)) (distinct_doc_ids fs)
]

abbrev pub is_document : ℕ → Option ℕ → Bool
is_document id none = false
is_document id (some j) = j == id

abbrev pub fully_linked : List ℕ → List FileForLinking → Bool
fully_linked (id ∷ []) files = all (λ f. is_document id f.document_id) files
fully_linked _ files = false

abbrev pub rows_of : List (Key × List FileForLinking) → List (List FileForLinking)
rows_of [] = []
rows_of (g ∷ gs) = g.1 ∷ rows_of gs

module _ (json : AuthorsJson) (fresh : ℕ → String) (now : String) where
  abbrev pub canonical_id : List ℕ → M ℕ
  canonical_id [] = new_document fresh
  canonical_id (id ∷ ids) = pure id

  abbrev pub link_to : List ℕ → List FileForLinking → ℕ → M (Unit {0})
  link_to ids files canonical = do
    for_each (retain (λ id. not (id == canonical)) ids)
        (merge_document_metadata_from_document json now canonical)
    for_each files (λ f. link_content f.fingerprint canonical)

  unfoldable pub link_group : List FileForLinking → M (Unit {0})
  unfolding merge_document_metadata_from_document for_each upsert_document
  link_group files =
      if one_fingerprint files || fully_linked (distinct_doc_ids files) files then pure tt else (do
        canonical ← canonical_id (distinct_doc_ids files)
        link_to (distinct_doc_ids files) files canonical)

  -- `order` is the order in which the map of groups yields them.
  unfoldable pub auto_link_documents :
      (List (List FileForLinking) → List (List FileForLinking)) → M (Unit {0})
  unfolding group_rows link_group
  auto_link_documents order = do
    rows ← query (λ db. files_for_linking db.contents db.files)
    for_each (order (rows_of (group_rows rows []))) link_group
