-- ===== src/Db/Metadata.antt =====
-- The document metadata of core/src/db/dao/documents.rs: reading, replacing and merging the rows of
-- `document_metadata`. `AuthorsJson` stands for serde_json on lists of texts.
pub mod Rows
pub mod Authors
use read_flow.Prelude.{
  false, ◌&&◌, true, not, ℕ, ◌==◌, String, Bool, Option, none, some, List, [], ◌∷◌, ◌++◌, any, find,
  update, eqb, if◌then◌else◌,
}
use mathlib.Core.Option
use read_flow.Db.Result.{ok, err, foreign_key_violation, row_not_found}
use read_flow.Db.Tables.{Db, Content, Document, DocumentUserMetadata, ExtractedMetadata}
use read_flow.Db.Contents.{has_content}
use read_flow.Db.Monad.{M, ◌>>=◌, ◌>>◌, pure, fail, query, execute}

-- `to_string(authors).ok()` and `from_str(text).ok()`.
pub record AuthorsJson : Type 0 where
  pub to_string : List String → Option String
  pub from_str : String → Option (List String)

abbrev pub has_document : ℕ → List Document → Bool
has_document id = any (λ (d : Document). d.id == id)

unfoldable pub get_document_user_metadata : ℕ → Db → Option DocumentUserMetadata
get_document_user_metadata document_id db =
    find (λ (m : DocumentUserMetadata). m.document_id == document_id) db.metadata

-- `a.or(b)`.
abbrev pub or_else {ℓ} : {A : Type ℓ} → Option A → Option A → Option A
or_else none b = b
or_else (some a) b = some a

-- `for author in new { if !all.contains(author) { all.push(author) } }`.
unfoldable pub extend_authors : List String → List String → List String
extend_authors known [] = known
extend_authors known (a ∷ new) =
    extend_authors (if any (eqb a) known then known else known ++ a ∷ []) new

-- The foreign key of `selected_cover_fingerprint`.
abbrev pub cover_known : Option String → List Content → Bool
cover_known none contents = true
cover_known (some fp) contents = has_content fp contents

abbrev pub insert_metadata : DocumentUserMetadata → M (Unit {0})
insert_metadata m db =
    if has_document m.document_id db.documents
      && cover_known m.selected_cover_fingerprint db.contents
    then (ok tt, record db { metadata = db.metadata ++ m ∷ [] })
    else (err foreign_key_violation, db)

abbrev pub update_metadata : ℕ → (DocumentUserMetadata → DocumentUserMetadata) → M (Unit {0})
update_metadata document_id f =
    execute λ db. record db { metadata = update (λ m. m.document_id == document_id) f db.metadata }

abbrev pub lacks_cover : ℕ → DocumentUserMetadata → Bool
lacks_cover document_id m =
    m.document_id == document_id
    && elim m.selected_cover_fingerprint [ none ↦ true | some _ ↦ false ]

-- An `UPDATE` that also writes the cover.
abbrev pub update_with_cover :
    ℕ → Option String → (DocumentUserMetadata → DocumentUserMetadata) → M (Unit {0})
update_with_cover document_id cover f db =
    if cover_known cover db.contents
    then update_metadata document_id f db
    else (err foreign_key_violation, db)

module _ (json : AuthorsJson) where
  unfoldable pub authors_json : List String → Option String
  authors_json [] = none
  authors_json (a ∷ authors) = json.to_string (a ∷ authors)

  unfoldable pub parse_authors : Option String → List String
  parse_authors text = Option.get_or (Option.bind text json.from_str) []

  -- The row that `merge_document_metadata_from_extracted` inserts.
  unfoldable pub extracted_row : String → ℕ → ExtractedMetadata → DocumentUserMetadata
  extracted_row now document_id meta = record {
    document_id = document_id;
    document_type = none;
    title = meta.title;
    subtitle = meta.subtitle;
    authors = authors_json meta.authors;
    description = meta.description;
    language = meta.language;
    publisher = meta.publisher;
    identifier = meta.identifier;
    date = meta.date;
    subject = meta.subject;
    updated_at = now;
    selected_cover_fingerprint = none;
  }

  -- The row that it writes over `existing`.
  unfoldable pub merged_row :
      String → ExtractedMetadata → DocumentUserMetadata → DocumentUserMetadata
  merged_row now meta existing = record existing {
    title = or_else existing.title meta.title;
    subtitle = or_else existing.subtitle meta.subtitle;
    authors = authors_json (extend_authors (parse_authors existing.authors) meta.authors);
    description = or_else existing.description meta.description;
    language = or_else existing.language meta.language;
    publisher = or_else existing.publisher meta.publisher;
    identifier = or_else existing.identifier meta.identifier;
    date = or_else existing.date meta.date;
    subject = or_else existing.subject meta.subject;
    updated_at = now;
  }

  unfoldable pub merge_into :
      String → ℕ → ExtractedMetadata → Option DocumentUserMetadata → M (Unit {0})
  merge_into now document_id meta none = insert_metadata (extracted_row now document_id meta)
  merge_into now document_id meta (some existing) =
      update_metadata document_id (λ _. merged_row now meta existing)

  unfoldable pub merge_document_metadata_from_extracted :
      String → ℕ → ExtractedMetadata → M (Unit {0})
  merge_document_metadata_from_extracted now document_id meta = do
    existing ← query (get_document_user_metadata document_id)
    merge_into now document_id meta existing

  unfoldable pub extracted_from : DocumentUserMetadata → ExtractedMetadata
  extracted_from src = record {
    title = src.title;
    subtitle = src.subtitle;
    authors = parse_authors src.authors;
    description = src.description;
    language = src.language;
    publisher = src.publisher;
    identifier = src.identifier;
    date = src.date;
    subject = src.subject;
  }

  -- `selected_cover_fingerprint = ? … IS NULL`: the last step of the merge of a document.
  unfoldable pub propagate_cover : ℕ → Option String → M (Unit {0})
  propagate_cover canonical_id none db = (ok tt, db)
  propagate_cover canonical_id (some fp) db =
      if any (lacks_cover canonical_id) db.metadata && not (has_content fp db.contents)
      then (err foreign_key_violation, db)
      else (
        ok tt,
        record db {
          metadata =
              update (lacks_cover canonical_id)
                (λ m. record m { selected_cover_fingerprint = some fp }) db.metadata;
        },
      )

  unfoldable pub merge_source : String → ℕ → Option DocumentUserMetadata → M (Unit {0})
  merge_source now canonical_id none = pure tt
  merge_source now canonical_id (some src) = do
    merge_document_metadata_from_extracted now canonical_id (extracted_from src)
    propagate_cover canonical_id src.selected_cover_fingerprint

  unfoldable pub merge_document_metadata_from_document : String → ℕ → ℕ → M (Unit {0})
  merge_document_metadata_from_document now canonical_id source_id = do
    src ← query (get_document_user_metadata source_id)
    merge_source now canonical_id src

abbrev pub or_row_not_found : Option DocumentUserMetadata → M DocumentUserMetadata
or_row_not_found none = fail row_not_found
or_row_not_found (some row) = pure row

-- `upsert_document_user_metadata`: the row is replaced as a whole, and read back.
unfoldable pub upsert_document_user_metadata : DocumentUserMetadata → M DocumentUserMetadata
upsert_document_user_metadata m = do
  known ← query (get_document_user_metadata m.document_id)
  elim known [
    | none ↦ insert_metadata m
    | some _ ↦ update_with_cover m.document_id m.selected_cover_fingerprint (λ _. m)
  ]
  row ← query (get_document_user_metadata m.document_id)
  or_row_not_found row

abbrev pub empty_row : String → ℕ → Option String → DocumentUserMetadata
empty_row now document_id cover = record {
  document_id = document_id;
  document_type = none;
  title = none;
  subtitle = none;
  authors = none;
  description = none;
  language = none;
  publisher = none;
  identifier = none;
  date = none;
  subject = none;
  updated_at = now;
  selected_cover_fingerprint = cover;
}

-- Touches the cover and the time stamp only.
unfoldable pub set_selected_cover_fingerprint : String → ℕ → String → M (Unit {0})
set_selected_cover_fingerprint now document_id fingerprint = do
  known ← query (get_document_user_metadata document_id)
  elim known [
    | none ↦ insert_metadata (empty_row now document_id (some fingerprint))
    | some _ ↦
        update_with_cover document_id (some fingerprint)
          (λ m. record m { selected_cover_fingerprint = some fingerprint; updated_at = now })
  ]
