-- ===== src/Scan/Enrich.antt =====
-- core/src/scan/scanner.rs: what is stored of a new or changed file after its batch is committed.
-- Reading the file's metadata and cover is an argument.
use read_flow.Db.Linking.{ensure_document_for_fingerprint, upsert_cover}
use read_flow.Db.Metadata.{merge_document_metadata_from_extracted, AuthorsJson}
use read_flow.Scan.Archive.{Spooled}
use read_flow.Db.Tables.{Db, ExtractedMetadata}
use read_flow.Db.Monad.{◌>>=◌, ◌>>◌, attempt, pure, M}
use read_flow.Prelude.{
  ℕ, String, Bool, true, false, ◌&&◌, Option, none, some, List, [], ◌∷◌, if◌then◌else◌,
}

pub record EnrichTask : Type 0 where
  pub fingerprint : String
  pub path : String
  pub extension : String
  pub archive_inner : Option String
  pub spool : Option Spooled

-- What the extractors find: the file, or the archive's member, cannot be read; or its metadata, and
-- whether it has a cover.
pub data Extraction : Type 0 where
  unreadable : Extraction
  extracted : Option ExtractedMetadata → Bool → Extraction

abbrev pub is_none {ℓ} : {A : Type ℓ} → Option A → Bool
is_none none = true
is_none (some a) = false

abbrev pub no_authors : List String → Bool
no_authors [] = true
no_authors (a ∷ as_) = false

-- `ExtractedMetadata::is_empty`.
unfoldable pub is_empty_metadata : ExtractedMetadata → Bool
is_empty_metadata m =
    is_none m.title
    && (is_none m.subtitle
        && (no_authors m.authors
            && (is_none m.description
                && (is_none m.language
                    && (is_none m.publisher
                        && (is_none m.identifier && (is_none m.date && is_none m.subject)))))))

abbrev pub store_cover : String → Bool → M (Unit {0})
store_cover fingerprint true = attempt (upsert_cover fingerprint)
store_cover fingerprint false = pure tt

module _ (json : AuthorsJson) (fresh : ℕ → String) (now : String) where
  abbrev pub store_metadata : String → Option ExtractedMetadata → M (Unit {0})
  store_metadata fingerprint none = pure tt
  store_metadata fingerprint (some meta) =
      if is_empty_metadata meta
      then pure tt
      else attempt (do
        id ← ensure_document_for_fingerprint fresh fingerprint
        merge_document_metadata_from_extracted json now id meta)

  abbrev pub persist : String → Extraction → M (Unit {0})
  persist fingerprint unreadable = pure tt
  persist fingerprint (extracted meta has_cover) = do
    store_cover fingerprint has_cover
    store_metadata fingerprint meta

  unfoldable pub enrich_file : (EnrichTask → Extraction) → EnrichTask → Db → Db
  unfolding upsert_cover ensure_document_for_fingerprint merge_document_metadata_from_extracted
  enrich_file extract task db = (persist task.fingerprint (extract task) db).1

  -- The tasks run side by side; they are taken one after another here.
  unfoldable pub enrich_files : (EnrichTask → Extraction) → List EnrichTask → Db → Db
  unfolding enrich_file
  enrich_files extract [] db = db
  enrich_files extract (t ∷ ts) db = enrich_files extract ts (enrich_file extract t db)
