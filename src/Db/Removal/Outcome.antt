-- ===== src/Db/Removal/Outcome.antt =====
-- core/src/db/dao/documents.rs: what the removal of a content from its document leaves.
use read_flow.Prelude.{
  ℕ, ◌==◌, String, Bool, true, false, not, ◌&&◌, none, some, List, [], ◌∷◌, ◌++◌, append_assoc,
  append-nil, length, any, retain, update, eqb, if◌then◌else◌, Bool-cases, inl, inr, ◌≡◌, refl, sym,
  ◌∙◌, ap,
}
use read_flow.Db.Monad.{commit}
use read_flow.Db.Result.{ok}
use read_flow.Db.Tables.{Db, FileRow}
use read_flow.Db.Contents.{delete_file_record, has_content}
use read_flow.Db.Documents.{Times, document_id_of, linked_to, delete_document}
use read_flow.Db.Documents.Keys.{AreKeyed}
use read_flow.Db.Removal.{
  RemoveFile, DeleteContentResult, clear_cover, shows_cover, counts_as_deleted, remove_files,
  remove_block, find_block, belongs_to, delete_content, report_removal,
  delete_content_from_document,
}
use read_flow.Db.Removal.Rows.{
  files_without, holds, Doomed-retain, Doomed-files_without, forgotten-has_content,
  unlinked-has_content, retain-retain, id_of-without,
}

module _ (remove_file : String → RemoveFile) where
  abbrev pub reported : List FileRow → List String
  reported [] = []
  reported (f ∷ fs) = if counts_as_deleted remove_file f then f.path ∷ reported fs else reported fs

  remove_files-run :
      (fs : List FileRow) (deleted : List String) (db : Db)
      → remove_files remove_file fs deleted db
        ≡ (ok (deleted ++ reported fs), record db { files = files_without fs db.files })
  unfolding remove_files delete_file_record
  remove_files-run [] deleted db = ap (λ d. (ok d, db)) (sym (append-nil deleted))
  remove_files-run (f ∷ fs) deleted db = elim (Bool-cases (counts_as_deleted remove_file f)) [
    | inl t ↦ rw t (
        remove_files-run fs (deleted ++ f.path ∷ []) _
        ∙ rw (append_assoc deleted (f.path ∷ []) (reported fs)) refl)
    | inr t ↦ rw t (remove_files-run fs deleted _)
  ]

  -- The rest of the store of a removal, and whether the document went too.
  abbrev gone : String → ℕ → Db → Bool
  gone fingerprint id db =
      length (retain (linked_to id) (retain (λ c. not (eqb c.fingerprint fingerprint)) db.contents))
      == 0

  abbrev rest : String → ℕ → Db → Db
  rest fingerprint id db = record db {
    contents = retain (λ c. not (eqb c.fingerprint fingerprint)) db.contents;
    content_tags = retain (λ t. not (eqb t.fingerprint fingerprint)) db.content_tags;
    files = files_without (retain (holds fingerprint) db.files) db.files;
    metadata =
        update (λ m. m.document_id == id && shows_cover fingerprint m) clear_cover
          (update (shows_cover fingerprint) clear_cover db.metadata);
    reading_state = retain (λ r. not (eqb r.state.fingerprint fingerprint)) db.reading_state;
    covers = retain (λ fp. not (eqb fp fingerprint)) db.covers;
  }

  abbrev outcome : String → ℕ → Db → DeleteContentResult
  outcome fingerprint id db = record {
    deleted_paths = reported (retain (holds fingerprint) db.files);
    document_deleted = gone fingerprint id db;
  }

  abbrev after : String → ℕ → Db → Db
  after fingerprint id db =
      (if gone fingerprint id db then delete_document id else (λ d. d)) (rest fingerprint id db)

  remove_block-run :
      (times : Times) (guid fingerprint : String) (id : ℕ) (db : Db)
      → remove_block remove_file none times guid fingerprint id db
        ≡ (ok (commit (some (outcome fingerprint id db))), after fingerprint id db)
  unfolding remove_block delete_content
  remove_block-run times guid fingerprint id db =
      rw
        (
          remove_files-run (retain (holds fingerprint) db.files) [] db,
          Doomed-files_without fingerprint (retain (holds fingerprint) db.files) db.files
              (Doomed-retain fingerprint db.files),
        )
        refl

  delete-run :
      (times : Times) (guid fingerprint : String) (id : ℕ) (db : Db)
      → document_id_of guid db ≡ some id
      → belongs_to fingerprint id db ≡ true
      → delete_content_from_document remove_file none times guid fingerprint db
        ≡ (ok (some (outcome fingerprint id db)), after fingerprint id db)
  unfolding delete_content_from_document find_block report_removal
  delete-run times guid fingerprint id db known own =
      rw (known, own, remove_block-run times guid fingerprint id db) refl

  content-after :
      (fingerprint : String) (id : ℕ) (db : Db)
      → has_content fingerprint (after fingerprint id db).contents ≡ false
  content-after fingerprint id db = elim (Bool-cases (gone fingerprint id db)) [
    | inl t ↦ rw t (
        unlinked-has_content fingerprint id
          (retain (λ c. not (eqb c.fingerprint fingerprint)) db.contents)
        ∙ forgotten-has_content fingerprint db.contents)
    | inr t ↦ rw t (forgotten-has_content fingerprint db.contents)
  ]

  files-after :
      (fingerprint : String) (id : ℕ) (db : Db)
      → any (holds fingerprint) (after fingerprint id db).files ≡ false
  files-after fingerprint id db =
      let none_left =
        Doomed-files_without fingerprint (retain (holds fingerprint) db.files) db.files
          (Doomed-retain fingerprint db.files) in
      elim (Bool-cases (gone fingerprint id db)) [ inl t ↦ rw t none_left | inr t ↦ rw t none_left ]

  document-after :
      (guid fingerprint : String) (id : ℕ) (db : Db)
      → AreKeyed db.documents
      → document_id_of guid db ≡ some id
      → document_id_of guid (after fingerprint id db)
        ≡ (if gone fingerprint id db then none else some id)
  document-after guid fingerprint id db keyed known = elim (Bool-cases (gone fingerprint id db)) [
    | inl t ↦ rw t (id_of-without guid id db.documents keyed known)
    | inr t ↦ rw t known
  ]

  -- The removal of a content of a document, without an audit context and with unique ids and guids,
  -- succeeds whatever happens to the files on disk: it reports the paths that it counts as deleted,
  -- neither the content nor a file row that holds it is left, and the document goes exactly where
  -- no other content of it is left.
  pub delete_content_from_document-outcome :
      (times : Times) (guid fingerprint : String) (id : ℕ) (db : Db)
      → AreKeyed db.documents
      → document_id_of guid db ≡ some id
      → belongs_to fingerprint id db ≡ true
      → let out = delete_content_from_document remove_file none times guid fingerprint db in
        let last =
          length (retain (λ c. linked_to id c && not (eqb c.fingerprint fingerprint)) db.contents)
          == 0 in
        (out.0
          ≡ ok (
              some (record {
                deleted_paths = reported (retain (λ f. eqb f.fingerprint fingerprint) db.files);
                document_deleted = last;
              })))
        × ((has_content fingerprint out.1.contents ≡ false)
            × ((any (λ (f : FileRow). eqb f.fingerprint fingerprint) out.1.files ≡ false)
                × (document_id_of guid out.1 ≡ (if last then none else some id))))
  delete_content_from_document-outcome times guid fingerprint id db keyed known own =
      rw
        (
          delete-run times guid fingerprint id db known own,
          retain-retain (linked_to id) (λ c. not (eqb c.fingerprint fingerprint)) db.contents,
        )
        (
          refl,
          (
            content-after fingerprint id db,
            (files-after fingerprint id db, document-after guid fingerprint id db keyed known),
          ),
        )
