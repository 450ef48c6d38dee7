-- ===== src/Scan/Writer/History.antt =====
-- core/src/scan/scanner.rs: writing and enriching files leaves the activity history alone, and an event
-- of an operation that exists can always be recorded.
use read_flow.Db.Audit.{insert_target, insert_event, append_audit_event}
use read_flow.Audit.{is_object, object, Scalar, AuditOutcome, AuditEventType}
use read_flow.Db.Audit.Closing.{has_operation}
use read_flow.Scan.Enrich.{
  is_empty_metadata, unreadable, store_metadata, store_cover, extracted, enrich_file, persist,
  EnrichTask, enrich_files, Extraction,
}
use read_flow.Db.Monad.{
  ◌>>=◌, ◌>>◌, for_each-keeps, pure, for_each, continue, M, continue-keeps, settle,
}
use read_flow.Db.Documents.{upsert_document}
use read_flow.Db.Result.{ok, Result}
use read_flow.Db.Linking.{
  document_of, link_content, new_document, known_document, upsert_cover,
  ensure_document_for_fingerprint,
}
use read_flow.Db.Metadata.{
  get_document_user_metadata, extracted_row, merge_into, insert_metadata,
  merge_document_metadata_from_extracted, AuthorsJson,
}
use read_flow.Db.Contents.{
  eqb_ℤ, local_user_id, select_file_by_path, new_file, set_size_and_fingerprint, or_not_found,
  write_scanned_file, upsert_content_tag, insert_file_row, insert_file, write_file_row,
  upsert_content,
}
use read_flow.Db.Tables.{
  AuditTargetSnapshot, pos, ExtractedMetadata, ContentTag, AuditTargetRow, NewFile, ℤ, Db, File,
  AuditOperationRecord, DocumentUserMetadata,
}
use read_flow.Prelude.{
  ap, ◌++◌, sym, subst, ◌==◌, ◌&&◌, ℕ, suc, String, Bool, true, false, Option, none, some, List, [],
  ◌∷◌, any, All, All-append, eqb, ◌≡◌, refl, ◌∙◌, arith, Bool-cases, inl, inr, ◌<◌,
}

abbrev pub History : Type 0
History = List AuditOperationRecord × ℕ × List AuditTargetRow

abbrev pub history_of : Db → History
history_of db = (db.operations, db.next_event, db.targets)

upsert_content-history :
    (fp : String) (db : Db) → history_of (upsert_content fp db).1 ≡ history_of db
unfolding upsert_content
upsert_content-history fp db = ground arith

upsert_content_tag-history :
    (t : ContentTag) (db : Db) → history_of (upsert_content_tag t db).1 ≡ history_of db
unfolding upsert_content_tag
upsert_content_tag-history t db = ground arith

insert_file_row-history :
    (now : String) (f : NewFile) (db : Db) → history_of (insert_file_row now f db).1 ≡ history_of db
unfolding insert_file_row
insert_file_row-history now f db = ground arith

or_not_found-history :
    (o : Option File) (db : Db) → history_of (or_not_found o db).1 ≡ history_of db
or_not_found-history none db = refl
or_not_found-history (some f) db = refl

insert_file-history :
    (now : String) (f : NewFile) (db : Db) → history_of (insert_file now f db).1 ≡ history_of db
unfolding insert_file
insert_file-history now f db =
    continue-keeps history_of (insert_file_row now f db) _
      (λ _ d. or_not_found-history (select_file_by_path local_user_id f.path d) d)
    ∙ insert_file_row-history now f db

set_size-history :
    (id : ℕ) (size : ℤ) (fp : String) (db : Db)
    → history_of (set_size_and_fingerprint id size fp db).1 ≡ history_of db
set_size-history id size fp db = ground arith

write_file_row-history :
    (now guid path extension : String) (size : ℕ) (fp : String) (archive : Option (String × String))
    (known : Option File) (db : Db)
    → history_of (write_file_row now guid path extension size fp archive known db).1 ≡ history_of db
unfolding write_file_row
write_file_row-history now guid path extension size fp archive none db =
    continue-keeps history_of (insert_file now (new_file guid path extension size fp archive) db) _
      (λ _ _. refl)
    ∙ insert_file-history now (new_file guid path extension size fp archive) db
write_file_row-history now guid path extension size fp archive (some f) db =
    elim (Bool-cases (eqb_ℤ f.size (pos size) && eqb f.fingerprint fp)) [
      | inl same ↦ rw (same, write_file_row) refl
      | inr changed ↦
          rw (changed, write_file_row)
            (continue-keeps history_of (upsert_content fp db) _ (λ _ d.
                continue-keeps history_of (set_size_and_fingerprint f.id (pos size) fp d) _
                  (λ _ _. refl)
                ∙ set_size-history f.id (pos size) fp d)
              ∙ upsert_content-history fp db)
    ]

pub write_scanned_file-history :
    (now guid path extension : String) (size : ℕ) (fp : String) (tags : List String)
    (archive : Option (String × String)) (db : Db)
    → history_of (write_scanned_file now guid path extension size fp tags archive db).1
      ≡ history_of db
unfolding write_scanned_file
write_scanned_file-history now guid path extension size fp tags archive db =
    continue-keeps history_of (upsert_content fp db) _ after_content ∙ upsert_content-history fp db
  where
    tag_content : String → M (Unit {0})
    tag_content tag = upsert_content_tag (record { fingerprint = fp; tag = tag })

    after_content :
        (u : Unit {0}) (d : Db)
        → history_of
            (continue
              (write_file_row now guid path extension size fp archive
                (select_file_by_path local_user_id path d)
                d)
              (λ written d'. continue (for_each tags tag_content d') (λ _. pure written))).1
          ≡ history_of d
    after_content u d =
        continue-keeps history_of
          (write_file_row now guid path extension size fp archive
            (select_file_by_path local_user_id path d) d)
          _
          (λ written d'.
            continue-keeps history_of (for_each tags tag_content d') _ (λ _ _. refl)
            ∙ for_each-keeps history_of tags tag_content d'
                (λ tag. upsert_content_tag-history (record { fingerprint = fp; tag = tag })))
        ∙ write_file_row-history now guid path extension size fp archive
            (select_file_by_path local_user_id path d) d

-- Enriching.
upsert_cover-history : (fp : String) (db : Db) → history_of (upsert_cover fp db).1 ≡ history_of db
unfolding upsert_cover
upsert_cover-history fp db = ground arith

upsert_document-history :
    (guid : String) (db : Db) → history_of (upsert_document guid db).1 ≡ history_of db
unfolding upsert_document
upsert_document-history guid db = ground arith

ensure-history :
    (fresh : ℕ → String) (fp : String) (db : Db)
    → history_of (ensure_document_for_fingerprint fresh fp db).1 ≡ history_of db
unfolding ensure_document_for_fingerprint
ensure-history fresh fp db = known (document_of fp db)
  where
    known :
        (o : Option ℕ)
        → let found : M ℕ = elim o [
          | some id ↦ known_document id
          | none ↦ ◌>>=◌ {B = ℕ} (new_document fresh) (λ id. link_content fp id >> pure id)
        ] in
          history_of (found db).1 ≡ history_of db
    known (some id) = ground arith
    known none =
        continue-keeps history_of (new_document fresh db) _ (λ _ _. refl)
        ∙ continue-keeps history_of (upsert_document (fresh db.next_document) db) _ (λ _ _. refl)
        ∙ upsert_document-history (fresh db.next_document) db

settle-history : {A : Type 0} (r : Result A × Db) → history_of (settle r).1 ≡ history_of r.1
settle-history (r, db) = refl

insert_metadata-history :
    (m : DocumentUserMetadata) (db : Db) → history_of (insert_metadata m db).1 ≡ history_of db
insert_metadata-history m db = ground arith

module _ (json : AuthorsJson) (fresh : ℕ → String) (now : String) where
  merge-history :
      (id : ℕ) (meta : ExtractedMetadata) (db : Db)
      → history_of (merge_document_metadata_from_extracted json now id meta db).1 ≡ history_of db
  unfolding merge_document_metadata_from_extracted merge_into
  merge-history id meta db = merged (get_document_user_metadata id db)
    where
      merged :
          (o : Option DocumentUserMetadata)
          → history_of (merge_into json now id meta o db).1 ≡ history_of db
      merged none = insert_metadata-history (extracted_row json now id meta) db
      merged (some m) = refl

  cover-history :
      (fp : String) (b : Bool) (db : Db) → history_of (store_cover fp b db).1 ≡ history_of db
  cover-history fp true db = settle-history (upsert_cover fp db) ∙ upsert_cover-history fp db
  cover-history fp false db = refl

  metadata-history :
      (fp : String) (o : Option ExtractedMetadata) (db : Db)
      → history_of (store_metadata json fresh now fp o db).1 ≡ history_of db
  metadata-history fp none db = refl
  metadata-history fp (some meta) db = elim (Bool-cases (is_empty_metadata meta)) [
    | inl empty ↦ rw empty refl
    | inr some_ ↦ rw some_ (
        settle-history (
          continue (ensure_document_for_fingerprint fresh fp db)
            (λ id. merge_document_metadata_from_extracted json now id meta))
        ∙ continue-keeps history_of (ensure_document_for_fingerprint fresh fp db) _
            (λ id d. merge-history id meta d)
        ∙ ensure-history fresh fp db)
  ]

  persist-history :
      (fp : String) (e : Extraction) (db : Db)
      → history_of (persist json fresh now fp e db).1 ≡ history_of db
  persist-history fp unreadable db = refl
  persist-history fp (extracted meta has_cover) db =
      continue-keeps history_of (store_cover fp has_cover db) _ (λ _ d. metadata-history fp meta d)
      ∙ cover-history fp has_cover db

  pub enrich_files-history :
      (extract : EnrichTask → Extraction) (ts : List EnrichTask) (db : Db)
      → history_of (enrich_files json fresh now extract ts db) ≡ history_of db
  unfolding enrich_files
  enrich_files-history extract [] db = refl
  enrich_files-history extract (t ∷ ts) db =
      enrich_files-history extract ts (enrich_file json fresh now extract t db)
      ∙ persist-history t.fingerprint (extract t) db

-- An event of an audited operation can be recorded: the operation's row exists, and the targets belong
-- to events that exist.
abbrev pub Recordable : String → History → Type 0
Recordable op h = (has_operation op h.0 ≡ true) × All (λ (t : AuditTargetRow). t.event_id < h.1) h.2

module _ (op : String) (event_type : AuditEventType) (outcome : AuditOutcome) (at : String)
    (fields : List (String × Scalar)) (t : AuditTargetSnapshot) where
  inserted : Db → Db
  inserted db = (insert_event op event_type outcome at (object fields) db).1

  insert_lem :
      (db : Db)
      → has_operation op db.operations ≡ true
      → insert_event op event_type outcome at (object fields) db ≡ (ok db.next_event, inserted db)
  unfolding insert_event inserted
  insert_lem db exists = ground (arith, exists)

  inserted-history :
      (db : Db)
      → has_operation op db.operations ≡ true
      → history_of (inserted db) ≡ (db.operations, suc db.next_event, db.targets)
  unfolding insert_event inserted
  inserted-history db exists = ground (arith, exists)

  -- The store with the event and its target.
  pub recorded : Db → Db
  recorded db = record (inserted db) {
    targets = (inserted db).targets ++ record { event_id = db.next_event; target = t } ∷ [];
  }

  none_of_new :
      (n : ℕ) (rows : List AuditTargetRow)
      → All (λ (r : AuditTargetRow). r.event_id < n) rows
      → any
          (λ (r : AuditTargetRow).
            r.event_id == n
            && (eqb r.target.target_kind t.target_kind && eqb r.target.target_id t.target_id))
          rows
        ≡ false
  none_of_new n [] below = refl
  none_of_new n (r ∷ rows) below = ground (arith, below.0, none_of_new n rows below.1)

  below_suc :
      (n : ℕ) (rows : List AuditTargetRow)
      → All (λ (r : AuditTargetRow). r.event_id < n) rows
      → All (λ (r : AuditTargetRow). r.event_id < suc n) rows
  below_suc n [] below = tt
  below_suc n (r ∷ rows) below = (omega (arith, below.0), below_suc n rows below.1)

  insert_target_lem :
      (n : ℕ) (db : Db)
      → All (λ (r : AuditTargetRow). r.event_id < n) db.targets
      → insert_target n t db
        ≡ (ok tt, record db { targets = db.targets ++ record { event_id = n; target = t } ∷ [] })
  unfolding insert_target
  insert_target_lem n db below = rw (none_of_new n db.targets below) refl

  inserted-below :
      (db : Db)
      → Recordable op (history_of db)
      → All (λ (r : AuditTargetRow). r.event_id < db.next_event) (inserted db).targets
  inserted-below db (exists, below) =
      subst (All (λ (r : AuditTargetRow). r.event_id < db.next_event))
        (sym (ap (λ (h : History). h.2) (inserted-history db exists))) below

  -- Recording succeeds.
  pub append_lem :
      (db : Db)
      → Recordable op (history_of db)
      → append_audit_event op event_type outcome at (object fields) (t ∷ []) db
        ≡ (ok db.next_event, recorded db)
  unfolding append_audit_event for_each is_object recorded
  append_lem db recordable =
      rw (insert_lem db recordable.0)
        (rw (insert_target_lem db.next_event (inserted db) (inserted-below db recordable)) refl)

  -- Further events can be recorded after it.
  pub recorded-Recordable :
      (db : Db) → Recordable op (history_of db) → Recordable op (history_of (recorded db))
  unfolding recorded
  recorded-Recordable db (exists, below) =
      let same = inserted-history db exists in
      (
        rw (ap (λ (h : History). h.0) same) exists,
        All-append (λ (r : AuditTargetRow). r.event_id < (inserted db).next_event)
            (inserted db).targets (record { event_id = db.next_event; target = t } ∷ [])
            (rw (ap (λ (h : History). h.1) same, ap (λ (h : History). h.2) same)
              (below_suc db.next_event db.targets below))
            (omega (arith, ap (λ (h : History). h.1) same), tt),
      )
