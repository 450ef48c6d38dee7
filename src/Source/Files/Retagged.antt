-- ===== src/Source/Files/Retagged.antt =====
-- Which tags an update of a file leaves.
use read_flow.Source.Files.Steps.{
  update_file_row-SameTags, OnCommit-continue, upsert_content-SameTags, OnCommit, OnCommit-conclude,
  SameTags,
}
use read_flow.Db.Result.{ok, Result}
use read_flow.Db.Monad.{pure, query, ◌>>=◌, ◌>>◌, OnOk-map, commit, conclude, Ending, M, OnOk}
use read_flow.Source.Files.TagRows.{
  delete_content_tags-drop, add_all, eqb_sym, drop_tags-tagged, drop_tags, tagged_with,
}
use read_flow.Db.Contents.{
  delete_content_tags, select_file_by_guid, select_content_tags_by_fingerprint,
  upsert_many_content_tags, upsert_content, is_tag,
}
use read_flow.Source.Files.{
  update_found, update_file, tags_to_add, update_file_row, tags_to_delete, has_tag,
}
use read_flow.Db.Tables.{File, Db, ContentTag}
use read_flow.Source.{ApiFile}
use read_flow.Prelude.{
  false, sym, true, some, ◌∙◌, ◌||◌, if◌then◌else◌, eqb→eq, ap, arith, Bool-cases, ◌&&◌, eqb, ◌≡◌,
  not, any, map, retain, Bool, String, List, [], ◌∷◌, refl, inl, inr,
}

abbrev wants : ApiFile → String → Bool
wants file tag = any (λ t. eqb t tag) file.tags

abbrev rows_of : ApiFile → List ContentTag → List ContentTag
rows_of file = retain (λ (t : ContentTag). eqb t.fingerprint file.fingerprint)

has_tag-rows :
    (file : ApiFile) (tag : String) (l : List ContentTag)
    → has_tag tag (rows_of file l) ≡ tagged_with file.fingerprint tag l
has_tag-rows file tag [] = refl
has_tag-rows file tag (t ∷ l) = ground (arith, has_tag-rows file tag l)

tags_to_delete-any :
    (file : ApiFile) (tag : String) (l : List ContentTag)
    → any (λ x. eqb x tag) (tags_to_delete file l) ≡ (has_tag tag l && not (wants file tag))
tags_to_delete-any file tag [] = refl
tags_to_delete-any file tag (t ∷ l) = elim (Bool-cases (eqb t.tag tag)) [
  | inl same ↦
      ground (arith, same, tags_to_delete-any file tag l, ap (wants file) (eqb→eq t.tag tag same))
  | inr differ ↦ ground (arith, differ, tags_to_delete-any file tag l)
]

module _ (file : ApiFile) (tag : String) (existing : List ContentTag) where
  added_rows : List String → List ContentTag
  added_rows ts =
      map (λ x. record { fingerprint = file.fingerprint; tag = x })
        (retain (λ x. not (has_tag x existing)) ts)

  added_rows-any :
      (ts : List String) (g : String)
      → any (is_tag g tag) (added_rows ts)
        ≡ (eqb file.fingerprint g && (any (λ t. eqb t tag) ts && not (has_tag tag existing)))
  unfolding added_rows
  added_rows-any [] g = ground arith
  added_rows-any (x ∷ ts) g = elim (Bool-cases (eqb x tag)) [
    | inl same ↦
        ground (arith, same, added_rows-any ts g, ap (λ y. has_tag y existing) (eqb→eq x tag same))
    | inr differ ↦ ground (arith, differ, added_rows-any ts g)
  ]

expected : ApiFile → String → String → List ContentTag → Bool
expected file g tag l = if eqb g file.fingerprint then wants file tag else tagged_with g tag l

final_tags :
    (file : ApiFile) (g tag : String) (l : List ContentTag)
    → (tagged_with g tag (drop_tags file.fingerprint (tags_to_delete file (rows_of file l)) l)
        || any (is_tag g tag) (tags_to_add file (rows_of file l)))
      ≡ expected file g tag l
unfolding expected added_rows
final_tags file g tag l =
    let dropped =
      drop_tags-tagged file.fingerprint (tags_to_delete file (rows_of file l)) g tag l in
    let added = added_rows-any file tag (rows_of file l) file.tags g in
    elim (Bool-cases (eqb g file.fingerprint)) [
      | inl same ↦ ground (
        arith,
        dropped,
        added,
        same,
        eqb_sym file.fingerprint g,
        tags_to_delete-any file tag (rows_of file l),
        has_tag-rows file tag l,
        ap (λ h. tagged_with h tag l) (eqb→eq g file.fingerprint same),
      )
      | inr differ ↦ ground (arith, dropped, added, differ, eqb_sym file.fingerprint g)
    ]

synced :
    (file : ApiFile) (g tag : String) (d : Db)
    → OnOk
        (λ e. tagged_with g tag e.content_tags ≡ expected file g tag d.content_tags)
        (upsert_many_content_tags (tags_to_add file (rows_of file d.content_tags)) (record d {
          content_tags =
              drop_tags file.fingerprint
                (tags_to_delete file (rows_of file d.content_tags))
                d.content_tags;
        }))
synced file g tag d =
    let add = tags_to_add file (rows_of file d.content_tags) in
    let left =
      drop_tags file.fingerprint (tags_to_delete file (rows_of file d.content_tags))
        d.content_tags in
    OnOk-map
      (λ e. tagged_with g tag e.content_tags ≡ (tagged_with g tag left || any (is_tag g tag) add))
      (λ e. tagged_with g tag e.content_tags ≡ expected file g tag d.content_tags)
      (upsert_many_content_tags add (record d { content_tags = left }))
      (λ e known. known ∙ final_tags file g tag d.content_tags)
      (add_all add (record d { content_tags = left }) g tag)

Synced : ApiFile → String → String → Db → Db → Type 0
Synced file g tag db d = tagged_with g tag d.content_tags ≡ expected file g tag db.content_tags

sync_tags :
    (file : ApiFile) (g tag : String) (db d : Db)
    → SameTags db d
    → OnCommit (Synced file g tag db) (
        (do
          tags ← query (select_content_tags_by_fingerprint file.fingerprint)
          delete_content_tags file.fingerprint (tags_to_delete file tags)
          upsert_many_content_tags (tags_to_add file tags)
          pure (commit tt))
          d)
unfolding SameTags Synced select_content_tags_by_fingerprint
sync_tags file g tag db d same =
    let rows = rows_of file d.content_tags in
    let left : Db = record d {
      content_tags = drop_tags file.fingerprint (tags_to_delete file rows) d.content_tags;
    } in
    let add = tags_to_add file rows in
    rw (delete_content_tags-drop file.fingerprint (tags_to_delete file rows) d) (
      OnCommit-continue (λ e. tagged_with g tag e.content_tags ≡ expected file g tag d.content_tags)
        (λ e. tagged_with g tag e.content_tags ≡ expected file g tag db.content_tags)
        (upsert_many_content_tags add left) (λ u. pure (commit tt)) (synced file g tag d)
        (λ u e known. known ∙ ap (expected file g tag) same))

-- The content row that a changed fingerprint needs.
new_content-SameTags :
    (f : String) (b : Bool) (db : Db)
    → OnOk (SameTags db) ((if b then pure tt else upsert_content f) db)
new_content-SameTags f true db = unfold SameTags in refl
new_content-SameTags f false db = upsert_content-SameTags f db

found-Synced :
    (file : ApiFile) (g tag : String) (existing : File) (db : Db)
    → OnCommit (Synced file g tag db) (update_found file (some existing) db)
unfolding update_found SameTags
found-Synced file g tag existing db =
    let sync : M (Ending (Unit {0})) = (do
      tags ← query (select_content_tags_by_fingerprint file.fingerprint)
      delete_content_tags file.fingerprint (tags_to_delete file tags)
      upsert_many_content_tags (tags_to_add file tags)
      pure (commit tt)) in
    let same = eqb existing.fingerprint file.fingerprint in
    OnCommit-continue (SameTags db) (Synced file g tag db)
      ((if same then pure tt else upsert_content file.fingerprint) db)
      (λ u. update_file_row existing.id file >> sync)
      (new_content-SameTags file.fingerprint same db)
      (λ u d kept.
        OnCommit-continue (SameTags db) (Synced file g tag db) (update_file_row existing.id file d)
          (λ v. sync)
          (OnOk-map (SameTags d) (SameTags db) (update_file_row existing.id file d)
            (λ e again. again ∙ kept) (update_file_row-SameTags existing.id file d))
          (λ v e again. sync_tags file g tag db e again))

-- After an update of a stored file that succeeds, the content that the update names has exactly the
-- update's tags, whatever it had before and whoever else has a file of it, and every other content
-- has the tags that it had.
pub update_file-tags :
    (user_id : String) (file : ApiFile) (db : Db) (existing : File) (fingerprint tag : String)
    → select_file_by_guid user_id file.guid db ≡ some existing
    → (update_file user_id file db).0 ≡ ok tt
    → tagged_with fingerprint tag (update_file user_id file db).1.content_tags ≡ (
        if eqb fingerprint file.fingerprint
        then any (λ t. eqb t tag) file.tags
        else tagged_with fingerprint tag db.content_tags)
unfolding update_file Synced expected
update_file-tags user_id file db existing fingerprint tag found done =
    let at_file : update_file user_id file db ≡ conclude db (update_found file (some existing) db) =
      ap (λ o. conclude db (update_found file o db)) found in
    ap (λ (r : Result (Unit {0}) × Db). tagged_with fingerprint tag r.1.content_tags) at_file
    ∙ OnCommit-conclude (Synced file fingerprint tag db) db (update_found file (some existing) db)
        (found-Synced file fingerprint tag existing db)
        (sym (ap (λ (r : Result (Unit {0}) × Db). r.0) at_file) ∙ done)
