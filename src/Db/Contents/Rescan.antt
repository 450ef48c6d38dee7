-- ===== src/Db/Contents/Rescan.antt =====
-- core/src/db/dao/files.rs: what a scan writes, the next one finds.
use read_flow.Prelude.{
  ==_iff, ℕ, ◌==◌, ◌^◌, ◌<◌, String, Bool, true, false, ◌&&◌, Option, none, some, List, [], ◌∷◌,
  any, any-append, find, find-append, find-update, eqb, eqb_refl, Bool-cases, inl, inr, ◌≡◌, refl,
  ◌∙◌, ap, arith,
}
use read_flow.Db.Result.{ok}
use read_flow.Db.Tables.{NewFile, negsuc, ℤ, pos, Db, FileRow, File}
use read_flow.Db.Monad.{OnOk-map, for_each, OnOk, OnOk-continue, OnOk-all, OnOk-ok}
use read_flow.Db.Contents.{
  has_content, upsert_content, is_tag, upsert_content_tag, select_file_by_path, local_user_id,
  insert_file_row, insert_file, or_not_found, file_row, new_file, clashes, add_row, as_i32, eqb_ℤ,
  write_file_row, write_scanned_file,
}
use read_flow.Db.Contents.Filed.{
  IsFiled, AreTagged, tag_content, upsert_content-known, upsert_content-known_after, known_before,
  rescan,
}

module _ (path fingerprint : String) (size : ℕ) where
  eqb_ℤ→eq : (z : ℤ) (n : ℕ) → eqb_ℤ z (pos n) ≡ true → z ≡ pos n
  eqb_ℤ→eq (pos m) n h = ap pos ((==_iff m n).0 h)
  eqb_ℤ→eq (negsuc m) n h = cc

  free_path :
      (n : NewFile) (files : List FileRow)
      → any (clashes n) files ≡ false
      → find (λ (g : FileRow). eqb g.path n.path) files ≡ none
  free_path n [] h = refl
  free_path n (f ∷ files) h = ground (arith, free_path n files)

  as_i32-small : size < 2 ^ 31 → as_i32 size ≡ pos size
  unfolding as_i32
  as_i32-small small = ground arith

  add_row-IsFiled :
      (now guid extension : String) (archive : Option (String × String)) (db : Db)
      → size < 2 ^ 31
      → has_content fingerprint db.contents ≡ true
      → any (clashes (new_file guid path extension size fingerprint archive)) db.files ≡ false
      → (IsFiled path fingerprint size)
          (add_row now (new_file guid path extension size fingerprint archive) db)
  add_row-IsFiled now guid extension archive db small known free =
      let n = new_file guid path extension size fingerprint archive in
      let row = file_row db.next_file now n in
      (
        known,
        (
          row,
          (
            find-append (λ (g : FileRow). eqb g.path path) db.files (row ∷ [])
                ∙ rw (free_path n db.files free, eqb_refl path) refl,
            (as_i32-small small, refl),
          ),
        ),
      )

  insert_row-IsFiled :
      (now guid extension : String) (archive : Option (String × String)) (db : Db)
      → size < 2 ^ 31
      → has_content fingerprint db.contents ≡ true
      → OnOk
          (IsFiled path fingerprint size)
          (insert_file_row now (new_file guid path extension size fingerprint archive) db)
  unfolding insert_file_row
  insert_row-IsFiled now guid extension archive db small known =
      elim (Bool-cases
        (any (clashes (new_file guid path extension size fingerprint archive)) db.files)) [
          | inl taken ↦ rw (taken, insert_file_row) tt
          | inr free ↦
              rw (free, known, insert_file_row)
                (add_row-IsFiled now guid extension archive db small known free)
        ]

  or_not_found-OnOk :
      (o : Option File) (db : Db)
      → (IsFiled path fingerprint size) db
      → OnOk (IsFiled path fingerprint size) (or_not_found o db)
  or_not_found-OnOk none db h = tt
  or_not_found-OnOk (some x) db h = h

  write_file_row-IsFiled :
      (now guid extension : String) (archive : Option (String × String)) (db : Db) (o : Option File)
      → size < 2 ^ 31
      → has_content fingerprint db.contents ≡ true
      → select_file_by_path local_user_id path db ≡ o
      → OnOk
          (IsFiled path fingerprint size)
          (write_file_row now guid path extension size fingerprint archive o db)
  unfolding write_file_row insert_file
  write_file_row-IsFiled now guid extension archive db none small known e =
      let n = new_file guid path extension size fingerprint archive in
      let inserted = insert_file_row now n db in
      OnOk-continue (IsFiled path fingerprint size) (IsFiled path fingerprint size)
        (insert_file now n db) _
        (OnOk-continue (IsFiled path fingerprint size) (IsFiled path fingerprint size) inserted _
          (insert_row-IsFiled now guid extension archive db small known)
          (λ _ d h. or_not_found-OnOk (select_file_by_path local_user_id path d) d h))
        (λ _ d h. h)
  write_file_row-IsFiled now guid extension archive db (some x) small known e =
      elim (Bool-cases (eqb_ℤ x.row.size (pos size) && eqb x.row.fingerprint fingerprint)) [
        | inl same ↦ rw (same) (
          known,
          (
            x.row,
            (
              (known_before path fingerprint size) db x e,
              (eqb_ℤ→eq x.row.size size (ground arith), ground arith),
            ),
          ),
        )
        | inr changed ↦
            rw (changed, (upsert_content-known path fingerprint size) db known, known)
              (
                known,
                (
                  record x.row { size = pos size; fingerprint = fingerprint },
                  (
                    find-update (λ (f : FileRow). f.id == x.row.id)
                          (λ (g : FileRow). eqb g.path path)
                          (λ f. record f { size = pos size; fingerprint = fingerprint }) db.files
                          (λ _. refl)
                        ∙ rw ((known_before path fingerprint size) db x e) (ground arith),
                    (refl, refl),
                  ),
                ),
              )
      ]

  -- What adding tags keeps: the row, and every tag of the content.
  abbrev Keeps : Db → Db → Type 0
  Keeps db d =
      (IsFiled path fingerprint size) d
      × ((tag : String)
          → any (is_tag fingerprint tag) db.content_tags ≡ true
          → any (is_tag fingerprint tag) d.content_tags ≡ true)

  tag_content-Keeps :
      (tag : String) (db : Db)
      → (IsFiled path fingerprint size) db
      → OnOk
          (λ d. Keeps db d × (any (is_tag fingerprint tag) d.content_tags ≡ true))
          ((tag_content path fingerprint size) tag db)
  unfolding upsert_content_tag
  tag_content-Keeps tag db filed =
      elim (Bool-cases (any (is_tag fingerprint tag) db.content_tags)) [
        | inl t ↦ rw (t, upsert_content_tag) ((filed, λ _ h. h), t)
        | inr t ↦
            rw (t, filed.0, upsert_content_tag)
              (
                (
                  filed,
                  λ tag' h. ground (
                    arith,
                    any-append (is_tag fingerprint tag') db.content_tags
                        (record { fingerprint = fingerprint; tag = tag } ∷ []),
                  ),
                ),
                any-append (is_tag fingerprint tag) db.content_tags
                      (record { fingerprint = fingerprint; tag = tag } ∷ [])
                    ∙ ground arith,
              )
      ]

  tags-Keeps :
      (tags : List String) (db : Db)
      → (IsFiled path fingerprint size) db
      → OnOk
          (λ d. Keeps db d × (AreTagged path fingerprint size) tags d)
          (for_each tags (tag_content path fingerprint size) db)
  unfolding for_each
  tags-Keeps [] db filed = ((filed, λ _ h. h), tt)
  tags-Keeps (t ∷ tags) db filed =
      OnOk-continue (λ d. Keeps db d × (any (is_tag fingerprint t) d.content_tags ≡ true))
        (λ d. Keeps db d × (AreTagged path fingerprint size) (t ∷ tags) d)
        ((tag_content path fingerprint size) t db) _ (tag_content-Keeps t db filed)
        (λ _ d k.
          OnOk-map (λ d'. Keeps d d' × (AreTagged path fingerprint size) tags d')
            (λ d'. Keeps db d' × (AreTagged path fingerprint size) (t ∷ tags) d')
            (for_each tags (tag_content path fingerprint size) d)
            (λ d' k'. ((k'.0.0, λ tag h. k'.0.1 tag (k.0.1 tag h)), (k'.0.1 t k.1, k'.1)))
            (tags-Keeps tags d k.0.0))

  scan-settles :
      (now guid extension : String) (tags : List String) (archive : Option (String × String))
      (db : Db)
      → size < 2 ^ 31
      → OnOk
          (λ d. (IsFiled path fingerprint size) d × (AreTagged path fingerprint size) tags d)
          (write_scanned_file now guid path extension size fingerprint tags archive db)
  unfolding write_scanned_file
  scan-settles now guid extension tags archive db small =
      let start = (upsert_content fingerprint db).1 in
      OnOk-continue (λ d. has_content fingerprint d.contents ≡ true)
        (λ d. (IsFiled path fingerprint size) d × (AreTagged path fingerprint size) tags d)
        (upsert_content fingerprint db) _
        (OnOk-all (λ d. has_content fingerprint d.contents ≡ true) (upsert_content fingerprint db)
          ((upsert_content-known_after path fingerprint size) db))
        (λ _ d known.
          OnOk-continue (IsFiled path fingerprint size)
            (λ d'. (IsFiled path fingerprint size) d' × (AreTagged path fingerprint size) tags d')
            (write_file_row now guid path extension size fingerprint archive
              (select_file_by_path local_user_id path d) d)
            _
            (write_file_row-IsFiled now guid extension archive d
              (select_file_by_path local_user_id path d) small known refl)
            (λ w d' filed.
              OnOk-continue (λ e. Keeps d' e × (AreTagged path fingerprint size) tags e)
                (λ e. (IsFiled path fingerprint size) e × (AreTagged path fingerprint size) tags e)
                (for_each tags (tag_content path fingerprint size) d') _ (tags-Keeps tags d' filed)
                (λ _ e k. (k.0.0, k.1))))

  -- A file of fewer than 2^31 bytes that a scan wrote, whether as a new row or over an old one, is
  -- unchanged to the next scan: it reports neither a new nor an updated file and leaves the whole
  -- store as it is, its tags included.
  pub write_scanned_file-twice :
      (now guid now' guid' extension : String) (tags : List String)
      (archive : Option (String × String)) (db : Db) (first : Bool × Bool)
      → size < 2 ^ 31
      → (write_scanned_file now guid path extension size fingerprint tags archive db).0 ≡ ok first
      → let after =
          (write_scanned_file now guid path extension size fingerprint tags archive db).1 in
        write_scanned_file now' guid' path extension size fingerprint tags archive after
        ≡ (ok (false, false), after)
  write_scanned_file-twice now guid now' guid' extension tags archive db first small done =
      let written = write_scanned_file now guid path extension size fingerprint tags archive db in
      let settled =
        OnOk-ok (λ d. (IsFiled path fingerprint size) d × (AreTagged path fingerprint size) tags d)
          written done (scan-settles now guid extension tags archive db small) in
      (rescan path fingerprint size) now' guid' extension tags archive written.1 settled.0 settled.1
