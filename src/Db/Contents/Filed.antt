-- ===== src/Db/Contents/Filed.antt =====
-- core/src/db/dao/files.rs: a scan that meets a file as it is stored.
use mathlib.Core.Option
use mathlib.Core.Option.{some-injective}
use read_flow.Prelude.{
  ℕ, String, true, false, Option, none, some, List, [], ◌∷◌, All, any, any-append, any-find, find,
  eqb, eqb_refl, Bool-cases, Option-cases, inl, inr, ◌≡◌, refl, ◌∙◌, ap, arith,
}
use read_flow.Db.Result.{ok}
use read_flow.Db.Tables.{pos, Db, Content, FileRow, File}
use read_flow.Db.Monad.{M, for_each}
use read_flow.Db.Contents.{
  status_of, guid_of, has_content, upsert_content, is_tag, upsert_content_tag, join_file,
  select_file_by_path, local_user_id, write_file_row, write_scanned_file,
}

module _ (path fingerprint : String) (size : ℕ) where
  -- The row under the path is the one that the scan saw.
  abbrev pub IsFiled : Db → Type 0
  IsFiled db =
      (has_content fingerprint db.contents ≡ true)
      × ((f : FileRow) × ((find (λ (g : FileRow). eqb g.path path) db.files ≡ some f)
            × ((f.size ≡ pos size) × (f.fingerprint ≡ fingerprint))))

  abbrev pub AreTagged : List String → Db → Type 0
  AreTagged tags db = All (λ tag. any (is_tag fingerprint tag) db.content_tags ≡ true) tags

  pub upsert_content-known :
      (db : Db)
      → has_content fingerprint db.contents ≡ true
      → upsert_content fingerprint db ≡ (ok tt, db)
  unfolding upsert_content
  upsert_content-known db h = rw (h, upsert_content) refl

  pub upsert_content-known_after :
      (db : Db) → has_content fingerprint (upsert_content fingerprint db).1.contents ≡ true
  unfolding upsert_content
  upsert_content-known_after db = elim (Bool-cases (has_content fingerprint db.contents)) [
    | inl t ↦ rw (t, upsert_content) t
    | inr t ↦
        rw (t, upsert_content)
          (ground (
            arith,
            any-append (λ (c : Content). eqb c.fingerprint fingerprint) db.contents
                (record { fingerprint = fingerprint; document_id = none } ∷ []),
          ))
  ]

  abbrev pub tag_content : String → M (Unit {0})
  tag_content tag = upsert_content_tag (record { fingerprint = fingerprint; tag = tag })

  tags-known :
      (tags : List String) (db : Db)
      → AreTagged tags db
      → for_each tags tag_content db ≡ (ok tt, db)
  unfolding for_each upsert_content_tag
  tags-known [] db h = refl
  tags-known (t ∷ tags) db h = rw (h.0) (tags-known tags db h.1)

  found :
      (db : Db) (f : FileRow)
      → has_content f.fingerprint db.contents ≡ true
      → find (λ (g : FileRow). eqb g.path path) db.files ≡ some f
      → (x : File) × ((select_file_by_path local_user_id path db ≡ some x) × (x.row ≡ f))
  unfolding select_file_by_path join_file Option.bind
  found db f known e =
      elim (Option-cases (find (λ (c : Content). eqb c.fingerprint f.fingerprint) db.contents)) [
        | inl q ↦ absurd (
            ground (arith, any-find (λ (c : Content). eqb c.fingerprint f.fingerprint) db.contents))
        | inr (c, q) ↦ rw (e, q) (_, (refl, refl))
      ]

  joined_row :
      (db : Db) (f : FileRow) (x : File) → join_file local_user_id db f ≡ some x → f ≡ x.row
  unfolding join_file Option.bind
  joined_row db f x e = go (find (λ (c : Content). eqb c.fingerprint f.fingerprint) db.contents) e
    where
      go :
          (o : Option Content)
          → Option.map
              (λ (c : Content). record {
                row = f;
                status = status_of local_user_id f.fingerprint db.reading_state;
                document_guid = Option.bind c.document_id (λ id. guid_of id db.documents);
              })
              o
            ≡ some x
          → f ≡ x.row
      go none q = cc
      go (some c) q = ap (λ (y : File). y.row) (some-injective _ x q)

  pub known_before :
      (db : Db) (x : File)
      → select_file_by_path local_user_id path db ≡ some x
      → find (λ (g : FileRow). eqb g.path path) db.files ≡ some x.row
  unfolding select_file_by_path Option.bind
  known_before db x e = go (find (λ (g : FileRow). eqb g.path path) db.files) e
    where
      go :
          (o : Option FileRow)
          → Option.bind o (join_file local_user_id db) ≡ some x
          → o ≡ some x.row
      go none q = cc
      go (some f) q = ap some (joined_row db f x q)

  write-unchanged :
      (now guid extension : String) (archive : Option (String × String)) (db : Db) (x : File)
      → x.row.size ≡ pos size
      → x.row.fingerprint ≡ fingerprint
      → write_file_row now guid path extension size fingerprint archive (some x) db
        ≡ (ok (false, false), db)
  unfolding write_file_row
  write-unchanged now guid extension archive db x a b =
      rw (a, b, eqb_refl fingerprint) (ground arith)

  pub rescan :
      (now guid extension : String) (tags : List String) (archive : Option (String × String))
      (db : Db)
      → IsFiled db
      → AreTagged tags db
      → write_scanned_file now guid path extension size fingerprint tags archive db
        ≡ (ok (false, false), db)
  unfolding write_scanned_file
  rescan now guid extension tags archive db filed tagged =
      let f = filed.1.0 in
      let x = found db f (rw filed.1.1.1.1 filed.0) filed.1.1.0 in
      rw
        (
          upsert_content-known db filed.0,
          x.1.0,
          write-unchanged now guid extension archive db x.0
              (ap (λ (r : FileRow). r.size) x.1.1 ∙ filed.1.1.1.0)
              (ap (λ (r : FileRow). r.fingerprint) x.1.1 ∙ filed.1.1.1.1),
          tags-known tags db tagged,
        )
        refl
