-- ===== src/Source/Tags.antt =====
-- core/src/db/datasource.rs: which tags a file comes with.
use read_flow.Prelude.{
  String, Bool, not, List, [], ◌∷◌, any, retain, eqb, if◌then◌else◌, Bool-cases, inl, inr, ◌≡◌,
  refl, ◌∙◌, arith,
}
use read_flow.Db.Tables.{Db, ContentTag, File}
use read_flow.Db.Contents.{select_all_files, select_content_tags_by_fingerprint}
use read_flow.Source.{ApiFile, tagged, hand_out, get_files}

abbrev pub has_fingerprint : String → File → Bool
has_fingerprint fingerprint f = eqb f.fingerprint fingerprint

abbrev tags_of : String → List ContentTag → List ContentTag
tags_of fingerprint = retain (λ t. eqb t.fingerprint fingerprint)

abbrev others : String → List ContentTag → List ContentTag
others fingerprint = retain (λ t. not (eqb t.fingerprint fingerprint))

tags_of-others :
    (fp fp' : String) (tags : List ContentTag)
    → tags_of fp (others fp' tags) ≡ (if eqb fp' fp then [] else tags_of fp tags)
tags_of-others fp fp' [] = ground arith
tags_of-others fp fp' (t ∷ tags) = ground (arith, tags_of-others fp fp' tags)

-- What is handed out for a list of files, file by file.
abbrev pub handed : Db → List File → List File → List ApiFile
handed db before [] = []
handed db before (f ∷ files) =
    tagged f
      (if any (has_fingerprint f.fingerprint) before
        then []
        else select_content_tags_by_fingerprint f.fingerprint db)
      db.covers
    ∷ handed db (f ∷ before) files

-- The entries that are still in the map.
abbrev IsLeft : Db → List File → List ContentTag → Type 0
IsLeft db before tags_by_fp =
    (fp : String)
    → tags_of fp tags_by_fp
      ≡ (if any (has_fingerprint fp) before then [] else tags_of fp db.content_tags)

IsLeft-others :
    (db : Db) (before : List File) (f : File) (tags_by_fp : List ContentTag)
    → IsLeft db before tags_by_fp
    → IsLeft db (f ∷ before) (others f.fingerprint tags_by_fp)
IsLeft-others db before f tags_by_fp left fp =
    tags_of-others fp f.fingerprint tags_by_fp
    ∙ elim (Bool-cases (eqb f.fingerprint fp)) [ inl t ↦ rw t refl | inr t ↦ rw t (left fp) ]

hand_out-handed :
    (db : Db) (before files : List File) (tags_by_fp : List ContentTag)
    → IsLeft db before tags_by_fp
    → hand_out tags_by_fp db.covers files ≡ handed db before files
unfolding hand_out select_content_tags_by_fingerprint
hand_out-handed db before [] tags_by_fp left = refl
hand_out-handed db before (f ∷ files) tags_by_fp left =
    rw
      (
        left f.fingerprint,
        hand_out-handed db (f ∷ before) files (others f.fingerprint tags_by_fp)
            (IsLeft-others db before f tags_by_fp left),
      )
      refl

-- In the list of all files, the first file of each content comes with its tags, as `get_file` hands
-- them out, and every later file of the same content comes with none.
pub get_files-handed :
    (user_id : String) (db : Db) → get_files user_id db ≡ handed db [] (select_all_files user_id db)
unfolding get_files
get_files-handed user_id db =
    hand_out-handed db [] (select_all_files user_id db) db.content_tags (λ fp. refl)
