-- ===== src/Db/Linking/Shared.antt =====
-- The pass of documents.rs after a scan that gives the files of one stem one document.

use read_flow.Db.Linking.{
  FileForLinking, one_fingerprint, distinct_doc_ids, is_document, fully_linked, canonical_id,
  link_to, link_group, files_for_linking, auto_link_documents,
}
use read_flow.Db.Linking.Links.{
  holding, IsRead, IsForeign, BelongsTo, links-IsForeign, links-IsRead,
}
use read_flow.Db.Linking.Groups.{
  AreApart, AreDisjoint, IsShared, IsSpared, IsShared-kept, IsRead-kept, group_rows-IsRead,
  files_for_linking-IsRead, groups_of,
}
use read_flow.Db.Linking.Sound.{
  AreSound, IsChosen, canonical_id-Returns, distinct_doc_ids-Exists, merges-Succeeds,
  links-Succeeds, links-AreSound,
}
use read_flow.Db.Documents.Kept.{shelf}
use read_flow.Db.Metadata.{has_document, AuthorsJson, merge_document_metadata_from_document}
use read_flow.Db.Result.{ok}
use read_flow.Db.Tables.{Db, Content}
use read_flow.Db.Monad.{
  for_each, Succeeds, Succeeds-continue, Succeeds-map, Succeeds-ok, Returns-continue,
}
use read_flow.Prelude.{
  ℕ, ◌==◌, String, true, false, not, Option, none, some, List, [], ◌∷◌, retain, all, All, All-map,
  All-both, All-swap, Bool-cases, inl, inr, ◌≡◌, refl, sym, ◌∙◌, ap, subst, arith,
}

-- The order is one of the groups given: what holds of all of these holds of all that it yields, and
-- back, and it yields each once, so that groups without a common content stay so.
abbrev pub IsReordering : (List (List FileForLinking) → List (List FileForLinking)) → Type 1
IsReordering order =
    ((P : List FileForLinking → Type 0) (groups : List (List FileForLinking))
      → (All P groups → All P (order groups)) × (All P (order groups) → All P groups))
    × ((groups : List (List FileForLinking)) → AreDisjoint groups → AreDisjoint (order groups))

is_document_sound : (id : ℕ) (o : Option ℕ) → is_document id o ≡ true → o ≡ some id
is_document_sound id none h = cc
is_document_sound id (some j) h = ground arith

all-belong :
    (cs : List Content) (id : ℕ) (files : List FileForLinking)
    → All (IsRead cs) files
    → all (λ f. is_document id f.document_id) files ≡ true
    → All (BelongsTo id cs) files
all-belong cs id [] h e = tt
all-belong cs id (f ∷ fs) h e = elim (Bool-cases (is_document id f.document_id)) [
  | inl same ↦ (
    h.0 ∙ ap some (is_document_sound id f.document_id same),
    all-belong cs id fs h.1 (ground arith),
  )
  | inr other ↦ ground arith
]

fully_linked-IsShared :
    (cs : List Content) (ids : List ℕ) (files : List FileForLinking)
    → All (IsRead cs) files
    → fully_linked ids files ≡ true
    → IsShared cs files
fully_linked-IsShared cs [] files h e = cc
fully_linked-IsShared cs (id ∷ []) files h e = inr (id, all-belong cs id files h e)
fully_linked-IsShared cs (id ∷ j ∷ ids) files h e = cc

lacking :
    (fp : String) (files : List FileForLinking)
    → one_fingerprint files ≡ false
    → IsSpared fp files
    → IsForeign files fp
lacking fp files more (inl one) = absurd (cc (one, more))
lacking fp files more (inr foreign) = foreign

module _ (json : AuthorsJson) (fresh : ℕ → String) (now : String) where
  -- What a group's pass leaves: it is shared, and the documents of other contents are as before.
  abbrev IsLinked : List Content → List FileForLinking → Db → Type 0
  IsLinked cs files d =
      IsShared d.contents files
      × ((fp : String) → IsSpared fp files → holding fp d.contents ≡ holding fp cs)
      × AreSound d

  link_to-IsLinked :
      (files : List FileForLinking) (ids : List ℕ) (id : ℕ) (cs : List Content) (db : Db)
      → one_fingerprint files ≡ false
      → All (IsRead cs) files
      → IsChosen cs id db
      → Succeeds (IsLinked cs files) (link_to json fresh now ids files id db)
  link_to-IsLinked files ids id cs db more h (here, e, sound) =
      let losers = retain (λ i. not (i == id)) ids in
      let Same : Db → Type 0 = λ d. AreSound d × (shelf d ≡ shelf db) in
      Succeeds-continue Same (IsLinked cs files)
        (for_each losers (merge_document_metadata_from_document json now id) db) _
        (merges-Succeeds json fresh now id losers db sound here)
        (λ _ d k.
          let same : d.contents ≡ cs = ap (λ s. s.1) k.1 ∙ e in
          links-Succeeds (IsLinked cs files) id files d (
            inr (id, links-IsRead files id d (subst (λ c. All (IsRead c) files) (sym same) h)),
            (λ fp m.
                links-IsForeign files id fp d (lacking fp files more m) ∙ ap (holding fp) same),
            links-AreSound id files d k.0 (ap (λ s. has_document id s.0) k.1 ∙ here),
          ))

  link_group-IsLinked :
      (files : List FileForLinking) (db : Db)
      → AreSound db
      → All (IsRead db.contents) files
      → Succeeds (IsLinked db.contents files) (link_group json fresh now files db)
  unfolding link_group
  link_group-IsLinked files db sound h =
      let ids = distinct_doc_ids files in
      elim (Bool-cases (one_fingerprint files)) [
        | inl one ↦ rw (one, link_group) (inl one, (λ _ _. refl), sound)
        | inr more ↦ elim (Bool-cases (fully_linked ids files)) [
          | inl full ↦
              rw (more, full, link_group)
                (fully_linked-IsShared db.contents ids files h full, (λ _ _. refl), sound)
          | inr partly ↦
              rw (more, partly, link_group)
                (Returns-continue (IsChosen db.contents) (IsLinked db.contents files)
                  (canonical_id json fresh now ids db) _
                  (canonical_id-Returns json fresh now ids db sound
                    (distinct_doc_ids-Exists db.documents db.contents files sound.1 h))
                  (λ id d k. link_to-IsLinked files ids id db.contents d more h k))
        ]
      ]

  abbrev IsPassed : List Content → List (List FileForLinking) → Db → Type 0
  IsPassed cs groups d =
      All (IsShared d.contents) groups
      × ((fp : String) → All (IsSpared fp) groups → holding fp d.contents ≡ holding fp cs)
      × AreSound d

  groups-IsPassed :
      (groups : List (List FileForLinking)) (db : Db)
      → AreSound db
      → AreDisjoint groups
      → All (All (IsRead db.contents)) groups
      → Succeeds (IsPassed db.contents groups) (for_each groups (link_group json fresh now) db)
  unfolding for_each
  groups-IsPassed [] db sound apart h = (tt, (λ _ _. refl), sound)
  groups-IsPassed (g ∷ gs) db sound apart h =
      let pass = link_group json fresh now in
      Succeeds-continue (IsLinked db.contents g) (IsPassed db.contents (g ∷ gs)) (pass g db) _
        (link_group-IsLinked g db sound h.0)
        (λ _ d (shared, kept, left).
          Succeeds-map (IsPassed d.contents gs) (IsPassed db.contents (g ∷ gs)) (for_each gs pass d)
            (λ d' (rest, rest_kept, rest_left). (
              (
                IsShared-kept d.contents d'.contents g
                    (All-map (λ f. All (λ x. IsForeign x f.fingerprint) gs)
                      (λ f. holding f.fingerprint d'.contents ≡ holding f.fingerprint d.contents) g
                      (λ f m. rest_kept f.fingerprint (
                        All-map (λ x. IsForeign x f.fingerprint) (IsSpared f.fingerprint) gs
                          (λ x. inr) m))
                      (All-swap (λ x (f : FileForLinking). IsForeign x f.fingerprint) gs g apart.0))
                    shared,
                rest,
              ),
              (λ fp z. rest_kept fp z.1 ∙ kept fp z.0),
              rest_left,
            ))
            (groups-IsPassed gs d left apart.1 (
              All-both (AreApart g) (All (IsRead db.contents)) (All (IsRead d.contents)) gs
                (λ x. IsRead-kept db.contents d.contents g x (λ fp m. kept fp (inr m))) apart.0
                h.1)))

  -- The pass succeeds on groups without a common content.
  pub auto_link_documents-IsPassed :
      (order : List (List FileForLinking) → List (List FileForLinking)) (db : Db)
      → AreSound db
      → IsReordering order
      → AreDisjoint (groups_of db)
      → let r = auto_link_documents json fresh now order db in
        (r.0 ≡ ok tt)
        × All (IsShared r.1.contents) (groups_of db)
        × ((fp : String)
            → All (IsSpared fp) (groups_of db)
            → holding fp r.1.contents ≡ holding fp db.contents)
        × AreSound r.1
  unfolding auto_link_documents
  auto_link_documents-IsPassed order db sound reorder apart =
      let groups = groups_of db in
      let read =
        group_rows-IsRead db.contents (files_for_linking db.contents db.files) []
          (files_for_linking-IsRead db.contents db.files) tt in
      let result = for_each (order groups) (link_group json fresh now) db in
      let (done, (shared, kept, left)) = Succeeds-ok (IsPassed db.contents (order groups)) result (
        groups-IsPassed (order groups) db sound (reorder.1 groups apart)
          ((reorder.0 (All (IsRead db.contents)) groups).0 read)) in
      (
        done,
        (reorder.0 (IsShared result.1.contents) groups).1 shared,
        (λ fp spared. kept fp ((reorder.0 (IsSpared fp) groups).0 spared)),
        left,
      )
