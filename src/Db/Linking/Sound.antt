-- ===== src/Db/Linking/Sound.antt =====
-- The pass of documents.rs after a scan has no way to fail on a store whose references hold: what
-- each of its statements needs and leaves.

use read_flow.Db.Linking.{FileForLinking, distinct_doc_ids, canonical_id, link_content}
use read_flow.Db.Linking.Links.{held, IsRead}
use read_flow.Db.Documents.{link, upsert_document}
use read_flow.Db.Documents.Success.{
  CoversKnown, HasKnownCover, find-All, known-update, merge_document-Succeeds,
}
use read_flow.Db.Documents.Kept.{shelf}
use read_flow.Db.Metadata.{AuthorsJson, has_document, merge_document_metadata_from_document}
use read_flow.Db.Result.{ok}
use read_flow.Db.Tables.{Db, Content, Document}
use read_flow.Db.Monad.{for_each, Succeeds, Succeeds-continue, Succeeds-map, Returns, Returns-pure}
use mathlib.Core.Option.{some-injective}
use read_flow.Prelude.{
  ℕ, suc, ◌==◌, String, Bool, true, not, Option, none, some, List, [], ◌∷◌, ◌++◌, find, retain,
  any-append, eqb, All, All-map, All-update, All-retain, Bool-cases, inl, inr, ◌≡◌, refl, sym, ◌∙◌,
  ap, subst, arith,
}

abbrev pub Exists : List Document → ℕ → Type 0
Exists ds id = has_document id ds ≡ true

abbrev HasOwner : List Document → Option ℕ → Type 0
HasOwner ds none = Unit
HasOwner ds (some id) = Exists ds id

-- The foreign keys of the covers and those of the contents hold.
abbrev pub AreSound : Db → Type 0
AreSound db = CoversKnown db × All (λ c. HasOwner db.documents c.document_id) db.contents

HasOwner-held :
    (ds : List Document) (o : Option Content) (i : Option ℕ)
    → ((c : Content) → o ≡ some c → HasOwner ds c.document_id)
    → held o ≡ some i
    → HasOwner ds i
HasOwner-held ds none i own h = cc
HasOwner-held ds (some c) i own h =
    subst (HasOwner ds) (some-injective c.document_id i h) (own c refl)

HasOwner-IsRead :
    (ds : List Document) (cs : List Content) (f : FileForLinking)
    → All (λ c. HasOwner ds c.document_id) cs
    → IsRead cs f
    → HasOwner ds f.document_id
HasOwner-IsRead ds cs f own =
    let at : Content → Bool = λ c. eqb c.fingerprint f.fingerprint in
    HasOwner-held ds (find at cs) f.document_id
      (λ c e. find-All (λ c. HasOwner ds c.document_id) at cs c e own)

prepend-Exists :
    (ds : List Document) (o : Option ℕ) (ids : List ℕ)
    → HasOwner ds o
    → All (Exists ds) ids
    → All (Exists ds) (elim o [ none ↦ ids | some id ↦ id ∷ retain (λ j. not (j == id)) ids ])
prepend-Exists ds none ids k h = h
prepend-Exists ds (some id) ids k h = (k, All-retain (Exists ds) (λ j. not (j == id)) ids h)

pub distinct_doc_ids-Exists :
    (ds : List Document) (cs : List Content) (files : List FileForLinking)
    → All (λ c. HasOwner ds c.document_id) cs
    → All (IsRead cs) files
    → All (Exists ds) (distinct_doc_ids files)
distinct_doc_ids-Exists ds cs [] own h = tt
distinct_doc_ids-Exists ds cs (f ∷ fs) own h =
    prepend-Exists ds f.document_id (distinct_doc_ids fs) (HasOwner-IsRead ds cs f own h.0)
      (distinct_doc_ids-Exists ds cs fs own h.1)

-- A new document.
find-Exists :
    (q : Document → Bool) (ds : List Document) (d : Document) → find q ds ≡ some d → Exists ds d.id
find-Exists q [] d h = cc
find-Exists q (e ∷ ds) d h = elim (Bool-cases (q e)) [
  | inl t ↦ ground (arith, find-Exists q ds d)
  | inr t ↦ ground (arith, find-Exists q ds d)
]

HasOwner-append : (ds es : List Document) (o : Option ℕ) → HasOwner ds o → HasOwner (ds ++ es) o
HasOwner-append ds es none h = tt
HasOwner-append ds es (some id) h = rw (any-append, h) refl

-- The document that a group gets is there, the contents are as before, and the references hold.
abbrev pub IsChosen : List Content → ℕ → Db → Type 0
IsChosen cs id d = Exists d.documents id × (d.contents ≡ cs) × AreSound d

upserted :
    (guid : String) (db : Db) (o : Option Document)
    → find (λ d. eqb d.guid guid) db.documents ≡ o
    → AreSound db
    → Returns
        (λ (d : Document). IsChosen db.contents d.id)
        (elim o [
          | some d ↦ (ok d, db)
          | none ↦
              let d : Document = record { id = db.next_document; guid = guid } in
              (
                ok d,
                record db {
                  documents = db.documents ++ d ∷ [];
                  next_document = suc db.next_document;
                },
              )
        ])
upserted guid db (some d) q sound =
    (find-Exists (λ (x : Document). eqb x.guid guid) db.documents d q, refl, sound)
upserted guid db none q sound =
    let d : Document = record { id = db.next_document; guid = guid } in
    (
      rw any-append (ground arith),
      refl,
      (
        sound.0,
        All-map (λ c. HasOwner db.documents c.document_id)
            (λ c. HasOwner (db.documents ++ d ∷ []) c.document_id) db.contents
            (λ c. HasOwner-append db.documents (d ∷ []) c.document_id) sound.1,
      ),
    )

upsert_document-Returns :
    (guid : String) (db : Db)
    → AreSound db
    → Returns (λ (d : Document). IsChosen db.contents d.id) (upsert_document guid db)
unfolding upsert_document
upsert_document-Returns guid db =
    upserted guid db (find (λ (d : Document). eqb d.guid guid) db.documents) refl

module _ (json : AuthorsJson) (fresh : ℕ → String) (now : String) where
  pub canonical_id-Returns :
      (ids : List ℕ) (db : Db)
      → AreSound db
      → All (Exists db.documents) ids
      → Returns (IsChosen db.contents) (canonical_id json fresh now ids db)
  canonical_id-Returns [] db sound h =
      Returns-pure (λ (d : Document). d.id) (IsChosen db.contents)
        (upsert_document (fresh db.next_document) db)
        (upsert_document-Returns (fresh db.next_document) db sound)
  canonical_id-Returns (id ∷ ids) db sound h = (h.0, refl, sound)

  pub merges-Succeeds :
      (id : ℕ) (ids : List ℕ) (db : Db)
      → AreSound db
      → Exists db.documents id
      → Succeeds
          (λ d. AreSound d × (shelf d ≡ shelf db))
          (for_each ids (merge_document_metadata_from_document json now id) db)
  unfolding for_each
  merges-Succeeds id [] db sound here = (sound, refl)
  merges-Succeeds id (i ∷ ids) db sound here =
      let merge = merge_document_metadata_from_document json now id in
      let Same : Db → Type 0 = λ d. AreSound d × (shelf d ≡ shelf db) in
      Succeeds-continue (λ d. CoversKnown d × (shelf d ≡ shelf db)) Same (merge i db) _
        (merge_document-Succeeds json db.contents now id i db sound.0 here refl)
        (λ _ d k.
          Succeeds-map (λ d'. AreSound d' × (shelf d' ≡ shelf d)) Same (for_each ids merge d)
            (λ _ m. (m.0, m.1 ∙ k.1))
            (merges-Succeeds id ids d
              (
                k.0,
                subst
                    (λ (s : List Document × List Content).
                      All (λ c. HasOwner s.0 c.document_id) s.1)
                    (sym k.1) sound.1,
              )
              (ap (λ s. has_document id s.0) k.1 ∙ here)))

link_content-AreSound :
    (fp : String) (id : ℕ) (db : Db)
    → AreSound db
    → Exists db.documents id
    → AreSound (link_content fp id db).1
link_content-AreSound fp id db sound here =
    let at : Content → Bool = λ c. eqb c.fingerprint fp in
    (
      All-map (HasKnownCover db.contents) (HasKnownCover (link_content fp id db).1.contents)
          db.metadata
          (λ m h.
            known-update at (link id) db.contents m.selected_cover_fingerprint (λ _. refl) ∙ h)
          sound.0,
      All-update (λ c. HasOwner db.documents c.document_id) at (link id) db.contents (λ _ _. here)
          sound.1,
    )

pub links-Succeeds :
    (P : Db → Type 0) (id : ℕ) (files : List FileForLinking) (db : Db)
    → P (for_each files (λ f. link_content f.fingerprint id) db).1
    → Succeeds P (for_each files (λ f. link_content f.fingerprint id) db)
unfolding for_each
links-Succeeds P id [] db p = p
links-Succeeds P id (f ∷ fs) db p = links-Succeeds P id fs (link_content f.fingerprint id db).1 p

pub links-AreSound :
    (id : ℕ) (files : List FileForLinking) (db : Db)
    → AreSound db
    → Exists db.documents id
    → AreSound (for_each files (λ f. link_content f.fingerprint id) db).1
unfolding for_each
links-AreSound id [] db sound here = sound
links-AreSound id (f ∷ fs) db sound here =
    links-AreSound id fs (link_content f.fingerprint id db).1
      (link_content-AreSound f.fingerprint id db sound here) here
