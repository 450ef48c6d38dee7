-- ===== src/Db/Documents/Success.antt =====
-- core/src/db/dao/documents.rs: a merge without an audit context has no way to fail on a store whose
-- references hold.
use read_flow.Prelude.{
  any-find, ℕ, ◌==◌, String, Bool, true, false, not, Option, none, some, List, [], ◌∷◌, any, update,
  find, eqb, if◌then◌else◌, All, All-append, All-update, All-retain, All-map, Bool-cases,
  Option-cases, inl, inr, ◌≡◌, refl, sym, ◌∙◌, ap, arith, subst,
}
use mathlib.Core.Option
use mathlib.Core.Option.{some-injective}
use read_flow.Db.Audit.{document_target}
use read_flow.Db.Result.{Result, ok, err}
use read_flow.Db.Tables.{
  Db, Document, Content, AuditTargetSnapshot, DocumentUserMetadata, ExtractedMetadata,
}
use read_flow.Db.Monad.{
  Succeeds, Succeeds-continue, Succeeds-with, Succeeds-map, continue, commit, conclude,
}
use read_flow.Db.Metadata.{
  AuthorsJson, cover_known, has_document, get_document_user_metadata, merge_into, merged_row,
  extracted_row, propagate_cover, merge_source, merge_document_metadata_from_document,
  merge_document_metadata_from_extracted, extracted_from, lacks_cover,
}
use read_flow.Db.Documents.{
  document_title_snapshot, Times, absorb, merge_found, merge_loser, merge_losers, merge_block,
  reassign_contents, delete_document, report_merge, merge_documents_impl, document_id_of, linked_to,
  link, unlink,
}
use read_flow.Db.Documents.Keys.{guid_of-id_of, id_of}
use read_flow.Db.Documents.Owner.{absorbed, merged_one, merged_one-IsReady, IsReady}
use read_flow.Db.Documents.Kept.{merge_document-shelf, shelf}

pub find-All :
    {A : Type 0} (P : A → Type 0) (q : A → Bool) (xs : List A) (x : A)
    → find q xs ≡ some x
    → All P xs
    → P x
find-All P q [] x e h = cc
find-All P q (y ∷ xs) x e h = pick (λ e'. find-All P q xs x e' h.1) (q y) e
  where
    pick :
        (find q xs ≡ some x → P x) → (b : Bool) → (if b then some y else find q xs) ≡ some x → P x
    pick rest true e' = subst P (some-injective y x e') h.0
    pick rest false e' = rest e'

abbrev pub HasKnownCover : List Content → DocumentUserMetadata → Type 0
HasKnownCover contents m = cover_known m.selected_cover_fingerprint contents ≡ true

-- The foreign keys of the covers hold.
abbrev pub CoversKnown : Db → Type 0
CoversKnown db = All (HasKnownCover db.contents) db.metadata

module _ (json : AuthorsJson) (contents : List Content) where
  abbrev Kept : Db → Type 0
  Kept d = (d.contents ≡ contents) × All (HasKnownCover contents) d.metadata

  merge_into-Succeeds :
      (now : String) (w : ℕ) (meta : ExtractedMetadata) (db : Db)
      (row : Option DocumentUserMetadata)
      → get_document_user_metadata w db ≡ row
      → has_document w db.documents ≡ true
      → Kept db
      → Succeeds Kept (merge_into json now w meta row db)
  unfolding merge_into merged_row extracted_row get_document_user_metadata
  merge_into-Succeeds now w meta db none e has kept =
      rw (has, merge_into)
        (
          kept.0,
          All-append (HasKnownCover contents) db.metadata (extracted_row json now w meta ∷ [])
              kept.1 (refl, tt),
        )
  merge_into-Succeeds now w meta db (some existing) e has kept =
      let own =
        find-All (HasKnownCover contents) (λ m. m.document_id == w) db.metadata existing e kept.1 in
      (
        kept.0,
        All-update (HasKnownCover contents) (λ m. m.document_id == w)
            (λ _. merged_row json now meta existing) db.metadata (λ _ _. own) kept.1,
      )

  propagate_cover-Succeeds :
      (w : ℕ) (cover : Option String) (db : Db)
      → cover_known cover contents ≡ true
      → Kept db
      → Succeeds Kept (propagate_cover json w cover db)
  unfolding propagate_cover
  propagate_cover-Succeeds w none db has kept = kept
  propagate_cover-Succeeds w (some fp) db has kept =
      let written =
        All-update (HasKnownCover contents) (lacks_cover w)
          (λ m. record m { selected_cover_fingerprint = some fp }) db.metadata (λ _ _. has)
          kept.1 in
      elim (Bool-cases (any (lacks_cover w) db.metadata)) [
        | inl t ↦ rw (t, kept.0, has, propagate_cover) (refl, written)
        | inr t ↦ rw (t, propagate_cover) (kept.0, written)
      ]

  merge_source-Succeeds :
      (now : String) (w : ℕ) (source : Option DocumentUserMetadata) (source_id : ℕ) (db : Db)
      → get_document_user_metadata source_id db ≡ source
      → has_document w db.documents ≡ true
      → Kept db
      → Succeeds Kept (merge_source json now w source db)
  unfolding merge_source merge_document_metadata_from_extracted get_document_user_metadata
  merge_source-Succeeds now w none source_id db e has kept = kept
  merge_source-Succeeds now w (some src) source_id db e has kept =
      let own =
        find-All (HasKnownCover contents) (λ m. m.document_id == source_id) db.metadata src e
          kept.1 in
      Succeeds-continue Kept Kept
        (merge_into json now w (extracted_from json src) (get_document_user_metadata w db) db) _
        (merge_into-Succeeds now w (extracted_from json src) db (get_document_user_metadata w db)
          refl has kept)
        (λ _ d k. propagate_cover-Succeeds w src.selected_cover_fingerprint d own k)

  pub merge_document-Succeeds :
      (now : String) (w source_id : ℕ) (db : Db)
      → CoversKnown db
      → has_document w db.documents ≡ true
      → db.contents ≡ contents
      → Succeeds
          (λ d. CoversKnown d × (shelf d ≡ shelf db))
          (merge_document_metadata_from_document json now w source_id db)
  unfolding merge_document_metadata_from_document
  merge_document-Succeeds now w source_id db known has e =
      let r = merge_document_metadata_from_document json now w source_id db in
      let Same : Db → Type 0 = λ d. shelf d ≡ shelf db in
      Succeeds-map (λ d. Kept d × Same d) (λ d. CoversKnown d × Same d) r
        (λ d k. (subst (λ cs. All (HasKnownCover cs) d.metadata) (sym k.0.0) k.0.1, k.1))
        (Succeeds-with Kept Same r
          (merge_source-Succeeds now w (get_document_user_metadata source_id db) source_id db refl
            has (e, subst (λ cs. All (HasKnownCover cs) db.metadata) e known))
          (merge_document-shelf json now w source_id db))

any-update :
    {A : Type 0} (p q : A → Bool) (f : A → A) (xs : List A)
    → ((x : A) → q (f x) ≡ q x)
    → any q (update p f xs) ≡ any q xs
any-update p q f [] keep = refl
any-update p q f (x ∷ xs) keep = ground (arith, keep x, any-update p q f xs keep)

pub known-update :
    (p : Content → Bool) (f : Content → Content) (cs : List Content) (c : Option String)
    → ((x : Content) → (f x).fingerprint ≡ x.fingerprint)
    → cover_known c (update p f cs) ≡ cover_known c cs
known-update p f cs none keep = refl
known-update p f cs (some fp) keep =
    any-update p (λ c. eqb c.fingerprint fp) f cs (λ x. ap (λ s. eqb s fp) (keep x))

CoversKnown-absorbed :
    (w l : ℕ) (db : Db)
    → CoversKnown db
    → CoversKnown (delete_document l (reassign_contents w l db))
CoversKnown-absorbed w l db known =
    let moved = update (linked_to l) (link w) db.contents in
    let left = update (linked_to l) unlink moved in
    All-retain (HasKnownCover left) (λ m. not (m.document_id == l)) db.metadata
      (All-map (HasKnownCover db.contents) (HasKnownCover left) db.metadata
        (λ m h.
          known-update (linked_to l) unlink moved m.selected_cover_fingerprint (λ _. refl)
          ∙ known-update (linked_to l) (link w) db.contents m.selected_cover_fingerprint (λ _. refl)
          ∙ h)
        known)

IsReady-has_document :
    (w : ℕ) (winner : String) (db : Db)
    → IsReady w winner (shelf db)
    → has_document w db.documents ≡ true
IsReady-has_document w winner db ready = ground (
  arith,
  any-find (λ (d : Document). d.id == w) db.documents,
  guid_of-id_of w winner db.documents ready.0 ready.1,
)

-- The state between two losers.
abbrev Going : ℕ → String → Db → Type 0
Going w winner db = IsReady w winner (shelf db) × CoversKnown db

module _ (json : AuthorsJson) (times : Times) (winner : String) (w : ℕ) where
  abbrev Acc : Type 0
  Acc = List AuditTargetSnapshot × ℕ

  absorb-Succeeds :
      (g : String) (l : ℕ) (acc : Acc) (db : Db)
      → Going w winner db
      → id_of g db.documents ≡ some l
      → eqb g winner ≡ false
      → Succeeds
          (λ d. CoversKnown d × (shelf d ≡ absorbed w l (shelf db)))
          (absorb json times winner w g l acc db)
  unfolding absorb
  absorb-Succeeds g l acc db going e ne =
      let merging = merge_document_metadata_from_document json times.updated_at w l db in
      Succeeds-continue (λ d. CoversKnown d × (shelf d ≡ shelf db))
        (λ d. CoversKnown d × (shelf d ≡ absorbed w l (shelf db))) merging _
        (merge_document-Succeeds json db.contents times.updated_at w l db going.1
          (IsReady-has_document w winner db going.0) refl)
        (λ _ d k. (CoversKnown-absorbed w l d k.0, ap (absorbed w l) k.1))

  merge_loser-Succeeds :
      (g : String) (acc : Acc) (db : Db)
      → Going w winner db
      → Succeeds
          (λ d. CoversKnown d × (shelf d ≡ merged_one w winner g (shelf db)))
          (merge_loser json times winner w g acc db)
  unfolding merge_loser merge_found
  merge_loser-Succeeds g acc db going = elim (Bool-cases (eqb g winner)) [
    | inl same ↦ rw (same, merge_loser, merged_one) (going.1, refl)
    | inr other ↦ elim (Option-cases (document_id_of g db)) [
      | inl q ↦ rw (other, q, merge_loser, merged_one) (going.1, refl)
      | inr (l, q) ↦
          rw (other, q, merge_loser, merged_one) (absorb-Succeeds g l acc db going q other)
    ]
  ]

  merge_losers-Succeeds :
      (losers : List String) (acc : Acc) (db : Db)
      → Going w winner db
      → Succeeds (λ _. Unit {0}) (merge_losers json times winner w losers acc db)
  unfolding merge_losers
  merge_losers-Succeeds [] acc db going = tt
  merge_losers-Succeeds (g ∷ losers) acc db going =
      Succeeds-continue (λ d. CoversKnown d × (shelf d ≡ merged_one w winner g (shelf db)))
        (λ _. Unit) (merge_loser json times winner w g acc db) _
        (merge_loser-Succeeds g acc db going)
        (λ acc' d k. merge_losers-Succeeds losers acc' d (
          subst (IsReady w winner) (sym k.1) (merged_one-IsReady w winner g (shelf db) going.0),
          k.0,
        ))

  finish-merge :
      (losers : List String) (r : Result Acc × Db) (before : Db)
      → Succeeds (λ _. Unit {0}) r
      → (continue
          (conclude before (continue r (λ a. λ db. (ok (commit (some a.1)), db))))
          (report_merge json times winner none)).0
        ≡ ok tt
  unfolding report_merge
  finish-merge losers (ok a, db) before s = refl
  finish-merge losers (err e, db) before s = absurd s

  -- A merge without an audit context succeeds where the winner is a document, ids and guids are
  -- unique, and every selected cover is a known content.
  pub merge_documents-ok :
      (losers : List String) (db : Db)
      → IsReady w winner (shelf db)
      → CoversKnown db
      → (merge_documents_impl json times winner losers none db).0 ≡ ok tt
  unfolding merge_documents_impl merge_block
  merge_documents-ok losers db ready known =
      rw (ready.1, merge_documents_impl)
        (finish-merge losers
          (merge_losers json times winner w losers
            (document_target winner (Option.get_or (document_title_snapshot w db) "") ∷ [], 0) db)
          db (merge_losers-Succeeds losers _ db (ready, known)))
