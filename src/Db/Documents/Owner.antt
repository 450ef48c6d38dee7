-- ===== src/Db/Documents/Owner.antt =====
-- The abstract view of core/src/db/dao/documents.rs: which document owns a content, and what a
-- merge does to that.
use read_flow.Prelude.{
  eqb_refl, ℕ, ◌==◌, String, Bool, false, Option, none, some, List, [], ◌∷◌, any, find, update,
  find-update, eqb, eqb→eq, if◌then◌else◌, Bool-cases, Option-cases, inl, inr, ◌≡◌, refl, sym, ◌∙◌,
  ap, arith,
}
use read_flow.Db.Tables.{Document, Content}
use read_flow.Db.Contents.{guid_of}
use read_flow.Db.Documents.{link, linked_to, unlink}
use read_flow.Db.Documents.Keys.{
  AreKeyed, AreKeyed-without, id_of, without, guid_of-without, guid_of-id_of, id_of-guid_of,
}

-- The two tables that ownership is about.
abbrev pub Shelf : Type 0
Shelf = List Document × List Content

abbrev guid_under : List Document → Option ℕ → Option String
guid_under ds none = none
guid_under ds (some id) = guid_of id ds

abbrev holder : List Document → Option Content → Option String
holder ds none = none
holder ds (some c) = guid_under ds c.document_id

-- The guid of the document that a content belongs to.
abbrev pub owner : String → Shelf → Option String
owner fp (ds, cs) = holder ds (find (λ c. eqb c.fingerprint fp) cs)

-- What a merge promises: the losers' contents are the winner's.
abbrev pub redirect : String → List String → Option String → Option String
redirect winner losers none = none
redirect winner losers (some g) = some (if any (eqb g) losers then winner else g)

abbrev pub absorbed : ℕ → ℕ → Shelf → Shelf
absorbed w l (ds, cs) =
    (without l ds, update (linked_to l) unlink (update (linked_to l) (link w) cs))

abbrev pub absorbed_if : ℕ → Shelf → Option ℕ → Shelf
absorbed_if w shelf none = shelf
absorbed_if w shelf (some l) = absorbed w l shelf

abbrev pub merged_one : ℕ → String → String → Shelf → Shelf
merged_one w winner g shelf = if eqb g winner then shelf else absorbed_if w shelf (id_of g shelf.0)

unfoldable pub merged : ℕ → String → List String → Shelf → Shelf
merged w winner [] shelf = shelf
merged w winner (g ∷ losers) shelf = merged w winner losers (merged_one w winner g shelf)

abbrev pub IsReady : ℕ → String → Shelf → Type 0
IsReady w winner shelf = AreKeyed shelf.0 × (id_of winner shelf.0 ≡ some w)

module _ (w : ℕ) (winner : String) where
  differ :
      (l : ℕ) (g : String) (ds : List Document)
      → AreKeyed ds
      → id_of winner ds ≡ some w
      → id_of g ds ≡ some l
      → eqb g winner ≡ false
      → (w == l) ≡ false
  differ l g ds k h e ne = ground (arith, guid_of-id_of w winner ds k h, guid_of-id_of l g ds k e)

  rewire : ℕ → Option ℕ → Option ℕ
  rewire l none = none
  rewire l (some j) = if j == l then some w else some j

  holder-absorbed :
      (l : ℕ) (g : String) (ds : List Document) (i : Option ℕ)
      → AreKeyed ds
      → id_of winner ds ≡ some w
      → id_of g ds ≡ some l
      → (w == l) ≡ false
      → guid_under (without l ds) (rewire l i) ≡ redirect winner (g ∷ []) (guid_under ds i)
  unfolding rewire
  holder-absorbed l g ds none k h e ne = refl
  holder-absorbed l g ds (some j) k h e ne = elim (Bool-cases (j == l)) [
    | inl same ↦
        ground
          (arith, guid_of-without l w ds, guid_of-id_of w winner ds k h, guid_of-id_of l g ds k e)
    | inr other ↦ elim (Option-cases (guid_of j ds)) [
      | inl q ↦ ground (arith, guid_of-without l j ds)
      | inr (g', q) ↦ ground (arith, guid_of-without l j ds, id_of-guid_of j g' ds k q)
    ]
  ]

  relinked :
      (l : ℕ) (c : Content)
      → (w == l) ≡ false
      → let c' = if linked_to l c then link w c else c in
        (if linked_to l c' then unlink c' else c').document_id ≡ rewire l c.document_id
  unfolding rewire
  relinked l c ne = ground arith

  owner-absorbed :
      (l : ℕ) (g fp : String) (shelf : Shelf)
      → IsReady w winner shelf
      → id_of g shelf.0 ≡ some l
      → eqb g winner ≡ false
      → owner fp (absorbed w l shelf) ≡ redirect winner (g ∷ []) (owner fp shelf)
  owner-absorbed l g fp (ds, cs) ready e ne =
      let apart = differ l g ds ready.0 ready.1 e ne in
      let at : Content → Bool = λ c. eqb c.fingerprint fp in
      rw
        (
          find-update (linked_to l) at unlink (update (linked_to l) (link w) cs) (λ c. refl),
          find-update (linked_to l) at (link w) cs (λ c. refl),
        )
        (elim (Option-cases (find at cs)) [
          | inl q ↦ rw q (ground arith)
          | inr (c, q) ↦
              rw (q, relinked l c apart)
                (holder-absorbed l g ds c.document_id ready.0 ready.1 e apart)
        ])

  IsReady-absorbed :
      (l : ℕ) (g : String) (shelf : Shelf)
      → IsReady w winner shelf
      → id_of g shelf.0 ≡ some l
      → eqb g winner ≡ false
      → IsReady w winner (absorbed w l shelf)
  IsReady-absorbed l g (ds, cs) ready e ne =
      let keyed = AreKeyed-without l ds ready.0 in
      (
        keyed,
        id_of-guid_of w winner (without l ds) keyed (
            rw (guid_of-without l w ds, differ l g ds ready.0 ready.1 e ne)
              (guid_of-id_of w winner ds ready.0 ready.1)),
      )

  redirect_self : (o : Option String) → redirect winner (winner ∷ []) o ≡ o
  redirect_self none = refl
  redirect_self (some g) = ground arith

  redirect-absent :
      (g : String) (ds : List Document) (i : Option ℕ)
      → AreKeyed ds
      → id_of g ds ≡ none
      → redirect winner (g ∷ []) (guid_under ds i) ≡ guid_under ds i
  redirect-absent g ds none k e = refl
  redirect-absent g ds (some j) k e = elim (Option-cases (guid_of j ds)) [
    | inl q ↦ rw q refl
    | inr (g', q) ↦ ground (arith, id_of-guid_of j g' ds k q)
  ]

  -- A guid without a document owns nothing.
  redirect-unknown :
      (g fp : String) (shelf : Shelf)
      → AreKeyed shelf.0
      → id_of g shelf.0 ≡ none
      → redirect winner (g ∷ []) (owner fp shelf) ≡ owner fp shelf
  redirect-unknown g fp (ds, cs) k e = elim (Option-cases (find (λ c. eqb c.fingerprint fp) cs)) [
    | inl q ↦ rw q refl
    | inr (c, q) ↦ rw q (redirect-absent g ds c.document_id k e)
  ]

  pub merged_one-IsReady :
      (g : String) (shelf : Shelf)
      → IsReady w winner shelf
      → IsReady w winner (merged_one w winner g shelf)
  merged_one-IsReady g shelf ready = elim (Bool-cases (eqb g winner)) [
    | inl same ↦ rw (same, merged_one) ready
    | inr other ↦ elim (Option-cases (id_of g shelf.0)) [
      | inl q ↦ rw (other, q, merged_one) ready
      | inr (l, q) ↦ rw (other, q, merged_one) (IsReady-absorbed l g shelf ready q other)
    ]
  ]

  owner-merged_one :
      (g fp : String) (shelf : Shelf)
      → IsReady w winner shelf
      → owner fp (merged_one w winner g shelf) ≡ redirect winner (g ∷ []) (owner fp shelf)
  owner-merged_one g fp shelf ready = elim (Bool-cases (eqb g winner)) [
    | inl same ↦
        rw (eqb→eq g winner same, eqb_refl winner, merged_one)
          (sym (redirect_self (owner fp shelf)))
    | inr other ↦ elim (Option-cases (id_of g shelf.0)) [
      | inl q ↦ rw (other, q, merged_one) (sym (redirect-unknown g fp shelf ready.0 q))
      | inr (l, q) ↦ rw (other, q, merged_one) (owner-absorbed l g fp shelf ready q other)
    ]
  ]

  redirect-cons :
      (g : String) (losers : List String) (o : Option String)
      → redirect winner losers (redirect winner (g ∷ []) o) ≡ redirect winner (g ∷ losers) o
  redirect-cons g losers none = refl
  redirect-cons g losers (some g') = ground arith

  pub owner-merged :
      (losers : List String) (fp : String) (shelf : Shelf)
      → IsReady w winner shelf
      → owner fp (merged w winner losers shelf) ≡ redirect winner losers (owner fp shelf)
  unfolding merged
  owner-merged [] fp shelf ready = ground arith
  owner-merged (g ∷ losers) fp shelf ready =
      owner-merged losers fp (merged_one w winner g shelf) (merged_one-IsReady g shelf ready)
      ∙ ap (redirect winner losers) (owner-merged_one g fp shelf ready)
      ∙ redirect-cons g losers (owner fp shelf)
