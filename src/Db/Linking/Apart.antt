-- ===== src/Db/Linking/Apart.antt =====
-- The groups of documents.rs have different keys, so a content that has one key is in one group.
use read_flow.Db.Linking.{FileForLinking, Key, same_key, rows_of, push_row, key_of, group_rows}
use read_flow.Db.Linking.Links.{IsForeign}
use read_flow.Db.Linking.Groups.{AreApart, AreDisjoint}
use read_flow.Db.Linking.Twins.{AreKeyed, group_rows-AreKeyed}
use read_flow.Prelude.{
  true, false, List, [], ◌∷◌, eqb, All, All-map, All-both, All-swap, Bool-cases, inl, inr, ◌⊎◌, ◌≡◌,
  refl, subst,
}

abbrev Groups : Type 0
Groups = List (Key × List FileForLinking)

abbrev AreOther : Key → Groups → Type 0
AreOther k = All (λ e. same_key k e.0 ≡ false)

abbrev AreDistinct : Groups → Type 0
AreDistinct [] = Unit
AreDistinct (e ∷ es) = AreOther e.0 es × AreDistinct es

push_row-AreOther :
    (i j : Key) (row : FileForLinking) (groups : Groups)
    → same_key i j ≡ false
    → AreOther i groups
    → AreOther i (push_row j row groups)
unfolding push_row
push_row-AreOther i j row [] other h = (other, tt)
push_row-AreOther i j row ((k, rows) ∷ groups) other h = elim (Bool-cases (same_key k j)) [
  | inl same ↦ rw (same, push_row) h
  | inr differ ↦ rw (differ, push_row) (h.0, push_row-AreOther i j row groups other h.1)
]

push_row-AreDistinct :
    (j : Key) (row : FileForLinking) (groups : Groups)
    → AreDistinct groups
    → AreDistinct (push_row j row groups)
unfolding push_row
push_row-AreDistinct j row [] h = (tt, tt)
push_row-AreDistinct j row ((k, rows) ∷ groups) h = elim (Bool-cases (same_key k j)) [
  | inl same ↦ rw (same, push_row) h
  | inr differ ↦
      rw (differ, push_row)
        (push_row-AreOther k j row groups differ h.0, push_row-AreDistinct j row groups h.1)
]

group_rows-AreDistinct :
    (rows : List FileForLinking) (groups : Groups)
    → AreDistinct groups
    → AreDistinct (group_rows rows groups)
unfolding group_rows
group_rows-AreDistinct [] groups h = h
group_rows-AreDistinct (row ∷ rows) groups h =
    group_rows-AreDistinct rows (push_row (key_of row) row groups)
      (push_row-AreDistinct (key_of row) row groups h)

-- Two files with different contents, or with one key.
abbrev pub HaveOneKey : FileForLinking → FileForLinking → Type 0
HaveOneKey f g = (eqb f.fingerprint g.fingerprint ≡ false) ⊎ (same_key (key_of f) (key_of g) ≡ true)

-- A file of the key whose content has one key.
abbrev Fits : FileForLinking → Key → FileForLinking → Type 0
Fits r j x = (key_of x ≡ j) × HaveOneKey r x

abbrev FitsAll : Groups → Key → FileForLinking → Type 0
FitsAll es k r = (key_of r ≡ k) × AreKeyed (Fits r) es

apart_from :
    (k : Key) (r : FileForLinking) (e : Key × List FileForLinking)
    → key_of r ≡ k
    → same_key k e.0 ≡ false
    → All (Fits r e.0) e.1
    → IsForeign e.1 r.fingerprint
apart_from k r e own other =
    All-map (Fits r e.0) (λ x. eqb r.fingerprint x.fingerprint ≡ false) e.1
      (λ x fits. elim fits.1 [
        | inl differ ↦ differ
        | inr same ↦
            let q : same_key k e.0 ≡ true =
              subst (λ i. same_key i e.0 ≡ true) own
                (subst (λ i. same_key (key_of r) i ≡ true) fits.0 same) in
            absurd (cc (q, other))
      ])

heads : (P : List FileForLinking → Type 0) (es : Groups) → All (λ e. P e.1) es → All P (rows_of es)
heads P [] h = tt
heads P (e ∷ es) h = (h.0, heads P es h.1)

keyed-AreDisjoint :
    (es : Groups) → AreDistinct es → AreKeyed (FitsAll es) es → AreDisjoint (rows_of es)
keyed-AreDisjoint [] distinct h = tt
keyed-AreDisjoint (e ∷ es) distinct h = (
  heads (AreApart e.1) es (
      All-swap (λ r x. IsForeign x.1 r.fingerprint) e.1 es
        (All-map (FitsAll (e ∷ es) e.0) (λ r. All (λ x. IsForeign x.1 r.fingerprint) es) e.1
          (λ r fits.
            All-both (λ x. same_key e.0 x.0 ≡ false) (λ x. All (Fits r x.0) x.1)
              (λ x. IsForeign x.1 r.fingerprint) es (λ x. apart_from e.0 r x fits.0) distinct.0
              fits.1.1)
          h.0)),
  keyed-AreDisjoint es distinct.1 (
      All-map (λ x. All (FitsAll (e ∷ es) x.0) x.1) (λ x. All (FitsAll es x.0) x.1) es
        (λ x. All-map (FitsAll (e ∷ es) x.0) (FitsAll es x.0) x.1 (λ r f. (f.0, f.1.1))) h.1),
)

pub group_rows-AreDisjoint :
    (rows : List FileForLinking)
    → All (λ f. All (HaveOneKey f) rows) rows
    → AreDisjoint (rows_of (group_rows rows []))
group_rows-AreDisjoint rows h =
    let groups = group_rows rows [] in
    keyed-AreDisjoint groups (group_rows-AreDistinct rows [] tt) (
      group_rows-AreKeyed (FitsAll groups) rows []
        (All-map (λ f. All (HaveOneKey f) rows) (λ r. FitsAll groups (key_of r) r) rows
          (λ r one. (
            refl,
            group_rows-AreKeyed (Fits r) rows []
                (All-map (HaveOneKey r) (λ x. Fits r (key_of x) x) rows (λ x o. (refl, o)) one) tt,
          ))
          h)
        tt)
