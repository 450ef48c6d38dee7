-- ===== src/Db/Linking/Twins.antt =====
-- The groups of documents.rs that leave a content alone: those that have it alone, or lack it.
use read_flow.Db.Linking.{FileForLinking, Key, same_key, rows_of, push_row, key_of, group_rows}
use read_flow.Db.Linking.Groups.{IsSpared}
use read_flow.Db.Linking.Lookup.{same_key_refl, same_key-eq}
use read_flow.Prelude.{
  String, Bool, true, false, not, ◌&&◌, List, [], ◌∷◌, any, all, eqb, eqb_refl, eqb→eq, eqb-apart,
  All, All-map, All-both, All-append, All-swap, All-each, any-none, none-any, Bool-cases, inl, inr,
  ◌⊎◌, ◌≡◌, refl, sym, subst, arith,
}

-- Groups whose files have what their keys had.
abbrev pub AreKeyed : (Key → FileForLinking → Type 0) → List (Key × List FileForLinking) → Type 0
AreKeyed P = All (λ e. All (P e.0) e.1)

module _ (P : Key → FileForLinking → Type 0) where
  push_row-AreKeyed :
      (k : Key) (row : FileForLinking) (groups : List (Key × List FileForLinking))
      → P k row
      → AreKeyed P groups
      → AreKeyed P (push_row k row groups)
  unfolding push_row
  push_row-AreKeyed k row [] p h = ((p, tt), tt)
  push_row-AreKeyed k row ((j, rows) ∷ groups) p h = elim (Bool-cases (same_key j k)) [
    | inl same ↦
        rw (same, push_row)
          (
            All-append (P j) rows (row ∷ []) h.0
                (subst (λ i. P i row) (sym (same_key-eq j k same)) p, tt),
            h.1,
          )
    | inr other ↦ rw (other, push_row) (h.0, push_row-AreKeyed k row groups p h.1)
  ]

  pub group_rows-AreKeyed :
      (rows : List FileForLinking) (groups : List (Key × List FileForLinking))
      → All (λ r. P (key_of r) r) rows
      → AreKeyed P groups
      → AreKeyed P (group_rows rows groups)
  unfolding group_rows
  group_rows-AreKeyed [] groups p h = h
  group_rows-AreKeyed (row ∷ rows) groups p h =
      group_rows-AreKeyed rows (push_row (key_of row) row groups) p.1
        (push_row-AreKeyed (key_of row) row groups p.0 h)

-- Two files of one key, of which the first alone has the fingerprint.
abbrev pub are_twins : String → FileForLinking → FileForLinking → Bool
are_twins fp f g =
    eqb f.fingerprint fp && (not (eqb g.fingerprint fp) && same_key (key_of f) (key_of g))

module _ (fp : String) (rows : List FileForLinking) where
  abbrev has_key : Key → Bool
  has_key k = any (λ f. eqb f.fingerprint fp && same_key (key_of f) k) rows

  -- The key has the fingerprint and only it, or lacks it.
  abbrev Settles : Key → FileForLinking → Type 0
  Settles k r =
      ((has_key k ≡ true) × (r.fingerprint ≡ fp))
      ⊎ ((has_key k ≡ false) × (eqb fp r.fingerprint ≡ false))

  row-Settles :
      (r : FileForLinking)
      → ((P : FileForLinking → Type 0) → All P rows → P r)
      → All (λ f. are_twins fp f r ≡ false) rows
      → Settles (key_of r) r
  row-Settles r each alone = elim (Bool-cases (eqb r.fingerprint fp)) [
    | inl own ↦ elim (Bool-cases (has_key (key_of r))) [
      | inl has ↦ inl (has, eqb→eq r.fingerprint fp own)
      | inr lacks ↦
          let test : FileForLinking → Bool =
            λ f. eqb f.fingerprint fp && same_key (key_of f) (key_of r) in
          let never = each (λ f. test f ≡ false) (any-none test rows lacks) in
          absurd (ground (arith, never, own, same_key_refl (key_of r)))
    ]
    | inr other ↦ inr (
      none-any (λ f. eqb f.fingerprint fp && same_key (key_of f) (key_of r)) rows
          (All-map (λ f. are_twins fp f r ≡ false)
            (λ f. (eqb f.fingerprint fp && same_key (key_of f) (key_of r)) ≡ false) rows
            (λ f t. ground (arith, other)) alone),
      eqb-apart r.fingerprint fp other,
    )
  ]

  all-one :
      (fs : List FileForLinking)
      → All (λ f. f.fingerprint ≡ fp) fs
      → all (λ g. eqb g.fingerprint fp) fs ≡ true
  all-one [] h = refl
  all-one (f ∷ fs) h = rw (h.0, eqb_refl fp) (all-one fs h.1)

  group-IsSpared :
      (k : Key) (b : Bool) (group : List FileForLinking)
      → has_key k ≡ b
      → All (Settles k) group
      → IsSpared fp group
  group-IsSpared k true [] has h = inl refl
  group-IsSpared k true (f ∷ fs) has h =
      let same : All (λ r. r.fingerprint ≡ fp) (f ∷ fs) =
        All-map (Settles k) (λ r. r.fingerprint ≡ fp) (f ∷ fs)
          (λ r s. elim s [ inl (_, e) ↦ e | inr (lacks, _) ↦ absurd (cc (has, lacks)) ]) h in
      inl (subst (λ y. all (λ g. eqb g.fingerprint y) fs ≡ true) (sym same.0) (all-one fs same.1))
  group-IsSpared k false fs lacks h = inr (
      All-map (Settles k) (λ r. eqb fp r.fingerprint ≡ false) fs
        (λ r s. elim s [ inl (has, _) ↦ absurd (cc (has, lacks)) | inr (_, e) ↦ e ]) h)

  rows_of-IsSpared :
      (groups : List (Key × List FileForLinking))
      → AreKeyed Settles groups
      → All (IsSpared fp) (rows_of groups)
  rows_of-IsSpared [] h = tt
  rows_of-IsSpared (g ∷ gs) h =
      (group-IsSpared g.0 (has_key g.0) g.1 refl h.0, rows_of-IsSpared gs h.1)

  -- Where no file has a twin, every group spares the content.
  pub group_rows-IsSpared :
      All (λ f. All (λ g. are_twins fp f g ≡ false) rows) rows
      → All (IsSpared fp) (rows_of (group_rows rows []))
  group_rows-IsSpared alone = rows_of-IsSpared (group_rows rows []) (
      group_rows-AreKeyed Settles rows []
        (All-both (λ r. (P : FileForLinking → Type 0) → All P rows → P r)
          (λ r. All (λ f. are_twins fp f r ≡ false) rows) (λ r. Settles (key_of r) r) rows
          row-Settles (All-each rows) (All-swap (λ f g. are_twins fp f g ≡ false) rows rows alone))
        tt)
