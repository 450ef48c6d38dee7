-- ===== src/Db/Linking/Lookup.antt =====
-- Which files the map of groups of documents.rs has under a key: all that have it.
use read_flow.Chars.{same_text_refl, same_text-eq}
use read_flow.Db.Linking.{
  FileForLinking, Key, same_key, rows_of, push_row, key_of, group_rows, one_fingerprint,
}
use read_flow.Db.Linking.Links.{BelongsTo}
use read_flow.Db.Linking.Groups.{IsShared}
use read_flow.Db.Tables.{Content}
use read_flow.Prelude.{
  ℕ, String, true, false, List, [], ◌∷◌, ◌++◌, retain, all, eqb, eqb→eq, All, All-map, All-unretain,
  All-each, append_assoc, append-nil, if◌then◌else◌, Bool-cases, inl, inr, ◌⊎◌, ◌≡◌, refl, sym, ◌∙◌,
  ap₂, subst, arith,
}

pub same_key_refl : (k : Key) → same_key k k ≡ true
same_key_refl k = rw (same_text_refl k.0, same_text_refl k.1) refl

pub same_key-eq : (j k : Key) → same_key j k ≡ true → j ≡ k
same_key-eq j k e =
    ap₂ (λ a b. (a, b)) (same_text-eq j.0 k.0 (ground arith)) (same_text-eq j.1 k.1 (ground arith))

abbrev lookup : Key → List (Key × List FileForLinking) → List FileForLinking
lookup k [] = []
lookup k ((j, rows) ∷ groups) = let rest = lookup k groups in if same_key j k then rows else rest

abbrev having : Key → List FileForLinking → List FileForLinking
having k rows = retain (λ r. same_key (key_of r) k) rows

lookup-push :
    (k j : Key) (row : FileForLinking) (groups : List (Key × List FileForLinking))
    → lookup k (push_row j row groups)
      ≡ (if same_key j k then lookup k groups ++ row ∷ [] else lookup k groups)
unfolding push_row
lookup-push k j row [] = ground arith
lookup-push k j row ((i, rows) ∷ groups) = elim (Bool-cases (same_key i j)) [
  | inl same ↦
      rw (same, push_row, ← same_key-eq i j same)
        (elim (Bool-cases (same_key i k)) [ inl e ↦ rw e refl | inr e ↦ rw e refl ])
  | inr other ↦ elim (Bool-cases (same_key i k)) [
    | inl e ↦ elim (Bool-cases (same_key j k)) [
      | inl f ↦ absurd (
          cc (
            sym other
            ∙ subst (λ x. same_key i x ≡ true) (sym (same_key-eq j k f ∙ sym (same_key-eq i k e)))
                (same_key_refl i)))
      | inr f ↦ rw (other, push_row, e, f) refl
    ]
    | inr e ↦ rw (other, push_row, e) (lookup-push k j row groups)
  ]
]

lookup-group_rows :
    (k : Key) (rows : List FileForLinking) (groups : List (Key × List FileForLinking))
    → lookup k (group_rows rows groups) ≡ lookup k groups ++ having k rows
unfolding group_rows
lookup-group_rows k [] groups = sym (append-nil (lookup k groups))
lookup-group_rows k (row ∷ rows) groups =
    lookup-group_rows k rows (push_row (key_of row) row groups)
    ∙ elim (Bool-cases (same_key (key_of row) k)) [
      | inl e ↦ rw (lookup-push, e) (append_assoc (lookup k groups) (row ∷ []) (having k rows))
      | inr e ↦ rw (lookup-push, e) refl
    ]

All-lookup :
    (P : List FileForLinking → Type 0) (k : Key) (groups : List (Key × List FileForLinking))
    → P []
    → All P (rows_of groups)
    → P (lookup k groups)
All-lookup P k [] empty h = empty
All-lookup P k ((j, rows) ∷ groups) empty h = elim (Bool-cases (same_key j k)) [
  | inl e ↦ rw e h.0
  | inr e ↦ rw e (All-lookup P k groups empty h.1)
]

-- The files of one key have one fingerprint or one document.
abbrev AreShared : List Content → Key → List FileForLinking → Type 0
AreShared cs k rows =
    ((fp : String) × All (λ f. (same_key (key_of f) k ≡ false) ⊎ (f.fingerprint ≡ fp)) rows)
    ⊎ ((id : ℕ) × All (λ f. (same_key (key_of f) k ≡ false) ⊎ BelongsTo id cs f) rows)

all-fingerprint :
    (fp : String) (fs : List FileForLinking)
    → all (λ g. eqb g.fingerprint fp) fs ≡ true
    → All (λ g. g.fingerprint ≡ fp) fs
all-fingerprint fp [] e = tt
all-fingerprint fp (f ∷ fs) e =
    (eqb→eq f.fingerprint fp (ground arith), all-fingerprint fp fs (ground arith))

one_fingerprint_sound :
    (files : List FileForLinking)
    → one_fingerprint files ≡ true
    → (fp : String) × All (λ f. f.fingerprint ≡ fp) files
one_fingerprint_sound [] e = ("", tt)
one_fingerprint_sound (f ∷ fs) e = (f.fingerprint, (refl, all-fingerprint f.fingerprint fs e))

IsShared-AreShared :
    (cs : List Content) (k : Key) (rows : List FileForLinking)
    → IsShared cs (having k rows)
    → AreShared cs k rows
IsShared-AreShared cs k rows (inl one) =
    let (fp, h) = one_fingerprint_sound (having k rows) one in
    inl (fp, All-unretain (λ r. same_key (key_of r) k) (λ f. f.fingerprint ≡ fp) rows h)
IsShared-AreShared cs k rows (inr (id, h)) =
    inr (id, All-unretain (λ r. same_key (key_of r) k) (BelongsTo id cs) rows h)

pub groups-AreShared :
    (cs : List Content) (rows : List FileForLinking) (k : Key)
    → All (IsShared cs) (rows_of (group_rows rows []))
    → AreShared cs k rows
groups-AreShared cs rows k h = IsShared-AreShared cs k rows (
    subst (IsShared cs) (lookup-group_rows k rows [])
      (All-lookup (IsShared cs) k (group_rows rows []) (inl refl) h))

-- Two files: of different keys, with one fingerprint, or with one document.
abbrev pub AreLinked : List Content → FileForLinking → FileForLinking → Type 0
AreLinked cs f g =
    (same_key (key_of g) (key_of f) ≡ false)
    ⊎ (f.fingerprint ≡ g.fingerprint)
    ⊎ ((id : ℕ) × BelongsTo id cs f × BelongsTo id cs g)

own : (Q : Type 0) (f : FileForLinking) → (same_key (key_of f) (key_of f) ≡ false) ⊎ Q → Q
own Q f (inl e) = absurd (cc (e, same_key_refl (key_of f)))
own Q f (inr q) = q

linked_to_all :
    (cs : List Content) (f : FileForLinking) (rows : List FileForLinking)
    → ((P : FileForLinking → Type 0) → All P rows → P f)
    → AreShared cs (key_of f) rows
    → All (AreLinked cs f) rows
linked_to_all cs f rows each (inl (fp, h)) =
    let P : FileForLinking → Type 0 =
      λ g. (same_key (key_of g) (key_of f) ≡ false) ⊎ (g.fingerprint ≡ fp) in
    All-map P (AreLinked cs f) rows
      (λ g q. elim q [
        | inl e ↦ inl e
        | inr e ↦ inr (inl (own (f.fingerprint ≡ fp) f (each P h) ∙ sym e))
      ])
      h
linked_to_all cs f rows each (inr (id, h)) =
    let P : FileForLinking → Type 0 =
      λ g. (same_key (key_of g) (key_of f) ≡ false) ⊎ BelongsTo id cs g in
    All-map P (AreLinked cs f) rows
      (λ g q. elim q [
        | inl e ↦ inl e
        | inr b ↦ inr (inr (id, own (BelongsTo id cs f) f (each P h), b))
      ])
      h

pub groups-AreLinked :
    (cs : List Content) (rows : List FileForLinking)
    → All (IsShared cs) (rows_of (group_rows rows []))
    → All (λ f. All (AreLinked cs f) rows) rows
groups-AreLinked cs rows h =
    All-map (λ f. (P : FileForLinking → Type 0) → All P rows → P f) (λ f. All (AreLinked cs f) rows)
      rows (λ f each. linked_to_all cs f rows each (groups-AreShared cs rows (key_of f) h))
      (All-each rows)
