-- ===== src/Online/Slots.antt =====
-- core/src/online_library/mod.rs: the loop that merges editions, on books that carry the base id under
-- which the index has them.
use read_flow.Chars.{same_text_refl, same_text-eq, same_text, Chars}
use read_flow.Online.{
  merge_step, index_of, strip_gutenberg_edition_note, merge_book_into, opened, modify, OnlineBook,
}
use read_flow.Prelude.{
  ℕ, suc, Bool, true, false, Option, none, some, List, [], ◌∷◌, ◌++◌, length, any, any-append,
  if◌then◌else◌, ◌≡◌, refl, sym, ap, ◌∙◌, append-nil, arith, Bool-cases, inl, inr, subst,
}

-- A merged book with the base id under which the index has it.
abbrev pub Slot : Type 0
Slot = Option Chars × OnlineBook

abbrev pub books : List Slot → List OnlineBook
books [] = []
books (s ∷ ss) = s.1 ∷ books ss

abbrev pub key_list : Option Chars → List Chars → List Chars
key_list none ks = ks
key_list (some k) ks = k ∷ ks

unfoldable pub keys : List Slot → List Chars
keys [] = []
keys (s ∷ ss) = key_list s.0 (keys ss)

abbrev pub holds : Chars → List Chars → Bool
holds k = any (λ j. same_text j k)

abbrev pub next : Option ℕ → Option ℕ
next none = none
next (some i) = some (suc i)

abbrev pub is_slot : Chars → Option Chars → Bool
is_slot k none = false
is_slot k (some j) = same_text j k

unfoldable pub position : Chars → List Slot → Option ℕ
position k [] = none
position k (s ∷ ss) = if is_slot k s.0 then some 0 else next (position k ss)

abbrev pub change : Chars → (OnlineBook → OnlineBook) → Slot → Slot
change k f s = (s.0, if is_slot k s.0 then f s.1 else s.1)

unfoldable pub upd : Chars → (OnlineBook → OnlineBook) → List Slot → List Slot
upd k f [] = []
upd k f (s ∷ ss) = change k f s ∷ upd k f ss

-- No base id stands twice.
abbrev pub Apart : Option Chars → List Chars → Type 0
Apart none ks = Unit
Apart (some k) ks = holds k ks ≡ false

abbrev pub Distinct : List Slot → Type 0
Distinct [] = Unit
Distinct (s ∷ ss) = Apart s.0 (keys ss) × Distinct ss

next-some : (o : Option ℕ) (i : ℕ) → next o ≡ some i → (j : ℕ) × (o ≡ some j) × (i ≡ suc j)
next-some none i e = absurd (cc e)
next-some (some j) i e = (j, refl, cc e)

module _ (k : Chars) (f : OnlineBook → OnlineBook) where
  pub keys-upd : (ss : List Slot) → keys (upd k f ss) ≡ keys ss
  unfolding keys upd
  keys-upd [] = refl
  keys-upd (s ∷ ss) = ap (key_list s.0) (keys-upd ss)

  pub upd-unheld : (ss : List Slot) → holds k (keys ss) ≡ false → books (upd k f ss) ≡ books ss
  unfolding keys upd
  upd-unheld [] free = refl
  upd-unheld ((none, b) ∷ ss) free = ap (λ bs. b ∷ bs) (upd-unheld ss free)
  upd-unheld ((some j, b) ∷ ss) free = ground (arith, free, upd-unheld ss)

  upd-at :
      (t : Bool) (b : OnlineBook) (ss : List Slot) (i : ℕ)
      → (if t then some 0 else next (position k ss)) ≡ some i
      → (t ≡ true → books (upd k f ss) ≡ books ss)
      → ((j : ℕ) → position k ss ≡ some j → books (upd k f ss) ≡ modify j f (books ss))
      → (if t then f b else b) ∷ books (upd k f ss) ≡ modify i f (b ∷ books ss)
  upd-at true b ss i at alone below =
      let first : i ≡ 0 = cc at in
      subst (λ n. f b ∷ books (upd k f ss) ≡ modify n f (b ∷ books ss)) (sym first)
        (ap (λ bs. f b ∷ bs) (alone refl))
  upd-at false b ss i at alone below =
      let (j, there, e) = next-some (position k ss) i at in
      subst (λ n. b ∷ books (upd k f ss) ≡ modify n f (b ∷ books ss)) (sym e)
        (ap (λ bs. b ∷ bs) (below j there))

  -- The index leads to the one slot of its base id.
  pub upd-position :
      (ss : List Slot) (i : ℕ)
      → Distinct ss
      → position k ss ≡ some i
      → books (upd k f ss) ≡ modify i f (books ss)
  unfolding upd position
  upd-position [] i distinct at = absurd (cc at)
  upd-position ((none, b) ∷ ss) i distinct at =
      upd-at false b ss i at (λ e. absurd (cc e)) (λ j. upd-position ss j distinct.1)
  upd-position ((some j, b) ∷ ss) i distinct at =
      upd-at (same_text j k) b ss i at
        (λ same.
          upd-unheld ss (subst (λ c. holds c (keys ss) ≡ false) (same_text-eq j k same) distinct.0))
        (λ n. upd-position ss n distinct.1)

pub position-none : (k : Chars) (ss : List Slot) → holds k (keys ss) ≡ false → position k ss ≡ none
unfolding position keys
position-none k [] free = refl
position-none k ((none, b) ∷ ss) free = ap next (position-none k ss free)
position-none k ((some j, b) ∷ ss) free = ground (arith, free, position-none k ss)

pub position-held :
    (k : Chars) (ss : List Slot) → holds k (keys ss) ≡ true → (i : ℕ) × (position k ss ≡ some i)
unfolding position keys
position-held k [] held = absurd (cc held)
position-held k ((none, b) ∷ ss) held = let (i, at) = position-held k ss held in (suc i, ap next at)
position-held k ((some j, b) ∷ ss) held = elim (Bool-cases (same_text j k)) [
  | inl here ↦ (0, rw here refl)
  | inr away ↦
      let (i, at) = position-held k ss (ground (arith, held, away)) in (suc i, rw away (ap next at))
]

-- The loop on slots.
unfoldable pub grow : OnlineBook → Option Chars → List Slot → List Slot
grow c none ss = ss ++ (none, c) ∷ []
grow c (some k) ss =
    if holds k (keys ss)
    then upd k (λ b. merge_book_into b (strip_gutenberg_edition_note c)) ss
    else ss ++ (some k, opened k c) ∷ []

-- What the map of the loop says of the slots.
abbrev pub Indexed : List (Chars × ℕ) → List Slot → Type 0
Indexed index ss = (k : Chars) → index_of k index ≡ position k ss

pub books-append : (ss ts : List Slot) → books (ss ++ ts) ≡ books ss ++ books ts
books-append [] ts = refl
books-append (s ∷ ss) ts = ap (λ bs. s.1 ∷ bs) (books-append ss ts)

pub length-books : (ss : List Slot) → length (books ss) ≡ length ss
length-books [] = refl
length-books (s ∷ ss) = ap suc (length-books ss)

pub keys-append : (ss ts : List Slot) → keys (ss ++ ts) ≡ keys ss ++ keys ts
unfolding keys
keys-append [] ts = refl
keys-append ((none, b) ∷ ss) ts = keys-append ss ts
keys-append ((some k, b) ∷ ss) ts = ap (λ ks. k ∷ ks) (keys-append ss ts)

pub position-append_plain :
    (k : Chars) (b : OnlineBook) (ss : List Slot)
    → position k (ss ++ (none, b) ∷ []) ≡ position k ss
unfolding position
position-append_plain k b [] = refl
position-append_plain k b (s ∷ ss) =
    ap (λ o. if is_slot k s.0 then some 0 else next o) (position-append_plain k b ss)

pub position-upd :
    (k j : Chars) (f : OnlineBook → OnlineBook) (ss : List Slot)
    → position k (upd j f ss) ≡ position k ss
unfolding position upd
position-upd k j f [] = refl
position-upd k j f (s ∷ ss) =
    ap (λ o. if is_slot k s.0 then some 0 else next o) (position-upd k j f ss)

apart : (i j k : Chars) → same_text i j ≡ false → same_text i k ≡ true → same_text j k ≡ false
apart i j k differ same = elim (Bool-cases (same_text j k)) [
  | inl also ↦
      let e : i ≡ j = same_text-eq i k same ∙ sym (same_text-eq j k also) in
      absurd (cc (differ, subst (λ c. same_text i c ≡ true) e (same_text_refl i)))
  | inr other ↦ other
]

-- A new base id is found at the end, by itself only.
pub position-append_new :
    (k j : Chars) (b : OnlineBook) (ss : List Slot)
    → holds j (keys ss) ≡ false
    → position k (ss ++ (some j, b) ∷ [])
      ≡ (if same_text j k then some (length ss) else position k ss)
unfolding position keys
position-append_new k j b [] free = ground arith
position-append_new k j b ((none, c) ∷ ss) free = ground (arith, position-append_new k j b ss free)
position-append_new k j b ((some i, c) ∷ ss) free =
    ground (arith, free, position-append_new k j b ss, apart i j k)

same_text-false : (j k : Chars) → same_text j k ≡ false → same_text k j ≡ false
same_text-false j k differ = elim (Bool-cases (same_text k j)) [
  | inl same ↦
      let e : j ≡ k = sym (same_text-eq k j same) in
      absurd (cc (differ, subst (λ c. same_text j c ≡ true) e (same_text_refl j)))
  | inr other ↦ other
]

pub Distinct-upd :
    (k : Chars) (f : OnlineBook → OnlineBook) (ss : List Slot) → Distinct ss → Distinct (upd k f ss)
unfolding upd
Distinct-upd k f [] d = tt
Distinct-upd k f ((none, b) ∷ ss) d = (tt, Distinct-upd k f ss d.1)
Distinct-upd k f ((some j, b) ∷ ss) d = (rw (keys-upd k f ss) d.0, Distinct-upd k f ss d.1)

pub Distinct-append_plain :
    (b : OnlineBook) (ss : List Slot) → Distinct ss → Distinct (ss ++ (none, b) ∷ [])
unfolding keys
Distinct-append_plain b [] d = (tt, tt)
Distinct-append_plain b ((none, c) ∷ ss) d = (tt, Distinct-append_plain b ss d.1)
Distinct-append_plain b ((some j, c) ∷ ss) d = (
  subst (λ ks. holds j ks ≡ false) (sym (keys-append ss ((none, b) ∷ []) ∙ append-nil (keys ss)))
      d.0,
  Distinct-append_plain b ss d.1,
)

pub Distinct-append_new :
    (k : Chars) (b : OnlineBook) (ss : List Slot)
    → holds k (keys ss) ≡ false
    → Distinct ss
    → Distinct (ss ++ (some k, b) ∷ [])
unfolding keys
Distinct-append_new k b [] free d = (refl, tt)
Distinct-append_new k b ((none, c) ∷ ss) free d = (tt, Distinct-append_new k b ss free d.1)
Distinct-append_new k b ((some j, c) ∷ ss) free d = (
  rw (keys-append ss ((some k, b) ∷ [])) (
      ground (
        arith,
        d.0,
        free,
        any-append (λ i. same_text i j) (keys ss) (k ∷ []),
        same_text-false j k,
      )),
  Distinct-append_new k b ss (ground (arith, free)) d.1,
)

pub grow-Distinct :
    (c : OnlineBook) (o : Option Chars) (ss : List Slot) → Distinct ss → Distinct (grow c o ss)
unfolding grow
grow-Distinct c none ss d = Distinct-append_plain c ss d
grow-Distinct c (some k) ss d = elim (Bool-cases (holds k (keys ss))) [
  | inl held ↦
      rw held (Distinct-upd k (λ b. merge_book_into b (strip_gutenberg_edition_note c)) ss d)
  | inr free ↦ rw free (Distinct-append_new k (opened k c) ss free d)
]

-- A step of the code is a step on slots.
pub step-books :
    (c : OnlineBook) (o : Option Chars) (index : List (Chars × ℕ)) (ss : List Slot)
    → Distinct ss
    → Indexed index ss
    → (merge_step c o (books ss, index)).0 ≡ books (grow c o ss)
unfolding grow
step-books c none index ss d indexed = sym (books-append ss ((none, c) ∷ []))
step-books c (some k) index ss d indexed = elim (Bool-cases (holds k (keys ss))) [
  | inl held ↦
      let (i, at) = position-held k ss held in
      rw (held, indexed k ∙ at)
        (sym (upd-position k (λ b. merge_book_into b (strip_gutenberg_edition_note c)) ss i d at))
  | inr free ↦
      rw (free, indexed k ∙ position-none k ss free)
        (sym (books-append ss ((some k, opened k c) ∷ [])))
]

pub step-Indexed :
    (c : OnlineBook) (o : Option Chars) (index : List (Chars × ℕ)) (ss : List Slot)
    → Indexed index ss
    → Indexed (merge_step c o (books ss, index)).1 (grow c o ss)
unfolding grow index_of
step-Indexed c none index ss indexed k = indexed k ∙ sym (position-append_plain k c ss)
step-Indexed c (some j) index ss indexed k = elim (Bool-cases (holds j (keys ss))) [
  | inl held ↦
      let (i, at) = position-held j ss held in
      rw (held, indexed j ∙ at)
        (indexed k
          ∙ sym (position-upd k j (λ b. merge_book_into b (strip_gutenberg_edition_note c)) ss))
  | inr free ↦
      rw (free, indexed j ∙ position-none j ss free)
        (rw (length-books ss, indexed k) (sym (position-append_new k j (opened j c) ss free)))
]
