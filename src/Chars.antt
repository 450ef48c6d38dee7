-- ===== src/Chars.antt =====
-- What epub/src and core/src/server use of Rust's texts, as lists of code points: prefixes, suffixes,
-- `split`, `join` and `split_once`.
use Prim.Native.Char.{code}
use Prim.Native.String.{String}
use read_flow.Prelude.{
  ◌||◌, ◌+◌, ◌&&◌, leb, false, true, Bool, ℕ, ◌==◌, Option, none, some, List, [], ◌∷◌, ◌++◌, All,
  if◌then◌else◌, ◌≡◌, ◌≢◌, refl, ◌∙◌, ap, arith,
}

abbrev pub Chars : Type 0
Chars = List ℕ

-- The code points of a literal.
abbrev pub codes : String → Chars
codes String.[] = []
codes (String.◌∷◌ c s) = code c ∷ codes s

abbrev pub Lacks : ℕ → Chars → Type 0
Lacks c = All (λ d. d ≢ c)

unfoldable pub strip_prefix : Chars → Chars → Option Chars
strip_prefix [] s = some s
strip_prefix (p ∷ ps) [] = none
strip_prefix (p ∷ ps) (c ∷ s) = let rest = strip_prefix ps s in if p == c then rest else none

-- `s.strip_suffix(c)` for a character.
unfoldable pub strip_last : ℕ → Chars → Option Chars
strip_last c [] = none
strip_last c (d ∷ []) = if d == c then some [] else none
strip_last c (d ∷ e ∷ s) = elim (strip_last c (e ∷ s)) [ none ↦ none | some r ↦ some (d ∷ r) ]

abbrev pub cons_head : ℕ → List Chars → List Chars
cons_head c [] = (c ∷ []) ∷ []
cons_head c (p ∷ ps) = (c ∷ p) ∷ ps

unfoldable pub split : ℕ → Chars → List Chars
split sep [] = [] ∷ []
split sep (c ∷ s) = let rest = split sep s in if c == sep then [] ∷ rest else cons_head c rest

unfoldable pub join : ℕ → List Chars → Chars
join sep [] = []
join sep (p ∷ []) = p
join sep (p ∷ q ∷ ps) = p ++ (sep ∷ join sep (q ∷ ps))

abbrev pub cons_left : ℕ → Option (Chars × Chars) → Option (Chars × Chars)
cons_left c none = none
cons_left c (some (a, b)) = some (c ∷ a, b)

abbrev pub found_or : Option Chars → Option (Chars × Chars) → Option (Chars × Chars)
found_or none later = later
found_or (some rest) later = some ([], rest)

-- What stands before and after the first occurrence of a text, as `find` and two slices give it.
unfoldable pub split_once : Chars → Chars → Option (Chars × Chars)
split_once marker [] = found_or (strip_prefix marker []) none
split_once marker (c ∷ s) =
    found_or (strip_prefix marker (c ∷ s)) (cons_left c (split_once marker s))

-- The same for the last occurrence of a character.
unfoldable pub rsplit_once : ℕ → Chars → Option (Chars × Chars)
rsplit_once sep [] = none
rsplit_once sep (c ∷ s) = elim (rsplit_once sep s) [
  | some (a, b) ↦ some (c ∷ a, b)
  | none ↦ if c == sep then some ([], s) else none
]

pub strip_prefix-append : (p s : Chars) → strip_prefix p (p ++ s) ≡ some s
unfolding strip_prefix
strip_prefix-append [] s = refl
strip_prefix-append (c ∷ p) s = ground (arith, strip_prefix-append p s)

pub strip_last-append : (c : ℕ) (s : Chars) → strip_last c (s ++ c ∷ []) ≡ some s
unfolding strip_last
strip_last-append c [] = ground arith
strip_last-append c (d ∷ []) = ground arith
strip_last-append c (d ∷ e ∷ s) = rw (strip_last-append c (e ∷ s)) refl

-- A text that lacks the first character of a marker does not hold its start.
pub split_once-append :
    (c : ℕ) (marker before after : Chars)
    → Lacks c before
    → split_once (c ∷ marker) (before ++ (c ∷ marker ++ after)) ≡ some (before, after)
unfolding split_once strip_prefix
split_once-append c marker [] after lacks = ground (arith, strip_prefix-append marker after)
split_once-append c marker (d ∷ before) after lacks =
    ground (arith, lacks.0, split_once-append c marker before after lacks.1)

-- A text that lacks the second character of a marker does not hold its start either.
pub split_once-second :
    (c e : ℕ) (marker before after : Chars)
    → c ≢ e
    → Lacks e before
    → split_once (c ∷ e ∷ marker) (before ++ (c ∷ e ∷ marker ++ after)) ≡ some (before, after)
unfolding split_once strip_prefix
split_once-second c e marker [] after differ lacks =
    ground (arith, strip_prefix-append marker after)
split_once-second c e marker (d ∷ []) after differ lacks =
    ground (arith, differ, split_once-second c e marker [] after differ tt)
split_once-second c e marker (d ∷ g ∷ before) after differ lacks =
    ground (arith, lacks.1.0, split_once-second c e marker (g ∷ before) after differ lacks.1)

pub split-lacking : (sep : ℕ) (p : Chars) → Lacks sep p → split sep p ≡ p ∷ []
unfolding split
split-lacking sep [] lacks = refl
split-lacking sep (c ∷ p) lacks = ground (arith, split-lacking sep p lacks.1)

pub split-append :
    (sep : ℕ) (p s : Chars) → Lacks sep p → split sep (p ++ sep ∷ s) ≡ p ∷ split sep s
unfolding split
split-append sep [] s lacks = ground arith
split-append sep (c ∷ p) s lacks = ground (arith, split-append sep p s lacks.1)

-- Parts that lack the separator are read back from their join.
pub split-join :
    (sep : ℕ) (p : Chars) (ps : List Chars)
    → All (Lacks sep) (p ∷ ps)
    → split sep (join sep (p ∷ ps)) ≡ p ∷ ps
unfolding join
split-join sep p [] lacks = split-lacking sep p lacks.0
split-join sep p (q ∷ ps) lacks =
    split-append sep p (join sep (q ∷ ps)) lacks.0 ∙ ap (λ r. p ∷ r) (split-join sep q ps lacks.1)

rsplit_once-lacking : (sep : ℕ) (s : Chars) → Lacks sep s → rsplit_once sep s ≡ none
unfolding rsplit_once
rsplit_once-lacking sep [] lacks = refl
rsplit_once-lacking sep (c ∷ s) lacks =
    rw (rsplit_once-lacking sep s lacks.1) (ground (arith, lacks.0))

pub rsplit_once-append :
    (sep : ℕ) (before after : Chars)
    → Lacks sep after
    → rsplit_once sep (before ++ sep ∷ after) ≡ some (before, after)
unfolding rsplit_once
rsplit_once-append sep [] after lacks = rw (rsplit_once-lacking sep after lacks) (ground arith)
rsplit_once-append sep (d ∷ before) after lacks =
    rw (rsplit_once-append sep before after lacks) refl

abbrev pub is_empty : Chars → Bool
is_empty [] = true
is_empty (c ∷ s) = false

-- `collect::<Option<Vec<_>>>()`.
unfoldable pub all_some {ℓ} : {A : Type ℓ} → List (Option A) → Option (List A)
all_some [] = some []
all_some (none ∷ os) = none
all_some (some a ∷ os) = elim (all_some os) [ none ↦ none | some rest ↦ some (a ∷ rest) ]

-- `?` on an option.
infixl 5 ◌>>=◌
abbrev pub ◌>>=◌ {ℓ κ} : {A : Type ℓ} {B : Type κ} → Option A → (A → Option B) → Option B
none >>= f = none
some a >>= f = f a

unfoldable pub same_text : Chars → Chars → Bool
same_text [] [] = true
same_text (c ∷ s) (d ∷ t) = (c == d) && same_text s t
same_text s t = false

pub same_text_refl : (s : Chars) → same_text s s ≡ true
unfolding same_text
same_text_refl [] = refl
same_text_refl (c ∷ s) = ground (arith, same_text_refl s)

pub same_text-eq : (s t : Chars) → same_text s t ≡ true → s ≡ t
unfolding same_text
same_text-eq [] [] same = refl
same_text-eq [] (d ∷ t) same = cc same
same_text-eq (c ∷ s) [] same = cc same
same_text-eq (c ∷ s) (d ∷ t) same = ground (arith, same, same_text-eq s t)

-- `s.ends_with(suffix)`.
unfoldable pub ends_with : Chars → Chars → Bool
unfolding same_text
ends_with suffix [] = same_text suffix []
ends_with suffix (c ∷ s) = same_text suffix (c ∷ s) || ends_with suffix s

-- `to_ascii_lowercase`.
abbrev pub lower : ℕ → ℕ
lower c = if leb b'A' c && leb c b'Z' then c + 32 else c

unfoldable pub to_lowercase : Chars → Chars
to_lowercase [] = []
to_lowercase (c ∷ s) = lower c ∷ to_lowercase s
