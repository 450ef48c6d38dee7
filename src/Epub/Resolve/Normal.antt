-- ===== src/Epub/Resolve/Normal.antt =====
-- Paths without dot segments, and how `resolve_href` composes.
use read_flow.Epub.Resolve.{
  parent, same, stepped, other, step_segment, ◌∷◌, Part, base_segments, walk, resolve_href, part_of,
  pop,
}
use read_flow.Prelude.{
  inr, inl, ◌==◌, Bool-cases, if◌then◌else◌, refl, arith, ◌≢◌, All-append, none, [], sym, ap, ◌∙◌,
  subst, ◌≡◌, All, List, ◌++◌, ℕ,
}
use read_flow.Chars.{cons_head, split-join, Lacks, codes, strip_prefix, Chars, split, join}

-- A segment that is not empty, `.` or `..`, as it stands between two `/`.
abbrev pub Named : Chars → Type 0
Named part = (part_of part ≡ other) × Lacks b'/' part

-- No segment is empty, `.` or `..`; the empty path has no segment.
unfoldable pub Normal : Chars → Type 0
Normal path = All Named (base_segments path)

split-Lacks : (s : Chars) → All (Lacks b'/') (split b'/' s)
unfolding split
split-Lacks [] = (tt, tt)
split-Lacks (c ∷ s) = split-cons (split b'/' s) (split-Lacks s)
  where
    split-cons :
        (rest : List Chars)
        → All (Lacks b'/') rest
        → All (Lacks b'/') (if c == b'/' then [] ∷ rest else cons_head c rest)
    split-cons [] lacks = ground arith
    split-cons (p ∷ ps) lacks = ground (arith, lacks.0, lacks.1)

part_of-cons : (c : ℕ) (s : Chars) → part_of (c ∷ s) ≡ other → (c ∷ s) ≢ []
part_of-cons c s named = λ e. cc e

pop-Named : (l : List Chars) → All Named l → All Named (pop l)
unfolding pop
pop-Named [] named = tt
pop-Named (x ∷ []) named = tt
pop-Named (x ∷ y ∷ l) named = (named.0, pop-Named (y ∷ l) named.1)

stepped-Named :
    (segments : List Chars) (part : Chars) (p : Part)
    → part_of part ≡ p
    → Lacks b'/' part
    → All Named segments
    → All Named (stepped segments part p)
stepped-Named segments part same is lacks named = named
stepped-Named segments part parent is lacks named = pop-Named segments named
stepped-Named segments part other is lacks named =
    All-append Named segments (part ∷ []) named ((is, lacks), tt)

walk-Named :
    (segments parts : List Chars)
    → All (Lacks b'/') parts
    → All Named segments
    → All Named (walk segments parts)
unfolding walk step_segment
walk-Named segments [] lacks named = named
walk-Named segments (part ∷ parts) lacks named =
    walk-Named (stepped segments part (part_of part)) parts lacks.1
      (stepped-Named segments part (part_of part) refl lacks.0 named)

Named-Lacks : (l : List Chars) → All Named l → All (Lacks b'/') l
Named-Lacks [] named = tt
Named-Lacks (p ∷ l) named = (named.0.1, Named-Lacks l named.1)

base_segments-join : (l : List Chars) → All Named l → base_segments (join b'/' l) ≡ l
base_segments-join [] named = unfold join in refl
base_segments-join ([] ∷ l) named = cc named.0.0
base_segments-join ((c ∷ p) ∷ []) named = unfold join in split-join b'/' (c ∷ p) [] (named.0.1, tt)
base_segments-join ((c ∷ p) ∷ q ∷ l) named =
    unfold join in split-join b'/' (c ∷ p) (q ∷ l) (Named-Lacks ((c ∷ p) ∷ q ∷ l) named)

-- A reference that is neither empty, absolute nor a `data:` URL.
abbrev pub Relative : Chars → Type 0
Relative p =
    (strip_prefix (codes "data:") p ≡ none) × (strip_prefix (codes "/") p ≡ none) × (p ≢ [])

resolve_href-Relative :
    (base relative : Chars)
    → Relative relative
    → resolve_href base relative ≡ join b'/' (walk (base_segments base) (split b'/' relative))
unfolding resolve_href
resolve_href-Relative base relative is = rw (is.0, is.1) refl

resolved_segments :
    (base relative : Chars)
    → Relative relative
    → Normal base
    → base_segments (resolve_href base relative) ≡ walk (base_segments base) (split b'/' relative)
unfolding Normal
resolved_segments base relative is normal =
    ap base_segments (resolve_href-Relative base relative is)
    ∙ base_segments-join (walk (base_segments base) (split b'/' relative))
        (walk-Named (base_segments base) (split b'/' relative) (split-Lacks relative) normal)

-- A relative reference, resolved against a directory without dot segments, gives a path without dot
-- segments: no segment is empty, `.` or `..`, however many `..` the reference has.
pub resolve_href-Normal :
    (base relative : Chars) → Relative relative → Normal base → Normal (resolve_href base relative)
unfolding Normal
resolve_href-Normal base relative is normal =
    subst (All Named) (sym (resolved_segments base relative is normal))
      (walk-Named (base_segments base) (split b'/' relative) (split-Lacks relative) normal)

walk-append : (segments xs ys : List Chars) → walk segments (xs ++ ys) ≡ walk (walk segments xs) ys
unfolding walk
walk-append segments [] ys = refl
walk-append segments (a ∷ xs) ys = walk-append (step_segment segments a) xs ys

split-head : (s : Chars) → (p : Chars) × (ps : List Chars) × (split b'/' s ≡ p ∷ ps)
unfolding split
split-head [] = ([], [], refl)
split-head (c ∷ s) =
    let (p, ps, e) = split-head s in
    elim (Bool-cases (c == b'/')) [
      | inl t ↦ ([], p ∷ ps, (rw (t, e) refl))
      | inr f ↦ (c ∷ p, ps, (rw (f, e) refl))
    ]

slash-first :
    (c : ℕ) (s t : Chars)
    → strip_prefix (codes "/") (c ∷ s) ≡ none
    → strip_prefix (codes "/") (c ∷ t) ≡ none
unfolding strip_prefix
slash-first c s t fails = ground (arith, fails)

split-two : (p q : Chars) → split b'/' (p ++ b'/' ∷ q) ≡ split b'/' p ++ split b'/' q
unfolding split
split-two [] q = refl
split-two (c ∷ p) q = let (h, t, e) = split-head p in ground (arith, split-two p q, e)

strip_prefix-two :
    (m p q : Chars) → Lacks b'/' m → strip_prefix m p ≡ none → strip_prefix m (p ++ b'/' ∷ q) ≡ none
unfolding strip_prefix
strip_prefix-two [] p q lacks fails = cc fails
strip_prefix-two (a ∷ m) [] q lacks fails = ground (arith, lacks.0)
strip_prefix-two (a ∷ m) (c ∷ p) q lacks fails =
    ground (arith, fails, strip_prefix-two m p q lacks.1)

Relative-two : (p q : Chars) → Relative p → Relative (p ++ b'/' ∷ q)
Relative-two [] q is = absurd (is.2 refl)
Relative-two (c ∷ p) q is = (
  strip_prefix-two (codes "data:") (c ∷ p) q (omega arith) is.0,
  (slash-first c p (p ++ b'/' ∷ q) is.1),
  λ e. cc e,
)

-- Against a directory without dot segments, resolving one relative reference and then another
-- against the result is resolving the two joined by `/`.
pub resolve_href-twice :
    (base p q : Chars)
    → Normal base
    → Relative p
    → Relative q
    → resolve_href (resolve_href base p) q ≡ resolve_href base (p ++ b'/' ∷ q)
resolve_href-twice base p q normal first second =
    resolve_href-Relative (resolve_href base p) q second
    ∙ ap (λ s. join b'/' (walk s (split b'/' q))) (resolved_segments base p first normal)
    ∙ ap (join b'/') (
        sym (walk-append (base_segments base) (split b'/' p) (split b'/' q))
        ∙ ap (walk (base_segments base)) (sym (split-two p q)))
    ∙ sym (resolve_href-Relative base (p ++ b'/' ∷ q) (Relative-two p q first))
