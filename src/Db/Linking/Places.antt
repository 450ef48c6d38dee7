-- ===== src/Db/Linking/Places.antt =====
-- The directory and the stem of a file, as the parts of its path, and what std::path reads of it.
use read_flow.Chars.{
  Chars, Lacks, codes, is_empty, split, split-lacking, rsplit_once-append, same_text,
}
use read_flow.Paths.{
  Component, normal, root_dir, segment_components, rooted, last, name_of, file_stem, stem_of_name,
  parent,
}
use read_flow.Db.Linking.{FileForLinking, key_of}
use read_flow.Prelude.{
  ℕ, ◌==◌, String, Bool, true, false, some, List, [], ◌∷◌, ◌++◌, All-append, Bool-cases, inl, inr,
  ◌≡◌, ◌≢◌, refl, ◌∙◌, ap, ap₂, arith,
}

-- `directory/stem.extension`, where no part is empty, the name has no slash and the extension no dot.
abbrev pub IsAt : String → Chars × Chars → Type 0
IsAt path (directory, stem) =
    (extension : Chars) × (codes path ≡ directory ++ b'/' ∷ (stem ++ b'.' ∷ extension))
    × Lacks b'/' stem
    × Lacks b'/' extension
    × Lacks b'.' extension
    × (is_empty directory ≡ false)
    × (is_empty stem ≡ false)
    × (is_empty extension ≡ false)

split-snoc :
    (sep : ℕ) (d s : Chars)
    → Lacks sep s
    → (p : Chars) × (ps : List Chars) × (split sep d ≡ p ∷ ps)
      × (split sep (d ++ sep ∷ s) ≡ p ∷ (ps ++ s ∷ []))
unfolding split
split-snoc sep [] s lacks =
    let same : (sep == sep) ≡ true = ground arith in
    ([], [], refl, rw (same, split-lacking sep s lacks) refl)
split-snoc sep (c ∷ d) s lacks =
    let (p, ps, whole, longer) = split-snoc sep d s lacks in
    elim (Bool-cases (c == sep)) [
      | inl cut ↦ ([], p ∷ ps, rw (cut, whole) refl, rw (cut, longer) refl)
      | inr on ↦ (c ∷ p, ps, rw (on, whole) refl, rw (on, longer) refl)
    ]

-- A name that is no dot segment.
abbrev IsName : Chars → Type 0
IsName n =
    (is_empty n ≡ false) × (same_text n (codes ".") ≡ false) × (same_text n (codes "..") ≡ false)

last-cons : {A : Type 0} (x y : A) (l : List A) → last l ≡ some y → last (x ∷ l) ≡ some y
last-cons x y [] e = cc
last-cons x y (z ∷ l) e = e

last-segment :
    (first : Bool) (ps : List Chars) (n : Chars)
    → IsName n
    → last (segment_components first (ps ++ n ∷ [])) ≡ some (normal n)
last-segment first [] n (full, one, two) = rw (full, one, two) refl
last-segment first (p ∷ ps) n name =
    let rest = last-segment false ps n name in
    let more : List Component = segment_components false (ps ++ n ∷ []) in
    let add : (x : Component) → last (x ∷ more) ≡ some (normal n) =
      λ x. last-cons x (normal n) more rest in
    elim (Bool-cases (is_empty p)) [
      | inl e ↦ rw e rest
      | inr full ↦ elim (Bool-cases (same_text p (codes "."))) [
        | inl dot ↦ ground (arith, rest, add)
        | inr other ↦ ground (arith, rest, add)
      ]
    ]

last-rooted :
    (p : Chars) (ps : List Chars) (n : Chars)
    → IsName n
    → last (rooted (p ∷ (ps ++ n ∷ []))) ≡ some (normal n)
last-rooted [] [] n name =
    last-cons root_dir (normal n) (segment_components false (n ∷ [])) (last-segment false [] n name)
last-rooted [] (q ∷ qs) n name =
    last-cons root_dir (normal n) (segment_components false (q ∷ (qs ++ n ∷ [])))
      (last-segment false (q ∷ qs) n name)
last-rooted (c ∷ p) ps n name = last-segment true ((c ∷ p) ∷ ps) n name

last-append :
    (d n : Chars)
    → Lacks b'/' n
    → IsName n
    → last (rooted (split b'/' (d ++ b'/' ∷ n))) ≡ some (normal n)
last-append d n lacks name =
    let (p, ps, _, longer) = split-snoc b'/' d n lacks in rw longer (last-rooted p ps n name)

parent-append : (d n : Chars) → is_empty d ≡ false → Lacks b'/' n → parent (d ++ b'/' ∷ n) ≡ d
unfolding parent
parent-append d n full lacks = rw (parent, rsplit_once-append b'/' d n lacks, full) refl

dotted-IsName :
    (stem extension : Chars)
    → is_empty stem ≡ false
    → is_empty extension ≡ false
    → IsName (stem ++ b'.' ∷ extension)
unfolding same_text
dotted-IsName [] e full more = cc
dotted-IsName (c ∷ []) [] full more = cc
dotted-IsName (c ∷ []) (e ∷ es) full more = (refl, ground arith, ground arith)
dotted-IsName (c ∷ d ∷ []) e full more = (refl, ground arith, ground arith)
dotted-IsName (c ∷ d ∷ f ∷ s) e full more = (refl, ground arith, ground arith)

stem-append :
    (stem extension : Chars)
    → is_empty stem ≡ false
    → Lacks b'.' extension
    → stem_of_name (some (stem ++ b'.' ∷ extension)) ≡ stem
stem-append [] e full lacks = cc
stem-append (c ∷ s) e full lacks = rw (rsplit_once-append b'.' (c ∷ s) e lacks) refl

-- The code's key of a file is its place.
pub key_of-IsAt :
    (f : FileForLinking) (place : Chars × Chars) → IsAt f.path place → key_of f ≡ place
unfolding key_of file_stem
key_of-IsAt f (d, stem) (e, path, slashless, also, dotless, deep, full, more) =
    let name : Chars = stem ++ b'.' ∷ e in
    let lacks : Lacks b'/' name =
      All-append (λ c. c ≢ b'/') stem (b'.' ∷ e) slashless
        ((λ q. absurd (omega (arith, q))), also) in
    rw path (
      ap₂ (λ a b. (a, b)) (parent-append d name deep lacks)
        (ap (λ c. stem_of_name (name_of c))
            (last-append d name lacks (dotted-IsName stem e full more))
          ∙ stem-append stem e full dotless))
