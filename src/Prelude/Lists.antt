-- ===== src/Prelude/Lists.antt =====
-- Lists measured and indexed by native numbers, and the Boolean list operations of the program.
use Prim.Native.Nat.{ℕ, zero, suc, ◌+◌, ◌-◌, ◌≤◌, min}
use mathlib.Core.Bool.{Bool, true, false, ◌||◌, ◌&&◌}
use mathlib.Core.Path.{◌≡◌, refl, ap}
use mathlib.Core.Logic.{◌⊎◌, inl, inr}
use mathlib.Core.List.{List, [], ◌∷◌, ◌++◌}
use mathlib.Core.Option.{Option, none, some}
use native.Mathlib.Omega.{arith}
use read_flow.Prelude.Tests.{if◌then◌else◌}

module _ {ℓ} {A : Type ℓ} where
  abbrev pub length : List A → ℕ
  length [] = 0
  length (x ∷ xs) = suc (length xs)

  abbrev pub get_elem? : List A → ℕ → Option A
  get_elem? [] i = none
  get_elem? (x ∷ xs) zero = some x
  get_elem? (x ∷ xs) (suc i) = get_elem? xs i

  abbrev pub take : ℕ → List A → List A
  take zero xs = []
  take (suc n) [] = []
  take (suc n) (x ∷ xs) = x ∷ take n xs

  abbrev pub drop : ℕ → List A → List A
  drop zero xs = xs
  drop (suc n) [] = []
  drop (suc n) (x ∷ xs) = drop n xs

  pub length-append : (xs ys : List A) → length (xs ++ ys) ≡ length xs + length ys
  length-append [] ys = omega arith
  length-append (x ∷ xs) ys = omega (arith, length-append xs ys)

  pub length-take : (n : ℕ) (xs : List A) → length (take n xs) ≡ min n (length xs)
  length-take zero xs = omega arith
  length-take (suc n) [] = omega arith
  length-take (suc n) (x ∷ xs) = omega (arith, length-take n xs)

  pub length-drop : (n : ℕ) (xs : List A) → length (drop n xs) ≡ length xs - n
  length-drop zero xs = omega arith
  length-drop (suc n) [] = omega arith
  length-drop (suc n) (x ∷ xs) = omega (arith, length-drop n xs)

-- Tests and selections by a Boolean predicate (`any`, `all`, `filter`, `find` of the source).
module _ {ℓ} {A : Type ℓ} (p : A → Bool) where
  abbrev pub any : List A → Bool
  any [] = false
  any (x ∷ xs) = p x || any xs

  abbrev pub all : List A → Bool
  all [] = true
  all (x ∷ xs) = p x && all xs

  abbrev pub retain : List A → List A
  retain [] = []
  retain (x ∷ xs) = if p x then x ∷ retain xs else retain xs

  abbrev pub find : List A → Option A
  find [] = none
  find (x ∷ xs) = if p x then some x else find xs

  -- An `UPDATE … WHERE`: `f` at the rows that pass the test.
  abbrev pub update : (A → A) → List A → List A
  update f [] = []
  update f (x ∷ xs) = (if p x then f x else x) ∷ update f xs

  pub length-retain-le : (xs : List A) → length (retain xs) ≤ length xs
  length-retain-le [] = omega arith
  length-retain-le (x ∷ xs) = ground (arith, length-retain-le xs)

  pub length-update : (f : A → A) (xs : List A) → length (update f xs) ≡ length xs
  length-update f [] = refl
  length-update f (x ∷ xs) = ap suc (length-update f xs)

  pub any-append : (xs ys : List A) → any (xs ++ ys) ≡ (any xs || any ys)
  any-append [] ys = refl
  any-append (x ∷ xs) ys = ground (arith, any-append xs ys)

  pub retain-append : (xs ys : List A) → retain (xs ++ ys) ≡ retain xs ++ retain ys
  retain-append [] ys = refl
  retain-append (x ∷ xs) ys = ground (arith, retain-append xs ys)

-- A predicate at every element.
abbrev pub All {ℓ κ} : {A : Type ℓ} → (A → Type κ) → List A → Type κ
All P [] = Unit
All P (x ∷ xs) = P x × All P xs

module _ {ℓ κ} {A : Type ℓ} (P : A → Type κ) where
  pub All-append : (xs ys : List A) → All P xs → All P ys → All P (xs ++ ys)
  All-append [] ys h k = k
  All-append (x ∷ xs) ys h k = (h.0, All-append xs ys h.1 k)

  pub All-retain : (p : A → Bool) (xs : List A) → All P xs → All P (retain p xs)
  All-retain p [] h = tt
  All-retain p (x ∷ xs) h = ground (arith, All-retain p xs h.1)

  pub All-update :
      (p : A → Bool) (f : A → A) (xs : List A)
      → ((x : A) → P x → P (f x))
      → All P xs
      → All P (update p f xs)
  All-update p f [] keep h = tt
  All-update p f (x ∷ xs) keep h = (ground (arith, keep x h.0), All-update p f xs keep h.1)

pub All-map {ℓ κ μ} :
    {A : Type ℓ} (P : A → Type κ) (Q : A → Type μ) (xs : List A)
    → ((x : A) → P x → Q x)
    → All P xs
    → All Q xs
All-map P Q [] f h = tt
All-map P Q (x ∷ xs) f h = (f x h.0, All-map P Q xs f h.1)

pub All-both {ℓ κ μ ν} :
    {A : Type ℓ} (P : A → Type κ) (Q : A → Type μ) (R : A → Type ν) (xs : List A)
    → ((x : A) → P x → Q x → R x)
    → All P xs
    → All Q xs
    → All R xs
All-both P Q R [] f h k = tt
All-both P Q R (x ∷ xs) f h k = (f x h.0 k.0, All-both P Q R xs f h.1 k.1)

-- What holds of all elements holds of each.
pub All-each {ℓ} : {A : Type ℓ} (xs : List A) → All (λ x. (P : A → Type 0) → All P xs → P x) xs
All-each [] = tt
All-each {A} (x ∷ xs) = (
  (λ P h. h.0),
  All-map (λ y. (P : A → Type 0) → All P xs → P y) (λ y. (P : A → Type 0) → All P (x ∷ xs) → P y) xs
      (λ y each P h. each P h.1) (All-each xs),
)

module _ {ℓ} {A : Type ℓ} (p : A → Bool) where
  pub any-none : (xs : List A) → any p xs ≡ false → All (λ x. p x ≡ false) xs
  any-none [] h = tt
  any-none (x ∷ xs) h = (ground arith, any-none xs (ground arith))

  pub none-any : (xs : List A) → All (λ x. p x ≡ false) xs → any p xs ≡ false
  none-any [] h = refl
  none-any (x ∷ xs) h = rw h.0 (none-any xs h.1)

  pub All-unretain :
      (P : A → Type 0) (xs : List A) → All P (retain p xs) → All (λ x. (p x ≡ false) ⊎ P x) xs
  All-unretain P [] h = tt
  All-unretain P (x ∷ xs) h = keep (p x) refl (All-unretain P xs) h
    where
      Each : List A → Type 0
      Each = All (λ y. (p y ≡ false) ⊎ P y)

      keep :
          (b : Bool)
          → p x ≡ b
          → (All P (retain p xs) → Each xs)
          → All P (if b then x ∷ retain p xs else retain p xs)
          → Each (x ∷ xs)
      keep true e rest k = (inr k.0, rest k.1)
      keep false e rest k = (inl e, rest k)

-- A relation between every element of one list and every element of another.
module _ {ℓ κ μ} {A : Type ℓ} {B : Type κ} (R : A → B → Type μ) where
  pub All-swap :
      (xs : List A) (ys : List B) → All (λ x. All (R x) ys) xs → All (λ y. All (λ x. R x y) xs) ys
  All-swap xs [] h = tt
  All-swap xs (y ∷ ys) h = (
    All-map (λ x. All (R x) (y ∷ ys)) (λ x. R x y) xs (λ x k. k.0) h,
    All-swap xs ys (All-map (λ x. All (R x) (y ∷ ys)) (λ x. All (R x) ys) xs (λ x k. k.1) h),
  )

-- Reading back after an `UPDATE … WHERE` that keeps the tested columns, and after an `INSERT`.
module _ {ℓ} {A : Type ℓ} where
  pub find-update :
      (p q : A → Bool) (f : A → A) (xs : List A)
      → ((x : A) → q (f x) ≡ q x)
      → find q (update p f xs)
        ≡ elim (find q xs) [ none ↦ none | some x ↦ some (if p x then f x else x) ]
  find-update p q f [] keep = refl
  find-update p q f (x ∷ xs) keep = ground (arith, keep x, find-update p q f xs keep)

  pub find-append :
      (q : A → Bool) (xs ys : List A)
      → find q (xs ++ ys) ≡ elim (find q xs) [ none ↦ find q ys | some x ↦ some x ]
  find-append q [] ys = ground arith
  find-append q (x ∷ xs) ys = ground (arith, find-append q xs ys)

  pub any-find :
      (q : A → Bool) (xs : List A) → any q xs ≡ elim (find q xs) [ none ↦ false | some _ ↦ true ]
  any-find q [] = refl
  any-find q (x ∷ xs) = ground (arith, any-find q xs)

  pub find_sound : (q : A → Bool) (xs : List A) (x : A) → find q xs ≡ some x → q x ≡ true
  find_sound q [] x h = cc
  find_sound q (y ∷ xs) x h = ground (arith, find_sound q xs x)
