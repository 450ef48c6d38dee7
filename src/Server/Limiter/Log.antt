-- ===== src/Server/Limiter/Log.antt =====
-- The limiter's bounded queue answers like the count over a log of all failures.
use read_flow.Prelude.{
  inr, inl, true, not, refl, arith, Bool-cases, false, All-append, [], ◌++◌, ◌∷◌, retain, ◌≤◌, ◌≡◌,
  All, List, ℕ,
}
use read_flow.Server.Limiter.{record_failure, check, expired, drop_expired, Limiter}

-- A check or a recorded failure, with its time.
pub data Event : Type 0 where
  checked : ℕ → Event
  failed : ℕ → Event

abbrev pub time_of : Event → ℕ
time_of (checked t) = t
time_of (failed t) = t

unfoldable pub run : Limiter → List Event → Limiter
run l [] = l
run l (checked t ∷ events) = run (check l t).0 events
run l (failed t ∷ events) = run (record_failure l t) events

-- The times of all failures, oldest first.
unfoldable pub log_of : List Event → List ℕ
log_of [] = []
log_of (checked t ∷ events) = log_of events
log_of (failed t ∷ events) = t ∷ log_of events

-- The clock does not go back, from the first time to the last.
abbrev pub InOrder : ℕ → List Event → ℕ → Type 0
InOrder from [] now = from ≤ now
InOrder from (e ∷ events) now = (from ≤ time_of e) × InOrder (time_of e) events now

abbrev pub recent : ℕ → ℕ → List ℕ → List ℕ
recent window now = retain (λ t. not (expired window now t))

abbrev pub Ascending : List ℕ → ℕ → Type 0
Ascending [] now = Unit
Ascending (t ∷ l) now = All (λ s. t ≤ s) l × (t ≤ now) × Ascending l now

pub Ascending-later : (l : List ℕ) (from now : ℕ) → from ≤ now → Ascending l from → Ascending l now
Ascending-later [] from now le up = tt
Ascending-later (t ∷ l) from now le up =
    (up.0, omega (arith, up.1), Ascending-later l from now le up.2)

All-snoc-le :
    (t now : ℕ) (l : List ℕ) → All (λ s. t ≤ s) l → t ≤ now → All (λ s. t ≤ s) (l ++ (now ∷ []))
All-snoc-le t now l above le = All-append (λ s. t ≤ s) l (now ∷ []) above (le, tt)

pub Ascending-snoc :
    (l : List ℕ) (from now : ℕ) → from ≤ now → Ascending l from → Ascending (l ++ (now ∷ [])) now
Ascending-snoc [] from now le up = (tt, omega arith, tt)
Ascending-snoc (t ∷ l) from now le up = (
  All-snoc-le t now l up.0 (omega (arith, up.1)),
  omega (arith, up.1),
  Ascending-snoc l from now le up.2,
)

pub Ascending-tail : (xs ys : List ℕ) (now : ℕ) → Ascending (xs ++ ys) now → Ascending ys now
Ascending-tail [] ys now up = up
Ascending-tail (x ∷ xs) ys now up = Ascending-tail xs ys now up.2

All-tail : (t : ℕ) (xs ys : List ℕ) → All (λ s. t ≤ s) (xs ++ ys) → All (λ s. t ≤ s) ys
All-tail t [] ys above = above
All-tail t (x ∷ xs) ys above = All-tail t xs ys above.1

module _ (window now : ℕ) where
  abbrev pub Expired : ℕ → Type 0
  Expired t = expired window now t ≡ true

  All-fresh :
      (t : ℕ) (l : List ℕ)
      → expired window now t ≡ false
      → All (λ s. t ≤ s) l
      → recent window now l ≡ l
  All-fresh t [] fresh above = refl
  All-fresh t (s ∷ l) fresh above = ground (arith, fresh, above.0, All-fresh t l fresh above.1)

  pub drop_expired-recent :
      (l : List ℕ) → Ascending l now → drop_expired window now l ≡ recent window now l
  unfolding drop_expired
  drop_expired-recent [] up = refl
  drop_expired-recent (t ∷ l) up = elim (Bool-cases (expired window now t)) [
    | inl old ↦ rw old (drop_expired-recent l up.2)
    | inr fresh ↦ rw (fresh, All-fresh t l fresh up.0) refl
  ]

  pub recent-Expired : (l : List ℕ) → All Expired l → recent window now l ≡ []
  recent-Expired [] old = refl
  recent-Expired (t ∷ l) old = rw old.0 (recent-Expired l old.1)

  -- What stands before an expired failure is expired.
  pub All-Expired-before :
      (xs : List ℕ) (t : ℕ) (ys : List ℕ)
      → Ascending (xs ++ (t ∷ ys)) now
      → Expired t
      → All Expired xs
  All-Expired-before [] t ys up old = tt
  All-Expired-before (x ∷ xs) t ys up old =
      (ground (arith, old, (All-tail x xs (t ∷ ys) up.0).0), All-Expired-before xs t ys up.2 old)
