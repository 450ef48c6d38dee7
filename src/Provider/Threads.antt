-- ===== src/Provider/Threads.antt =====
-- Threads that share a `Cache`. A thread first looks under the read lock; where nothing is cached it
-- goes on to the write lock, and other threads may come between the two.
use read_flow.Prelude.{
  false, true, Bool, ◌==◌, not, retain, any, if◌then◌else◌, ◌≢◌, ◌≡◌, Option, List, All, ℕ, [], ◌∷◌,
  none, some, refl, suc, ap,
}
use read_flow.Provider.{set_expired, write_section, populate, Outcome, Provider, Cache, ok, err}

-- What happens next: a thread looks, a waiting thread gets the write lock, or the cache is expired.
pub data Step : Type 0 where
  looks : ℕ → Step
  fills : ℕ → Step
  expires : Step

pub record State (W T E : Type 0) : Type 0 where
  pub cache : Cache W T
  pub waiting : List ℕ
  -- Each thread's answers, the newest first.
  pub answers : List (ℕ × Outcome T E)

module _ {W T E : Type 0} (provide : Provider W T E) where
  abbrev pub looked : ℕ → Option T → State W T E → State W T E
  looked n (some v) s = record s { answers = (n, ok v) ∷ s.answers }
  looked n none s = record s { waiting = n ∷ s.waiting }

  abbrev pub filled : ℕ → Outcome T E × Cache W T → State W T E → State W T E
  filled n (r, c) s = record {
    cache = c;
    waiting = retain (λ k. not (k == n)) s.waiting;
    answers = (n, r) ∷ s.answers;
  }

  -- A thread that waits does not look again, and only a waiting thread takes the write lock.
  unfoldable pub step : Step → State W T E → State W T E
  step (looks n) s = if any (λ k. k == n) s.waiting then s else looked n s.cache.value s
  step (fills n) s =
      if any (λ k. k == n) s.waiting then filled n (write_section provide s.cache) s else s
  step expires s = record s { cache = set_expired s.cache }

  unfoldable pub run_threads : List Step → State W T E → State W T E
  run_threads [] s = s
  run_threads (e ∷ events) s = run_threads events (step e s)

abbrev pub NoExpiry : List Step → Type 0
NoExpiry = All (λ e. e ≢ expires)

-- A successful answer is the cached value.
abbrev pub FromCache : {T E : Type 0} → Option T → ℕ × Outcome T E → Type 0
FromCache o (n, ok v) = o ≡ some v
FromCache o (n, err e) = Unit

-- Just expired, with these threads waiting.
abbrev pub start : {W T E : Type 0} → W → List ℕ → State W T E
start w waiting = record {
  cache = record { world = w; value = none };
  waiting = waiting;
  answers = [];
}

-- A provider whose world also has the number of its calls that succeeded, whoever makes them.
abbrev pub noted : {W T E : Type 0} → ℕ → Outcome T E × W → Outcome T E × (W × ℕ)
noted k (ok v, w) = (ok v, (w, suc k))
noted k (err e, w) = (err e, (w, k))

abbrev pub counted : {W T E : Type 0} → Provider W T E → Provider (W × ℕ) T E
counted provide (w, k) = noted k (provide w)

abbrev pub filled_once : {T : Type 0} → Option T → ℕ
filled_once none = 0
filled_once (some v) = 1

record Inv {W T E : Type 0} (s : State (W × ℕ) T E) : Type 0 where
  from_cache : All (FromCache s.cache.value) s.answers
  once : s.cache.world.1 ≡ filled_once s.cache.value

-- Answers that were given before anything was cached are errors.
no_success :
    {T E : Type 0} (l : List (ℕ × Outcome T E)) (o : Option T)
    → All (FromCache none) l
    → All (FromCache o) l
no_success [] o from = tt
no_success ((n, ok v) ∷ l) o from = cc from.0
no_success ((n, err e) ∷ l) o from = (tt, no_success l o from.1)

module _ {W T E : Type 0} (provide : Provider W T E) where
  looked-Inv :
      (n : ℕ) (o : Option T) (s : State (W × ℕ) T E)
      → s.cache.value ≡ o
      → Inv s
      → Inv (looked (counted provide) n o s)
  looked-Inv n (some v) s is inv = record { from_cache = (is, inv.from_cache); once = inv.once }
  looked-Inv n none s is inv = record { from_cache = inv.from_cache; once = inv.once }

  filled-Inv :
      (n : ℕ) (w : W) (k : ℕ) (waiting : List ℕ) (answers : List (ℕ × Outcome T E)) (o : Option T)
      → All (FromCache o) answers
      → k ≡ filled_once o
      → (r : Outcome T E × W) → provide w ≡ r
      → Inv (
          filled (counted provide) n (populate (counted provide) (w, k) o) (record {
            cache = record { world = (w, k); value = o };
            waiting = waiting;
            answers = answers;
          }))
  filled-Inv n w k waiting answers (some v) from once r loads = record {
    from_cache = (refl, from);
    once = once;
  }
  filled-Inv n w k waiting answers none from once (ok v, w') loads =
      rw loads record { from_cache = (refl, no_success answers (some v) from); once = ap suc once }
  filled-Inv n w k waiting answers none from once (err e, w') loads =
      rw loads record { from_cache = (tt, from); once = once }

  step-Inv :
      (e : Step) (s : State (W × ℕ) T E) → e ≢ expires → Inv s → Inv (step (counted provide) e s)
  unfolding step write_section
  step-Inv (looks n) s other inv = go (any (λ k. k == n) s.waiting)
    where
      go : (b : Bool) → Inv (if b then s else looked (counted provide) n s.cache.value s)
      go true = inv
      go false = looked-Inv n s.cache.value s refl inv
  step-Inv (fills n) s other inv = go (any (λ k. k == n) s.waiting)
    where
      go :
          (b : Bool)
          → Inv (
              if b
              then filled (counted provide) n (write_section (counted provide) s.cache) s
              else s)
      go true =
          filled-Inv n s.cache.world.0 s.cache.world.1 s.waiting s.answers s.cache.value
            inv.from_cache inv.once (provide s.cache.world.0) refl
      go false = inv
  step-Inv expires s other inv = absurd (other refl)

  run_threads-Inv :
      (events : List Step) (s : State (W × ℕ) T E)
      → NoExpiry events
      → Inv s
      → Inv (run_threads (counted provide) events s)
  unfolding run_threads
  run_threads-Inv [] s calm inv = inv
  run_threads-Inv (e ∷ events) s calm inv =
      run_threads-Inv events (step (counted provide) e s) calm.1 (step-Inv e s calm.0 inv)

  -- From an expiration to the next one, in whatever order threads look and take the write lock, and
  -- with the provider's successful calls counted in the world that it reads: every successful answer
  -- is the value that the cache holds at the end, and the provider succeeded exactly once if it holds
  -- one, and never if it holds none.
  pub run_threads-once :
      (events : List Step) (w : W) (waiting : List ℕ)
      → NoExpiry events
      → let s : State (W × ℕ) T E = run_threads (counted provide) events (start (w, 0) waiting) in
        All (FromCache s.cache.value) s.answers × (s.cache.world.1 ≡ filled_once s.cache.value)
  run_threads-once events w waiting calm =
      let inv =
        run_threads-Inv events (start (w, 0) waiting) calm
          (record { from_cache = tt; once = refl }) in
      (inv.from_cache, inv.once)
