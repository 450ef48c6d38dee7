-- ===== src/Tests/Provider.antt =====
-- A cache around a counter, shared by three threads.
use Prim.Native.Nat.{zero}
use read_flow.Provider.Threads.{
  counted, run_threads-once, filled_once, FromCache, expires, fills, start, step, looks, Step,
  State, run_threads,
}
use read_flow.Prelude.{◌≢◌, All, ◌==◌, suc, ◌≡◌, ◌+◌, List, ℕ, [], ◌∷◌, some, refl}
use read_flow.Provider.{
  cached_provide, set_expired, value_provider, Provider, item_cached_provide, write_section,
  and_then, or_fallback, map_provider, Outcome, ok, err,
}

program : Unit {0}
unfolding write_section step run_threads set_expired or_fallback map_provider and_then
    cached_provide item_cached_provide
program = tt

-- Fails at first, then counts.
abbrev counter : Provider ℕ ℕ (Unit {0})
counter zero = (err tt, 1)
counter (suc n) = (ok (suc n), suc (suc n))

abbrev refuse : ℕ → Outcome ℕ (Unit {0})
refuse v = err tt

abbrev schedule : List Step
schedule = looks 1 ∷ looks 2 ∷ fills 2 ∷ looks 3 ∷ fills 1 ∷ fills 3 ∷ looks 2 ∷ []

test_answers :
    (run_threads counter schedule (start 0 [])).answers
    ≡ (2, ok 1) ∷ (3, ok 1) ∷ (1, ok 1) ∷ (2, err tt) ∷ []
unfolding program
test_answers = refl

test_expired :
    (run_threads counter
      (looks 1 ∷ fills 1 ∷ expires ∷ looks 1 ∷ fills 1 ∷ [])
      (start 1 [])).answers
    ≡ (1, ok 2) ∷ (1, ok 1) ∷ []
unfolding program
test_expired = refl

test_fallback : or_fallback counter (value_provider 7) 0 ≡ (ok 7, 1)
unfolding program
test_fallback = refl

-- A cached item that has expired is loaded again.
test_item :
    (item_cached_provide counter (λ v. v == 1) (record { world = 1; value = some 1 })).0 ≡ ok 1
unfolding program
test_item = refl

test_map : map_provider counter (λ v. v + 5) 3 ≡ (ok 8, 4)
unfolding program
test_map = refl

test_and_then : (and_then counter refuse 3).1 ≡ 4
unfolding program
test_and_then = refl

looks_on : (n : ℕ) → looks n ≢ expires
looks_on n e = cc e

fills_on : (n : ℕ) → fills n ≢ expires
fills_on n e = cc e

run_threads-once_example :
    let s : State (ℕ × ℕ) ℕ (Unit {0}) = run_threads (counted counter) schedule (start (0, 0) []) in
    All (FromCache s.cache.value) s.answers × (s.cache.world.1 ≡ filled_once s.cache.value)
run_threads-once_example = run_threads-once counter schedule 0 [] (
  looks_on 1,
  (looks_on 2, (fills_on 2, (looks_on 3, (fills_on 1, (fills_on 3, (looks_on 2, tt)))))),
)
