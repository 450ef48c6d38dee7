-- ===== src/Server/Limiter.antt =====
-- `BasicAuthLimiter`, core/src/server/authn.rs. A time is a number of ticks; `t < now - window` is
-- written `t + window < now`, as an `Instant` may lie before the clock's start.
pub mod Log
pub mod Stands
pub mod Refinement
use read_flow.Prelude.{◌+◌, length, if◌then◌else◌, ltb, ◌∷◌, List, Bool, ◌++◌, [], ℕ}

pub record Limiter : Type 0 where
  pub window : ℕ
  pub max_failures : ℕ
  pub failures : List ℕ

-- `Default`, with a tick of one second.
abbrev pub default : Limiter
default = record { window = 60; max_failures = 10; failures = [] }

abbrev pub expired : ℕ → ℕ → ℕ → Bool
expired window now t = ltb (t + window) now

-- The loop of `check`.
unfoldable pub drop_expired : ℕ → ℕ → List ℕ → List ℕ
drop_expired window now [] = []
drop_expired window now (t ∷ failures) =
    let rest = drop_expired window now failures in
    if expired window now t then rest else t ∷ failures

unfoldable pub check : Limiter → ℕ → Limiter × Bool
check l now =
    let failures = drop_expired l.window now l.failures in
    (record l { failures = failures }, ltb (length failures) l.max_failures)

-- The loop of `record_failure`.
unfoldable pub drop_excess : ℕ → List ℕ → List ℕ
drop_excess max_failures [] = []
drop_excess max_failures (t ∷ failures) =
    let rest = drop_excess max_failures failures in
    if ltb max_failures (length (t ∷ failures)) then rest else t ∷ failures

unfoldable pub record_failure : Limiter → ℕ → Limiter
record_failure l now = record l { failures = drop_excess l.max_failures (l.failures ++ (now ∷ [])) }

abbrev pub limiter : ℕ → ℕ → List ℕ → Limiter
limiter window m failures = record { window = window; max_failures = m; failures = failures }
