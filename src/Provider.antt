-- ===== src/Provider.antt =====
-- provider/src/sync: providers that may fail, and what is built around them. A provider is a function
-- of the world it reads to a result and the world after it; a lock's holder runs alone.
pub mod Threads
use read_flow.Prelude.{false, if◌then◌else◌, true, none, Option, Bool, some, ℕ}

pub data Outcome (T E : Type 0) : Type 0 where
  ok : T → Outcome T E
  err : E → Outcome T E

abbrev pub Provider : Type 0 → Type 0 → Type 0 → Type 0
Provider W T E = W → Outcome T E × W

-- `Value`.
abbrev pub value_provider : {W T E : Type 0} → T → Provider W T E
value_provider v w = (ok v, w)

abbrev pub mapped : {W T R E : Type 0} → (T → R) → Outcome T E × W → Outcome R E × W
mapped f (ok v, w) = (ok (f v), w)
mapped f (err e, w) = (err e, w)

-- `Map`.
unfoldable pub map_provider : {W T R E : Type 0} → Provider W T E → (T → R) → Provider W R E
map_provider provide f w = mapped f (provide w)

abbrev pub chained : {W T R E : Type 0} → (T → Outcome R E) → Outcome T E × W → Outcome R E × W
chained f (ok v, w) = (f v, w)
chained f (err e, w) = (err e, w)

-- `AndThen`.
unfoldable pub and_then : {W T R E : Type 0} → Provider W T E → (T → Outcome R E) → Provider W R E
and_then provide f w = chained f (provide w)

abbrev pub or_else : {W T E : Type 0} → Provider W T E → Outcome T E × W → Outcome T E × W
or_else fallback (ok v, w) = (ok v, w)
or_else fallback (err e, w) = fallback w

-- `FallbackProvider`.
unfoldable pub or_fallback : {W T E : Type 0} → Provider W T E → Provider W T E → Provider W T E
or_fallback primary fallback w = or_else fallback (primary w)

-- `ExpiringValue`: the value, and whether it was expired; `none` is `Expired`.
abbrev pub provide_unexpired : {T : Type 0} → T × Bool → Option T
provide_unexpired (v, expired) = if expired then none else some v

pub record Cache (W T : Type 0) : Type 0 where
  pub world : W
  pub value : Option T

abbrev pub is_expired : {T : Type 0} → Option T → Bool
is_expired none = true
is_expired (some v) = false

-- `set_expired`.
unfoldable pub set_expired : {W T : Type 0} → Cache W T → Cache W T
set_expired c = record c { value = none }

abbrev pub stored : {W T E : Type 0} → Outcome T E × W → Outcome T E × Cache W T
stored (ok v, w) = (ok v, record { world = w; value = some v })
stored (err e, w) = (err e, record { world = w; value = none })

module _ {W T E : Type 0} (provide : Provider W T E) where
  abbrev pub populate : W → Option T → Outcome T E × Cache W T
  populate w (some v) = (ok v, record { world = w; value = some v })
  populate w none = stored (provide w)

  -- `Cache::provide` under the write lock.
  unfoldable pub write_section : Cache W T → Outcome T E × Cache W T
  write_section c = populate c.world c.value

  abbrev pub after_read : Cache W T → Option T → Outcome T E × Cache W T
  after_read c (some v) = (ok v, c)
  after_read c none = write_section c

  -- `Cache::provide` where no other thread comes between.
  unfoldable pub cached_provide : Cache W T → Outcome T E × Cache W T
  cached_provide c = after_read c c.value

  -- `ExpiringItemCache`: a value whose item is expired counts as none.
  module _ (item_expired : T → Bool) where
    abbrev pub unexpired : Option T → Option T
    unexpired none = none
    unexpired (some v) = if item_expired v then none else some v

    abbrev pub item_is_expired : Option T → Bool
    item_is_expired none = true
    item_is_expired (some v) = item_expired v

    -- A load that fails leaves the expired value in place.
    abbrev pub kept : Option T → Outcome T E × W → Outcome T E × Cache W T
    kept old (ok v, w) = (ok v, record { world = w; value = some v })
    kept old (err e, w) = (err e, record { world = w; value = old })

    abbrev pub item_populate : Cache W T → Option T → Outcome T E × Cache W T
    item_populate c (some v) = (ok v, c)
    item_populate c none = kept c.value (provide c.world)

    unfoldable pub item_cached_provide : Cache W T → Outcome T E × Cache W T
    item_cached_provide c = item_populate c (unexpired c.value)
