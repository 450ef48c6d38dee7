-- ===== src/Pagination/Reach.antt =====
-- cosmic/src/component/pagination.rs: the states that it reaches by its buttons, by the keys of
-- cosmic/src/page/document_list.rs, which navigate whether or not a button is on, and by what
-- cosmic/src/page/online_library.rs writes to its fields.
use read_flow.Prelude.{
  ℕ, zero, suc, ◌-◌, ◌^◌, ◌≤◌, ◌<◌, ◌⊎◌, min, ltb, Bool, Bool-cases, if◌then◌else◌, Option, some,
  ◌≡◌, refl, sym, subst, ap, Option-cases, ◌∙◌, inl, inr, arith,
}
use read_flow.Pagination.{
  Pagination, Message, new, next, previous, last, first, set_collection_size, change_page_size,
  request_more, update, page_size_of, add64, pred64, resize, checked_update, checked_add,
  checked_pred,
}
use read_flow.Pagination.Pages.{IsPageSize, by_size}
use mathlib.Core.Option.{some-injective}

-- What is sent: a choice of the drop-down, any navigation, and a size of the collection, of fewer
-- than 2^63 items. The pages handle a request for more themselves.
abbrev pub IsSent : Message → Type 0
IsSent (change_page_size choice) = choice < 5
IsSent (set_collection_size n) = n < 2 ^ 63
IsSent request_more = ⊥
IsSent _ = Unit

-- `listed` is the end of a search in the online library, `extended` the arrival of further
-- books, `told` a change of `has_more` alone.
pub data Reach : Pagination → Type 0 where
  start : (n : ℕ) → n < 2 ^ 63 → Reach (new n)
  step : {s s' : Pagination} (m : Message) → Reach s → IsSent m → update m s ≡ some s' → Reach s'
  listed :
      {s : Pagination} (n : ℕ) (more : Bool)
      → Reach s
      → n < 2 ^ 63
      → Reach (record s { collection_size = n; index = 0; has_more = more })
  extended :
      {s : Pagination} (old n : ℕ) (more : Bool)
      → Reach s
      → n < 2 ^ 63
      → Reach (record s { collection_size = n; index = min old (n - 1); has_more = more })
  told : {s : Pagination} (more : Bool) → Reach s → Reach (record s { has_more = more })

-- One of the five page sizes, fewer than 2^63 items, and the index at most their number, unless there
-- are none.
abbrev pub IsBounded : Pagination → Type 0
IsBounded s =
    IsPageSize s.page_size
    × ((s.collection_size < 2 ^ 63) × ((s.collection_size ≡ 0) ⊎ (s.index ≤ s.collection_size)))

-- One step: what it leaves is bounded.
abbrev Goes : Option Pagination → Type 0
Goes o = (s' : Pagination) × ((o ≡ some s') × IsBounded s')

change-Goes :
    (s : Pagination) (choice : ℕ) → IsBounded s → choice < 5 → Goes (resize s (page_size_of choice))
change-Goes s choice b small = elim (Option-cases (page_size_of choice)) [
  | inl e ↦ absurd (ground arith)
  | inr (p, e) ↦ rw e (_, (refl, (ground arith, b.1)))
]

pred-bounded : (i n : ℕ) → n < 2 ^ 63 → i ≤ pred64 n → (n ≡ 0) ⊎ (i ≤ n)
pred-bounded i zero small le = inl refl
pred-bounded i (suc n) small le = inr (omega arith)

previous-bounded :
    (s : Pagination)
    → (s.collection_size ≡ 0) ⊎ (s.index ≤ s.collection_size)
    → (s.collection_size ≡ 0)
      ⊎ ((if ltb s.page_size s.index then s.index - s.page_size else 0) ≤ s.collection_size)
previous-bounded s (inl e) = inl e
previous-bounded s (inr le) = inr (ground arith)

update-Goes : (m : Message) (s : Pagination) → IsBounded s → IsSent m → Goes (update m s)
unfolding update
update-Goes (change_page_size choice) s b sent = change-Goes s choice b sent
update-Goes first s b sent = (_, (refl, (b.0, (b.1.0, inr (omega arith)))))
update-Goes previous s b sent = (_, (refl, (b.0, (b.1.0, previous-bounded s b.1.1))))
update-Goes next s b sent =
    (_, (refl, (b.0, (b.1.0, pred-bounded _ s.collection_size b.1.0 (omega arith)))))
update-Goes last s b sent =
    (_, (refl, (b.0, (b.1.0, pred-bounded _ s.collection_size b.1.0 (omega arith)))))
update-Goes (set_collection_size n) s b sent = (_, (refl, (b.0, (sent, inr (omega arith)))))
update-Goes request_more s b sent = absurd sent

-- Every state that is reached, by the keys too, has one of the five page sizes, and its index is at
-- most the number of items unless there are none.
pub Reach-IsBounded : (s : Pagination) → Reach s → IsBounded s
unfolding new
Reach-IsBounded _ (start n small) = (inl refl, (small, inr (omega arith)))
Reach-IsBounded _ (step {s} {s'} m r sent e) =
    let g = update-Goes m s (Reach-IsBounded s r) sent in
    subst IsBounded (some-injective g.0 s' (sym g.1.0 ∙ e)) g.1.1
Reach-IsBounded _ (listed {s} n more r small) =
    ((Reach-IsBounded s r).0, (small, inr (omega arith)))
Reach-IsBounded _ (extended {s} old n more r small) =
    ((Reach-IsBounded s r).0, (small, inr (omega arith)))
Reach-IsBounded _ (told {s} more r) = Reach-IsBounded s r

size-le : (p : ℕ) → IsPageSize p → p ≤ 80
size-le p size =
    by_size (λ p. p ≤ 80) (omega arith) (omega arith) (omega arith) (omega arith) (omega arith) p
      size

pred-same : (n : ℕ) → 0 < n → n < 2 ^ 63 → checked_pred n ≡ some (pred64 n)
pred-same zero more small = absurd (omega arith)
pred-same (suc n) more small = ap some (omega arith)

add-same : (i p n : ℕ) → i ≤ n → p ≤ 80 → n < 2 ^ 63 → checked_add i p ≡ some (add64 i p)
add-same i p n inside size small = ground arith

-- The two builds agree on a message.
abbrev Agree : Message → Pagination → Type 0
Agree m s = (s' : Pagination) × ((checked_update m s ≡ some s') × (update m s ≡ some s'))

change-Agree :
    (s : Pagination) (choice : ℕ)
    → choice < 5
    → (s' : Pagination) × ((resize s (page_size_of choice) ≡ some s')
        × (resize s (page_size_of choice) ≡ some s'))
change-Agree s choice small = elim (Option-cases (page_size_of choice)) [
  | inl e ↦ absurd (ground arith)
  | inr (p, e) ↦ rw e (_, (refl, refl))
]

bounded-Agree :
    (m : Message) (s : Pagination)
    → IsBounded s
    → s.index ≤ s.collection_size
    → 0 < s.collection_size
    → IsSent m
    → Agree m s
unfolding checked_update update
bounded-Agree (change_page_size choice) s b inside more sent = change-Agree s choice sent
bounded-Agree first s b inside more sent = (_, (refl, refl))
bounded-Agree previous s b inside more sent = elim (Bool-cases (ltb s.page_size s.index)) [
  | inl e ↦ rw e (_, (refl, refl))
  | inr e ↦ rw e (_, (refl, refl))
]
bounded-Agree next s b inside more sent =
    let small = size-le s.page_size b.0 in
    rw
      (
        add-same s.index s.page_size s.collection_size inside small b.1.0,
        pred-same s.collection_size more b.1.0,
      )
      (_, (refl, refl))
bounded-Agree last s b inside more sent =
    rw (pred-same s.collection_size more b.1.0) (_, (refl, refl))
bounded-Agree (set_collection_size n) s b inside more sent = (_, (refl, refl))
bounded-Agree request_more s b inside more sent = absurd sent

-- In every state that is reached with an item or more, no message that is sent makes the arithmetic
-- of `update` overflow: a debug build does not panic, and goes to the state that a release build goes
-- to.
pub checked_update-update :
    (s : Pagination) (m : Message)
    → Reach s
    → 0 < s.collection_size
    → IsSent m
    → (s' : Pagination) × ((checked_update m s ≡ some s') × (update m s ≡ some s'))
checked_update-update s m r more sent = bounded s (Reach-IsBounded s r) more
  where
    bounded : (s : Pagination) → IsBounded s → 0 < s.collection_size → Agree m s
    bounded s (size, (small, inl bare)) more = absurd (omega (arith, bare))
    bounded s (size, (small, inr inside)) more =
        bounded-Agree m s (size, (small, inr inside)) inside more sent
