-- ===== src/Pagination/Buttons.antt =====
-- The four buttons of `view`, each with the page that it is for.
use read_flow.Pagination.Pages.{
  previous_in, last_in, update-next, IsWellFormed, by_size, IsPageSize,
}
use read_flow.Prelude.{arith, ◌≡◌, ◌+◌, ◌-◌, ◌/◌, ◌<◌, Option, ℕ, refl, some}
use read_flow.Pagination.{
  update, on_last, on_next, total_pages, on_previous, page, on_first, Pagination, Message, first,
  previous, next, last,
}

pub data Button : Type 0 where
  to_first to_previous to_next to_last : Button

-- What the button sends when it is on.
abbrev pub message : Button → Message
message to_first = first
message to_previous = previous
message to_next = next
message to_last = last

-- What the button sends in a state, none when it is off.
abbrev pub pressed : Button → Pagination → Option Message
pressed to_first s = on_first s
pressed to_previous s = on_previous s
pressed to_next s = on_next s
pressed to_last s = on_last s

abbrev pub target : Button → Pagination → ℕ
target to_first s = 1
target to_previous s = page s - 1
target to_next s = page s + 1
target to_last s = total_pages s

in_front : (p i : ℕ) → IsPageSize p → 1 < i / p + 1 → (0 < i) × (0 / p + 1 ≡ 1)
in_front p i size on =
    by_size (λ p. 1 < i / p + 1 → (0 < i) × (0 / p + 1 ≡ 1)) (λ h. (ground arith, refl))
      (λ h. (ground arith, refl)) (λ h. (ground arith, refl)) (λ h. (ground arith, refl))
      (λ h. (ground arith, refl)) p size on

-- A button that is on leads to the page that it is for, and the index stays inside the collection:
-- the first page, the one before, the one after, or the last.
pub update-target :
    (b : Button) (s : Pagination)
    → IsWellFormed s
    → pressed b s ≡ some (message b)
    → (s' : Pagination) × (update (message b) s ≡ some s')
      × (page s' ≡ target b s)
      × (s'.index < s'.collection_size)
unfolding update on_first on_previous on_last page total_pages
update-target to_first s wf on =
    let f = in_front s.page_size s.index wf.0 (ground arith) in
    (_, refl, f.1, omega (arith, f.0, wf.1.1))
update-target to_previous s wf on =
    let f = in_front s.page_size s.index wf.0 (ground arith) in
    (
      _,
      refl,
      omega (arith, previous_in s.page_size s.index wf.0 (ground arith)),
      ground (arith, f.0, wf.1.1),
    )
update-target to_next s wf on = let n = update-next s wf on in (n.0, n.1.0, n.1.1.0, n.1.1.1)
update-target to_last s wf on =
    let j = last_in s.page_size s.index s.collection_size wf.0 wf.1.0 (ground arith) in
    (_, refl, (rw (j.0) refl), omega (arith, j.1))
