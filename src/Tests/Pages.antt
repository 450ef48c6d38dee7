-- ===== src/Tests/Pages.antt =====
-- The theorems on pages at a collection of twenty-five items, and at one that shrinks to twenty.
use read_flow.Pagination.Buttons.{target, to_last, update-target}
use read_flow.Prelude.{
  ◌-◌, ◌^◌, none, ℕ, zero, suc, ◌+◌, ◌≤◌, ◌<◌, false, some, List, [], ◌∷◌, length, get_elem?, ◌≡◌,
  refl, inl, arith,
}
use read_flow.Pagination.{
  checked_update, page_size_to_dropdown_index, Pagination, next, last, set_collection_size, new,
  page, total_pages, on_first, on_previous, on_next, on_last, update, filter_visible,
}
use read_flow.Pagination.Pages.{IsWellFormed}
use read_flow.Pagination.Reach.{Reach, IsBounded, Reach-IsBounded, checked_update-update}
use read_flow.Pagination.Visible.{filter_visible-items, set_collection_size-beyond}

program : Unit {0}
unfolding page total_pages on_first on_previous on_next on_last update new filter_visible
    page_size_to_dropdown_index
program = tt

abbrev state : ℕ → Pagination
state index = record { page_size = 10; collection_size = 25; index = index; has_more = false }

well : (index : ℕ) → index ≤ 25 → IsWellFormed (state index)
well index inside = (inl refl, (omega arith, inside))

update-target_example :
    (s' : Pagination) × (update last (state 3) ≡ some s')
    × (page s' ≡ target to_last (state 3))
    × (s'.index < s'.collection_size)
update-target_example =
    update-target to_last (state 3) (well 3 (omega arith)) (unfold program in refl)

after_next : update next (new 25) ≡ some (state 10)
unfolding program
after_next = refl

reached : Reach (state 10)
unfolding program
reached = Reach.step next (Reach.start 25 (omega arith)) tt refl

Reach-IsBounded_example : IsBounded (state 10)
Reach-IsBounded_example = Reach-IsBounded (state 10) reached

checked_update-update_example :
    (s' : Pagination) × ((checked_update last (state 10) ≡ some s')
      × (update last (state 10) ≡ some s'))
checked_update-update_example = checked_update-update (state 10) last reached (omega arith) tt

-- The key End on an empty list: a panic in a debug build, and the largest index in a release build.
end_of_none :
    (checked_update last (new 0) ≡ none)
    × (update last (new 0) ≡ some (record (new 0) { index = 2 ^ 64 - 1 }))
unfolding program checked_update
end_of_none = (refl, refl)

abbrev items : ℕ → List ℕ
items zero = []
items (suc n) = n ∷ items n

filter_visible-items_example :
    (get_elem? (filter_visible (state 12) (items 25)) 3 ≡ some 11)
    × (length (filter_visible (state 12) (items 25)) ≤ 10)
unfolding program
filter_visible-items_example = filter_visible-items (state 12) (items 25) 13 (inl refl) refl

set_collection_size-beyond_example :
    (s' : Pagination) × ((update (set_collection_size 20) (state 24) ≡ some s')
      × ((page s' ≡ total_pages s' + 1) × (filter_visible s' (items 20) ≡ [])))
unfolding program
set_collection_size-beyond_example =
    set_collection_size-beyond (state 24) 20 1 (items 20) (inl refl) refl (omega arith) refl
