-- ===== src/Pagination.antt =====
-- cosmic/src/component/pagination.rs. `usize` has 64 bits, and its arithmetic wraps round as in a
-- release build.
pub mod Pages
pub mod Buttons
pub mod Reach
pub mod Visible
use read_flow.Prelude.{
  ℕ, zero, suc, ◌+◌, ◌-◌, ◌*◌, ◌/◌, ◌%◌, ◌^◌, ◌==◌, min, ltb, leb, Bool, true, false, Option, none,
  some, List, take, drop, if◌then◌else◌,
}

pub record Pagination : Type 0 where
  pub page_size : ℕ
  pub collection_size : ℕ
  pub index : ℕ
  pub has_more : Bool

-- `PaginationMessage`, whose `Out` carries `PaginationOutput::RequestMore`.
pub data Message : Type 0 where
  change_page_size : ℕ → Message
  first previous next last : Message
  set_collection_size : ℕ → Message
  request_more : Message

unfoldable pub new : ℕ → Pagination
new collection_size = record {
  page_size = 10;
  collection_size = collection_size;
  index = 0;
  has_more = false;
}

abbrev pub first_visible : Pagination → ℕ
first_visible s = (s.index / s.page_size) * s.page_size

unfoldable pub filter_visible {ℓ} : {A : Type ℓ} → Pagination → List A → List A
filter_visible s items = take s.page_size (drop (first_visible s) items)

unfoldable pub page : Pagination → ℕ
page s = s.index / s.page_size + 1

unfoldable pub total_pages : Pagination → ℕ
total_pages s = (s.collection_size - 1) / s.page_size + 1

abbrev pub add64 : ℕ → ℕ → ℕ
add64 a b = (a + b) % 2 ^ 64

-- `a - 1`.
abbrev pub pred64 : ℕ → ℕ
pred64 a = (a + (2 ^ 64 - 1)) % 2 ^ 64

-- What the buttons of `view` send.
unfoldable pub on_first : Pagination → Option Message
unfolding page
on_first s = if ltb 1 (page s) then some first else none

unfoldable pub on_previous : Pagination → Option Message
unfolding page
on_previous s = if ltb 1 (page s) then some previous else none

unfoldable pub on_next : Pagination → Option Message
on_next s =
    if ltb (page s) (total_pages s)
    then some next
    else if s.has_more
    then some request_more
    else none

unfoldable pub on_last : Pagination → Option Message
on_last s = if ltb (page s) (total_pages s) then some last else none

abbrev pub page_size_of : ℕ → Option ℕ
page_size_of choice =
    if choice == 0
    then some 10
    else if choice == 1
    then some 20
    else if choice == 2
    then some 30
    else if choice == 3
    then some 50
    else if choice == 4
    then some 80
    else none

abbrev pub resize : Pagination → Option ℕ → Option Pagination
resize s none = none
resize s (some n) = some (record s { page_size = n })

-- `none` is a panic.
unfoldable pub update : Message → Pagination → Option Pagination
update (change_page_size choice) s = resize s (page_size_of choice)
update first s = some (record s { index = 0 })
update previous s =
    some (record s { index = if ltb s.page_size s.index then s.index - s.page_size else 0 })
update next s =
    some (record s { index = min (add64 s.index s.page_size) (pred64 s.collection_size) })
update last s = some (record s { index = pred64 s.collection_size })
update (set_collection_size n) s = some (record s { collection_size = n; index = min s.index n })
update request_more s = none

-- `a + b` and `a - 1` in a debug build, where an overflow is a panic.
abbrev pub checked_add : ℕ → ℕ → Option ℕ
checked_add a b = if ltb (a + b) (2 ^ 64) then some (a + b) else none

abbrev pub checked_pred : ℕ → Option ℕ
checked_pred zero = none
checked_pred (suc a) = some a

abbrev pub to_index : Pagination → Option ℕ → Option Pagination
to_index s none = none
to_index s (some i) = some (record s { index = i })

abbrev pub checked_min : Option ℕ → Option ℕ → Option ℕ
checked_min (some a) (some b) = some (min a b)
checked_min _ _ = none

-- `update` in a debug build.
unfoldable pub checked_update : Message → Pagination → Option Pagination
checked_update (change_page_size choice) s = resize s (page_size_of choice)
checked_update first s = to_index s (some 0)
checked_update previous s =
    to_index s (if ltb s.page_size s.index then some (s.index - s.page_size) else some 0)
checked_update next s =
    to_index s (checked_min (checked_add s.index s.page_size) (checked_pred s.collection_size))
checked_update last s = to_index s (checked_pred s.collection_size)
checked_update (set_collection_size n) s =
    some (record s { collection_size = n; index = min s.index n })
checked_update request_more s = none

unfoldable pub page_size_to_dropdown_index : Pagination → Option ℕ
page_size_to_dropdown_index s =
    if leb s.page_size 10
    then some 0
    else if leb s.page_size 20
    then some 1
    else if leb s.page_size 30
    then some 2
    else if leb s.page_size 50
    then some 3
    else some 4
