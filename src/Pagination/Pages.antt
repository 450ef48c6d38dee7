-- ===== src/Pagination/Pages.antt =====
-- cosmic/src/component/pagination.rs: where the buttons lead, and what a page shows.
use read_flow.Prelude.{
  ap, ℕ, ◌+◌, ◌-◌, ◌/◌, ◌%◌, ◌^◌, ◌≤◌, ◌<◌, min, ltb, none, some, if◌then◌else◌, ◌≡◌, refl, sym,
  subst, ◌⊎◌, inl, inr, arith,
}
use read_flow.Pagination.{
  page_size_to_dropdown_index, change_page_size, resize, Pagination, next, previous, last, page,
  total_pages, on_next, on_previous, on_last, update,
}

-- The sizes that the drop-down offers.
abbrev pub IsPageSize : ℕ → Type 0
IsPageSize p = (p ≡ 10) ⊎ ((p ≡ 20) ⊎ ((p ≡ 30) ⊎ ((p ≡ 50) ⊎ (p ≡ 80))))

-- A list in memory has fewer than 2^63 items.
abbrev pub IsWellFormed : Pagination → Type 0
IsWellFormed s =
    IsPageSize s.page_size × ((s.collection_size < 2 ^ 63) × (s.index ≤ s.collection_size))

module _ (P : ℕ → Type 0) (ten : P 10) (twenty : P 20) (thirty : P 30) (fifty : P 50)
    (eighty : P 80) where
  pub by_size : (p : ℕ) → IsPageSize p → P p
  by_size p (inl e) = subst P (sym e) ten
  by_size p (inr (inl e)) = subst P (sym e) twenty
  by_size p (inr (inr (inl e))) = subst P (sym e) thirty
  by_size p (inr (inr (inr (inl e)))) = subst P (sym e) fifty
  by_size p (inr (inr (inr (inr e)))) = subst P (sym e) eighty

pub next_in :
    (p i n : ℕ)
    → IsPageSize p
    → n < 2 ^ 63
    → i ≤ n
    → i / p + 1 < (n - 1) / p + 1
    → let j = min ((i + p) % 2 ^ 64) ((n + (2 ^ 64 - 1)) % 2 ^ 64) in (j / p ≡ i / p + 1) × (j < n)
next_in p i n size small inside on =
    by_size
      (λ p.
        i / p + 1 < (n - 1) / p + 1
        → (min ((i + p) % 2 ^ 64) ((n + (2 ^ 64 - 1)) % 2 ^ 64) / p ≡ i / p + 1)
          × (min ((i + p) % 2 ^ 64) ((n + (2 ^ 64 - 1)) % 2 ^ 64) < n))
      (λ h. ground arith) (λ h. ground arith) (λ h. ground arith) (λ h. ground arith)
      (λ h. ground arith) p size on

-- Where the next-page button is on, it leads to the page after this one, inside the collection.
pub update-next :
    (s : Pagination)
    → IsWellFormed s
    → on_next s ≡ some next
    → (s' : Pagination) × ((update next s ≡ some s')
        × ((page s' ≡ page s + 1) × (s'.index < s'.collection_size)))
unfolding update on_next page total_pages
update-next s wf on =
    let j = next_in s.page_size s.index s.collection_size wf.0 wf.1.0 wf.1.1 (ground arith) in
    (_, (refl, (omega (arith, j.0), j.1)))

pub previous_in :
    (p i : ℕ) → IsPageSize p → 1 < i / p + 1 → (if ltb p i then i - p else 0) / p + 1 ≡ i / p
previous_in p i size on =
    by_size (λ p. 1 < i / p + 1 → (if ltb p i then i - p else 0) / p + 1 ≡ i / p)
      (λ h. ground arith) (λ h. ground arith) (λ h. ground arith) (λ h. ground arith)
      (λ h. ground arith) p size on

-- Where the previous-page button is on, it leads to the page before this one.
pub update-previous :
    (s : Pagination)
    → IsWellFormed s
    → on_previous s ≡ some previous
    → (s' : Pagination) × ((update previous s ≡ some s') × (page s ≡ page s' + 1))
unfolding update on_previous page
update-previous s wf on =
    (_, (refl, omega (arith, previous_in s.page_size s.index wf.0 (ground arith))))

pub last_in :
    (p i n : ℕ)
    → IsPageSize p
    → n < 2 ^ 63
    → i / p + 1 < (n - 1) / p + 1
    → let j = (n + (2 ^ 64 - 1)) % 2 ^ 64 in (j ≡ n - 1) × (j < n)
last_in p i n size small on =
    by_size
      (λ p.
        i / p + 1 < (n - 1) / p + 1
        → ((n + (2 ^ 64 - 1)) % 2 ^ 64 ≡ n - 1) × ((n + (2 ^ 64 - 1)) % 2 ^ 64 < n))
      (λ h. ground arith) (λ h. ground arith) (λ h. ground arith) (λ h. ground arith)
      (λ h. ground arith) p size on

-- Where the last-page button is on, it leads to the last page, where next and last are off.
pub update-last :
    (s : Pagination)
    → IsWellFormed s
    → on_last s ≡ some last
    → (s' : Pagination) × ((update last s ≡ some s')
        × ((page s' ≡ total_pages s') × ((on_last s' ≡ none) × (s'.index < s'.collection_size))))
unfolding update on_last page total_pages
update-last s wf on =
    let j = last_in s.page_size s.index s.collection_size wf.0 wf.1.0 (ground arith) in
    (_, (refl, rw (j.0) (refl, (ground arith, omega (arith, j.1)))))

resized : (s : Pagination) (p : ℕ) → s.page_size ≡ p → resize s (some p) ≡ some s
resized s p e = ap (λ q. some (record s { page_size = q })) (sym e)

-- The entry that the drop-down shows is the one for the present page size: choosing it changes
-- nothing.
pub update-page_size_to_dropdown_index :
    (s : Pagination)
    → IsPageSize s.page_size
    → (i : ℕ) × ((page_size_to_dropdown_index s ≡ some i)
        × (update (change_page_size i) s ≡ some s))
unfolding update page_size_to_dropdown_index
update-page_size_to_dropdown_index s (inl e) = (0, (rw e refl, resized s 10 e))
update-page_size_to_dropdown_index s (inr (inl e)) = (1, (rw e refl, resized s 20 e))
update-page_size_to_dropdown_index s (inr (inr (inl e))) = (2, (rw e refl, resized s 30 e))
update-page_size_to_dropdown_index s (inr (inr (inr (inl e)))) = (3, (rw e refl, resized s 50 e))
update-page_size_to_dropdown_index s (inr (inr (inr (inr e)))) = (4, (rw e refl, resized s 80 e))
