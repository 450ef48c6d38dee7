-- ===== src/Pagination/Visible.antt =====
-- cosmic/src/component/pagination.rs: which items a page shows.
use read_flow.Prelude.{
  ℕ, zero, suc, ◌+◌, ◌-◌, ◌*◌, ◌/◌, ◌%◌, ◌≤◌, ◌<◌, min, some, List, [], ◌∷◌, take, drop, length,
  get_elem?, ◌≡◌, refl, sym, ◌∙◌, ap, arith, length-take,
}
use read_flow.Pagination.{
  Pagination, set_collection_size, first_visible, filter_visible, page, total_pages, update,
}
use read_flow.Pagination.Pages.{IsPageSize, by_size}

position : (p i k : ℕ) → IsPageSize p → k / p ≡ i / p → (k % p < p) × ((i / p) * p + k % p ≡ k)
position p i k size same =
    by_size (λ p. k / p ≡ i / p → (k % p < p) × ((i / p) * p + k % p ≡ k)) (λ h. ground arith)
      (λ h. ground arith) (λ h. ground arith) (λ h. ground arith) (λ h. ground arith) p size same

beyond :
    (p i n k : ℕ)
    → IsPageSize p
    → n ≡ suc k * p
    → n ≤ i
    → (min i n / p ≡ (n - 1) / p + 1) × (n ≤ (min i n / p) * p)
beyond p i n k size full past =
    by_size (λ p. n ≡ suc k * p → (min i n / p ≡ (n - 1) / p + 1) × (n ≤ (min i n / p) * p))
      (λ h. ground arith) (λ h. ground arith) (λ h. ground arith) (λ h. ground arith)
      (λ h. ground arith) p size full

add_suc_left : (n i : ℕ) → suc n + i ≡ suc (n + i)
add_suc_left n i = omega arith

module _ {ℓ} {A : Type ℓ} where
  get_elem?-take : (n i : ℕ) (xs : List A) → i < n → get_elem? (take n xs) i ≡ get_elem? xs i
  get_elem?-take zero i xs h = absurd (omega (arith, h))
  get_elem?-take (suc n) i [] h = refl
  get_elem?-take (suc n) zero (x ∷ xs) h = refl
  get_elem?-take (suc n) (suc i) (x ∷ xs) h = get_elem?-take n i xs (omega (arith, h))

  get_elem?-drop : (n i : ℕ) (xs : List A) → get_elem? (drop n xs) i ≡ get_elem? xs (n + i)
  get_elem?-drop zero i xs = ap (get_elem? xs) (omega arith)
  get_elem?-drop (suc n) i [] = refl
  get_elem?-drop (suc n) i (x ∷ xs) =
      get_elem?-drop n i xs ∙ ap (get_elem? (x ∷ xs)) (sym (add_suc_left n i))

  drop_all : (n : ℕ) (xs : List A) → length xs ≤ n → drop n xs ≡ []
  drop_all zero [] h = refl
  drop_all zero (x ∷ xs) h = absurd (omega (arith, h))
  drop_all (suc n) [] h = refl
  drop_all (suc n) (x ∷ xs) h = drop_all n xs (omega (arith, h))

  take_nil : (n : ℕ) → take {A = A} n [] ≡ []
  take_nil zero = refl
  take_nil (suc n) = refl

  -- A page shows each item that belongs to it, in its place: the item at `k` is on page `k / p + 1`
  -- and stands there at `k % p`, and a page shows at most `p` items.
  pub filter_visible-items :
      (s : Pagination) (items : List A) (k : ℕ)
      → IsPageSize s.page_size
      → k / s.page_size + 1 ≡ page s
      → (get_elem? (filter_visible s items) (k % s.page_size) ≡ get_elem? items k)
        × (length (filter_visible s items) ≤ s.page_size)
  unfolding filter_visible page
  filter_visible-items s items k size same =
      let at = position s.page_size s.index k size (omega (arith, same)) in
      (
        get_elem?-take s.page_size (k % s.page_size) (drop (first_visible s) items) at.0
            ∙ get_elem?-drop (first_visible s) (k % s.page_size) items
            ∙ ap (get_elem? items) at.1,
        omega (arith, length-take s.page_size (drop (first_visible s) items)),
      )

  -- When a collection shrinks to a positive multiple of the page size and the index was at or behind
  -- its new end, the page shown is one behind the last, and it is empty.
  pub set_collection_size-beyond :
      (s : Pagination) (n k : ℕ) (items : List A)
      → IsPageSize s.page_size
      → n ≡ suc k * s.page_size
      → n ≤ s.index
      → length items ≡ n
      → (s' : Pagination) × ((update (set_collection_size n) s ≡ some s')
          × ((page s' ≡ total_pages s' + 1) × (filter_visible s' items ≡ [])))
  unfolding update page total_pages filter_visible
  set_collection_size-beyond s n k items size full past fits =
      let b = beyond s.page_size s.index n k size full past in
      (
        _,
        (
          refl,
          (
            omega (arith, b.0),
            ap (take s.page_size) (
                  drop_all ((min s.index n / s.page_size) * s.page_size) items
                    (omega (arith, b.1, fits)))
                ∙ take_nil s.page_size,
          ),
        ),
      )
