-- ===== src/Online/Editions.antt =====
-- core/src/online_library/mod.rs: the merged list read off the list of editions.
use read_flow.Online.Slots.{
  step-Indexed, grow-Distinct, step-books, keys-upd, Indexed, keys-append, books, Distinct, keys,
  upd, position, holds, grow, Slot,
}
use read_flow.Chars.{same_text, Chars}
use read_flow.Online.{
  merge_gutenberg_editions, merge_loop, merge_step, index_of, strip_gutenberg_edition_note,
  merge_book_into, gutenberg_base_id, opened, OnlineBook,
}
use read_flow.Prelude.{
  ap₂, ℕ, Bool, true, false, Option, none, some, List, [], ◌∷◌, ◌++◌, any, if◌then◌else◌, ◌≡◌, refl,
  sym, ap, ◌∙◌, append_assoc, append-nil, arith, Bool-cases, inl, inr,
}

abbrev pub base_of : OnlineBook → Option Chars
base_of b = gutenberg_base_id b.id

abbrev is_key : Chars → Option Chars → Bool
is_key k none = false
is_key k (some j) = same_text k j

-- The later editions under a base id, merged into a book one after another.
unfoldable pub with_later : Chars → List OnlineBook → OnlineBook → OnlineBook
with_later k [] b = b
with_later k (c ∷ cs) b =
    with_later k cs
      (if is_key k (base_of c) then merge_book_into b (strip_gutenberg_edition_note c) else b)

-- A book that is no edition stays; a base id stands where its first edition does; `seen` are those
-- that stand already.
abbrev placed :
    Option Chars
    → List Chars
    → OnlineBook
    → List OnlineBook
    → (List Chars → List OnlineBook)
    → List OnlineBook
placed none seen b bs rest = b ∷ rest seen
placed (some k) seen b bs rest =
    if any (λ j. same_text j k) seen
    then rest seen
    else with_later k bs (opened k b) ∷ rest (seen ++ k ∷ [])

unfoldable pub merged_from : List Chars → List OnlineBook → List OnlineBook
unfolding with_later
merged_from seen [] = []
merged_from seen (b ∷ bs) = placed (base_of b) seen b bs (λ ks. merged_from ks bs)

abbrev later : List OnlineBook → Slot → OnlineBook
later bs (none, b) = b
later bs (some k, b) = with_later k bs b

finish : List OnlineBook → List Slot → List OnlineBook
finish bs [] = []
finish bs (s ∷ ss) = later bs s ∷ finish bs ss

module _ (c : OnlineBook) (cs : List OnlineBook) where
  finish-append : (ss ts : List Slot) → finish cs (ss ++ ts) ≡ finish cs ss ++ finish cs ts
  unfolding finish
  finish-append [] ts = refl
  finish-append (s ∷ ss) ts = ap (λ bs. later cs s ∷ bs) (finish-append ss ts)

  -- What the next edition changes, read off the slots before and after it.
  finish-plain : (ss : List Slot) → base_of c ≡ none → finish (c ∷ cs) ss ≡ finish cs ss
  unfolding finish with_later
  finish-plain [] plain = refl
  finish-plain ((none, b) ∷ ss) plain = ap (λ bs. b ∷ bs) (finish-plain ss plain)
  finish-plain ((some j, b) ∷ ss) plain =
      ap₂ (λ x bs. x ∷ bs) (rw plain refl) (finish-plain ss plain)

  finish-upd :
      (k : Chars) (ss : List Slot)
      → base_of c ≡ some k
      → finish (c ∷ cs) ss
        ≡ finish cs (upd k (λ b. merge_book_into b (strip_gutenberg_edition_note c)) ss)
  unfolding finish with_later upd
  finish-upd k [] keyed = refl
  finish-upd k ((none, b) ∷ ss) keyed = ap (λ bs. b ∷ bs) (finish-upd k ss keyed)
  finish-upd k ((some j, b) ∷ ss) keyed =
      ap₂ (λ x bs. x ∷ bs) (rw keyed refl) (finish-upd k ss keyed)

  finish-unheld :
      (k : Chars) (f : OnlineBook → OnlineBook) (ss : List Slot)
      → holds k (keys ss) ≡ false
      → finish cs (upd k f ss) ≡ finish cs ss
  unfolding finish upd keys
  finish-unheld k f [] free = refl
  finish-unheld k f ((none, b) ∷ ss) free = ap (λ bs. b ∷ bs) (finish-unheld k f ss free)
  finish-unheld k f ((some j, b) ∷ ss) free = ground (arith, free, finish-unheld k f ss)

  merged-plain :
      (seen : List Chars) → base_of c ≡ none → merged_from seen (c ∷ cs) ≡ c ∷ merged_from seen cs
  unfolding merged_from
  merged-plain seen plain = ap (λ o. placed o seen c cs (λ ks. merged_from ks cs)) plain

  merged-seen :
      (k : Chars) (seen : List Chars)
      → base_of c ≡ some k
      → holds k seen ≡ true
      → merged_from seen (c ∷ cs) ≡ merged_from seen cs
  unfolding merged_from
  merged-seen k seen keyed held =
      ap (λ o. placed o seen c cs (λ ks. merged_from ks cs)) keyed ∙ rw held refl

  merged-new :
      (k : Chars) (seen : List Chars)
      → base_of c ≡ some k
      → holds k seen ≡ false
      → merged_from seen (c ∷ cs) ≡ with_later k cs (opened k c) ∷ merged_from (seen ++ k ∷ []) cs
  unfolding merged_from
  merged-new k seen keyed free =
      ap (λ o. placed o seen c cs (λ ks. merged_from ks cs)) keyed ∙ rw free refl

  -- What a new slot adds at the end.
  placed-append :
      (s : Slot) (ss : List Slot) (ks : List Chars)
      → keys (ss ++ s ∷ []) ≡ ks
      → finish cs ss ++ (later cs s ∷ merged_from ks cs)
        ≡ finish cs (ss ++ s ∷ []) ++ merged_from (keys (ss ++ s ∷ [])) cs
  unfolding finish
  placed-append s ss ks e = sym (
      ap₂ (λ xs js. xs ++ merged_from js cs) (finish-append ss (s ∷ [])) e
      ∙ append_assoc (finish cs ss) (later cs s ∷ []) (merged_from ks cs))

  step_lem :
      (o : Option Chars) (ss : List Slot)
      → base_of c ≡ o
      → finish (c ∷ cs) ss ++ merged_from (keys ss) (c ∷ cs)
        ≡ finish cs (grow c o ss) ++ merged_from (keys (grow c o ss)) cs
  unfolding grow keys
  step_lem none ss plain =
      ap₂ (λ xs ys. xs ++ ys) (finish-plain ss plain) (merged-plain (keys ss) plain)
      ∙ placed-append (none, c) ss (keys ss)
          (keys-append ss ((none, c) ∷ []) ∙ append-nil (keys ss))
  step_lem (some k) ss keyed =
      let f : OnlineBook → OnlineBook = λ b. merge_book_into b (strip_gutenberg_edition_note c) in
      elim (Bool-cases (holds k (keys ss))) [
        | inl held ↦ rw held (
            ap₂ (λ xs ys. xs ++ ys) (finish-upd k ss keyed) (merged-seen k (keys ss) keyed held)
            ∙ ap (λ ks. finish cs (upd k f ss) ++ merged_from ks cs) (sym (keys-upd k f ss)))
        | inr free ↦ rw free (
            ap₂ (λ xs ys. xs ++ ys) (finish-upd k ss keyed ∙ finish-unheld k f ss free)
              (merged-new k (keys ss) keyed free)
            ∙ placed-append (some k, opened k c) ss (keys ss ++ k ∷ [])
                (keys-append ss ((some k, opened k c) ∷ [])))
      ]

finish-nil : (ss : List Slot) → finish [] ss ≡ books ss
unfolding finish with_later
finish-nil [] = refl
finish-nil ((none, b) ∷ ss) = ap (λ bs. b ∷ bs) (finish-nil ss)
finish-nil ((some k, b) ∷ ss) = ap (λ bs. b ∷ bs) (finish-nil ss)

merge_loop_lem :
    (bs : List OnlineBook) (index : List (Chars × ℕ)) (ss : List Slot)
    → Distinct ss
    → Indexed index ss
    → merge_loop bs (books ss, index) ≡ finish bs ss ++ merged_from (keys ss) bs
unfolding merge_loop merged_from
merge_loop_lem [] index ss d indexed = sym (finish-nil ss) ∙ sym (append-nil (finish [] ss))
merge_loop_lem (c ∷ cs) index ss d indexed =
    let m = merge_step c (base_of c) (books ss, index) in
    ap (λ bs. merge_loop cs (bs, m.1)) (step-books c (base_of c) index ss d indexed)
    ∙ merge_loop_lem cs m.1 (grow c (base_of c) ss) (grow-Distinct c (base_of c) ss d)
        (step-Indexed c (base_of c) index ss indexed)
    ∙ sym (step_lem c cs (base_of c) ss refl)

-- The merged list has every book that is no edition of Project Gutenberg unchanged, in its place, and
-- each base id once, where its first edition stands, under that id and with all later editions of the
-- id merged into it in their order.
pub merge_gutenberg_editions-merged :
    (bs : List OnlineBook) → merge_gutenberg_editions bs ≡ merged_from [] bs
unfolding merge_gutenberg_editions position index_of keys finish
merge_gutenberg_editions-merged bs = merge_loop_lem bs [] [] tt (λ k. refl)
