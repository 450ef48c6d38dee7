-- ===== src/Epub/Locator/Fragments.antt =====
-- What `from_cfi` reads from a CFI with any steps, and the positions that `to_cfi` writes.
use read_flow.Epub.Locator.Uri.{Locator}
use read_flow.Epub.Decimal.{to_string-IsDigit, parse_u32-to_string, to_string, IsDigit, is_digit}
use read_flow.Epub.Locator.Addresses.{retain-to_strings, digits-lack, Fits}
use read_flow.Epub.Locator.Cfi.{
  to_cfi, cfi_step, spine_index_of, from_cfi, assertion, child_index_of, path_nodes, node_index,
  path_and_offset, leading_digits, steps_text, map_while,
}
use read_flow.Prelude.{
  ◌%◌, ◌^◌, ◌<◌, ◌+◌, refl, none, append_assoc, ◌≢◌, All-append, inr, arith, [], ◌∙◌, not, inl,
  retain, sym, append-nil, ap, map, false, ◌++◌, ◌≡◌, some, All, Option, List, ◌∷◌, ℕ,
}
use read_flow.Chars.{
  strip_last-append, strip_prefix-append, ◌>>=◌, split_once-append, split_once, is_empty,
  split-append, split-lacking, rsplit_once-append, split, codes, Lacks, Chars,
}

abbrev StartsNoDigit : Chars → Type 0
StartsNoDigit [] = Unit
StartsNoDigit (c ∷ s) = is_digit c ≡ false

leading_digits-append :
    (s t : Chars) → All IsDigit s → StartsNoDigit t → leading_digits (s ++ t) ≡ s
unfolding leading_digits
leading_digits-append [] [] digit other = refl
leading_digits-append [] (c ∷ t) digit other = rw other refl
leading_digits-append (c ∷ s) t digit other =
    ground (arith, digit.0, leading_digits-append s t digit.1 other)

-- A CFI with the spine's step, an assertion, the path's steps and an offset, as they are written.
unfoldable pub cfi_text : ℕ → Option Chars → List ℕ → ℕ → Chars
cfi_text spine_step spine_id steps offset =
    codes "epubcfi("
    ++ ((codes "/6/"
          ++ (to_string spine_step
              ++ (assertion spine_id
                  ++ (codes "!" ++ (steps_text steps ++ (b':' ∷ to_string offset))))))
        ++ codes ")")

split-steps :
    (p : Chars) (steps : List ℕ)
    → Lacks b'/' p
    → split b'/' (p ++ steps_text steps) ≡ p ∷ map to_string steps
unfolding steps_text
split-steps p [] lacks = rw (append-nil p) (split-lacking b'/' p lacks)
split-steps p (s ∷ steps) lacks =
    split-append b'/' p (to_string s ++ steps_text steps) lacks
    ∙ ap (λ r. p ∷ r)
        (split-steps (to_string s) steps
          (digits-lack b'/' (to_string s) (inr (omega arith)) (to_string-IsDigit s)))

leading_digits-to_string : (n : ℕ) → leading_digits (to_string n) ≡ to_string n
leading_digits-to_string n =
    ap leading_digits (sym (append-nil (to_string n)))
    ∙ leading_digits-append (to_string n) [] (to_string-IsDigit n) tt

map_while-steps :
    (steps : List ℕ)
    → All Fits steps
    → map_while node_index (map to_string steps) ≡ map_while child_index_of steps
unfolding map_while
map_while-steps [] fits = refl
map_while-steps (s ∷ steps) fits =
    rw (leading_digits-to_string s, parse_u32-to_string s fits.0, map_while-steps steps fits.1) refl

path_nodes-steps :
    (steps : List ℕ)
    → All Fits steps
    → path_nodes (steps_text steps) ≡ map_while child_index_of steps
path_nodes-steps steps fits =
    ap (λ parts. map_while node_index (retain (λ s. not (is_empty s)) parts))
      (split-steps [] steps tt)
    ∙ ap (map_while node_index) (retain-to_strings steps)
    ∙ map_while-steps steps fits

path_and_offset-text :
    (s : Chars) (offset : ℕ)
    → Fits offset
    → path_and_offset (s ++ b':' ∷ to_string offset) ≡ (s, offset)
path_and_offset-text s offset fits =
    rw
      (
        rsplit_once-append b':' s (to_string offset)
            (digits-lack b':' (to_string offset) (inl (omega arith)) (to_string-IsDigit offset)),
        parse_u32-to_string offset fits,
      )
      refl

-- `from_cfi` splits at the first `!`.
abbrev pub Escaped : Option Chars → Type 0
Escaped none = Unit
Escaped (some id) = Lacks b'!' id

assertion-Lacks : (id : Option Chars) → Escaped id → Lacks b'!' (assertion id)
assertion-Lacks none escaped = tt
assertion-Lacks (some id) escaped =
    (omega arith, All-append (λ d. d ≢ b'!') id (codes "]") escaped (omega arith, tt))

at_bang :
    (step : ℕ) (id : Option Chars) (doc_part : Chars)
    → Escaped id
    → split_once
        (codes "!")
        (codes "/6/" ++ (to_string step ++ (assertion id ++ (codes "!" ++ doc_part))))
      ≡ some (codes "/6/" ++ (to_string step ++ assertion id), doc_part)
at_bang step id doc_part escaped =
    ap (λ t. split_once (codes "!") (codes "/6/" ++ t))
      (sym (append_assoc (to_string step) (assertion id) (codes "!" ++ doc_part)))
    ∙ split_once-append b'!' [] (codes "/6/" ++ (to_string step ++ assertion id)) doc_part (
      omega arith,
      (
        omega arith,
        (
          omega arith,
          All-append (λ d. d ≢ b'!') (to_string step) (assertion id)
              (digits-lack b'!' (to_string step) (inr (omega arith)) (to_string-IsDigit step))
              (assertion-Lacks id escaped),
        ),
      ),
    )

leading_digits-assertion :
    (step : ℕ) (id : Option Chars)
    → leading_digits (to_string step ++ assertion id) ≡ to_string step
leading_digits-assertion step none =
    leading_digits-append (to_string step) [] (to_string-IsDigit step) tt
leading_digits-assertion step (some id) =
    leading_digits-append (to_string step) (assertion (some id)) (to_string-IsDigit step) refl

abbrev doc_text : List ℕ → ℕ → Chars
doc_text steps offset = steps_text steps ++ b':' ∷ to_string offset

abbrev inner_text : ℕ → Option Chars → List ℕ → ℕ → Chars
inner_text spine_step id steps offset =
    codes "/6/" ++ (to_string spine_step ++ (assertion id ++ (codes "!" ++ doc_text steps offset)))

from_cfi-cfi_text :
    (spine_step : ℕ) (id : Option Chars) (steps : List ℕ) (offset : ℕ)
    → Escaped id
    → Fits spine_step
    → All Fits steps
    → Fits offset
    → from_cfi (cfi_text spine_step id steps offset) ≡ (
        spine_index_of spine_step >>= λ spine_index. some record {
          spine_index = spine_index;
          node_path = map_while child_index_of steps;
          char_offset = offset;
        })
unfolding from_cfi cfi_text
from_cfi-cfi_text spine_step id steps offset escaped spine path fits =
    rw
      (
        strip_prefix-append (codes "epubcfi(") (inner_text spine_step id steps offset ++ codes ")"),
        strip_last-append b')' (inner_text spine_step id steps offset),
        at_bang spine_step id (doc_text steps offset) escaped,
        strip_prefix-append (codes "/6/") (to_string spine_step ++ assertion id),
        leading_digits-assertion spine_step id,
        parse_u32-to_string spine_step spine,
        path_and_offset-text (steps_text steps) offset fits,
        path_nodes-steps steps path,
      )
      refl

-- The position is so far into the document that its steps still fit into 32 bits.
abbrev pub Steppable : ℕ → Type 0
Steppable index = index + 1 < 2 ^ 31

spine_index_of-cfi_step : (i : ℕ) → Steppable i → spine_index_of (cfi_step i) ≡ some i
spine_index_of-cfi_step i fits = ground (arith, fits)

child_index_of-cfi_step : (i : ℕ) → Steppable i → child_index_of (cfi_step i) ≡ some i
child_index_of-cfi_step i fits = ground (arith, fits)

map_while-cfi_step :
    (path : List ℕ) → All Steppable path → map_while child_index_of (map cfi_step path) ≡ path
unfolding map_while
map_while-cfi_step [] fits = refl
map_while-cfi_step (i ∷ path) fits =
    rw (child_index_of-cfi_step i fits.0, map_while-cfi_step path fits.1) refl

cfi_steps-fit : (path : List ℕ) → All Fits (map cfi_step path)
cfi_steps-fit [] = tt
cfi_steps-fit (i ∷ path) = (omega arith, cfi_steps-fit path)

-- A position is read back from the CFI that `to_cfi` writes for it, with or without the id of its
-- spine item, provided the indices are below 2^31 - 1, the offset fits into 32 bits and the id
-- has no `!`.
pub from_cfi-to_cfi :
    (l : Locator) (spine_id : Option Chars)
    → Escaped spine_id
    → Steppable l.spine_index
    → All Steppable l.node_path
    → Fits l.char_offset
    → from_cfi (to_cfi l spine_id) ≡ some l
unfolding to_cfi cfi_text
from_cfi-to_cfi l spine_id escaped spine path offset =
    from_cfi-cfi_text (cfi_step l.spine_index) spine_id (map cfi_step l.node_path) l.char_offset
      escaped (omega arith) (cfi_steps-fit l.node_path) offset
    ∙ (rw (spine_index_of-cfi_step l.spine_index spine, map_while-cfi_step l.node_path path) refl)

map_while-text_node :
    (path : List ℕ) (step : ℕ) (rest : List ℕ)
    → All Steppable path
    → step % 2 ≡ 1
    → map_while child_index_of (map cfi_step path ++ (step ∷ rest)) ≡ path
unfolding map_while
map_while-text_node [] step rest fits odd = ground (arith, odd)
map_while-text_node (i ∷ path) step rest fits odd =
    rw (child_index_of-cfi_step i fits.0, map_while-text_node path step rest fits.1 odd) refl

-- A CFI that goes on to a text node, by an odd step after the steps of an element, is read as the
-- position of that element: `from_cfi` drops the odd step and whatever follows it in the path,
-- and keeps the offset.
pub from_cfi-text_node :
    (l : Locator) (spine_id : Option Chars) (step : ℕ) (rest : List ℕ)
    → Escaped spine_id
    → Steppable l.spine_index
    → All Steppable l.node_path
    → Fits l.char_offset
    → step % 2 ≡ 1
    → Fits step
    → All Fits rest
    → from_cfi (
        cfi_text
          (cfi_step l.spine_index)
          spine_id
          (map cfi_step l.node_path ++ (step ∷ rest))
          l.char_offset)
      ≡ some l
from_cfi-text_node l spine_id step rest escaped spine path offset odd fits others =
    from_cfi-cfi_text (cfi_step l.spine_index) spine_id (map cfi_step l.node_path ++ (step ∷ rest))
      l.char_offset escaped (omega arith)
      (All-append Fits (map cfi_step l.node_path) (step ∷ rest) (cfi_steps-fit l.node_path)
        (fits, others))
      offset
    ∙ (rw
        (
          spine_index_of-cfi_step l.spine_index spine,
          map_while-text_node l.node_path step rest path odd,
        )
        refl)
