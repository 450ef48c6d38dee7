-- ===== src/Epub/Locator/Cfi.antt =====
-- `Locator::to_cfi` and `Locator::from_cfi`, epub/src/domain/locator.rs.
use read_flow.Prelude.{
  ◌-◌, ◌*◌, ◌/◌, ◌^◌, ◌||◌, ◌==◌, ◌%◌, ltb, ◌+◌, if◌then◌else◌, ℕ, not, retain, Option, none, some,
  List, [], ◌∷◌, ◌++◌, map,
}
use read_flow.Chars.{
  Chars, codes, strip_prefix, strip_last, split, split_once, rsplit_once, is_empty, ◌>>=◌,
}
use read_flow.Epub.Decimal.{to_string, parse_u32, is_digit}
use read_flow.Epub.Locator.Uri.{Locator}

-- `(index + 1) * 2` in `u32`.
abbrev pub cfi_step : ℕ → ℕ
cfi_step index = ((index + 1) % 2 ^ 32 * 2) % 2 ^ 32

abbrev pub assertion : Option Chars → Chars
assertion none = []
assertion (some id) = b'[' ∷ (id ++ codes "]")

unfoldable pub steps_text : List ℕ → Chars
steps_text [] = []
steps_text (step ∷ steps) = b'/' ∷ (to_string step ++ steps_text steps)

unfoldable pub to_cfi : Locator → Option Chars → Chars
to_cfi l spine_id =
    codes "epubcfi("
    ++ ((codes "/6/"
          ++ (to_string (cfi_step l.spine_index)
              ++ (assertion spine_id
                  ++ (codes "!"
                      ++ (steps_text (map cfi_step l.node_path)
                          ++ (b':' ∷ to_string l.char_offset))))))
        ++ codes ")")

-- `s[..s.find(|c| !c.is_ascii_digit()).unwrap_or(s.len())]`.
unfoldable pub leading_digits : Chars → Chars
leading_digits [] = []
leading_digits (c ∷ s) = let rest = leading_digits s in if is_digit c then c ∷ rest else []

abbrev pub spine_index_of : ℕ → Option ℕ
spine_index_of spine_step =
    if ltb spine_step 2 || not (spine_step % 2 == 0) then none else some (spine_step / 2 - 1)

abbrev pub child_index_of : ℕ → Option ℕ
child_index_of step =
    if not (step % 2 == 0) then none else if ltb step 2 then none else some (step / 2 - 1)

abbrev pub node_index : Chars → Option ℕ
node_index s = parse_u32 (leading_digits s) >>= child_index_of

abbrev pub cons_while {ℓ} : {A : Type ℓ} → Option A → List A → List A
cons_while none l = []
cons_while (some a) l = a ∷ l

unfoldable pub map_while {ℓ κ} : {A : Type ℓ} {B : Type κ} → (A → Option B) → List A → List B
map_while f [] = []
map_while f (a ∷ l) = cons_while (f a) (map_while f l)

abbrev pub number_or_zero : Option ℕ → ℕ
number_or_zero none = 0
number_or_zero (some n) = n

abbrev pub offset_or_zero : Chars → Option (Chars × Chars) → Chars × ℕ
offset_or_zero doc_part none = (doc_part, 0)
offset_or_zero doc_part (some (p, o)) = (p, number_or_zero (parse_u32 o))

abbrev pub path_and_offset : Chars → Chars × ℕ
path_and_offset doc_part = offset_or_zero doc_part (rsplit_once b':' doc_part)

abbrev pub path_nodes : Chars → List ℕ
path_nodes path_str = map_while node_index (retain (λ s. not (is_empty s)) (split b'/' path_str))

unfoldable pub from_cfi : Chars → Option Locator
from_cfi cfi = do
  opened ← strip_prefix (codes "epubcfi(") cfi
  inner ← strip_last b')' opened
  parts ← split_once (codes "!") inner
  after_slash6 ← strip_prefix (codes "/6/") parts.0
  spine_step ← parse_u32 (leading_digits after_slash6)
  spine_index ← spine_index_of spine_step
  some record {
    spine_index = spine_index;
    node_path = path_nodes (path_and_offset parts.1).0;
    char_offset = (path_and_offset parts.1).1;
  }
