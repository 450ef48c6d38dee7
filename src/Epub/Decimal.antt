-- ===== src/Epub/Decimal.antt =====
-- Decimal numbers: `u32::to_string` and `str::parse::<u32>`.
use read_flow.Prelude.{
  ◌≢◌, inr, inl, Bool-cases, ℕ, zero, suc, ◌+◌, ◌-◌, ◌*◌, ◌/◌, ◌%◌, ◌^◌, ◌<◌, ◌≤◌, ◌==◌, ltb, leb,
  Bool, true, false, ◌&&◌, Option, none, some, [], ◌∷◌, ◌++◌, All, All-append, if◌then◌else◌, ◌≡◌,
  refl, sym, ◌∙◌, ap, arith,
}
use read_flow.Chars.{Chars}

-- A number has at most as many digits as it has units, and one.
unfoldable pub digits : ℕ → ℕ → Chars
digits zero n = []
digits (suc fuel) n =
    let more = digits fuel (n / 10) in
    if ltb n 10 then (b'0' + n) ∷ [] else more ++ (b'0' + n % 10) ∷ []

unfoldable pub to_string : ℕ → Chars
unfolding digits
to_string n = digits (suc n) n

abbrev pub is_digit : ℕ → Bool
is_digit c = leb b'0' c && leb c b'9'

-- `checked_mul` and `checked_add` of each digit.
unfoldable pub scan_u32 : Option ℕ → Chars → Option ℕ
scan_u32 none s = none
scan_u32 (some n) [] = some n
scan_u32 (some n) (c ∷ s) =
    scan_u32
      (if is_digit c
        then if ltb (n * 10 + (c - b'0')) (2 ^ 32) then some (n * 10 + (c - b'0')) else none
        else none)
      s

abbrev pub unsigned : Chars → Option ℕ
unsigned [] = none
unsigned (c ∷ s) = scan_u32 (some 0) (c ∷ s)

-- A sign `+` may stand in front.
unfoldable pub parse_u32 : Chars → Option ℕ
parse_u32 [] = none
parse_u32 (c ∷ s) = if c == b'+' then unsigned s else unsigned (c ∷ s)

abbrev pub IsDigit : ℕ → Type 0
IsDigit c = (b'0' ≤ c) × (c ≤ b'9')

digits-more :
    (fuel n : ℕ)
    → ltb n 10 ≡ false
    → digits (suc fuel) n ≡ digits fuel (n / 10) ++ (b'0' + n % 10) ∷ []
unfolding digits
digits-more fuel n big = rw big refl

digits-one : (fuel n : ℕ) → ltb n 10 ≡ true → digits (suc fuel) n ≡ (b'0' + n) ∷ []
unfolding digits
digits-one fuel n small = rw small refl

digits-IsDigit : (fuel n : ℕ) → All IsDigit (digits fuel n)
digits-IsDigit zero n = unfold digits in tt
digits-IsDigit (suc fuel) n = elim (Bool-cases (ltb n 10)) [
  | inl small ↦ rw (digits-one fuel n small) (ground (arith, small))
  | inr big ↦ rw (digits-more fuel n big) (
      All-append IsDigit (digits fuel (n / 10)) ((b'0' + n % 10) ∷ [])
        (digits-IsDigit fuel (n / 10)) (ground arith))
]

scan-append : (s t : Chars) (o : Option ℕ) → scan_u32 o (s ++ t) ≡ scan_u32 (scan_u32 o s) t
unfolding scan_u32
scan-append s t none = refl
scan-append [] t (some n) = refl
scan-append (c ∷ s) t (some n) = scan-append s t (
    if is_digit c
    then if ltb (n * 10 + (c - b'0')) (2 ^ 32) then some (n * 10 + (c - b'0')) else none
    else none)

scan-one :
    (n d : ℕ)
    → d < 10
    → n * 10 + d < 2 ^ 32
    → scan_u32 (some n) ((b'0' + d) ∷ []) ≡ some (n * 10 + d)
unfolding scan_u32
scan-one n d small fits = ground (arith, small, fits)

scan-digits : (fuel n : ℕ) → n < fuel → n < 2 ^ 32 → scan_u32 (some 0) (digits fuel n) ≡ some n
scan-digits zero n enough fits = absurd (omega (arith, enough))
scan-digits (suc fuel) n enough fits = elim (Bool-cases (ltb n 10)) [
  | inl small ↦
      rw (digits-one fuel n small)
        (scan-one 0 n (ground (arith, small)) (omega (arith, fits)) ∙ ap some (omega arith))
  | inr big ↦
      ap (scan_u32 (some 0)) (digits-more fuel n big)
      ∙ scan-append (digits fuel (n / 10)) ((b'0' + n % 10) ∷ []) (some 0)
      ∙ ap (λ o. scan_u32 o ((b'0' + n % 10) ∷ []))
          (scan-digits fuel (n / 10) (ground (arith, big)) (omega arith))
      ∙ scan-one (n / 10) (n % 10) (omega arith) (omega arith)
      ∙ ap some (omega arith)
]

unsigned-parse :
    (s : Chars) (n : ℕ)
    → All IsDigit s
    → scan_u32 (some 0) s ≡ some n
    → s ≢ []
    → parse_u32 s ≡ some n
unfolding parse_u32
unsigned-parse [] n digit scanned some_digit = absurd (some_digit refl)
unsigned-parse (c ∷ s) n digit scanned some_digit = ground (arith, digit.0.0, scanned)

append-nonempty : (s : Chars) (c : ℕ) → s ++ c ∷ [] ≢ []
append-nonempty [] c = λ e. cc e
append-nonempty (d ∷ s) c = λ e. cc e

digits-nonempty : (fuel n : ℕ) → digits (suc fuel) n ≢ []
digits-nonempty fuel n empty = elim (Bool-cases (ltb n 10)) [
  | inl small ↦ cc (sym (digits-one fuel n small) ∙ empty)
  | inr big ↦
      append-nonempty (digits fuel (n / 10)) (b'0' + n % 10) (sym (digits-more fuel n big) ∙ empty)
]

pub to_string-IsDigit : (n : ℕ) → All IsDigit (to_string n)
unfolding to_string
to_string-IsDigit n = digits-IsDigit (suc n) n

pub to_string-nonempty : (n : ℕ) → to_string n ≢ []
unfolding to_string
to_string-nonempty n = digits-nonempty n n

pub parse_u32-to_string : (n : ℕ) → n < 2 ^ 32 → parse_u32 (to_string n) ≡ some n
parse_u32-to_string n fits =
    unsigned-parse (to_string n) n (to_string-IsDigit n)
      (unfold to_string in scan-digits (suc n) n (omega arith) fits) (to_string-nonempty n)
