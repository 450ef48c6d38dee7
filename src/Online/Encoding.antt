-- ===== src/Online/Encoding.antt =====
-- core/src/online_library/mod.rs: percent-encoding of a query, on its bytes, and the search URL.
use Prim.Native.Nat.{zero}
use read_flow.Chars.{codes, Chars, split_once, strip_prefix}
use read_flow.Prelude.{
  length, ℕ, suc, ◌+◌, ◌-◌, ◌*◌, ◌/◌, ◌%◌, ◌<◌, ◌≢◌, ◌==◌, leb, ltb, Bool, ◌&&◌, ◌||◌, Option, none,
  some, List, [], ◌∷◌, ◌++◌, All, if◌then◌else◌, ◌≡◌, refl, ap, ◌∙◌, arith, Bool-cases, inl, inr,
}

abbrev pub is_unreserved : ℕ → Bool
is_unreserved b =
    (leb b'A' b && leb b b'Z')
    || ((leb b'a' b && leb b b'z')
        || ((leb b'0' b && leb b b'9') || (b == b'-' || (b == b'_' || (b == b'.' || b == b'~')))))

-- A digit of `{:02X}`.
abbrev pub hex_digit : ℕ → ℕ
hex_digit n = if ltb n 10 then b'0' + n else b'A' + (n - 10)

abbrev pub encode_byte : ℕ → Chars
encode_byte b =
    if is_unreserved b
    then b ∷ []
    else if b == b' '
    then codes "%20"
    else b'%' ∷ hex_digit (b / 16) ∷ hex_digit (b % 16) ∷ []

unfoldable pub percent_encode : List ℕ → Chars
percent_encode [] = []
percent_encode (b ∷ bs) = encode_byte b ++ percent_encode bs

-- `template.replace("{searchTerms}", encoded)`; `skip` counts the characters left of an occurrence.
unfoldable pub replace_all : Chars → Chars → ℕ → Chars → Chars
unfolding strip_prefix
replace_all pattern by skip [] = []
replace_all pattern by (suc k) (c ∷ s) = replace_all pattern by k s
replace_all pattern by zero (c ∷ s) = elim (strip_prefix pattern (c ∷ s)) [
  | some _ ↦ by ++ replace_all pattern by (length pattern - 1) s
  | none ↦ c ∷ replace_all pattern by zero s
]

abbrev pub search_terms : Chars
search_terms = codes "{searchTerms}"

-- `append_pair` is what the URL library makes of a template without the placeholder.
unfoldable pub build_search_url : (Chars → List ℕ → Option Chars) → Chars → List ℕ → Option Chars
unfolding split_once replace_all percent_encode
build_search_url append_pair template [] = some template
build_search_url append_pair template (b ∷ query) = elim (split_once search_terms template) [
  | some _ ↦ some (replace_all search_terms (percent_encode (b ∷ query)) 0 template)
  | none ↦ append_pair template (b ∷ query)
]

-- The decoding of RFC 3986: `%` and two hexadecimal digits are a byte.
abbrev pub hex_value : ℕ → Option ℕ
hex_value c =
    if leb b'0' c && leb c b'9'
    then some (c - b'0')
    else if leb b'A' c && leb c b'F'
    then some (c - b'A' + 10)
    else if leb b'a' c && leb c b'f'
    then some (c - b'a' + 10)
    else none

abbrev pub with_byte : ℕ → Option (List ℕ) → Option (List ℕ)
with_byte b none = none
with_byte b (some bs) = some (b ∷ bs)

abbrev pub byte_of : Option ℕ → Option ℕ → Option (List ℕ) → Option (List ℕ)
byte_of none low rest = none
byte_of (some high) none rest = none
byte_of (some high) (some low) rest = with_byte (high * 16 + low) rest

unfoldable pub percent_decode : Chars → Option (List ℕ)
percent_decode [] = some []
percent_decode (c ∷ []) = if c == b'%' then none else some (c ∷ [])
percent_decode (c ∷ d ∷ []) =
    let rest = with_byte c (percent_decode (d ∷ [])) in if c == b'%' then none else rest
percent_decode (c ∷ d ∷ e ∷ s) =
    let escaped = byte_of (hex_value d) (hex_value e) (percent_decode s) in
    let plain = with_byte c (percent_decode (d ∷ e ∷ s)) in if c == b'%' then escaped else plain

decode-plain :
    (c : ℕ) (s : Chars) → c ≢ b'%' → percent_decode (c ∷ s) ≡ with_byte c (percent_decode s)
unfolding percent_decode
decode-plain c [] differ = ground (arith, differ)
decode-plain c (d ∷ []) differ = ground (arith, differ)
decode-plain c (d ∷ e ∷ s) differ = ground (arith, differ)

hex_value-digit : (n : ℕ) → n < 16 → hex_value (hex_digit n) ≡ some n
hex_value-digit n small = ground (arith, small)

decode-escaped :
    (b : ℕ) (s : Chars)
    → b < 256
    → percent_decode (b'%' ∷ hex_digit (b / 16) ∷ hex_digit (b % 16) ∷ s)
      ≡ with_byte b (percent_decode s)
unfolding percent_decode
decode-escaped b s small =
    rw (hex_value-digit (b / 16) (omega arith), hex_value-digit (b % 16) (omega arith))
      (ap (λ c. with_byte c (percent_decode s)) (omega arith))

decode-space : (s : Chars) → percent_decode (codes "%20" ++ s) ≡ with_byte 32 (percent_decode s)
unfolding percent_decode
decode-space s = refl

decode-byte :
    (b : ℕ) (s : Chars)
    → b < 256
    → percent_decode (encode_byte b ++ s) ≡ with_byte b (percent_decode s)
decode-byte b s small = elim (Bool-cases (is_unreserved b)) [
  | inl free ↦ rw free (decode-plain b s (ground (arith, free)))
  | inr other ↦ elim (Bool-cases (b == b' ')) [
    | inl space ↦
        rw (other, space)
          (decode-space s ∙ ap (λ c. with_byte c (percent_decode s)) (ground (arith, space)))
    | inr rare ↦ rw (other, rare) (decode-escaped b s small)
  ]
]

-- Every query of bytes is read back from its percent-encoding.
pub percent_decode-percent_encode :
    (bs : List ℕ) → All (λ b. b < 256) bs → percent_decode (percent_encode bs) ≡ some bs
unfolding percent_encode percent_decode
percent_decode-percent_encode [] small = refl
percent_decode-percent_encode (b ∷ bs) small =
    decode-byte b (percent_encode bs) small.0
    ∙ ap (with_byte b) (percent_decode-percent_encode bs small.1)
