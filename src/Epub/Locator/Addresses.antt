-- ===== src/Epub/Locator/Addresses.antt =====
-- Reading positions survive `to_uri` and `from_uri`.
use read_flow.Prelude.{◌++◌, refl}
use read_flow.Epub.Locator.Uri.{Locator, to_uri, node_steps, from_uri}
use read_flow.Epub.Decimal.{
  to_string, to_string-IsDigit, parse_u32-to_string, to_string-nonempty, IsDigit, parse_u32,
}
use read_flow.Prelude.{
  All-append, arith, inr, inl, ◌∙◌, ap, ◌∷◌, false, map, not, some, All, ◌≡◌, retain, ◌^◌, ◌⊎◌, [],
  ◌<◌, ◌≢◌, List, ℕ,
}
use read_flow.Chars.{
  split_once, split, split_once-second, split_once-append, codes, strip_prefix-append, split-join,
  is_empty, Lacks, all_some, join, Chars,
}

abbrev pub Fits : ℕ → Type 0
Fits n = n < 2 ^ 32

pub digits-lack : (c : ℕ) (s : Chars) → b'9' < c ⊎ c < b'0' → All IsDigit s → Lacks c s
digits-lack c [] other digit = tt
digits-lack c (d ∷ s) other digit = (ground (arith, other, digit.0), digits-lack c s other digit.1)

join-digits-lack : (c : ℕ) (ns : List ℕ) → b'9' < c → Lacks c (join b'/' (map to_string ns))
unfolding join
join-digits-lack c [] big = tt
join-digits-lack c (n ∷ []) big = digits-lack c (to_string n) (inl big) (to_string-IsDigit n)
join-digits-lack c (n ∷ m ∷ ns) big =
    All-append (λ d. d ≢ c) (to_string n) (b'/' ∷ join b'/' (map to_string (m ∷ ns)))
      (digits-lack c (to_string n) (inl big) (to_string-IsDigit n))
      (ground (arith, big), join-digits-lack c (m ∷ ns) big)

to_strings-lack : (ns : List ℕ) → All (Lacks b'/') (map to_string ns)
to_strings-lack [] = tt
to_strings-lack (n ∷ ns) =
    (digits-lack b'/' (to_string n) (inr (omega arith)) (to_string-IsDigit n), to_strings-lack ns)

pub is_empty-nonempty : (s : Chars) → s ≢ [] → is_empty s ≡ false
is_empty-nonempty [] filled = absurd (filled refl)
is_empty-nonempty (c ∷ s) filled = refl

pub retain-to_strings :
    (ns : List ℕ) → retain (λ s. not (is_empty s)) (map to_string ns) ≡ map to_string ns
retain-to_strings [] = refl
retain-to_strings (n ∷ ns) =
    rw (is_empty-nonempty (to_string n) (to_string-nonempty n), retain-to_strings ns) refl

all_some-parse : (ns : List ℕ) → All Fits ns → all_some (map parse_u32 (map to_string ns)) ≡ some ns
unfolding all_some
all_some-parse [] fits = refl
all_some-parse (n ∷ ns) fits = rw (parse_u32-to_string n fits.0, all_some-parse ns fits.1) refl

node_steps-join : (ns : List ℕ) → All Fits ns → node_steps (join b'/' (map to_string ns)) ≡ some ns
node_steps-join [] fits = unfold node_steps join split all_some in refl
node_steps-join (n ∷ ns) fits =
    unfold node_steps in
    ap (λ parts. all_some (map parse_u32 (retain (λ s. not (is_empty s)) parts)))
      (split-join b'/' (to_string n) (map to_string ns) (to_strings-lack (n ∷ ns)))
    ∙ ap (λ parts. all_some (map parse_u32 parts)) (retain-to_strings (n ∷ ns))
    ∙ all_some-parse (n ∷ ns) fits

at_spine :
    (before after : Chars)
    → Lacks b'/' before
    → split_once (codes "/spine/") (before ++ (codes "/spine/" ++ after)) ≡ some (before, after)
at_spine = split_once-append b'/' (codes "spine/")

at_node :
    (n : ℕ) (after : Chars)
    → split_once (codes "/node/") (to_string n ++ (codes "/node/" ++ after))
      ≡ some (to_string n, after)
at_node n after =
    split_once-append b'/' (codes "node/") (to_string n) after
      (digits-lack b'/' (to_string n) (inr (omega arith)) (to_string-IsDigit n))

at_char :
    (before after : Chars)
    → Lacks b'c' before
    → split_once (codes "/char/") (before ++ (codes "/char/" ++ after)) ≡ some (before, after)
at_char before after lacks =
    split_once-second b'/' b'c' (codes "har/") before after (omega arith) lacks

abbrev from_node : Locator → Chars
from_node l = join b'/' (map to_string l.node_path) ++ (codes "/char/" ++ to_string l.char_offset)

abbrev from_spine : Locator → Chars
from_spine l = to_string l.spine_index ++ (codes "/node/" ++ from_node l)

-- A position whose numbers fit into 32 bits is read back from the `rf://` address that `to_uri`
-- writes for it, whatever the document's hash, as long as the hash has no `/`.
pub from_uri-to_uri :
    (l : Locator) (hash : Chars)
    → Lacks b'/' hash
    → Fits l.spine_index
    → All Fits l.node_path
    → Fits l.char_offset
    → from_uri (to_uri l hash) ≡ some l
unfolding from_uri to_uri
from_uri-to_uri l hash lacks spine path offset =
    rw
      (
        strip_prefix-append (codes "rf://doc/") (hash ++ (codes "/spine/" ++ from_spine l)),
        at_spine hash (from_spine l) lacks,
        at_node l.spine_index (from_node l),
        parse_u32-to_string l.spine_index spine,
        at_char (join b'/' (map to_string l.node_path)) (to_string l.char_offset)
            (join-digits-lack b'c' l.node_path (omega arith)),
        parse_u32-to_string l.char_offset offset,
        node_steps-join l.node_path path,
      )
      refl
