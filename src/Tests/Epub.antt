-- ===== src/Tests/Epub.antt =====
-- Reading positions and references of epub/src, on concrete texts.
use read_flow.Epub.Decimal.{to_string}
use read_flow.Epub.Resolve.{pop}
use read_flow.Epub.Decimal.{scan_u32, parse_u32, digits}
use read_flow.Epub.Locator.Addresses.{from_uri-to_uri}
use read_flow.Epub.Locator.Fragments.{from_cfi-to_cfi, cfi_text}
use read_flow.Chars.{
  to_lowercase, same_text, all_some, rsplit_once, split_once, join, strip_last, strip_prefix, split,
  codes, Chars,
}
use read_flow.Epub.Resolve.{walk, step_segment, guess_media_type, resolve_href, base_dir}
use read_flow.Epub.Resolve.Normal.{resolve_href-twice, resolve_href-Normal, Normal}
use read_flow.Epub.Locator.Cfi.{map_while, leading_digits, steps_text, to_cfi, from_cfi}
use read_flow.Epub.Locator.Uri.{node_steps, Locator, from_uri, to_uri}
use read_flow.Prelude.{◌≡◌, arith, some, [], ◌∷◌, refl}

program : Unit {0}
unfolding same_text to_lowercase to_uri from_uri to_cfi from_cfi node_steps steps_text
    leading_digits map_while to_string digits parse_u32 scan_u32 strip_prefix strip_last split join
    split_once rsplit_once all_some cfi_text resolve_href step_segment walk base_dir pop
    guess_media_type
program = tt

abbrev here : Locator
here = record { spine_index = 4; node_path = 0 ∷ 2 ∷ 5 ∷ 1 ∷ []; char_offset = 87 }

test_to_uri :
    to_uri here (codes "sha256:9a3e") ≡ codes "rf://doc/sha256:9a3e/spine/4/node/0/2/5/1/char/87"
unfolding program
test_to_uri = refl

test_to_cfi : to_cfi here (some (codes "ch5")) ≡ codes "epubcfi(/6/10[ch5]!/2/6/12/4:87)"
unfolding program
test_to_cfi = refl

-- An offset may be absent, and a text-node step ends the path.
test_from_cfi :
    from_cfi (codes "epubcfi(/6/4!/4/2/1)")
    ≡ some (record { spine_index = 1; node_path = 1 ∷ 0 ∷ []; char_offset = 0 })
unfolding program
test_from_cfi = refl

-- An id with `!` loses the path.
test_bang :
    from_cfi (to_cfi here (some (codes "a!b")))
    ≡ some (record { spine_index = 4; node_path = []; char_offset = 87 })
unfolding program
test_bang = refl

-- An absolute reference keeps its dot segments.
test_absolute : resolve_href (codes "OEBPS") (codes "/../x") ≡ codes "../x"
unfolding program
test_absolute = refl

test_base_dir : base_dir (codes "OEBPS/Text/ch1.xhtml") ≡ codes "OEBPS/Text"
unfolding program
test_base_dir = refl

test_media_type : guess_media_type (codes "images/Cover.JPG") ≡ codes "image/jpeg"
unfolding program
test_media_type = refl

from_uri-to_uri_example : from_uri (to_uri here (codes "9a3e")) ≡ some here
from_uri-to_uri_example =
    from_uri-to_uri here (codes "9a3e") (omega arith) (omega arith) (omega arith) (omega arith)

from_cfi-to_cfi_example : from_cfi (to_cfi here (some (codes "ch5"))) ≡ some here
from_cfi-to_cfi_example =
    from_cfi-to_cfi here (some (codes "ch5")) (omega arith) (omega arith) (omega arith)
      (omega arith)

abbrev base : Chars
base = codes "OEBPS/Text"

base_is_Normal : Normal base
unfolding Normal split
base_is_Normal = ((refl, omega arith), ((refl, omega arith), tt))

resolve_href-Normal_example : Normal (resolve_href base (codes "../../../i/a.png"))
resolve_href-Normal_example =
    resolve_href-Normal base (codes "../../../i/a.png")
      (unfold strip_prefix in (refl, refl, (λ e. cc e))) base_is_Normal

resolve_href-twice_example :
    resolve_href (resolve_href base (codes "../i")) (codes "./a.png")
    ≡ resolve_href base (codes "../i/./a.png")
resolve_href-twice_example =
    resolve_href-twice base (codes "../i") (codes "./a.png") base_is_Normal
      (unfold strip_prefix in (refl, refl, (λ e. cc e)))
      (unfold strip_prefix in (refl, refl, (λ e. cc e)))
