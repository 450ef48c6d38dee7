-- ===== src/Epub/Resolve.antt =====
-- `base_dir`, `resolve_href` and `guess_media_type` of epub/src/content/resolve.rs.

pub mod Normal
use read_flow.Prelude.{◌||◌, ◌&&◌, ◌==◌, none, some, if◌then◌else◌, ◌++◌, [], List, Option, ◌∷◌}
use read_flow.Chars.{to_lowercase, same_text, codes, rsplit_once, strip_prefix, Chars, split, join}

abbrev before_last : Option (Chars × Chars) → Chars
before_last none = []
before_last (some (before, after)) = before

unfoldable pub base_dir : Chars → Chars
base_dir href = before_last (rsplit_once b'/' href)

-- `Vec::pop`.
unfoldable pub pop {ℓ} : {A : Type ℓ} → List A → List A
pop [] = []
pop (x ∷ []) = []
pop (x ∷ y ∷ l) = x ∷ pop (y ∷ l)

pub data Part : Type 0 where
  same : Part
  parent : Part
  other : Part

-- `""` or `"."`, `".."`, and the rest.
abbrev pub part_of : Chars → Part
part_of [] = same
part_of (c ∷ []) = if c == b'.' then same else other
part_of (c ∷ d ∷ []) = if c == b'.' && d == b'.' then parent else other
part_of (c ∷ d ∷ e ∷ s) = other

abbrev pub stepped : List Chars → Chars → Part → List Chars
stepped segments part same = segments
stepped segments part parent = pop segments
stepped segments part other = segments ++ (part ∷ [])

unfoldable pub step_segment : List Chars → Chars → List Chars
step_segment segments part = stepped segments part (part_of part)

unfoldable pub walk : List Chars → List Chars → List Chars
walk segments [] = segments
walk segments (part ∷ parts) = walk (step_segment segments part) parts

abbrev pub base_segments : Chars → List Chars
base_segments [] = []
base_segments (c ∷ s) = split b'/' (c ∷ s)

abbrev pub resolved : Chars → Chars → Option Chars → Option Chars → Chars
resolved base relative (some rest) stripped = relative
resolved base relative none (some rest) = rest
resolved base relative none none = join b'/' (walk (base_segments base) (split b'/' relative))

unfoldable pub resolve_href : Chars → Chars → Chars
resolve_href base relative =
    resolved base relative (strip_prefix (codes "data:") relative)
      (strip_prefix (codes "/") relative)

abbrev first_part : List Chars → Chars
first_part [] = codes "application/octet-stream"
first_part (part ∷ parts) = part

abbrev after_last : Chars → Option (Chars × Chars) → Chars
after_last path none = path
after_last path (some (before, after)) = after

abbrev pub image_type : Chars → Chars
image_type ext =
    if same_text ext (codes "png")
    then codes "image/png"
    else if same_text ext (codes "jpg") || same_text ext (codes "jpeg")
    then codes "image/jpeg"
    else if same_text ext (codes "gif")
    then codes "image/gif"
    else if same_text ext (codes "svg")
    then codes "image/svg+xml"
    else if same_text ext (codes "webp")
    then codes "image/webp"
    else if same_text ext (codes "bmp")
    then codes "image/bmp"
    else if same_text ext (codes "tif") || same_text ext (codes "tiff")
    then codes "image/tiff"
    else codes "application/octet-stream"

abbrev media_type : Chars → Option Chars → Chars
media_type path (some rest) = first_part (split b';' rest)
media_type path none = image_type (to_lowercase (after_last path (rsplit_once b'.' path)))

unfoldable pub guess_media_type : Chars → Chars
guess_media_type path = media_type path (strip_prefix (codes "data:") path)
