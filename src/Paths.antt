-- ===== src/Paths.antt =====
-- What core/src/scan uses of `std::path` on Unix: the components of a path's text, its file name,
-- stem, extension and parent. An absolute path without dot segments is the list of its names.
use Prim.Native.String.{String, ◌++◌}
use read_flow.Prelude.{Bool, true, false, Option, none, some, List, [], ◌∷◌, if◌then◌else◌}
use read_flow.Chars.{Chars, codes, split, rsplit_once, is_empty, same_text, to_lowercase}

pub data Component : Type 0 where
  root_dir : Component
  cur_dir : Component
  parent_dir : Component
  normal : Chars → Component

-- An empty segment is no component, and `.` is one only where the path starts with it.
abbrev pub segment_components : Bool → List Chars → List Component
segment_components first [] = []
segment_components first (s ∷ ss) =
    let rest = segment_components false ss in
    if is_empty s
    then rest
    else if same_text s (codes ".")
    then if first then cur_dir ∷ rest else rest
    else if same_text s (codes "..")
    then parent_dir ∷ rest
    else normal s ∷ rest

abbrev pub rooted : List Chars → List Component
rooted [] = []
rooted ([] ∷ []) = []
rooted ([] ∷ s ∷ ss) = root_dir ∷ segment_components false (s ∷ ss)
rooted ((c ∷ s) ∷ ss) = segment_components true ((c ∷ s) ∷ ss)

-- `Path::components`.
unfoldable pub components : Chars → List Component
unfolding split same_text
components path = rooted (split b'/' path)

abbrev pub last {ℓ} : {A : Type ℓ} → List A → Option A
last [] = none
last (x ∷ []) = some x
last (x ∷ y ∷ xs) = last (y ∷ xs)

abbrev pub name_of : Option Component → Option Chars
name_of (some (normal s)) = some s
name_of _ = none

-- `Path::file_name`.
unfoldable pub file_name : Chars → Option Chars
unfolding components
file_name path = name_of (last (components path))

abbrev pub extension_of_split : Option (Chars × Chars) → Option Chars
extension_of_split none = none
extension_of_split (some ([], after)) = none
extension_of_split (some (c ∷ before, after)) = some after

-- The extension of a file name: what follows the last dot, unless that dot comes first.
unfoldable pub name_extension : Chars → Option Chars
unfolding rsplit_once
name_extension name = extension_of_split (rsplit_once b'.' name)

-- `Path::is_hidden` of the scanner reads a path of one component.
abbrev pub starts_with_dot : Chars → Bool
starts_with_dot [] = false
starts_with_dot (c ∷ s) = same_text (c ∷ []) (codes ".")

-- `eq_ignore_ascii_case`.
unfoldable pub eq_ignore_ascii_case : Chars → Chars → Bool
unfolding same_text to_lowercase
eq_ignore_ascii_case a b = same_text (to_lowercase a) (to_lowercase b)

-- The names of an absolute path, displayed.
unfoldable pub display : List String → String
display [] = ""
display (n ∷ ns) = "/" ++ (n ++ display ns)

-- `joined_archive_path`: the synthetic path of an archive's member.
unfoldable pub joined_archive_path : String → String → String
joined_archive_path archive inner = archive ++ ("::" ++ inner)

abbrev pub stem_of_split : Chars → Option (Chars × Chars) → Chars
stem_of_split name none = name
stem_of_split name (some ([], after)) = name
stem_of_split name (some (c ∷ before, after)) = c ∷ before

abbrev pub stem_of_name : Option Chars → Chars
stem_of_name none = []
stem_of_name (some name) = stem_of_split name (rsplit_once b'.' name)

-- `Path::file_stem`, or the empty text.
unfoldable pub file_stem : Chars → Chars
unfolding file_name rsplit_once
file_stem path = stem_of_name (file_name path)

-- `Path::parent` as a text, for a path without empty segments or dot segments.
unfoldable pub parent : Chars → Chars
unfolding rsplit_once
parent path = elim (rsplit_once b'/' path) [
  | none ↦ []
  | some (before, after) ↦ if is_empty before then codes "/" else before
]
