-- ===== src/Scan.antt =====
-- core/src/scan/mod.rs: the settings that a directory inherits, and the summary of a scan.
pub mod Inherit
pub mod Summary
pub mod Archive
pub mod Walk
pub mod Enrich
pub mod Writer
use read_flow.Prelude.{
  ℕ, ◌+◌, ◌%◌, ◌^◌, ◌||◌, String, Bool, true, false, not, Option, none, some, List, [], ◌∷◌, ◌++◌,
  retain, eqb, if◌then◌else◌,
}

pub data DocumentType : Type 0 where
  pdf epub mobi azw azw3 fb2 cbz cbt xps oxps docx xlsx pptx hwpx other_type : DocumentType

unfoldable pub as_str : DocumentType → String
as_str pdf = "pdf"
as_str epub = "epub"
as_str mobi = "mobi"
as_str azw = "azw"
as_str azw3 = "azw3"
as_str fb2 = "fb2"
as_str cbz = "cbz"
as_str cbt = "cbt"
as_str xps = "xps"
as_str oxps = "oxps"
as_str docx = "docx"
as_str xlsx = "xlsx"
as_str pptx = "pptx"
as_str hwpx = "hwpx"
as_str other_type = "other"

pub data DirectorySettings : Type 0 where
  ignore : Bool → DirectorySettings
  scan : List String → Bool → DirectorySettings

unfoldable pub inherit : DirectorySettings → Bool
inherit (ignore b) = b
inherit (scan tags b) = b

abbrev pub merge_inherited : DirectorySettings → DirectorySettings → DirectorySettings
merge_inherited (ignore i) other = other
merge_inherited (scan tags i) (ignore j) = scan tags i
merge_inherited (scan tags1 i) (scan tags2 j) = scan (tags1 ++ tags2) i

unfoldable pub merge : DirectorySettings → DirectorySettings → DirectorySettings
merge self other = if not (inherit other) then other else merge_inherited self other

-- A path is the list of its components.
unfoldable pub starts_with : List String → List String → Bool
starts_with path [] = true
starts_with [] (c ∷ dir) = false
starts_with (p ∷ path) (c ∷ dir) = if eqb p c then starts_with path dir else false

abbrev pub settings_of : List (List String × DirectorySettings) → List DirectorySettings
settings_of [] = []
settings_of (d ∷ ds) = d.1 ∷ settings_of ds

unfoldable pub merge_all : DirectorySettings → List DirectorySettings → DirectorySettings
merge_all acc [] = acc
merge_all acc (d ∷ ds) = merge_all (merge acc d) ds

-- `reduce`.
abbrev pub reduce_all : List DirectorySettings → Option DirectorySettings
reduce_all [] = none
reduce_all (d ∷ ds) = some (merge_all d ds)

-- `directories` is a map, so it lists its entries in the order of its keys.
unfoldable pub directory_settings_of :
    List (List String × DirectorySettings) → List String → Option DirectorySettings
directory_settings_of directories path =
    reduce_all (settings_of (retain (λ d. starts_with path d.0) directories))

pub record ScanFileError : Type 0 where
  pub path : String
  pub message : String

pub record ScanSummary : Type 0 where
  pub discovered : ℕ
  pub processed : ℕ
  pub errors : ℕ
  pub added : ℕ
  pub updated : ℕ
  pub error_details : List ScanFileError

-- `ScanProgress` of pipeline.rs; a path is its displayed text.
pub data ScanProgress : Type 0 where
  completed : ℕ → ℕ → ℕ → ScanProgress
  file_processed : String → Bool → Bool → ScanProgress
  file_error : String → String → ScanProgress
  file_discovered : ScanProgress

-- `u64` addition.
abbrev pub add_u64 : ℕ → ℕ → ℕ
add_u64 a b = (a + b) % 2 ^ 64

unfoldable pub add_event : ScanSummary → ScanProgress → ScanSummary
add_event s (completed discovered processed errors) = record s {
  discovered = add_u64 s.discovered discovered;
  processed = add_u64 s.processed processed;
  errors = add_u64 s.errors errors;
}
add_event s (file_processed path was_new was_updated) =
    if was_new
    then record s { added = add_u64 s.added 1 }
    else if was_updated
    then record s { updated = add_u64 s.updated 1 }
    else s
add_event s (file_error path error) = record s {
  error_details = s.error_details ++ record { path = path; message = error } ∷ [];
}
add_event s file_discovered = s

unfoldable pub add_events : ScanSummary → List ScanProgress → ScanSummary
add_events s [] = s
add_events s (e ∷ es) = add_events (add_event s e) es
