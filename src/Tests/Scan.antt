-- ===== src/Tests/Scan.antt =====
-- The theorems on scan settings and summaries, at a library with an inner directory.
use read_flow.Prelude.{String, true, false, some, List, [], ◌∷◌, retain, ◌≡◌, refl, str_dec}
use read_flow.Scan.{
  add_events, add_event, DirectorySettings, ignore, scan, ScanProgress, file_processed, file_error,
  ScanSummary, directory_settings_of, starts_with, merge, merge_all, inherit, settings_of,
}
use read_flow.Scan.Inherit.{effect_of, joined, directory_settings_of-joined}

program : Unit {0}
unfolding str_dec directory_settings_of starts_with merge merge_all inherit
program = tt

abbrev directories : List (List String × DirectorySettings)
directories =
    ("books" ∷ [], scan ("book" ∷ []) false)
    ∷ ("books" ∷ "drafts" ∷ [], scan ("draft" ∷ []) true)
    ∷ ("music" ∷ [], ignore false)
    ∷ []

inner :
    directory_settings_of directories ("books" ∷ "drafts" ∷ "a" ∷ [])
    ≡ some (scan ("book" ∷ "draft" ∷ []) false)
unfolding program
inner = refl

-- A directory below that is ignored, but inherits, is scanned as its parent is.
ignored_below :
    directory_settings_of
      (("books" ∷ [], scan ("book" ∷ []) false) ∷ ("books" ∷ "old" ∷ [], ignore true) ∷ [])
      ("books" ∷ "old" ∷ "a" ∷ [])
    ≡ some (scan ("book" ∷ []) false)
unfolding program
ignored_below = refl

directory_settings_of-joined_example :
    effect_of (directory_settings_of directories ("books" ∷ "drafts" ∷ "a" ∷ []))
    ≡ joined
        (settings_of (retain (λ d. starts_with ("books" ∷ "drafts" ∷ "a" ∷ []) d.0) directories))
directory_settings_of-joined_example =
    directory_settings_of-joined directories ("books" ∷ "drafts" ∷ "a" ∷ [])

abbrev zero_summary : ScanSummary
zero_summary = record {
  discovered = 0;
  processed = 0;
  errors = 0;
  added = 0;
  updated = 0;
  error_details = [];
}

abbrev events : List ScanProgress
events =
    file_processed "a" true false ∷ file_error "b" "broken" ∷ file_processed "c" false true ∷ []

counted : (add_events zero_summary events).updated ≡ 1
unfolding add_events add_event
counted = refl
