-- ===== src/Scan/Inherit.antt =====
-- core/src/scan/mod.rs: which directories' settings a path is scanned with.
use read_flow.Prelude.{
  ◌⊎◌, String, Bool, true, false, not, Option, none, some, List, [], ◌∷◌, ◌++◌, append_assoc,
  append-nil, any, retain, if◌then◌else◌, Bool-cases, inl, inr, ◌≡◌, refl, sym, ◌∙◌, ap,
}
use read_flow.Scan.{
  DirectorySettings, ignore, scan, inherit, merge, merge_inherited, starts_with, settings_of,
  merge_all, directory_settings_of, reduce_all,
}

abbrev pub is_scan : DirectorySettings → Bool
is_scan (ignore b) = false
is_scan (scan tags b) = true

abbrev pub tags_of : DirectorySettings → List String
tags_of (ignore b) = []
tags_of (scan tags b) = tags

abbrev pub all_tags : List DirectorySettings → List String
all_tags [] = []
all_tags (d ∷ ds) = tags_of d ++ all_tags ds

-- The settings from the last one on that does not inherit; all of them where each inherits.
abbrev pub since_reset : List DirectorySettings → List DirectorySettings
since_reset [] = []
since_reset (d ∷ ds) = if any (λ e. not (inherit e)) ds then since_reset ds else d ∷ ds

-- Whether a path is scanned, and the tags its files get.
abbrev pub effect : DirectorySettings → Bool × List String
effect d = (is_scan d, tags_of d)

abbrev pub effect_of : Option DirectorySettings → Option (Bool × List String)
effect_of none = none
effect_of (some d) = some (effect d)

abbrev pub joined : List DirectorySettings → Option (Bool × List String)
joined [] = none
joined (d ∷ ds) = some (any is_scan (since_reset (d ∷ ds)), all_tags (since_reset (d ∷ ds)))

abbrev effect_all : List DirectorySettings → Bool × List String
effect_all ds = (any is_scan ds, all_tags ds)

effect_one : (d : DirectorySettings) → effect d ≡ effect_all (d ∷ [])
effect_one (ignore b) = refl
effect_one (scan tags b) = ap (λ ts. (true, ts)) (sym (append-nil tags))

effect-merge_inherited :
    (a b : DirectorySettings) (ds : List DirectorySettings)
    → effect_all (merge_inherited a b ∷ ds) ≡ effect_all (a ∷ b ∷ ds)
effect-merge_inherited (ignore i) b ds = refl
effect-merge_inherited (scan tags i) (ignore j) ds = refl
effect-merge_inherited (scan tags i) (scan tags' j) ds =
    ap (λ ts. (true, ts)) (append_assoc tags tags' (all_tags ds))

effect-merge_all :
    (d : DirectorySettings) (ds : List DirectorySettings)
    → effect (merge_all d ds) ≡ effect_all (since_reset (d ∷ ds))
unfolding merge_all merge
effect-merge_all d [] = effect_one d
effect-merge_all d (e ∷ ds) =
    effect-merge_all (merge d e) ds ∙ step (Bool-cases (any resets ds)) (Bool-cases (inherit e))
  where
    resets : DirectorySettings → Bool
    resets e' = not (inherit e')

    step :
        (any resets ds ≡ true) ⊎ (any resets ds ≡ false)
        → (inherit e ≡ true) ⊎ (inherit e ≡ false)
        → effect_all (since_reset (merge d e ∷ ds)) ≡ effect_all (since_reset (d ∷ e ∷ ds))
    step (inl later) (inl keeps) = rw (later, keeps) refl
    step (inl later) (inr apart) = rw (later, apart) refl
    step (inr last) (inl keeps) = rw (last, keeps) (effect-merge_inherited d e ds)
    step (inr last) (inr apart) = rw (last, apart) refl

-- A path is scanned exactly where one of its directories' settings says so, counted from the last one
-- that does not inherit, and its files get the tags of all of those, outermost first; a path below
-- no configured directory has no settings.
pub directory_settings_of-joined :
    (directories : List (List String × DirectorySettings)) (path : List String)
    → effect_of (directory_settings_of directories path)
      ≡ joined (settings_of (retain (λ d. starts_with path d.0) directories))
unfolding directory_settings_of
directory_settings_of-joined directories path =
    go (settings_of (retain (λ d. starts_with path d.0) directories))
  where
    go : (ds : List DirectorySettings) → effect_of (reduce_all ds) ≡ joined ds
    go [] = refl
    go (d ∷ ds) = ap some (effect-merge_all d ds)
