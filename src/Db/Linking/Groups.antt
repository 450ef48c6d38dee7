-- ===== src/Db/Linking/Groups.antt =====
-- The groups of files that the pass of documents.rs after a scan goes through, and what later groups
-- leave alone.

use read_flow.Db.Linking.{
  FileForLinking, Key, same_key, one_fingerprint, rows_of, push_row, key_of, group_rows,
  files_for_linking,
}
use read_flow.Db.Linking.Links.{holding, held, IsRead, IsForeign, BelongsTo}
use read_flow.Db.Tables.{Db, Content, FileRow}
use read_flow.Prelude.{
  ℕ, String, true, false, List, [], ◌∷◌, find, eqb, All, All-append, All-map, All-both, All-swap,
  eqb-apart, Bool-cases, Option-cases, inl, inr, ◌≡◌, ◌∙◌, ap, ◌⊎◌,
}

-- Two groups have no fingerprint in common.
abbrev pub AreApart : List FileForLinking → List FileForLinking → Type 0
AreApart fs gs = All (λ f. IsForeign gs f.fingerprint) fs

-- No two groups have a fingerprint in common.
abbrev pub AreDisjoint : List (List FileForLinking) → Type 0
AreDisjoint [] = Unit
AreDisjoint (g ∷ gs) = All (AreApart g) gs × AreDisjoint gs

-- All files of the group have one fingerprint, or one document.
abbrev pub IsShared : List Content → List FileForLinking → Type 0
IsShared cs files = (one_fingerprint files ≡ true) ⊎ ((id : ℕ) × All (BelongsTo id cs) files)

-- The pass leaves the content alone in this group: the group is skipped, or lacks it.
abbrev pub IsSpared : String → List FileForLinking → Type 0
IsSpared fp files = (one_fingerprint files ≡ true) ⊎ IsForeign files fp

pub AreApart-back :
    (fs gs : List FileForLinking) → AreApart fs gs → All (λ g. IsForeign fs g.fingerprint) gs
AreApart-back fs gs h =
    All-map (λ g. All (λ f. eqb f.fingerprint g.fingerprint ≡ false) fs)
      (λ g. IsForeign fs g.fingerprint) gs
      (λ g.
        All-map (λ f. eqb f.fingerprint g.fingerprint ≡ false)
          (λ f. eqb g.fingerprint f.fingerprint ≡ false) fs
          (λ f. eqb-apart f.fingerprint g.fingerprint))
      (All-swap (λ (f g : FileForLinking). eqb f.fingerprint g.fingerprint ≡ false) fs gs h)

pub IsShared-kept :
    (cs later : List Content) (files : List FileForLinking)
    → All (λ f. holding f.fingerprint later ≡ holding f.fingerprint cs) files
    → IsShared cs files
    → IsShared later files
IsShared-kept cs later files keep (inl one) = inl one
IsShared-kept cs later files keep (inr (id, h)) = inr (
  id,
  All-both (λ f. holding f.fingerprint later ≡ holding f.fingerprint cs) (BelongsTo id cs)
      (BelongsTo id later) files (λ f k b. k ∙ b) keep h,
)

pub IsRead-kept :
    (cs later : List Content) (files gs : List FileForLinking)
    → ((fp : String) → IsForeign files fp → holding fp later ≡ holding fp cs)
    → AreApart files gs
    → All (IsRead cs) gs
    → All (IsRead later) gs
IsRead-kept cs later files gs keep apart h =
    All-both (λ g. IsForeign files g.fingerprint) (IsRead cs) (IsRead later) gs
      (λ g k r. keep g.fingerprint k ∙ r) (AreApart-back files gs apart) h

-- The rows that the pass reads are those of the contents table, and so are its groups.
pub files_for_linking-IsRead :
    (cs : List Content) (fs : List FileRow) → All (IsRead cs) (files_for_linking cs fs)
files_for_linking-IsRead cs [] = tt
files_for_linking-IsRead cs (f ∷ fs) =
    elim (Option-cases (find (λ (c : Content). eqb c.fingerprint f.fingerprint) cs)) [
      | inl q ↦ rw (q, files_for_linking) (files_for_linking-IsRead cs fs)
      | inr (c, q) ↦ rw (q, files_for_linking) (ap held q, files_for_linking-IsRead cs fs)
    ]

push_row-IsRead :
    (cs : List Content) (k : Key) (row : FileForLinking) (groups : List (Key × List FileForLinking))
    → IsRead cs row
    → All (All (IsRead cs)) (rows_of groups)
    → All (All (IsRead cs)) (rows_of (push_row k row groups))
unfolding push_row
push_row-IsRead cs k row [] r h = ((r, tt), tt)
push_row-IsRead cs k row ((j, rows) ∷ groups) r h = elim (Bool-cases (same_key j k)) [
  | inl same ↦ rw (same, push_row) (All-append (IsRead cs) rows (row ∷ []) h.0 (r, tt), h.1)
  | inr other ↦ rw (other, push_row) (h.0, push_row-IsRead cs k row groups r h.1)
]

pub group_rows-IsRead :
    (cs : List Content) (rows : List FileForLinking) (groups : List (Key × List FileForLinking))
    → All (IsRead cs) rows
    → All (All (IsRead cs)) (rows_of groups)
    → All (All (IsRead cs)) (rows_of (group_rows rows groups))
unfolding group_rows
group_rows-IsRead cs [] groups r h = h
group_rows-IsRead cs (row ∷ rows) groups r h =
    group_rows-IsRead cs rows (push_row (key_of row) row groups) r.1
      (push_row-IsRead cs (key_of row) row groups r.0 h)

-- The groups of the files that a store has.
abbrev pub groups_of : Db → List (List FileForLinking)
groups_of db = rows_of (group_rows (files_for_linking db.contents db.files) [])
