-- ===== src/Scan/Archive.antt =====
-- core/src/scan/archive.rs: which files are archives, the members that one lists, and the spooling of
-- a tar archive in one pass. What the zip and tar readers yield is an argument.
use mathlib.Core.Option
use read_flow.Paths.{name_extension, file_name}
use read_flow.Chars.{codes, Chars, ends_with, to_lowercase}
use read_flow.Prelude.{
  any, eqb, ◌&&◌, ◌++◌, ℕ, ◌+◌, ◌==◌, String, Bool, true, false, not, Option, none, some, List, [],
  ◌∷◌, retain, length, if◌then◌else◌,
}

-- The suffixes of `archive_kind`, in its order; the last one is zip's.
abbrev pub tar_suffixes : List Chars
tar_suffixes =
    codes ".tar.gz"
    ∷ codes ".tgz"
    ∷ codes ".tar.bz2"
    ∷ codes ".tbz2"
    ∷ codes ".tar.xz"
    ∷ codes ".txz"
    ∷ codes ".tar.zst"
    ∷ codes ".tar.zstd"
    ∷ codes ".tzst"
    ∷ codes ".tar"
    ∷ []

pub data ArchiveKind : Type 0 where
  zip tar : ArchiveKind

-- `archive_kind`, the compressions of a tar archive taken together.
unfoldable pub archive_kind : Chars → Option ArchiveKind
unfolding to_lowercase ends_with
archive_kind name =
    if any (λ suffix. ends_with suffix (to_lowercase name)) tar_suffixes
    then some tar
    else if ends_with (codes ".zip") (to_lowercase name)
    then some zip
    else none

unfoldable pub is_archive_path : Chars → Bool
unfolding archive_kind
is_archive_path name = elim (archive_kind name) [ none ↦ false | some _ ↦ true ]

unfoldable pub is_tar_archive_path : Chars → Bool
unfolding archive_kind
is_tar_archive_path name = elim (archive_kind name) [
  | none ↦ false
  | some kind ↦ elim kind [ zip ↦ false | tar ↦ true ]
]

-- An entry as the readers yield it; `is_file` is the tar header's.
pub record ArchiveEntry : Type 0 where
  pub path : String
  pub is_file : Bool

-- A regular file as the readers meet it: its entries, if it can be read as an archive, and whether
-- spooling them all into a fresh directory works.
pub record ArchiveBody : Type 0 where
  pub entries : Option (List ArchiveEntry)
  pub spools : Bool

abbrev pub entry_paths : List ArchiveEntry → List String
entry_paths [] = []
entry_paths (e ∷ es) = e.path ∷ entry_paths es

abbrev pub listed : ArchiveKind → List ArchiveEntry → List String
listed zip es = entry_paths (retain (λ e. not (ends_with (codes "/") (codes e.path))) es)
listed tar es = entry_paths (retain (λ e. e.is_file) es)

unfoldable pub enumerate_archive_members : Chars → ArchiveBody → Option (List String)
unfolding archive_kind ends_with
enumerate_archive_members name body =
    Option.bind (archive_kind name) (λ kind. Option.map (listed kind) body.entries)

-- A spooled member: its inner path, and the index and the extension that its copy is named by.
pub record Spooled : Type 0 where
  pub inner : String
  pub index : ℕ
  pub extension : Chars

abbrev pub or_bin : Option Chars → Chars
or_bin none = codes "bin"
or_bin (some e) = e

-- `spooled.insert`.
abbrev pub insert_spooled : Spooled → List Spooled → List Spooled
insert_spooled s spooled = retain (λ t. not (eqb t.inner s.inner)) spooled ++ s ∷ []

abbrev pub spool_one : List String → ℕ → ArchiveEntry → List Spooled → List Spooled
spool_one wanted index e spooled =
    if e.is_file && any (λ w. eqb w e.path) wanted
    then insert_spooled
        (record {
          inner = e.path;
          index = index;
          extension = or_bin (Option.bind (file_name (codes e.path)) name_extension);
        })
        spooled
    else spooled

-- The loop of `spool_tar_archive` over the entries from `index` on.
unfoldable pub spool_entries : List String → ℕ → List ArchiveEntry → List Spooled → List Spooled
spool_entries wanted index [] spooled = spooled
spool_entries wanted index (e ∷ es) spooled =
    let rest = spool_entries wanted (index + 1) es (spool_one wanted index e spooled) in
    if length spooled == length wanted then spooled else rest

-- `wanted` is a set: its elements are distinct.
unfoldable pub spool_tar_archive : Chars → ArchiveBody → List String → Option (List Spooled)
unfolding archive_kind spool_entries file_name name_extension
spool_tar_archive name body wanted =
    if is_tar_archive_path name && body.spools
    then Option.map (λ es. spool_entries wanted 0 es []) body.entries
    else none
