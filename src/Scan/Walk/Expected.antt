-- ===== src/Scan/Walk/Expected.antt =====
-- core/src/scan/scanner.rs: the files of a tree with what stands on the way to them, and the items that
-- a scan is expected to find.

use read_flow.Scan.Walk.{
  done, locked, broken, entry, is_hidden, spooled_members, unreadable, member_matches, name_chars,
  path_extension, Entries, extension_matches, take_spooled, is_scm_root, tags_for_path, folder,
  item_of, regular, TraversalItem, Node, ScanSettings,
}
use read_flow.Scan.Archive.{is_archive_path, enumerate_archive_members, Spooled, ArchiveBody}
use read_flow.Prelude.{
  if◌then◌else◌, eqb, refl, ◌≡◌, arith, List, [], ◌∷◌, ◌++◌, append_assoc, Bool, true, false, sym,
  ap, ◌∙◌, none, some, String, retain, not, ◌||◌, retain-append,
}

-- A file of the tree, and what stands on the way to it from the root.
pub record Leaf : Type 0 where
  pub path : List String
  pub body : ArchiveBody
  pub hidden : Bool
  pub in_scm : Bool

-- Every file, whatever stands on the way.
unfoldable mutual
  pub leaves : List String → Bool → Bool → Node → List Leaf
  leaves path hidden in_scm broken = []
  leaves path hidden in_scm (regular body) =
      record { path = path; body = body; hidden = hidden; in_scm = in_scm } ∷ []
  leaves path hidden in_scm (folder es) = leaves_in path hidden (in_scm || is_scm_root es) es
  leaves path hidden in_scm locked = []

  pub leaves_in : List String → Bool → Bool → Entries → List Leaf
  leaves_in path hidden in_scm done = []
  leaves_in path hidden in_scm (unreadable es) = leaves_in path hidden in_scm es
  leaves_in path hidden in_scm (entry name node es) =
      leaves (path ++ name ∷ []) (hidden || is_hidden name) in_scm node
      ++ leaves_in path hidden in_scm es

abbrev pub in_sight : Leaf → Bool
in_sight l = not (l.hidden || l.in_scm)

module _ (settings : ScanSettings) where
  -- The items of an archive's members; each spooled copy goes to the first member of its name.
  unfoldable pub member_items :
      List String → List String → List Spooled → List String → List TraversalItem
  member_items path tags spooled [] = []
  member_items path tags spooled (m ∷ ms) =
      item_of path tags (some m) (take_spooled m spooled)
      ∷ member_items path tags (retain (λ s. not (eqb s.inner m)) spooled) ms

  abbrev pub archive_items : List String → ArchiveBody → List TraversalItem
  archive_items path body = elim (tags_for_path path settings) [
    | none ↦ []
    | some tags ↦ elim (enumerate_archive_members (name_chars path) body) [
      | none ↦ []
      | some members ↦
          let matching = retain (member_matches settings) members in
          member_items path tags (spooled_members settings path body matching) matching
    ]
  ]

  abbrev pub file_items : List String → List TraversalItem
  file_items path = elim (tags_for_path path settings) [
    | none ↦ []
    | some tags ↦ item_of path tags none none ∷ []
  ]

  -- A file with one of the extensions is one item, any other archive its members; what stands in an
  -- ignored directory is none.
  unfoldable pub items_of : List String → ArchiveBody → List TraversalItem
  items_of path body =
      if extension_matches (path_extension path) settings.extensions
      then file_items path
      else if is_archive_path (name_chars path)
      then archive_items path body
      else []

  unfoldable pub all_items : List Leaf → List TraversalItem
  all_items [] = []
  all_items (l ∷ ls) = items_of l.path l.body ++ all_items ls

  unfoldable pub expected : List String → Node → List TraversalItem
  unfolding all_items leaves
  expected root node = all_items (retain in_sight (leaves root false false node))

  pub all_items-append : (ls ms : List Leaf) → all_items (ls ++ ms) ≡ all_items ls ++ all_items ms
  unfolding all_items
  all_items-append [] ms = refl
  all_items-append (l ∷ ls) ms =
      ap (λ r. items_of l.path l.body ++ r) (all_items-append ls ms)
      ∙ sym (append_assoc (items_of l.path l.body) (all_items ls) (all_items ms))

  pub sighted-append :
      (ls ms : List Leaf)
      → all_items (retain in_sight (ls ++ ms))
        ≡ all_items (retain in_sight ls) ++ all_items (retain in_sight ms)
  sighted-append ls ms =
      ap all_items (retain-append in_sight ls ms)
      ∙ all_items-append (retain in_sight ls) (retain in_sight ms)

  -- What is out of sight at the top is out of sight below.
  mutual
    unfolding leaves

    pub leaves-hidden :
        (path : List String) (hidden in_scm : Bool) (node : Node)
        → (hidden || in_scm) ≡ true
        → retain in_sight (leaves path hidden in_scm node) ≡ []
    leaves-hidden path hidden in_scm broken out = refl
    leaves-hidden path hidden in_scm (regular body) out = rw out refl
    leaves-hidden path hidden in_scm (folder es) out =
        leaves_in-hidden path hidden (in_scm || is_scm_root es) es (ground (arith, out))
    leaves-hidden path hidden in_scm locked out = refl

    pub leaves_in-hidden :
        (path : List String) (hidden in_scm : Bool) (es : Entries)
        → (hidden || in_scm) ≡ true
        → retain in_sight (leaves_in path hidden in_scm es) ≡ []
    leaves_in-hidden path hidden in_scm done out = refl
    leaves_in-hidden path hidden in_scm (unreadable es) out =
        leaves_in-hidden path hidden in_scm es out
    leaves_in-hidden path hidden in_scm (entry name node es) out =
        retain-append in_sight (leaves (path ++ name ∷ []) (hidden || is_hidden name) in_scm node)
          (leaves_in path hidden in_scm es)
        ∙ rw
            (
              leaves-hidden (path ++ name ∷ []) (hidden || is_hidden name) in_scm node
                  (ground (arith, out)),
              leaves_in-hidden path hidden in_scm es out,
            )
            refl
