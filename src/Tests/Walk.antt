-- ===== src/Tests/Walk.antt =====
-- A small directory tree, as the scanner walks it.
use mathlib.Core.Option
use read_flow.Scan.{
  inherit, merge_all, epub, merge, starts_with, pdf, scan, directory_settings_of, as_str,
}
use read_flow.Scan.Walk.Visited.{stage1_traversal-expected}
use read_flow.Paths.{
  joined_archive_path, eq_ignore_ascii_case, name_extension, file_name, components, display,
}
use read_flow.Scan.Walk.Expected.{all_items, items_of, member_items, leaves, expected}
use read_flow.Scan.Walk.Offers.{Took}
use read_flow.Chars.{ends_with, to_lowercase, same_text, codes, rsplit_once, split}
use read_flow.Scan.Archive.{
  spool_tar_archive, spool_entries, enumerate_archive_members, is_tar_archive_path, is_archive_path,
  archive_kind, ArchiveEntry,
}
use read_flow.Scan.Walk.{
  record_proposed_discovery, entry, visit_node, visit_file, emit_archive_members, send_members,
  propose_members, tags_for_path, extension_matches, is_scm_root, is_hidden, broken, unreadable,
  done, regular, folder, has_hidden_component, Entries, stage1_traversal, ScanSettings, Pipe,
  TraversalItem, Node,
}
use read_flow.Prelude.{ℕ, String, true, false, some, none, [], ◌∷◌, map, take, ◌≡◌, refl, str_dec}
use read_flow.Tests.Store.{store}

program : Unit {0}
unfolding str_dec Option.bind split rsplit_once same_text to_lowercase ends_with components
    file_name name_extension eq_ignore_ascii_case display joined_archive_path as_str
    directory_settings_of starts_with merge merge_all inherit archive_kind is_archive_path
    is_tar_archive_path enumerate_archive_members spool_entries spool_tar_archive
    has_hidden_component is_hidden is_scm_root extension_matches tags_for_path propose_members
    send_members emit_archive_members visit_file visit_node stage1_traversal
    record_proposed_discovery leaves member_items items_of all_items expected
program = tt

abbrev plain : Node
plain = regular (record { entries = none; spools = false })

abbrev member : String → ArchiveEntry
member path = record { path = path; is_file = true }

-- One member's path is written `./sand.epub`, as `tar` writes it for the directory `.`.
abbrev bundle : Node
bundle = regular (record {
  entries =
      some (member "dune.epub" ∷ member "./sand.epub" ∷ member "notes.txt" ∷ member "a/b.PDF" ∷ []);
  spools = true;
})

abbrev tree : Entries
tree = entry "a.pdf" plain (
    entry ".b.pdf" plain (
      entry "repo" (folder (entry ".git" (folder done) (entry "c.pdf" plain done))) (
        entry "sub" (folder (unreadable (entry "d.EPUB" plain (entry "e.txt" plain done))))
          (entry "x.tar.gz" bundle (entry "gone" broken done)))))

abbrev settings : ScanSettings
settings = record {
  dry_run = false;
  directories = ("books" ∷ [], scan ("book" ∷ []) false) ∷ [];
  extensions = pdf ∷ epub ∷ [];
  tar_single_pass = true;
}

abbrev pipe : ℕ → Pipe
pipe room = record { room = room; sent = []; progress = []; db = store }

abbrev shown : TraversalItem → String
shown item = elim item.archive_inner_path [ none ↦ display item.path | some inner ↦ inner ]

-- The member that is written with a leading `.` is taken for a hidden one.
walked :
    map shown (stage1_traversal settings none ("books" ∷ []) (folder tree) (pipe 9)).sent
    ≡ "/books/a.pdf" ∷ "/books/sub/d.EPUB" ∷ "dune.epub" ∷ "a/b.PDF" ∷ []
unfolding program
walked = refl

spooled :
    map
      (λ (i : TraversalItem). i.spool)
      (stage1_traversal settings none ("books" ∷ []) (folder tree) (pipe 9)).sent
    ≡ none
      ∷ none
      ∷ some (record { inner = "dune.epub"; index = 0; extension = codes "epub" })
      ∷ some (record { inner = "a/b.PDF"; index = 3; extension = codes "PDF" })
      ∷ []
unfolding program
spooled = refl

dot_is_hidden : has_hidden_component "./sand.epub" ≡ true
unfolding program
dot_is_hidden = refl

-- A receiver that is dropped after three items.
stage1_traversal-expected_example :
    Took settings none
      (take 3 (expected settings ("books" ∷ []) (folder tree)))
      (pipe 3)
      (stage1_traversal settings none ("books" ∷ []) (folder tree) (pipe 3))
stage1_traversal-expected_example =
    stage1_traversal-expected settings none ("books" ∷ []) tree (pipe 3) refl
