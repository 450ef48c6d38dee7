-- ===== src/Scan/Walk.antt =====
-- core/src/scan/scanner.rs, the first stage: the traversal of a directory tree and of the archives in
-- it. The tree is the one that the system calls answer for, symbolic links followed; a path is the list
-- of its names, and the names of a directory are neither `.` nor `..`.
pub mod Offers
pub mod Expected
pub mod Files
pub mod Visited
use mathlib.Core.Option
use read_flow.Db.Tables.{Db}
use read_flow.Chars.{codes, Chars}
use read_flow.Paths.{
  file_name, name_extension, joined_archive_path, last, normal, display, components,
  eq_ignore_ascii_case, Component, starts_with_dot,
}
use read_flow.Scan.{
  scan, as_str, file_discovered, ignore, DocumentType, directory_settings_of, ScanProgress,
  DirectorySettings,
}
use read_flow.Db.Audit.{path_target, append_audit_event}
use read_flow.Scan.Archive.{
  spool_tar_archive, is_archive_path, is_tar_archive_path, enumerate_archive_members, Spooled,
  ArchiveBody,
}
use read_flow.Audit.{flag, proposed, scan_file_discovered, text, object, AuditContext, Json}
use read_flow.Prelude.{
  ◌||◌, any, find, ◌&&◌, eqb, ℕ, ◌-◌, ◌==◌, String, Bool, true, false, not, Option, none, some,
  List, [], ◌∷◌, ◌++◌, retain, if◌then◌else◌,
}

pub record ScanSettings : Type 0 where
  pub dry_run : Bool
  pub directories : List (List String × DirectorySettings)
  pub extensions : List DocumentType
  pub tar_single_pass : Bool

mutual
  -- What `metadata` finds at a path: nothing that it can read, a regular file, or a directory, whose
  -- entries `read_dir` lists or refuses to.
  pub data Node : Type 0 where
    broken : Node
    regular : ArchiveBody → Node
    folder : Entries → Node
    locked : Node

  pub data Entries : Type 0 where
    done : Entries
    entry : String → Node → Entries → Entries
    unreadable : Entries → Entries

pub record TraversalItem : Type 0 where
  pub path : List String
  pub tags : List String
  pub archive_inner_path : Option String
  pub spool : Option Spooled

-- What the stage has sent, with the store that a dry run records its proposals in. The receiver takes
-- `room` items more and is then dropped.
pub record Pipe : Type 0 where
  pub room : ℕ
  pub sent : List TraversalItem
  pub progress : List ScanProgress
  pub db : Db

-- `None` where the run is not a dry one or has no audit context.
abbrev pub Recording : Type 0
Recording = Option (AuditContext × String)

abbrev pub proposal : String → Json
proposal path = object (("path", text path) ∷ ("dry_run", flag true) ∷ [])

unfoldable pub record_proposed_discovery : Recording → String → Db → Db
unfolding append_audit_event path_target
record_proposed_discovery none path db = db
record_proposed_discovery (some (context, now)) path db =
    (append_audit_event context.operation_id scan_file_discovered proposed now (proposal path)
      (path_target path ∷ []) db).1

abbrev pub is_hidden_component : Component → Bool
is_hidden_component (normal s) = starts_with_dot s
is_hidden_component _ = true

unfoldable pub has_hidden_component : String → Bool
unfolding components
has_hidden_component inner = any is_hidden_component (components (codes inner))

-- `is_hidden` of an entry's path.
unfoldable pub is_hidden : String → Bool
is_hidden name = starts_with_dot (codes name)

abbrev pub is_folder : Node → Bool
is_folder (folder es) = true
is_folder locked = true
is_folder _ = false

-- `dir.join(m).is_dir()` for a marker.
unfoldable pub is_scm_root : Entries → Bool
is_scm_root done = false
is_scm_root (unreadable es) = is_scm_root es
is_scm_root (entry name node es) =
    (is_folder node && (eqb name ".git" || eqb name ".hg")) || is_scm_root es

unfoldable pub extension_matches : Option Chars → List DocumentType → Bool
unfolding eq_ignore_ascii_case as_str
extension_matches none extensions = false
extension_matches (some e) extensions =
    any (λ x. eq_ignore_ascii_case (codes (as_str x)) e) extensions

abbrev pub name_chars : List String → Chars
name_chars path = elim (last path) [ none ↦ [] | some name ↦ codes name ]

abbrev pub path_extension : List String → Option Chars
path_extension path = Option.bind (last path) (λ name. name_extension (codes name))

abbrev pub tags_of_settings : Option DirectorySettings → Option (List String)
tags_of_settings none = some []
tags_of_settings (some (ignore i)) = none
tags_of_settings (some (scan tags i)) = some tags

unfoldable pub tags_for_path : List String → ScanSettings → Option (List String)
unfolding directory_settings_of
tags_for_path path settings = tags_of_settings (directory_settings_of settings.directories path)

-- `tx.send(item).await.is_ok()`.
abbrev pub send : TraversalItem → Pipe → Bool × Pipe
send item p =
    if p.room == 0
    then (false, p)
    else (true, record p { room = p.room - 1; sent = p.sent ++ item ∷ [] })

abbrev pub announce : Pipe → Pipe
announce p = record p { progress = p.progress ++ file_discovered ∷ [] }

-- One send of a loop, and what follows where it is accepted.
abbrev pub sent_then : Bool × Pipe → (Pipe → Bool × Pipe) → Bool × Pipe
sent_then (false, p) next = (false, p)
sent_then (true, p) next = next (announce p)

abbrev pub item_of : List String → List String → Option String → Option Spooled → TraversalItem
item_of path tags inner spool = record {
  path = path;
  tags = tags;
  archive_inner_path = inner;
  spool = spool;
}

abbrev pub member_matches : ScanSettings → String → Bool
member_matches settings member =
    not (has_hidden_component member)
    && extension_matches (Option.bind (file_name (codes member)) name_extension) settings.extensions

abbrev pub take_spooled : String → List Spooled → Option Spooled
take_spooled member = find (λ s. eqb s.inner member)

-- The members of a set.
abbrev pub distinct : List String → List String
distinct [] = []
distinct (m ∷ ms) = m ∷ retain (λ n. not (eqb n m)) (distinct ms)

abbrev pub spooled_members : ScanSettings → List String → ArchiveBody → List String → List Spooled
spooled_members settings path body matching =
    if settings.tar_single_pass && is_tar_archive_path (name_chars path)
    then elim (spool_tar_archive (name_chars path) body (distinct matching)) [
      | none ↦ []
      | some s ↦ s
    ]
    else []

module _ (settings : ScanSettings) (recording : Recording) where
  abbrev pub propose : String → Pipe → Pipe
  propose path p = announce (record p { db = record_proposed_discovery recording path p.db })

  unfoldable pub propose_members : List String → List String → Pipe → Pipe
  propose_members path [] p = p
  propose_members path (m ∷ ms) p =
      propose_members path ms (propose (joined_archive_path (display path) m) p)

  -- The last loop of `emit_archive_members`; `remove` takes a spooled copy out of the map.
  unfoldable pub send_members :
      List String → List String → List Spooled → List String → Pipe → Bool × Pipe
  send_members path tags spooled [] p = (true, p)
  send_members path tags spooled (m ∷ ms) p =
      sent_then (send (item_of path tags (some m) (take_spooled m spooled)) p)
        (send_members path tags (retain (λ s. not (eqb s.inner m)) spooled) ms)

  abbrev pub emit_matching :
      List String → List String → ArchiveBody → List String → Pipe → Bool × Pipe
  emit_matching path tags body matching p =
      if settings.dry_run
      then (true, propose_members path matching p)
      else send_members path tags (spooled_members settings path body matching) matching p

  unfoldable pub emit_archive_members : List String → ArchiveBody → Pipe → Bool × Pipe
  emit_archive_members path body p = elim (tags_for_path path settings) [
    | none ↦ (true, p)
    | some tags ↦ elim (enumerate_archive_members (name_chars path) body) [
      | none ↦ (true, p)
      | some members ↦ emit_matching path tags body (retain (member_matches settings) members) p
    ]
  ]

  -- The branches of `visit_dir` for a path that is no directory.
  unfoldable pub visit_file : List String → ArchiveBody → Pipe → Bool × Pipe
  visit_file path body p =
      if extension_matches (path_extension path) settings.extensions
      then elim (tags_for_path path settings) [
        | none ↦ (true, p)
        | some tags ↦
            if settings.dry_run
            then (true, propose (display path) p)
            else sent_then (send (item_of path tags none none) p) (λ q. (true, q))
      ]
      else if is_archive_path (name_chars path)
      then emit_archive_members path body p
      else (true, p)

  abbrev pub continue_if : Bool × Pipe → (Pipe → Pipe) → Pipe
  continue_if (false, p) next = p
  continue_if (true, p) next = next p

  -- `visit_dir`: the loop goes on after a directory whatever happened in it.
  unfoldable mutual
    pub visit_node : List String → Node → Pipe → Bool × Pipe
    visit_node path broken p = (true, p)
    visit_node path (regular body) p = visit_file path body p
    visit_node path (folder es) p = (true, if is_scm_root es then p else visit_entries path es p)
    visit_node path locked p = (true, p)

    pub visit_entries : List String → Entries → Pipe → Pipe
    visit_entries path done p = p
    visit_entries path (unreadable es) p = visit_entries path es p
    visit_entries path (entry name node es) p =
        if is_hidden name
        then visit_entries path es p
        else continue_if (visit_node (path ++ name ∷ []) node p) (visit_entries path es)

  -- The root is scanned whatever it is called. A root that is no directory and cannot be read is
  -- judged by its name.
  abbrev pub root_tags : Option (List String) → List String
  root_tags none = []
  root_tags (some tags) = tags

  abbrev pub visit_root_file : List String → ArchiveBody → Pipe → Pipe
  visit_root_file root body p =
      if extension_matches (path_extension root) settings.extensions
      then if settings.dry_run
        then propose (display root) p
        else (sent_then (send (item_of root (root_tags (tags_for_path root settings)) none none) p)
            (λ q. (true, q))).1
      else if is_archive_path (name_chars root)
      then (emit_archive_members root body p).1
      else p

  unfoldable pub stage1_traversal : List String → Node → Pipe → Pipe
  stage1_traversal root (folder es) p = (visit_node root (folder es) p).1
  stage1_traversal root locked p = p
  stage1_traversal root (regular body) p = visit_root_file root body p
  stage1_traversal root broken p =
      visit_root_file root (record { entries = none; spools = false }) p
