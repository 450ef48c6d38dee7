-- ===== src/Scan/Writer.antt =====
-- core/src/scan/scanner.rs, the third stage: scanned files are collected into batches, each batch is
-- written in a transaction, and the scan is closed. Which connections fail, the time, the texts of the
-- errors, fresh UUIDs and the extractors are arguments.
pub mod History
pub mod Accounts
pub mod Reported
use read_flow.Db.Result.{ok, err, Result, Error}
use read_flow.Db.Audit.{path_target, finish_audit_operation, append_audit_event}
use read_flow.Db.Contents.{write_scanned_file}
use read_flow.Db.Linking.{FileForLinking, auto_link_documents}
use read_flow.Paths.{joined_archive_path}
use read_flow.Db.Monad.{attempt, ◌>>=◌, ◌>>◌, pure, M}
use read_flow.Db.Tables.{Db}
use read_flow.Scan.{ScanProgress, file_processed, file_error, add_u64}
use read_flow.Scan.Archive.{Spooled}
use read_flow.Audit.{
  OperationStatus, scan_completed, flag, text, observed, completed_with_errors,
  scan_file_content_changed, number, scan_file_discovered, object, success, Json, AuditContext,
  AuditEventType, AuditOutcome,
}
use read_flow.Db.Metadata.{AuthorsJson}
use read_flow.Scan.Enrich.{Extraction, EnrichTask, enrich_files}
use read_flow.Prelude.{
  ℕ, ◌+◌, ◌==◌, leb, String, Bool, ◌||◌, Option, none, some, List, [], ◌∷◌, ◌++◌, length,
  if◌then◌else◌,
}

-- A path is its displayed text.
pub record ScannedFile : Type 0 where
  pub path : String
  pub extension : String
  pub size : ℕ
  pub fingerprint : String
  pub tags : List String
  pub archive_inner_path : Option String
  pub spool : Option Spooled

-- What the receiver of scanned files meets until the channel is closed: a file, or `BATCH_TIMEOUT`
-- without one.
pub data Arrival : Type 0 where
  file : ScannedFile → Arrival
  quiet : Arrival

-- What a batch's connection does.
pub data Connection : Type 0 where
  works no_begin no_commit : Connection

pub record Writer : Type 0 where
  pub db : Db
  pub progress : List ScanProgress
  pub discovered : ℕ
  pub processed : ℕ
  pub errors : ℕ
  pub flushes : ℕ

-- `begin_error` is the text of a `begin` that fails.
pub record World : Type 0 where
  pub json : AuthorsJson
  pub now : String
  pub fresh : ℕ → String
  pub error_text : Error → String
  pub begin_error : String
  pub connection : ℕ → Connection
  pub extract : EnrichTask → Extraction
  pub order : List (List FileForLinking) → List (List FileForLinking)

abbrev pub max_batch_size : ℕ
max_batch_size = 100

unfoldable pub path_str : ScannedFile → String
unfolding joined_archive_path
path_str f = elim f.archive_inner_path [
  | none ↦ f.path
  | some inner ↦ joined_archive_path f.path inner
]

abbrev pub archive_member : ScannedFile → Option (String × String)
archive_member f = elim f.archive_inner_path [ none ↦ none | some inner ↦ some (f.path, inner) ]

abbrev pub task_of : ScannedFile → EnrichTask
task_of f = record {
  fingerprint = f.fingerprint;
  path = f.path;
  extension = f.extension;
  archive_inner = f.archive_inner_path;
  spool = f.spool;
}

abbrev pub report_error : String → String → Writer → Writer
report_error path error w = record w {
  errors = add_u64 w.errors 1;
  progress = w.progress ++ file_error path error ∷ [];
}

abbrev pub report_processed : String → Bool → Bool → Writer → Writer
report_processed path was_new was_updated w = record w {
  processed = add_u64 w.processed 1;
  progress = w.progress ++ file_processed path was_new was_updated ∷ [];
}

-- The loop over a batch ends early, where an event of the history cannot be recorded, or hands on the
-- files to enrich.
pub data Flushed : Type 0 where
  rolled_back : Writer → Flushed
  finished : Writer → List EnrichTask → Flushed

module _ (world : World) where
  abbrev pub write_file : ScannedFile → M (Bool × Bool)
  write_file f = λ db.
      write_scanned_file world.now (world.fresh db.next_file) (path_str f) f.extension f.size
        f.fingerprint f.tags (archive_member f) db

  abbrev pub scan_event : Bool → AuditEventType
  scan_event was_new = if was_new then scan_file_discovered else scan_file_content_changed

  abbrev pub record_change : AuditContext → ScannedFile → Bool → Bool → M ℕ
  record_change context f was_new was_updated =
      append_audit_event context.operation_id (scan_event was_new) observed world.now
        (object (("path", text (path_str f)) ∷ ("external_change_detected", flag was_updated) ∷ []))
        (path_target (path_str f) ∷ [])

  abbrev pub record_if_changed : Option AuditContext → ScannedFile → Bool → Bool → M (Unit {0})
  record_if_changed none f was_new was_updated = pure tt
  record_if_changed (some context) f was_new was_updated =
      if was_new || was_updated
      then (do _ ← record_change context f was_new was_updated; pure tt)
      else pure tt

  abbrev pub with_task : ScannedFile → Bool → List EnrichTask → List EnrichTask
  with_task f changed tasks = if changed then tasks ++ task_of f ∷ [] else tasks

  abbrev pub after_record :
      ScannedFile
      → Bool
      → Bool
      → Writer
      → List EnrichTask
      → Result (Unit {0}) × Db
      → (Writer → List EnrichTask → Flushed)
      → Flushed
  after_record f was_new was_updated w tasks (err e, db) next =
      rolled_back (report_error (path_str f) (world.error_text e) (record w { db = db }))
  after_record f was_new was_updated w tasks (ok u, db) next =
      next (report_processed (path_str f) was_new was_updated (record w { db = db }))
        (with_task f (was_new || was_updated) tasks)

  abbrev pub after_write :
      Option AuditContext
      → ScannedFile
      → Writer
      → List EnrichTask
      → Result (Bool × Bool) × Db
      → (Writer → List EnrichTask → Flushed)
      → Flushed
  after_write audit f w tasks (err e, db) next =
      next (report_error (path_str f) (world.error_text e) (record w { db = db })) tasks
  after_write audit f w tasks (ok (was_new, was_updated), db) next =
      after_record f was_new was_updated w tasks (record_if_changed audit f was_new was_updated db)
        next

  unfoldable pub flush_items :
      Option AuditContext → List ScannedFile → Writer → List EnrichTask → Flushed
  unfolding path_str
  flush_items audit [] w tasks = finished w tasks
  flush_items audit (f ∷ fs) w tasks =
      after_write audit f w tasks (write_file f w.db) (flush_items audit fs)

  -- `begin` failed: every file of the batch is reported.
  unfoldable pub report_all : List ScannedFile → Writer → Writer
  report_all [] w = w
  report_all (f ∷ fs) w = report_all fs (report_error f.path world.begin_error w)

  -- What the transaction's end makes of the batch: `before` is the store at its start.
  abbrev pub close_batch : Db → Connection → Flushed → Writer
  close_batch before connection (rolled_back w) = record w { db = before }
  close_batch before no_commit (finished w tasks) = record w { db = before }
  close_batch before _ (finished w tasks) = record w {
    db = enrich_files world.json world.fresh world.now world.extract tasks w.db;
  }

  abbrev pub flush_with : Option AuditContext → List ScannedFile → Writer → Connection → Writer
  flush_with audit items w no_begin = report_all items w
  flush_with audit items w works = close_batch w.db works (flush_items audit items w [])
  flush_with audit items w no_commit = close_batch w.db no_commit (flush_items audit items w [])

  unfoldable pub flush_batch_with_audit : Option AuditContext → List ScannedFile → Writer → Writer
  unfolding flush_items report_all enrich_files
  flush_batch_with_audit audit items w =
      flush_with audit items (record w { flushes = w.flushes + 1 }) (world.connection w.flushes)

  abbrev pub push : ScannedFile → Writer → Writer
  push f w = record w { discovered = add_u64 w.discovered 1 }

  -- The two loops of `stage3_writer`, with the batch so far; an empty batch waits without a timeout.
  unfoldable pub collect : Option AuditContext → List ScannedFile → List Arrival → Writer → Writer
  unfolding flush_batch_with_audit
  collect audit [] [] w = w
  collect audit (b ∷ batch) [] w = flush_batch_with_audit audit (b ∷ batch) w
  collect audit [] (quiet ∷ arrivals) w = collect audit [] arrivals w
  collect audit (b ∷ batch) (quiet ∷ arrivals) w =
      collect audit [] arrivals (flush_batch_with_audit audit (b ∷ batch) w)
  collect audit batch (file f ∷ arrivals) w =
      let full =
        collect audit [] arrivals (flush_batch_with_audit audit (batch ++ f ∷ []) (push f w)) in
      let more = collect audit (batch ++ f ∷ []) arrivals (push f w) in
      if leb max_batch_size (length (batch ++ f ∷ [])) then full else more

  abbrev pub counts_of : Writer → Json
  counts_of w = object (
      ("discovered", number w.discovered)
      ∷ ("processed", number w.processed)
      ∷ ("errors", number w.errors)
      ∷ [])

  abbrev pub scan_outcome : ℕ → AuditOutcome
  scan_outcome errors = if errors == 0 then success else completed_with_errors

  abbrev pub close_audit : Option AuditContext → Writer → M (Unit {0})
  close_audit none w = pure tt
  close_audit (some context) w = do
    attempt (
        append_audit_event context.operation_id scan_completed (scan_outcome w.errors) world.now
          (counts_of w) [])
    attempt (
        finish_audit_operation context.operation_id OperationStatus.completed world.now none
          (counts_of w))

  abbrev pub announce_completed : Writer → Writer
  announce_completed w = record w {
    progress = w.progress ++ ScanProgress.completed w.discovered w.processed w.errors ∷ [];
  }

  abbrev pub link_documents : Writer → Writer
  link_documents w = record w {
    db = (auto_link_documents world.json world.fresh world.now world.order w.db).1;
  }

  abbrev pub close_scan : Option AuditContext → Writer → Writer
  close_scan audit w = record w { db = (close_audit audit w w.db).1 }

  unfoldable pub stage3_writer : Option AuditContext → List Arrival → Writer → Writer
  unfolding collect auto_link_documents append_audit_event finish_audit_operation
  stage3_writer audit arrivals w =
      close_scan audit (announce_completed (link_documents (collect audit [] arrivals w)))
