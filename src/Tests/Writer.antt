-- ===== src/Tests/Writer.antt =====
-- Batches of scanned files, with a history that can be written to and with one that cannot.
use mathlib.Core.Option
use read_flow.Paths.{parent, file_stem, file_name, components}
use read_flow.Chars.{rsplit_once, split, same_text}
use read_flow.Db.Documents.{upsert_document}
use read_flow.Db.Metadata.{merge_document_metadata_from_document}
use read_flow.Db.Monad.{for_each}
use read_flow.Db.Contents.{
  upsert_content_tag, as_i32, write_file_row, status_of, join_file, select_file_by_path,
  insert_file_row, insert_file, upsert_content, write_scanned_file,
}
use read_flow.Db.Linking.{link_group, key_of, push_row, group_rows, auto_link_documents}
use read_flow.Audit.{is_object}
use read_flow.Db.Audit.{
  path_target, max_sequence, finish_audit_operation_on_connection, finish_audit_operation,
  insert_target, insert_event, append_audit_event,
}
use read_flow.Scan.{file_error, file_processed, ScanProgress}
use read_flow.Scan.Enrich.{enrich_file, enrich_files, unreadable}
use read_flow.Scan.Writer.Reported.{stage3_writer-reports, files_of}
use read_flow.Scan.Writer.Accounts.{Accounted}
use read_flow.Db.Tables.{Db}
use read_flow.Scan.Writer.{
  path_str, report_all, flush_items, flush_batch_with_audit, collect, no_begin, no_commit, quiet,
  World, stage3_writer, file, works, ScannedFile, Arrival, Connection, Writer,
}
use read_flow.Prelude.{
  ℕ, String, true, false, some, none, List, [], ◌∷◌, ◌++◌, length, ◌≡◌, ◌==◌, refl, str_dec,
  if◌then◌else◌,
}
use read_flow.Tests.Store.{store, json, context}

program : Unit {0}
unfolding str_dec Option.bind stage3_writer collect flush_batch_with_audit flush_items report_all
    enrich_files enrich_file path_str append_audit_event insert_event insert_target
    finish_audit_operation finish_audit_operation_on_connection is_object max_sequence
    auto_link_documents group_rows push_row key_of link_group write_scanned_file upsert_content
    insert_file insert_file_row select_file_by_path join_file status_of write_file_row for_each
    as_i32 upsert_content_tag path_target merge_document_metadata_from_document upsert_document
    same_text split rsplit_once components file_name file_stem parent
program = tt

abbrev scanned : String → ScannedFile
scanned path = record {
  path = path;
  extension = "pdf";
  size = 10;
  fingerprint = path;
  tags = [];
  archive_inner_path = none;
  spool = none;
}

abbrev name : ℕ → String
name n = if n == 0 then "g0" else if n == 1 then "g1" else if n == 2 then "g2" else "g3"

abbrev world : (ℕ → Connection) → World
world connection = record {
  json = json;
  now = "t1";
  fresh = name;
  error_text = λ _. "refused";
  begin_error = "busy";
  connection = connection;
  extract = λ _. unreadable;
  order = λ groups. groups;
}

-- An empty library.
abbrev empty : Db
empty = record store { documents = []; contents = []; files = []; metadata = []; next_file = 0 }

abbrev writer : Db → Writer
writer db = record {
  db = db;
  progress = [];
  discovered = 0;
  processed = 0;
  errors = 0;
  flushes = 0;
}

abbrev arrivals : List Arrival
arrivals = file (scanned "/a.pdf") ∷ quiet ∷ file (scanned "/b.pdf") ∷ quiet ∷ []

abbrev pair : List Arrival
pair = file (scanned "/a.pdf") ∷ file (scanned "/b.pdf") ∷ []

-- The scan's operation is missing from the history: the batch is rolled back at its first file, and
-- the second one is neither stored nor reported.
abbrev lost : Writer
lost = stage3_writer (world (λ _. works)) (some context) pair (writer empty)

lost-progress : lost.progress ≡ file_error "/a.pdf" "refused" ∷ ScanProgress.completed 2 0 1 ∷ []
unfolding program
lost-progress = refl

lost-files : lost.db.files ≡ []
unfolding program
lost-files = refl

-- A commit that fails: the file is reported as new, no error is counted, and nothing is stored.
abbrev uncommitted : Writer
uncommitted =
    stage3_writer (world (λ _. no_commit)) none (file (scanned "/a.pdf") ∷ []) (writer empty)

uncommitted-progress :
    uncommitted.progress ≡ file_processed "/a.pdf" true false ∷ ScanProgress.completed 1 1 0 ∷ []
unfolding program
uncommitted-progress = refl

uncommitted-files : uncommitted.db.files ≡ []
unfolding program
uncommitted-files = refl

-- The second batch has no connection.
abbrev flaky : ℕ → Connection
flaky n = if n == 0 then works else no_begin

stage3_writer-reports_example :
    (v : Writer) × Accounted (length (files_of arrivals)) (files_of arrivals) (writer empty) v
    × ((stage3_writer (world flaky) none arrivals (writer empty)).progress
        ≡ v.progress ++ ScanProgress.completed v.discovered v.processed v.errors ∷ [])
stage3_writer-reports_example = stage3_writer-reports (world flaky) none arrivals (writer empty) tt
