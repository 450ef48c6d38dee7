-- ===== src/Scan/Writer/Reported.antt =====
-- core/src/scan/scanner.rs: every scanned file is reported once, whatever the timeouts and the store do.
use read_flow.Scan.{ScanProgress}
use read_flow.Db.Audit.{path_target}
use read_flow.Db.Result.{err, Result}
use read_flow.Scan.Writer.Accounts.{
  Accounted-then, Accounted-processed, Accounted-error, Accounted-trans, Accounted-nothing,
  Accounted,
}
use read_flow.Scan.Enrich.{enrich_files, EnrichTask}
use read_flow.Scan.Writer.History.{
  recorded-Recordable, append_lem, enrich_files-history, write_scanned_file-history, recorded,
  history_of, Recordable,
}
use read_flow.Db.Tables.{Db}
use read_flow.Scan.Writer.{
  max_batch_size, push, stage3_writer, after_record, no_commit, with_task, works, report_processed,
  archive_member, no_begin, quiet, path_str, scan_event, report_error, close_batch, after_write,
  flush_with, file, Connection, write_file, report_all, Arrival, collect, flush_batch_with_audit,
  finished, rolled_back, ok, Flushed, record_if_changed, Writer, flush_items, ScannedFile, World,
}
use read_flow.Audit.{flag, text, observed, AuditContext}
use read_flow.Prelude.{
  leb, if◌then◌else◌, ℕ, suc, ◌+◌, Bool, true, false, List, [], ◌∷◌, ◌++◌, length, Bool-cases,
  append_assoc, append-nil, inl, inr, ◌≡◌, refl, sym, arith, Option, none, some, subst, ◌||◌,
}

-- Nothing is recorded, or the scan's operation can be written to.
abbrev pub MayRecord : Option AuditContext → Db → Type 0
MayRecord none db = Unit
MayRecord (some context) db = Recordable context.operation_id (history_of db)

MayRecord-same :
    (audit : Option AuditContext) (db db' : Db)
    → history_of db' ≡ history_of db
    → MayRecord audit db
    → MayRecord audit db'
MayRecord-same none db db' same may = tt
MayRecord-same (some context) db db' same may =
    subst (Recordable context.operation_id) (sym same) may

-- The files of the arrivals.
abbrev pub files_of : List Arrival → List ScannedFile
files_of [] = []
files_of (file f ∷ as_) = f ∷ files_of as_
files_of (quiet ∷ as_) = files_of as_

module _ (world : World) where
  module _ (audit : Option AuditContext) where
    -- The loop over a batch comes to its end.
    abbrev Ends : List ScannedFile → Writer → Flushed → Type 0
    Ends fs w (rolled_back w') = ⊥
    Ends fs w (finished w' tasks) = Accounted 0 fs w w' × MayRecord audit w'.db

    Ends-after :
        (f : ScannedFile) (fs : List ScannedFile) (u v : Writer) (r : Flushed)
        → Accounted 0 (f ∷ []) u v
        → Ends fs v r
        → Ends (f ∷ fs) u r
    Ends-after f fs u v (rolled_back w) a e = absurd e
    Ends-after f fs u v (finished w tasks) a e = (Accounted-trans 0 0 (f ∷ []) fs u v w a e.0, e.1)

  -- Recording a change of an operation that can be written to succeeds.
  record_if_changed_lem :
      (audit : Option AuditContext) (f : ScannedFile) (was_new was_updated : Bool) (db : Db)
      → MayRecord audit db
      → (db' : Db) × (record_if_changed world audit f was_new was_updated db ≡ (ok tt, db'))
        × MayRecord audit db'
  record_if_changed_lem none f was_new was_updated db may = (db, refl, tt)
  record_if_changed_lem (some context) f was_new was_updated db may =
      elim (Bool-cases (was_new || was_updated)) [
        | inl changed ↦ (
          recorded context.operation_id (scan_event world was_new) observed world.now
              (("path", text (path_str f)) ∷ ("external_change_detected", flag was_updated) ∷ [])
              (path_target (path_str f)) db,
          rw changed (
              rw
                (append_lem context.operation_id (scan_event world was_new) observed world.now
                  (("path", text (path_str f))
                    ∷ ("external_change_detected", flag was_updated)
                    ∷ [])
                  (path_target (path_str f)) db may)
                refl),
          recorded-Recordable context.operation_id (scan_event world was_new) observed world.now
              (("path", text (path_str f)) ∷ ("external_change_detected", flag was_updated) ∷ [])
              (path_target (path_str f)) db may,
        )
        | inr same ↦ (db, rw same refl, may)
      ]

  after_write_lem :
      (audit : Option AuditContext) (f : ScannedFile) (fs : List ScannedFile) (w : Writer)
      (tasks : List EnrichTask) (r : Result (Bool × Bool) × Db)
      (next : Writer → List EnrichTask → Flushed)
      → MayRecord audit r.1
      → ((v : Writer) (ts : List EnrichTask) → MayRecord audit v.db → Ends audit fs v (next v ts))
      → Ends audit (f ∷ fs) w (after_write world audit f w tasks r next)
  after_write_lem audit f fs w tasks (err e, db) next may ends =
      let v = report_error (path_str f) (world.error_text e) (record w { db = db }) in
      Ends-after audit f fs w v (next v tasks)
        (Accounted-error f (path_str f) (world.error_text e) (record w { db = db }) (inl refl))
        (ends v tasks may)
  after_write_lem audit f fs w tasks (ok (was_new, was_updated), db) next may ends =
      let (db', done_, may') = record_if_changed_lem audit f was_new was_updated db may in
      let v = report_processed (path_str f) was_new was_updated (record w { db = db' }) in
      let ts = with_task world f (was_new || was_updated) tasks in
      subst (λ r. Ends audit (f ∷ fs) w (after_record world f was_new was_updated w tasks r next))
        (sym done_)
        (Ends-after audit f fs w v (next v ts)
          (Accounted-processed f was_new was_updated (record w { db = db' })) (ends v ts may'))

  flush_items_lem :
      (audit : Option AuditContext) (fs : List ScannedFile) (w : Writer) (tasks : List EnrichTask)
      → MayRecord audit w.db
      → Ends audit fs w (flush_items world audit fs w tasks)
  unfolding flush_items
  flush_items_lem audit [] w tasks may = (Accounted-nothing w w refl refl refl refl, may)
  flush_items_lem audit (f ∷ fs) w tasks may =
      after_write_lem audit f fs w tasks (write_file world f w.db) (flush_items world audit fs)
        (MayRecord-same audit w.db (write_file world f w.db).1
          (write_scanned_file-history world.now (world.fresh w.db.next_file) (path_str f)
            f.extension f.size f.fingerprint f.tags (archive_member f) w.db)
          may)
        (λ v ts mv. flush_items_lem audit fs v ts mv)

  report_all_lem :
      (fs : List ScannedFile) (w : Writer)
      → Accounted 0 fs w (report_all world fs w) × ((report_all world fs w).db ≡ w.db)
  unfolding report_all
  report_all_lem [] w = (Accounted-nothing w w refl refl refl refl, refl)
  report_all_lem (f ∷ fs) w =
      let v = report_error f.path world.begin_error w in
      let rest = report_all_lem fs v in
      (
        Accounted-trans 0 0 (f ∷ []) fs w v (report_all world fs v)
            (Accounted-error f f.path world.begin_error w (inr refl)) rest.0,
        rest.1,
      )

  abbrev After : Option AuditContext → List ScannedFile → Writer → Writer → Type 0
  After audit fs w w' = Accounted 0 fs w w' × MayRecord audit w'.db

  close_batch_lem :
      (audit : Option AuditContext) (fs : List ScannedFile) (w : Writer) (c : Connection)
      (r : Flushed)
      → MayRecord audit w.db
      → Ends audit fs w r
      → After audit fs w (close_batch world w.db c r)
  close_batch_lem audit fs w c (rolled_back v) may ends = absurd ends
  close_batch_lem audit fs w no_commit (finished v tasks) may ends = (ends.0, may)
  close_batch_lem audit fs w works (finished v tasks) may ends = (
    ends.0,
    MayRecord-same audit v.db
        (enrich_files world.json world.fresh world.now world.extract tasks v.db)
        (enrich_files-history world.json world.fresh world.now world.extract tasks v.db) ends.1,
  )
  close_batch_lem audit fs w no_begin (finished v tasks) may ends = (
    ends.0,
    MayRecord-same audit v.db
        (enrich_files world.json world.fresh world.now world.extract tasks v.db)
        (enrich_files-history world.json world.fresh world.now world.extract tasks v.db) ends.1,
  )

  flush_with_lem :
      (audit : Option AuditContext) (fs : List ScannedFile) (w : Writer) (c : Connection)
      → MayRecord audit w.db
      → After audit fs w (flush_with world audit fs w c)
  flush_with_lem audit fs w no_begin may = let all_ = report_all_lem fs w in (all_.0, rw all_.1 may)
  flush_with_lem audit fs w works may =
      close_batch_lem audit fs w works (flush_items world audit fs w []) may
        (flush_items_lem audit fs w [] may)
  flush_with_lem audit fs w no_commit may =
      close_batch_lem audit fs w no_commit (flush_items world audit fs w []) may
        (flush_items_lem audit fs w [] may)

  flush_batch_lem :
      (audit : Option AuditContext) (fs : List ScannedFile) (w : Writer)
      → MayRecord audit w.db
      → After audit fs w (flush_batch_with_audit world audit fs w)
  unfolding flush_batch_with_audit
  flush_batch_lem audit fs w may =
      flush_with_lem audit fs (record w { flushes = w.flushes + 1 }) (world.connection w.flushes)
        may

  -- A file that arrives is counted.
  push_lem : (f : ScannedFile) (w : Writer) → Accounted 1 [] w (push world f w)
  push_lem f w = ([], (sym (append-nil w.progress), tt, omega arith, omega arith, omega arith))

  module _ (audit : Option AuditContext) (batch : List ScannedFile) (f : ScannedFile)
      (as_ : List Arrival) (w : Writer) where
    abbrev filled : List ScannedFile
    filled = batch ++ f ∷ []

    -- The batch goes on, by `rest`, with the file pushed.
    arrive_lem :
        (v : Writer)
        → Accounted (length (files_of as_)) (filled ++ files_of as_) (push world f w) v
        → Accounted (length (files_of (file f ∷ as_))) (batch ++ files_of (file f ∷ as_)) w v
    arrive_lem v rest =
        subst (λ fs. Accounted (suc (length (files_of as_))) fs w v)
          (append_assoc batch (f ∷ []) (files_of as_))
          (subst (λ n. Accounted n (filled ++ files_of as_) w v) (omega arith)
            (Accounted-trans 1 (length (files_of as_)) [] (filled ++ files_of as_) w
              (push world f w) v (push_lem f w) rest))

    flushed_lem :
        (v : Writer)
        → After audit filled (push world f w) v
        → (MayRecord audit v.db
            → Accounted (length (files_of as_)) (files_of as_) v (collect world audit [] as_ v))
        → Accounted
            (length (files_of as_))
            (filled ++ files_of as_)
            (push world f w)
            (collect world audit [] as_ v)
    flushed_lem v flushed rest =
        Accounted-then (length (files_of as_)) filled (files_of as_) (push world f w) v
          (collect world audit [] as_ v) flushed.0 (rest flushed.1)

  either_way :
      (d : ℕ) (fs : List ScannedFile) (w : Writer) (b : Bool) (u v : Writer)
      → Accounted d fs w u
      → Accounted d fs w v
      → Accounted d fs w (if b then u else v)
  either_way d fs w true u v x y = x
  either_way d fs w false u v x y = y

  grown :
      (audit : Option AuditContext) (batch : List ScannedFile) (f : ScannedFile)
      (as_ : List Arrival) (w : Writer)
      → ((v : Writer)
          → MayRecord audit v.db
          → Accounted (length (files_of as_)) (files_of as_) v (collect world audit [] as_ v))
      → Accounted
          (length (files_of as_))
          ((batch ++ f ∷ []) ++ files_of as_)
          (push world f w)
          (collect world audit (batch ++ f ∷ []) as_ (push world f w))
      → MayRecord audit w.db
      → Accounted (length (files_of (file f ∷ as_))) (batch ++ files_of (file f ∷ as_)) w (
          if leb max_batch_size (length (batch ++ f ∷ []))
          then collect world audit [] as_
              (flush_batch_with_audit world audit (batch ++ f ∷ []) (push world f w))
          else collect world audit (batch ++ f ∷ []) as_ (push world f w))
  grown audit batch f as_ w full more may =
      let v = flush_batch_with_audit world audit (batch ++ f ∷ []) (push world f w) in
      either_way (length (files_of (file f ∷ as_))) (batch ++ files_of (file f ∷ as_)) w
        (leb max_batch_size (length (batch ++ f ∷ []))) (collect world audit [] as_ v)
        (collect world audit (batch ++ f ∷ []) as_ (push world f w))
        (arrive_lem audit batch f as_ w (collect world audit [] as_ v) (
          flushed_lem audit batch f as_ w v
            (flush_batch_lem audit (batch ++ f ∷ []) (push world f w) may) (full v)))
        (arrive_lem audit batch f as_ w (collect world audit (batch ++ f ∷ []) as_ (push world f w))
          more)

  collect_lem :
      (audit : Option AuditContext) (batch : List ScannedFile) (as_ : List Arrival) (w : Writer)
      → MayRecord audit w.db
      → Accounted
          (length (files_of as_))
          (batch ++ files_of as_)
          w
          (collect world audit batch as_ w)
  unfolding collect
  collect_lem audit [] [] w may = Accounted-nothing w w refl refl refl refl
  collect_lem audit (b ∷ batch) [] w may =
      subst (λ fs. Accounted 0 fs w (flush_batch_with_audit world audit (b ∷ batch) w))
        (sym (append-nil (b ∷ batch))) (flush_batch_lem audit (b ∷ batch) w may).0
  collect_lem audit [] (quiet ∷ as_) w may = collect_lem audit [] as_ w may
  collect_lem audit (b ∷ batch) (quiet ∷ as_) w may =
      let v = flush_batch_with_audit world audit (b ∷ batch) w in
      let flushed = flush_batch_lem audit (b ∷ batch) w may in
      Accounted-then (length (files_of as_)) (b ∷ batch) (files_of as_) w v
        (collect world audit [] as_ v) flushed.0 (collect_lem audit [] as_ v flushed.1)
  collect_lem audit [] (file f ∷ as_) w may =
      grown audit [] f as_ w (λ v. collect_lem audit [] as_ v)
        (collect_lem audit (f ∷ []) as_ (push world f w) may) may
  collect_lem audit (b ∷ batch) (file f ∷ as_) w may =
      grown audit (b ∷ batch) f as_ w (λ v. collect_lem audit [] as_ v)
        (collect_lem audit ((b ∷ batch) ++ f ∷ []) as_ (push world f w) may) may

  -- A whole scan reports every file that arrives once, in the order of arrival, and ends with the
  -- counts, which are those of the reports modulo 2^64, whatever the timeouts are and whichever
  -- statements, transactions and commits fail, provided that no context is given or that the scan's
  -- operation can be written to.
  pub stage3_writer-reports :
      (audit : Option AuditContext) (arrivals : List Arrival) (w : Writer)
      → MayRecord audit w.db
      → (v : Writer) × Accounted (length (files_of arrivals)) (files_of arrivals) w v
        × ((stage3_writer world audit arrivals w).progress
            ≡ v.progress ++ ScanProgress.completed v.discovered v.processed v.errors ∷ [])
  unfolding stage3_writer
  stage3_writer-reports audit arrivals w may =
      (collect world audit [] arrivals w, collect_lem audit [] arrivals w may, refl)
