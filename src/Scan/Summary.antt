-- ===== src/Scan/Summary.antt =====
-- core/src/scan/mod.rs: the summary of a scan counts its events.
use read_flow.Prelude.{
  ℕ, suc, ◌+◌, ◌%◌, ◌^◌, Bool, true, false, not, ◌&&◌, List, [], ◌∷◌, ◌++◌, append_assoc,
  append-nil, length, retain, ◌≡◌, sym, ◌∙◌, arith,
}
use read_flow.Scan.{
  ScanSummary, ScanProgress, ScanFileError, completed, file_processed, file_error, file_discovered,
  add_event, add_events,
}

abbrev pub is_new : ScanProgress → Bool
is_new (file_processed path was_new was_updated) = was_new
is_new e = false

abbrev pub is_updated : ScanProgress → Bool
is_updated (file_processed path was_new was_updated) = not was_new && was_updated
is_updated e = false

abbrev pub errors_of : List ScanProgress → List ScanFileError
errors_of [] = []
errors_of (file_error path error ∷ es) = record { path = path; message = error } ∷ errors_of es
errors_of (e ∷ es) = errors_of es

count_one : (a n : ℕ) → ((a + 1) % 2 ^ 64 + n) % 2 ^ 64 ≡ (a + suc n) % 2 ^ 64
count_one a n = omega arith

-- Over any run of events the summary counts, modulo 2^64, the files that were new and those that
-- were updated and not new, and lists the failed files in their order.
pub add_events-counts :
    (es : List ScanProgress) (s : ScanSummary)
    → ((add_events s es).added % 2 ^ 64 ≡ (s.added + length (retain is_new es)) % 2 ^ 64)
      × (((add_events s es).updated % 2 ^ 64 ≡ (s.updated + length (retain is_updated es)) % 2 ^ 64)
          × ((add_events s es).error_details ≡ s.error_details ++ errors_of es))
unfolding add_events add_event
add_events-counts [] s = (omega arith, (omega arith, sym (append-nil s.error_details)))
add_events-counts (completed a b c ∷ es) s = add_events-counts es (add_event s (completed a b c))
add_events-counts (file_processed path true u ∷ es) s =
    let ih = add_events-counts es (add_event s (file_processed path true u)) in
    (ih.0 ∙ count_one s.added (length (retain is_new es)), ih.1)
add_events-counts (file_processed path false true ∷ es) s =
    let ih = add_events-counts es (add_event s (file_processed path false true)) in
    (ih.0, (ih.1.0 ∙ count_one s.updated (length (retain is_updated es)), ih.1.1))
add_events-counts (file_processed path false false ∷ es) s = add_events-counts es s
add_events-counts (file_error path error ∷ es) s =
    let ih = add_events-counts es (add_event s (file_error path error)) in
    (
      ih.0,
      (
        ih.1.0,
        ih.1.1
            ∙ append_assoc s.error_details (record { path = path; message = error } ∷ [])
                (errors_of es),
      ),
    )
add_events-counts (file_discovered ∷ es) s = add_events-counts es s
