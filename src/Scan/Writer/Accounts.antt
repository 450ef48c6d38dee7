-- ===== src/Scan/Writer/Accounts.antt =====
-- core/src/scan/scanner.rs: what an account of scanned files is.
use read_flow.Scan.Writer.{report_error, path_str, report_processed, ScannedFile, Writer}
use read_flow.Scan.{file_discovered, file_processed, file_error, ScanProgress}
use read_flow.Prelude.{
  subst, ℕ, ◌+◌, ◌%◌, ◌^◌, String, Bool, true, false, List, [], ◌∷◌, ◌++◌, length, length-append,
  retain, retain-append, append_assoc, append-nil, ◌⊎◌, ◌≡◌, refl, sym, ◌∙◌, ap, arith,
}

-- An event that reports a file, by the path that it is stored under or, where the whole batch failed,
-- by its path on the disk.
abbrev pub Names : ScannedFile → ScanProgress → Type 0
Names f (file_processed path was_new was_updated) = path ≡ path_str f
Names f (file_error path error) = (path ≡ path_str f) ⊎ (path ≡ f.path)
Names f (ScanProgress.completed d p e) = ⊥
Names f file_discovered = ⊥

-- One event for each file, in order.
abbrev pub Reports : List ScannedFile → List ScanProgress → Type 0
Reports [] [] = Unit
Reports (f ∷ fs) (e ∷ es) = Names f e × Reports fs es
Reports [] (e ∷ es) = ⊥
Reports (f ∷ fs) [] = ⊥

abbrev pub is_processed : ScanProgress → Bool
is_processed (file_processed path was_new was_updated) = true
is_processed _ = false

abbrev pub is_error : ScanProgress → Bool
is_error (file_error path error) = true
is_error _ = false

pub Reports-append :
    (fs gs : List ScannedFile) (es hs : List ScanProgress)
    → Reports fs es
    → Reports gs hs
    → Reports (fs ++ gs) (es ++ hs)
Reports-append [] gs [] hs a b = b
Reports-append (f ∷ fs) gs (e ∷ es) hs a b = (a.0, Reports-append fs gs es hs a.1 b)
Reports-append [] gs (e ∷ es) hs a b = absurd a
Reports-append (f ∷ fs) gs [] hs a b = absurd a

-- A counter that `n` was added to, modulo 2^64.
abbrev pub Counts : ℕ → ℕ → ℕ → Type 0
Counts before n after = after % 2 ^ 64 ≡ (before + n) % 2 ^ 64

-- From `w` to `w'` the files were reported by `es`, which the counters follow, and `d` files arrived.
abbrev pub AccountedBy : ℕ → List ScannedFile → Writer → Writer → List ScanProgress → Type 0
AccountedBy d fs w w' es =
    (w'.progress ≡ w.progress ++ es)
    × Reports fs es
    × Counts w.processed (length (retain is_processed es)) w'.processed
    × Counts w.errors (length (retain is_error es)) w'.errors
    × Counts w.discovered d w'.discovered

abbrev pub Accounted : ℕ → List ScannedFile → Writer → Writer → Type 0
Accounted d fs w w' = (es : List ScanProgress) × AccountedBy d fs w w' es

-- The fields that an account reads are the same.
pub Accounted-nothing :
    (w w' : Writer)
    → w'.progress ≡ w.progress
    → w'.processed ≡ w.processed
    → w'.errors ≡ w.errors
    → w'.discovered ≡ w.discovered
    → Accounted 0 [] w w'
Accounted-nothing w w' p q r s = (
  [],
  (p ∙ sym (append-nil w.progress), tt, omega (arith, q), omega (arith, r), omega (arith, s)),
)

counted_length :
    (p : ScanProgress → Bool) (es hs : List ScanProgress)
    → length (retain p (es ++ hs)) ≡ length (retain p es) + length (retain p hs)
counted_length p es hs =
    ap length (retain-append p es hs) ∙ length-append (retain p es) (retain p hs)

pub Accounted-trans :
    (c d : ℕ) (fs gs : List ScannedFile) (u v w : Writer)
    → Accounted c fs u v
    → Accounted d gs v w
    → Accounted (c + d) (fs ++ gs) u w
Accounted-trans c d fs gs u v w (es, a) (hs, b) = (
  es ++ hs,
  (
    b.0 ∙ ap (λ p. p ++ hs) a.0 ∙ append_assoc u.progress es hs,
    Reports-append fs gs es hs a.1 b.1,
    omega (arith, a.2, b.2, counted_length is_processed es hs),
    omega (arith, a.3, b.3, counted_length is_error es hs),
    omega (arith, a.4, b.4),
  ),
)

pub Accounted-error :
    (f : ScannedFile) (path error : String) (w : Writer)
    → (path ≡ path_str f) ⊎ (path ≡ f.path)
    → Accounted 0 (f ∷ []) w (report_error path error w)
Accounted-error f path error w named =
    (file_error path error ∷ [], (refl, (named, tt), omega arith, omega arith, omega arith))

pub Accounted-processed :
    (f : ScannedFile) (was_new was_updated : Bool) (w : Writer)
    → Accounted 0 (f ∷ []) w (report_processed (path_str f) was_new was_updated w)
Accounted-processed f was_new was_updated w = (
  file_processed (path_str f) was_new was_updated ∷ [],
  (refl, (refl, tt), omega arith, omega arith, omega arith),
)

-- Where nothing arrives in the first part.
pub Accounted-then :
    (d : ℕ) (fs gs : List ScannedFile) (u v w : Writer)
    → Accounted 0 fs u v
    → Accounted d gs v w
    → Accounted d (fs ++ gs) u w
Accounted-then d fs gs u v w a b =
    let zero_first : 0 + d ≡ d = omega arith in
    subst (λ n. Accounted n (fs ++ gs) u w) zero_first (Accounted-trans 0 d fs gs u v w a b)
