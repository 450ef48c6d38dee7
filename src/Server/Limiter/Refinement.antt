-- ===== src/Server/Limiter/Refinement.antt =====
-- The limiter's bounded queue answers like the log of all failures.
use read_flow.Server.Limiter.Stands.{Stands-record, Stands-later, Stands-check, Stands}
use read_flow.Server.Limiter.Log.{
  recent-Expired, failed, Ascending-tail, checked, drop_expired-recent, InOrder, Event, log_of, run,
  recent, Ascending,
}
use read_flow.Prelude.{
  not, append-nil, retain-append, length-append, arith, refl, subst, Bool-cases, inr, sym, ltb,
  append_assoc, inl, length, ◌∙◌, ap, [], ◌∷◌, ◌≡◌, ◌++◌, List, ℕ,
}
use read_flow.Server.Limiter.{limiter, record_failure, check, expired, drop_expired, drop_excess}

module _ (window m : ℕ) where
  recent-recent :
      (now : ℕ) (l : List ℕ) → recent window now (recent window now l) ≡ recent window now l
  recent-recent now [] = refl
  recent-recent now (t ∷ l) = elim (Bool-cases (expired window now t)) [
    | inl old ↦ rw old (recent-recent now l)
    | inr fresh ↦ rw (fresh, fresh, recent-recent now l) refl
  ]

  answer_of :
      (now : ℕ) (log queue : List ℕ)
      → Stands window m now log queue
      → recent window now queue ≡ queue
      → ltb (length queue) m ≡ ltb (length (recent window now log)) m
  answer_of now log queue s kept = elim s.lost [
    | inl old ↦
        ap (λ r. ltb (length r) m)
          (sym (
            ap (recent window now) s.whole
            ∙ retain-append (λ t. not (expired window now t)) s.dropped queue
            ∙ ap (λ r. r ++ recent window now queue) (recent-Expired window now s.dropped old)
            ∙ kept))
    | inr full ↦ ground (
      arith,
      full,
      length-append (recent window now s.dropped) (recent window now queue),
      ap length kept,
      ap length (
          ap (recent window now) s.whole
          ∙ retain-append (λ t. not (expired window now t)) s.dropped queue),
    )
  ]

  -- The queue answers like the log.
  Stands-answer :
      (now : ℕ) (log queue : List ℕ)
      → Stands window m now log queue
      → ltb (length (drop_expired window now queue)) m ≡ ltb (length (recent window now log)) m
  Stands-answer now log queue s =
      let pruned : drop_expired window now queue ≡ recent window now queue =
        drop_expired-recent window now queue
          (Ascending-tail s.dropped queue now (subst (λ r. Ascending r now) s.whole s.ascending)) in
      answer_of now log (drop_expired window now queue) (Stands-check window m now log queue s)
        (ap (recent window now) pruned ∙ recent-recent now queue ∙ sym pruned)

module _ (window m : ℕ) where
  Stands-run :
      (events : List Event) (from now : ℕ) (log queue : List ℕ)
      → InOrder from events now
      → Stands window m from log queue
      → (rest : List ℕ) × (run (limiter window m queue) events ≡ limiter window m rest)
        × Stands window m now (log ++ log_of events) rest
  unfolding run log_of check record_failure
  Stands-run [] from now log queue le s = (
    queue,
    refl,
    subst (λ r. Stands window m now r queue) (sym (append-nil log))
        (Stands-later window m from now log queue le s),
  )
  Stands-run (checked t ∷ events) from now log queue ordered s =
      Stands-run events t now log (drop_expired window t queue) ordered.1
        (Stands-check window m t log queue (Stands-later window m from t log queue ordered.0 s))
  Stands-run (failed t ∷ events) from now log queue ordered s =
      let (rest, ran, stands) =
        Stands-run events t now (log ++ (t ∷ [])) (drop_excess m (queue ++ (t ∷ []))) ordered.1 (
          Stands-record window m t log queue
            (Stands-later window m from t log queue ordered.0 s)) in
      (
        rest,
        ran,
        subst (λ r. Stands window m now r rest) (append_assoc log (t ∷ []) (log_of events)) stands,
      )

-- After any checks and recorded failures, at times that do not go back, `check` lets an attempt
-- pass exactly when the log of all failures holds fewer than `max_failures` from the last
-- `window`: neither the pruning nor the bound of the queue changes an answer.
pub check-log :
    (window m from now : ℕ) (events : List Event)
    → InOrder from events now
    → (check (run (limiter window m []) events) now).1
      ≡ ltb (length (recent window now (log_of events))) m
unfolding check
check-log window m from now events ordered =
    let (queue, ran, s) =
      Stands-run window m events from now [] [] ordered
        (record { dropped = []; whole = refl; ascending = tt; lost = inl tt }) in
    ap (λ l. (check l now).1) ran ∙ Stands-answer window m now (log_of events) queue s
