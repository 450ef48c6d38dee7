-- ===== src/Server/Limiter/Stands.antt =====
-- When the limiter's bounded queue stands for the log of all failures, and the steps that keep it so.
use read_flow.Server.Limiter.Log.{
  All-Expired-before, Ascending-later, Ascending, Expired, Ascending-snoc,
}
use read_flow.Prelude.{
  length-append, All-append, arith, refl, subst, Bool-cases, inr, true, sym, ltb, append_assoc, inl,
  length, ◌∙◌, ap, ◌⊎◌, All, [], ◌∷◌, ◌≤◌, ◌≡◌, ◌++◌, List, ℕ,
}
use read_flow.Server.Limiter.{expired, drop_expired, drop_excess}

drop_excess-split :
    (m : ℕ) (l : List ℕ)
    → (d : List ℕ) × (l ≡ d ++ drop_excess m l) × ((d ≡ []) ⊎ (m ≤ length (drop_excess m l)))
unfolding drop_excess
drop_excess-split m [] = ([], refl, inl refl)
drop_excess-split m (t ∷ l) =
    let (d, e, c) = drop_excess-split m l in
    elim (Bool-cases (ltb m (length (t ∷ l)))) [
      | inl over ↦ rw over (t ∷ d, ap (λ r. t ∷ r) e, inr (full d e c over))
      | inr fits ↦ rw fits ([], refl, inl refl)
    ]
  where
    full :
        (d : List ℕ)
        → l ≡ d ++ drop_excess m l
        → (d ≡ []) ⊎ (m ≤ length (drop_excess m l))
        → ltb m (length (t ∷ l)) ≡ true
        → m ≤ length (drop_excess m l)
    full d e (inl none_dropped) over =
        ground (arith, over, ap length (e ∙ ap (λ r. r ++ drop_excess m l) none_dropped))
    full d e (inr enough) over = enough

drop_expired-split :
    (window now : ℕ) (l : List ℕ)
    → (d : List ℕ) × (l ≡ d ++ drop_expired window now l) × All (Expired window now) d
unfolding drop_expired
drop_expired-split window now [] = ([], refl, tt)
drop_expired-split window now (t ∷ l) =
    let (d, e, old) = drop_expired-split window now l in
    elim (Bool-cases (expired window now t)) [
      | inl is_old ↦ rw is_old (t ∷ d, ap (λ r. t ∷ r) e, (is_old, old))
      | inr fresh ↦ rw fresh ([], refl, tt)
    ]

-- The queue is the end of the log, and what it lacks is expired, unless it is full.
pub record Stands (window m now : ℕ) (log queue : List ℕ) : Type 0 where
  pub dropped : List ℕ
  pub whole : log ≡ dropped ++ queue
  pub ascending : Ascending log now
  pub lost : All (Expired window now) dropped ⊎ (m ≤ length queue)

All-Expired-later :
    (window from now : ℕ) (l : List ℕ)
    → from ≤ now
    → All (Expired window from) l
    → All (Expired window now) l
All-Expired-later window from now [] le old = tt
All-Expired-later window from now (t ∷ l) le old =
    (ground (arith, old.0, le), All-Expired-later window from now l le old.1)

module _ (window m : ℕ) where
  pub Stands-later :
      (from now : ℕ) (log queue : List ℕ)
      → from ≤ now
      → Stands window m from log queue
      → Stands window m now log queue
  Stands-later from now log queue le s = record {
    dropped = s.dropped;
    whole = s.whole;
    ascending = Ascending-later log from now le s.ascending;
    lost = later s.lost;
  }
    where
      later :
          All (Expired window from) s.dropped ⊎ (m ≤ length queue)
          → All (Expired window now) s.dropped ⊎ (m ≤ length queue)
      later (inl old) = inl (All-Expired-later window from now s.dropped le old)
      later (inr full) = inr full

  pub Stands-check :
      (now : ℕ) (log queue : List ℕ)
      → Stands window m now log queue
      → Stands window m now log (drop_expired window now queue)
  Stands-check now log queue s = let (d, e, old) = drop_expired-split window now queue in go d e old
    where
      go :
          (d : List ℕ)
          → queue ≡ d ++ drop_expired window now queue
          → All (Expired window now) d
          → Stands window m now log (drop_expired window now queue)
      go [] e old = subst (Stands window m now log) e s
      go (t ∷ d) e old = record {
        dropped = s.dropped ++ (t ∷ d);
        whole =
            s.whole
            ∙ ap (λ r. s.dropped ++ r) e
            ∙ sym (append_assoc s.dropped (t ∷ d) (drop_expired window now queue));
        ascending = s.ascending;
        lost = inl (
            All-append (Expired window now) s.dropped (t ∷ d)
              (All-Expired-before window now s.dropped t (d ++ drop_expired window now queue)
                (subst (λ r. Ascending r now) (s.whole ∙ ap (λ r. s.dropped ++ r) e) s.ascending)
                old.0)
              old);
      }

  pub Stands-record :
      (now : ℕ) (log queue : List ℕ)
      → Stands window m now log queue
      → Stands window m now (log ++ (now ∷ [])) (drop_excess m (queue ++ (now ∷ [])))
  Stands-record now log queue s =
      let (d, e, c) = drop_excess-split m (queue ++ (now ∷ [])) in
      record {
        dropped = s.dropped ++ d;
        whole =
            ap (λ r. r ++ (now ∷ [])) s.whole
            ∙ append_assoc s.dropped queue (now ∷ [])
            ∙ ap (λ r. s.dropped ++ r) e
            ∙ sym (append_assoc s.dropped d (drop_excess m (queue ++ (now ∷ []))));
        ascending = Ascending-snoc log now now (omega arith) s.ascending;
        lost = lost_of d e c s.lost;
      }
    where
      lost_of :
          (d : List ℕ)
          → queue ++ (now ∷ []) ≡ d ++ drop_excess m (queue ++ (now ∷ []))
          → (d ≡ []) ⊎ (m ≤ length (drop_excess m (queue ++ (now ∷ []))))
          → All (Expired window now) s.dropped ⊎ (m ≤ length queue)
          → All (Expired window now) (s.dropped ++ d)
            ⊎ (m ≤ length (drop_excess m (queue ++ (now ∷ []))))
      lost_of d e (inr full) lost = inr full
      lost_of d e (inl kept) (inl old) = inl (
          All-append (Expired window now) s.dropped d old
            (subst (All (Expired window now)) (sym kept) tt))
      lost_of d e (inl kept) (inr full) = inr (
          omega (
            arith,
            full,
            length-append queue (now ∷ []),
            ap length (e ∙ ap (λ r. r ++ drop_excess m (queue ++ (now ∷ []))) kept),
          ))
