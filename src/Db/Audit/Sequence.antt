-- ===== src/Db/Audit/Sequence.antt =====
-- The sequence numbers that `append_audit_event` gives out.
use read_flow.Prelude.{
  sym, ◌∙◌, ℕ, suc, ◌+◌, max, String, List, [], ◌∷◌, ◌++◌, length, any, eqb, eqb→eq, if◌then◌else◌,
  ◌≡◌, refl, arith, Bool-cases, inl, inr, subst,
}
use read_flow.Audit.{AuditEventType, AuditOutcome, Json, is_object}
use read_flow.Db.Tables.{Db, AuditEventRow, AuditTargetSnapshot}
use read_flow.Db.Monad.{for_each, for_each-keeps, continue-keeps}
use read_flow.Db.Audit.{max_sequence, append_audit_event, insert_event, insert_target}

-- k, k + 1, k + 2, …
abbrev IsRun : ℕ → List ℕ → Type 0
IsRun k [] = Unit
IsRun k (x ∷ xs) = (x ≡ k) × IsRun (suc k) xs

-- The sequence numbers of an operation's events, in the order of the table.
abbrev sequences : String → List AuditEventRow → List ℕ
sequences op [] = []
sequences op (e ∷ es) =
    if eqb e.operation_id op then e.sequence ∷ sequences op es else sequences op es

-- The events of the operation are numbered 1, 2, 3, … in the order in which they were written.
abbrev pub IsNumbered : String → List AuditEventRow → Type 0
IsNumbered op es = IsRun 1 (sequences op es)

maximum : List ℕ → ℕ
maximum [] = 0
maximum (x ∷ xs) = max x (maximum xs)

IsRun-maximum : (k : ℕ) (xs : List ℕ) → IsRun (suc k) xs → max k (maximum xs) ≡ k + length xs
unfolding maximum
IsRun-maximum k [] r = omega arith
IsRun-maximum k (x ∷ xs) r = omega (arith, IsRun-maximum (suc k) xs r.1)

max_sequence-maximum :
    (op : String) (es : List AuditEventRow) → max_sequence op es ≡ maximum (sequences op es)
unfolding max_sequence maximum
max_sequence-maximum op [] = refl
max_sequence-maximum op (e ∷ es) = ground (arith, max_sequence-maximum op es)

IsRun-snoc : (k n : ℕ) (xs : List ℕ) → n ≡ k + length xs → IsRun k xs → IsRun k (xs ++ n ∷ [])
IsRun-snoc k n [] e r = (omega arith, tt)
IsRun-snoc k n (x ∷ xs) e r = (r.0, IsRun-snoc (suc k) n xs (omega arith) r.1)

sequences-snoc :
    (op : String) (es : List AuditEventRow) (e : AuditEventRow)
    → sequences op (es ++ e ∷ [])
      ≡ (if eqb e.operation_id op then sequences op es ++ e.sequence ∷ [] else sequences op es)
sequences-snoc op [] e = ground arith
sequences-snoc op (d ∷ es) e = ground (arith, sequences-snoc op es e)

IsNumbered-snoc :
    (op : String) (es : List AuditEventRow) (e : AuditEventRow)
    → e.sequence ≡ max_sequence e.operation_id es + 1
    → IsNumbered op es
    → IsNumbered op (es ++ e ∷ [])
IsNumbered-snoc op es e q r = elim (Bool-cases (eqb e.operation_id op)) [
  | inl own ↦
      let same : e.operation_id ≡ op = eqb→eq e.operation_id op own in
      rw (sequences-snoc op es e, own)
        (IsRun-snoc 1 e.sequence (sequences op es)
          (omega (
            arith,
            subst (λ o. e.sequence ≡ max_sequence o es + 1) same q,
            max_sequence-maximum op es,
            IsRun-maximum 0 (sequences op es) r,
          ))
          r)
  | inr foreign ↦ rw (sequences-snoc op es e, foreign) r
]

insert_target-events :
    (id : ℕ) (t : AuditTargetSnapshot) (db : Db) → (insert_target id t db).1.events ≡ db.events
unfolding insert_target
insert_target-events id t db = ground arith

insert_event-IsNumbered :
    (op own : String) (event_type : AuditEventType) (outcome : AuditOutcome) (at : String)
    (parameters : Json) (db : Db)
    → IsNumbered op db.events
    → IsNumbered op (insert_event own event_type outcome at parameters db).1.events
unfolding insert_event
insert_event-IsNumbered op own event_type outcome at parameters db r =
    elim (Bool-cases (any (λ o. eqb o.id own) db.operations)) [
      | inl known ↦ rw (known, insert_event) (IsNumbered-snoc op db.events _ refl r)
      | inr unknown ↦ rw (unknown, insert_event) r
    ]

-- Whatever `append_audit_event` is asked to write, and also where it is refused, the events of
-- every operation stay numbered 1, 2, 3, … without a gap.
pub append_audit_event-IsNumbered :
    (op own : String) (event_type : AuditEventType) (outcome : AuditOutcome) (at : String)
    (parameters : Json) (targets : List AuditTargetSnapshot) (db : Db)
    → IsNumbered op db.events
    → IsNumbered op (append_audit_event own event_type outcome at parameters targets db).1.events
unfolding append_audit_event
append_audit_event-IsNumbered op own event_type outcome at parameters targets db r =
    elim (Bool-cases (is_object parameters)) [
      | inl valid ↦
          rw (valid, append_audit_event)
            (subst (IsNumbered op)
              (sym (
                continue-keeps (λ d. d.events)
                  (insert_event own event_type outcome at parameters db) _
                  (λ id d.
                    continue-keeps (λ d'. d'.events) (for_each targets (insert_target id) d) _
                      (λ _ _. refl)
                    ∙ for_each-keeps (λ d'. d'.events) targets (insert_target id) d
                        (insert_target-events id))))
              (insert_event-IsNumbered op own event_type outcome at parameters db r))
      | inr invalid ↦ rw (invalid, append_audit_event) r
    ]
