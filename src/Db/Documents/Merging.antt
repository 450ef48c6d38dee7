-- ===== src/Db/Documents/Merging.antt =====
-- core/src/db/dao/documents.rs: a merge against the abstract view of Owner.
use read_flow.Db.Documents.Keys.{id_of}
use read_flow.Db.Result.{err, ok, Result}
use read_flow.Prelude.{
  ℕ, String, Option, none, some, List, [], ◌∷◌, eqb, Bool-cases, Option-cases, inl, inr, ◌≡◌, refl,
  ◌∙◌, ap, subst,
}
use read_flow.Audit.{AuditContext, AuditEventType, OperationType, OperationStatus}
use read_flow.Db.Tables.{Db, AuditTargetSnapshot}
use read_flow.Db.Monad.{OnOk-ok, continue, conclude, OnOk, OnOk-continue, OnOk-all}
use read_flow.Db.Metadata.{AuthorsJson, merge_document_metadata_from_document}
use read_flow.Db.Documents.{
  rollback, commit, ok, Ending, M, merge_documents_impl, merge_block, report_merge, Times,
  begin_audit, record_event, absorb, merge_found, merge_loser, merge_losers, document_id_of,
}
use read_flow.Db.Documents.Kept.{
  shelf, begin_audit-shelf, end_audit-shelf, record_event-shelf, merge_document-shelf,
}
use read_flow.Db.Documents.Owner.{
  owner-merged, redirect, owner, IsReady, Shelf, absorbed, merged_one, merged,
}

module _ (json : AuthorsJson) where
  module _ (times : Times) (winner : String) where
    abbrev Acc : Type 0
    Acc = List AuditTargetSnapshot × ℕ

    absorb-shelf :
        (w : ℕ) (g : String) (l : ℕ) (acc : Acc) (db : Db)
        → OnOk (λ d. shelf d ≡ absorbed w l (shelf db)) (absorb json times winner w g l acc db)
    unfolding absorb
    absorb-shelf w g l acc db =
        OnOk-continue (λ d. shelf d ≡ shelf db) (λ d. shelf d ≡ absorbed w l (shelf db))
          (merge_document_metadata_from_document json times.updated_at w l db) _
          (OnOk-all (λ d. shelf d ≡ shelf db)
            (merge_document_metadata_from_document json times.updated_at w l db)
            (merge_document-shelf json times.updated_at w l db))
          (λ _ d same. ap (absorbed w l) same)

    merge_loser-shelf :
        (w : ℕ) (g : String) (acc : Acc) (db : Db)
        → OnOk
            (λ d. shelf d ≡ merged_one w winner g (shelf db))
            (merge_loser json times winner w g acc db)
    unfolding merge_loser merge_found
    merge_loser-shelf w g acc db = elim (Bool-cases (eqb g winner)) [
      | inl same ↦ rw (same, merge_loser, merged_one) refl
      | inr other ↦ elim (Option-cases (document_id_of g db)) [
        | inl q ↦ rw (other, q, merge_loser, merged_one) refl
        | inr (l, q) ↦ rw (other, q, merge_loser, merged_one) (absorb-shelf w g l acc db)
      ]
    ]

    merge_losers-shelf :
        (w : ℕ) (losers : List String) (acc : Acc) (db : Db)
        → OnOk
            (λ d. shelf d ≡ merged w winner losers (shelf db))
            (merge_losers json times winner w losers acc db)
    unfolding merge_losers merged
    merge_losers-shelf w [] acc db = refl
    merge_losers-shelf w (g ∷ losers) acc db =
        OnOk-continue (λ d. shelf d ≡ merged_one w winner g (shelf db))
          (λ d. shelf d ≡ merged w winner losers (merged_one w winner g (shelf db)))
          (merge_loser json times winner w g acc db) _ (merge_loser-shelf w g acc db)
          (λ acc' d e.
            subst
              (λ x.
                OnOk (λ d'. shelf d' ≡ merged w winner losers x)
                  (merge_losers json times winner w losers acc' d))
              e (merge_losers-shelf w losers acc' d))

-- A block that cannot end in a return that drops the transaction.
abbrev pub Commits : {A : Type 0} → (Db → Type 0) → Result (Ending A) × Db → Type 0
Commits P (ok (commit a), db) = P db
Commits P (ok (rollback a), db) = ⊥
Commits P (err e, db) = Unit

pub Commits-continue :
    {A B : Type 0} (P Q : Db → Type 0) (r : Result A × Db) (k : A → M (Ending B))
    → OnOk P r
    → ((a : A) (db : Db) → P db → Commits Q (k a db))
    → Commits Q (continue r k)
Commits-continue P Q (ok a, db) k p next = next a db p
Commits-continue P Q (err e, db) k p next = tt

pub Commits-conclude :
    {A : Type 0} (P : Db → Type 0) (before : Db) (r : Result (Ending A) × Db)
    → Commits P r
    → OnOk P (conclude before r)
Commits-conclude P before (ok (commit a), db) p = p
Commits-conclude P before (ok (rollback a), db) p = absurd p
Commits-conclude P before (err e, db) p = tt

module _ (json : AuthorsJson) (times : Times) (winner : String) where
  merge_block-shelf :
      (losers : List String) (context : Option AuditContext) (w : ℕ) (db : Db)
      → Commits
          (λ d. shelf d ≡ merged w winner losers (shelf db))
          (merge_block json times winner losers context (some w) db)
  unfolding merge_block
  merge_block-shelf losers context w db =
      let Goal : Db → Type 0 = λ d. shelf d ≡ merged w winner losers (shelf db) in
      Commits-continue Goal Goal (merge_losers json times winner w losers _ db) _
        (merge_losers-shelf json times winner w losers _ db)
        (λ acc d e.
          Commits-continue Goal Goal
            (record_event context AuditEventType.document_merged times.occurred_at _ acc.0 d) _
            (OnOk-all Goal
              (record_event context AuditEventType.document_merged times.occurred_at _ acc.0 d)
              (record_event-shelf context AuditEventType.document_merged times.occurred_at _ acc.0 d
                ∙ e))
            (λ _ d' e'. e'))

  report_merge-shelf :
      (context : Option AuditContext) (n : Option ℕ) (db : Db)
      → shelf (report_merge json times winner context n db).1 ≡ shelf db
  unfolding report_merge
  report_merge-shelf context none db = refl
  report_merge-shelf context (some n) db =
      end_audit-shelf context OperationStatus.completed times.completed_at none _ db

  merge_found-shelf :
      (losers : List String) (context : Option AuditContext) (w : ℕ) (db before : Db)
      → document_id_of winner db ≡ some w
      → shelf db ≡ shelf before
      → OnOk
          (λ d. shelf d ≡ merged w winner losers (shelf before))
          (conclude db (merge_block json times winner losers context (document_id_of winner db) db))
  merge_found-shelf losers context w db before found same = rw found (
      Commits-conclude (λ d. shelf d ≡ merged w winner losers (shelf before)) db
        (merge_block json times winner losers context (some w) db)
        (subst
          (λ x.
            Commits (λ d. shelf d ≡ merged w winner losers x)
              (merge_block json times winner losers context (some w) db))
          same (merge_block-shelf losers context w db)))

  merge_documents-shelf :
      (losers : List String) (context : Option AuditContext) (w : ℕ) (db : Db)
      → document_id_of winner db ≡ some w
      → OnOk
          (λ d. shelf d ≡ merged w winner losers (shelf db))
          (merge_documents_impl json times winner losers context db)
  unfolding merge_documents_impl
  merge_documents-shelf losers context w db found =
      let Same : Db → Type 0 = λ d. shelf d ≡ shelf db in
      let Goal : Db → Type 0 = λ d. shelf d ≡ merged w winner losers (shelf db) in
      let begun = begin_audit context OperationType.document_merge times.started_at db in
      OnOk-continue Same Goal begun _
        (OnOk-all Same begun
          (begin_audit-shelf context OperationType.document_merge times.started_at db))
        (λ _ d e.
          OnOk-continue Goal Goal
            (conclude d (merge_block json times winner losers context (document_id_of winner d) d))
            _
            (merge_found-shelf losers context w d db
              (ap (λ (s : Shelf). id_of winner s.0) e ∙ found) e)
            (λ n d' e'.
              OnOk-all Goal (report_merge json times winner context n d')
                (report_merge-shelf context n d' ∙ e')))

  -- Where the winner is a document and ids and guids are unique, a merge that succeeds, audited or
  -- not, hands every content of a loser to the winner and leaves every other content, and every
  -- content without a document, where it was; a loser that is the winner or is unknown counts for
  -- nothing.
  pub merge_documents_impl-owner :
      (losers : List String) (context : Option AuditContext) (w : ℕ) (db : Db) (fp : String)
      → IsReady w winner (shelf db)
      → (merge_documents_impl json times winner losers context db).0 ≡ ok tt
      → owner fp (shelf (merge_documents_impl json times winner losers context db).1)
        ≡ redirect winner losers (owner fp (shelf db))
  merge_documents_impl-owner losers context w db fp ready done =
      ap (owner fp) (
        OnOk-ok (λ d. shelf d ≡ merged w winner losers (shelf db))
          (merge_documents_impl json times winner losers context db) done
          (merge_documents-shelf losers context w db ready.1))
      ∙ owner-merged w winner losers fp (shelf db) ready
