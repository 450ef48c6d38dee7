-- ===== src/Db/Documents/Unfinished.antt =====
-- core/src/db/dao/documents.rs: what a merge under an audit context leaves in the history when its
-- winner is unknown.
use read_flow.Prelude.{String, false, [], none, some, List, ◌≡◌, refl}
use read_flow.Audit.{AuditContext, OperationType, OperationStatus, object}
use read_flow.Db.Result.{Result, ok, err}
use read_flow.Db.Tables.{Db}
use read_flow.Db.Monad.{M, continue, rollback, conclude}
use read_flow.Db.Metadata.{AuthorsJson}
use read_flow.Db.Documents.{
  Times, document_id_of, end_audit, merge_block, merge_documents_impl, report_merge,
}
use read_flow.Db.Audit.Closing.{with_operation, has_operation, create-fresh, finish-fresh}

-- A block that writes, succeeds and then drops its transaction writes nothing.
pub dropped :
    {A B : Type 0} (x : A) (before : Db) (r : Result (Unit {0}) × Db) (k : A → M B)
    → r.0 ≡ ok tt
    → continue (conclude before (continue r (λ _ db. (ok (rollback x), db)))) k ≡ k x before
dropped x before (ok u, db) k h = refl
dropped x before (err e, db) k h = cc

module _ (json : AuthorsJson) (times : Times) (winner : String) where
  -- A merge under a fresh audit context into a document that does not exist answers as if it had
  -- succeeded and leaves exactly one new row, its operation, which is still `started`: the failure
  -- `winner_not_found` is written in the transaction that the early return drops.
  pub merge_documents_impl-unfinished :
      (losers : List String) (c : AuditContext) (db : Db)
      → document_id_of winner db ≡ none
      → has_operation c.operation_id db.operations ≡ false
      → merge_documents_impl json times winner losers (some c) db
        ≡ (ok tt, with_operation c OperationType.document_merge times.started_at db)
  unfolding merge_documents_impl merge_block report_merge
  merge_documents_impl-unfinished losers c db unknown fresh =
      let created = with_operation c OperationType.document_merge times.started_at db in
      rw (create-fresh c OperationType.document_merge times.started_at db fresh, unknown)
        (dropped none created
          (end_audit (some c) OperationStatus.failed times.completed_at (some "winner_not_found")
            (object []) created)
          (report_merge json times winner (some c))
          (finish-fresh c OperationType.document_merge times.started_at db OperationStatus.failed
            times.completed_at (some "winner_not_found") (object []) fresh))
