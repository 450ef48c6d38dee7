-- ===== src/Db/Removal/Unfinished.antt =====
-- core/src/db/dao/documents.rs: what a refused removal under an audit context leaves in the history.
use read_flow.Prelude.{ℕ, String, false, none, some, [], ◌≡◌, ◌⊎◌, inl, inr}
use read_flow.Audit.{AuditContext, OperationType, OperationStatus, object}
use read_flow.Db.Result.{ok}
use read_flow.Db.Tables.{Db}
use read_flow.Db.Documents.{Times, document_id_of, end_audit}
use read_flow.Db.Removal.{
  RemoveFile, belongs_to, find_block, report_removal, delete_content_from_document,
}
use read_flow.Db.Audit.Closing.{with_operation, has_operation, create-fresh, finish-fresh}
use read_flow.Db.Documents.Unfinished.{dropped}

-- The document is unknown, or the content is not one of its contents.
abbrev pub IsRefused : String → String → Db → Type 0
IsRefused guid fingerprint db =
    (document_id_of guid db ≡ none)
    ⊎ ((id : ℕ) × ((document_id_of guid db ≡ some id) × (belongs_to fingerprint id db ≡ false)))

module _ (remove_file : String → RemoveFile) (c : AuditContext) (times : Times)
    (guid fingerprint : String) (db : Db) where
  abbrev created : Db
  created = with_operation c OperationType.document_content_removed times.started_at db

  abandoned :
      (code : String)
      → has_operation c.operation_id db.operations ≡ false
      → (end_audit
          (some c)
          OperationStatus.failed
          times.completed_at
          (some code)
          (object [])
          created).0
        ≡ ok tt
  abandoned code fresh =
      finish-fresh c OperationType.document_content_removed times.started_at db
        OperationStatus.failed times.completed_at (some code) (object []) fresh

  -- A removal under a fresh audit context that finds no document, or no such content in it, answers
  -- `none` and leaves exactly one new row, its operation, which is still `started`: the failure is
  -- written in the transaction that the early return drops.
  pub delete_content_from_document-unfinished :
      IsRefused guid fingerprint db
      → has_operation c.operation_id db.operations ≡ false
      → delete_content_from_document remove_file (some c) times guid fingerprint db
        ≡ (ok none, with_operation c OperationType.document_content_removed times.started_at db)
  unfolding delete_content_from_document find_block report_removal
  delete_content_from_document-unfinished (inl unknown) fresh =
      rw (create-fresh c OperationType.document_content_removed times.started_at db fresh, unknown)
        (dropped none created _ (report_removal remove_file (some c) times)
          (abandoned "document_not_found" fresh))
  delete_content_from_document-unfinished (inr (id, (known, apart))) fresh =
      rw
        (
          create-fresh c OperationType.document_content_removed times.started_at db fresh,
          known,
          apart,
        )
        (dropped none created _ (report_removal remove_file (some c) times)
          (abandoned "fingerprint_not_in_document" fresh))
