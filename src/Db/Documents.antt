-- ===== src/Db/Documents.antt =====
-- core/src/db/dao/documents.rs: documents, their link to contents, merging and removal.
pub mod Keys
pub mod Owner
pub mod Kept
pub mod Merging
pub mod Success
pub mod Unfinished
use read_flow.Prelude.{
  ℕ, suc, ◌+◌, ◌==◌, String, Bool, true, false, not, ◌&&◌, Option, none, some, List, [], ◌∷◌, ◌++◌,
  retain, find, update, eqb, if◌then◌else◌,
}
use mathlib.Core.Option
use read_flow.Audit.{
  OperationType, document_merge, OperationStatus, completed, AuditContext, AuditOutcome,
  document_merged, AuditEventType, Json, object, number, text,
}
use read_flow.Db.Result.{ok}
use read_flow.Db.Tables.{Db, Document, Content, DocumentUserMetadata, AuditTargetSnapshot}
use read_flow.Db.Monad.{M, ◌>>=◌, ◌>>◌, pure, query, execute, Ending, commit, rollback, transaction}
use read_flow.Db.Audit.{
  create_audit_operation, append_audit_event, finish_audit_operation_on_connection, document_target,
}
use read_flow.Db.Metadata.{AuthorsJson, merge_document_metadata_from_document}

abbrev pub document_id_of : String → Db → Option ℕ
document_id_of guid db =
    Option.map (λ (d : Document). d.id) (find (λ (d : Document). eqb d.guid guid) db.documents)

-- `INSERT OR IGNORE`, then the row under the guid.
unfoldable pub upsert_document : String → M Document
upsert_document guid db = elim (find (λ (d : Document). eqb d.guid guid) db.documents) [
  | some d ↦ (ok d, db)
  | none ↦
      let d : Document = record { id = db.next_document; guid = guid } in
      (ok d, record db { documents = db.documents ++ d ∷ []; next_document = suc db.next_document })
]

abbrev pub link : ℕ → Content → Content
link id c = record c { document_id = some id }

abbrev pub linked_to : ℕ → Content → Bool
linked_to id c = elim c.document_id [ none ↦ false | some i ↦ i == id ]

abbrev pub is_unlinked : Content → Bool
is_unlinked c = elim c.document_id [ none ↦ true | some _ ↦ false ]

unfoldable pub set_content_document : String → ℕ → M (Unit {0})
set_content_document fingerprint id = execute λ db. record db {
  contents = update (λ c. eqb c.fingerprint fingerprint && is_unlinked c) (link id) db.contents;
}

-- `UPDATE contents SET document_id = winner WHERE document_id = loser`.
abbrev pub reassign_contents : ℕ → ℕ → Db → Db
reassign_contents winner loser db = record db {
  contents = update (linked_to loser) (link winner) db.contents;
}

abbrev pub unlink : Content → Content
unlink c = record c { document_id = none }

-- `DELETE FROM documents`, with its foreign keys' actions.
abbrev pub delete_document : ℕ → Db → Db
delete_document id db = record db {
  documents = retain (λ d. not (d.id == id)) db.documents;
  contents = update (linked_to id) unlink db.contents;
  metadata = retain (λ m. not (m.document_id == id)) db.metadata;
}

-- The title of a metadata row that has one.
unfoldable pub document_title_snapshot : ℕ → Db → Option String
document_title_snapshot document_id db =
    Option.bind
      (find
        (λ (m : DocumentUserMetadata).
          m.document_id == document_id && elim m.title [ none ↦ false | some _ ↦ true ])
        db.metadata)
      (λ m. m.title)

-- The texts of the clock at the steps of an operation.
pub record Times : Type 0 where
  pub started_at : String
  pub occurred_at : String
  pub completed_at : String
  pub updated_at : String

abbrev pub begin_audit : Option AuditContext → OperationType → String → M (Unit {0})
begin_audit none operation_type at = pure tt
begin_audit (some c) operation_type at = create_audit_operation c operation_type false at

abbrev pub end_audit :
    Option AuditContext → OperationStatus → String → Option String → Json → M (Unit {0})
end_audit none status at code counts = pure tt
end_audit (some c) status at code counts =
    finish_audit_operation_on_connection c.operation_id status at code counts

abbrev pub record_event :
    Option AuditContext → AuditEventType → String → Json → List AuditTargetSnapshot → M (Unit {0})
record_event none event_type at parameters targets = pure tt
record_event (some c) event_type at parameters targets = do
  _ ← append_audit_event c.operation_id event_type AuditOutcome.success at parameters targets
  pure tt

module _ (json : AuthorsJson) (times : Times) (winner_guid : String) where
  -- The body of the loop for a loser that exists.
  unfoldable pub absorb :
      ℕ → String → ℕ → List AuditTargetSnapshot × ℕ → M (List AuditTargetSnapshot × ℕ)
  absorb winner_id loser_guid loser_id (targets, merged) = do
    title ← query (document_title_snapshot loser_id)
    merge_document_metadata_from_document json times.updated_at winner_id loser_id
    execute (reassign_contents winner_id loser_id)
    execute (delete_document loser_id)
    pure (targets ++ document_target loser_guid (Option.get_or title "") ∷ [], merged + 1)

  unfoldable pub merge_found :
      ℕ → String → List AuditTargetSnapshot × ℕ → Option ℕ → M (List AuditTargetSnapshot × ℕ)
  merge_found winner_id loser_guid acc none = pure acc
  merge_found winner_id loser_guid acc (some loser_id) = absorb winner_id loser_guid loser_id acc

  unfoldable pub merge_loser :
      ℕ → String → List AuditTargetSnapshot × ℕ → M (List AuditTargetSnapshot × ℕ)
  merge_loser winner_id loser_guid acc = if eqb loser_guid winner_guid then pure acc else (do
    found ← query (document_id_of loser_guid)
    merge_found winner_id loser_guid acc found)

  unfoldable pub merge_losers :
      ℕ → List String → List AuditTargetSnapshot × ℕ → M (List AuditTargetSnapshot × ℕ)
  merge_losers winner_id [] acc = pure acc
  merge_losers winner_id (g ∷ losers) acc = do
    acc' ← merge_loser winner_id g acc
    merge_losers winner_id losers acc'

  -- The block of the transaction: `none` is the return for a winner that does not exist.
  unfoldable pub merge_block : List String → Option AuditContext → Option ℕ → M (Ending (Option ℕ))
  merge_block losers context none = do
    end_audit context OperationStatus.failed times.completed_at (some "winner_not_found")
        (object [])
    pure (rollback none)
  merge_block losers context (some winner_id) = do
    title ← query (document_title_snapshot winner_id)
    (targets, merged) ←
        merge_losers winner_id losers (document_target winner_guid (Option.get_or title "") ∷ [], 0)
    record_event context document_merged times.occurred_at
        (object (("winner_guid", text winner_guid) ∷ ("loser_count", number merged) ∷ [])) targets
    pure (commit (some merged))

  unfoldable pub report_merge : Option AuditContext → Option ℕ → M (Unit {0})
  report_merge context none = pure tt
  report_merge context (some merged) =
      end_audit context completed times.completed_at none (object (("merged", number merged) ∷ []))

  unfoldable pub merge_documents_impl : List String → Option AuditContext → M (Unit {0})
  merge_documents_impl losers context = do
    begin_audit context document_merge times.started_at
    merged ←
        transaction
          (do winner ← query (document_id_of winner_guid); merge_block losers context winner)
    report_merge context merged
