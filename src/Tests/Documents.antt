-- ===== src/Tests/Documents.antt =====
-- The theorems on documents at the small store.
use mathlib.Core.Option
use read_flow.Prelude.{
  String, true, none, some, List, [], ◌∷◌, ◌++◌, any, eqb, str_dec, ◌||◌, ◌≡◌, refl, inr,
}
use read_flow.Audit.{OperationType, is_object}
use read_flow.Db.Result.{Result, ok}
use read_flow.Db.Tables.{Db}
use read_flow.Db.Monad.{for_each}
use read_flow.Db.Audit.{
  document_target, create_audit_operation, new_operation, append_audit_event, insert_event,
  insert_target, max_sequence, finish_audit_operation_on_connection,
}
use read_flow.Db.Metadata.{
  merge_document_metadata_from_document, merge_source, merge_document_metadata_from_extracted,
  merge_into, merged_row, extracted_row, extracted_from, propagate_cover, parse_authors,
  authors_json, extend_authors, get_document_user_metadata,
}
use read_flow.Db.Metadata.Authors.{merged_row-authors}
use read_flow.Db.Metadata.Rows.{merged_with, merge_document_metadata-rows}
use read_flow.Db.Documents.{
  merge_documents_impl, merge_block, merge_losers, merge_loser, merge_found, absorb, report_merge,
  document_title_snapshot,
}
use read_flow.Db.Documents.Owner.{owner, IsReady}
use read_flow.Db.Documents.Kept.{shelf}
use read_flow.Db.Documents.Merging.{merge_documents_impl-owner}
use read_flow.Db.Documents.Success.{CoversKnown, merge_documents-ok}
use read_flow.Db.Documents.Unfinished.{merge_documents_impl-unfinished}
use read_flow.Db.Removal.{
  RemoveFile, delete_content_from_document, find_block, remove_block, remove_files, delete_content,
  report_removal,
}
use read_flow.Db.Removal.Unfinished.{delete_content_from_document-unfinished}
use read_flow.Db.Audit.Closing.{with_operation}
use read_flow.Tests.Store.{json, times, context, store, winner_row, loser_row}

-- The definitions that a run computes with.
program : Unit {0}
unfolding str_dec Option.bind for_each merge_documents_impl merge_block merge_losers merge_loser
    merge_found absorb report_merge document_title_snapshot merge_document_metadata_from_document
    merge_source merge_document_metadata_from_extracted merge_into merged_row extracted_row
    extracted_from propagate_cover parse_authors authors_json extend_authors
    get_document_user_metadata document_target create_audit_operation new_operation
    append_audit_event insert_event insert_target max_sequence is_object
    finish_audit_operation_on_connection delete_content_from_document find_block remove_block
    remove_files delete_content report_removal
program = tt

abbrev merged_store : Result (Unit {0}) × Db
merged_store = merge_documents_impl json times "g1" ("g2" ∷ "g9" ∷ []) (some context) store

ready : IsReady 1 "g1" (store.documents, store.contents)
unfolding program
ready = ((((refl, refl), tt), (tt, tt)), refl)

merges : merged_store.0 ≡ ok tt
unfolding program
merges = refl

merge_documents_impl-owner_example : owner "b" (shelf merged_store.1) ≡ some "g1"
unfolding program
merge_documents_impl-owner_example =
    merge_documents_impl-owner json times "g1" ("g2" ∷ "g9" ∷ []) (some context) 1 store "b" ready
      merges

covers : CoversKnown store
unfolding program
covers = (refl, (refl, tt))

merge_documents-ok_example :
    (merge_documents_impl json times "g1" ("g2" ∷ "g9" ∷ []) none store).0 ≡ ok tt
merge_documents-ok_example =
    merge_documents-ok json times "g1" 1 ("g2" ∷ "g9" ∷ []) store ready covers

merged_metadata :
    get_document_user_metadata 1 merged_store.1
    ≡ some (record winner_row {
      authors = some "[Shelley,Austen]";
      updated_at = "t4";
      selected_cover_fingerprint = some "b";
    })
unfolding program
merged_metadata = refl

merge_document_metadata-rows_example :
    let r = merge_document_metadata_from_document json "t4" 1 2 store in
    (r.0 ≡ ok tt)
    × (get_document_user_metadata 1 r.1 ≡ some (merged_with json "t4" winner_row loser_row))
unfolding program
merge_document_metadata-rows_example =
    merge_document_metadata-rows json "t4" 1 2 1 winner_row loser_row store refl refl refl

merged_row-authors_example :
    let after =
      parse_authors json
        (merged_row json "t4" (extracted_from json loser_row) winner_row).authors in
    ((more : List String) × (after ≡ ("Shelley" ∷ []) ++ more))
    × ((a : String)
        → any (eqb a) after ≡ (any (eqb a) ("Shelley" ∷ []) || any (eqb a) ("Austen" ∷ [])))
unfolding program
merged_row-authors_example = merged_row-authors json "t4" winner_row loser_row refl

merge_documents_impl-unfinished_example :
    merge_documents_impl json times "g9" ("g2" ∷ []) (some context) store
    ≡ (ok tt, with_operation context OperationType.document_merge "t1" store)
unfolding program
merge_documents_impl-unfinished_example =
    merge_documents_impl-unfinished json times "g9" ("g2" ∷ []) context store refl refl

delete_content_from_document-unfinished_example :
    delete_content_from_document (λ _. RemoveFile.removed) (some context) times "g1" "b" store
    ≡ (ok none, with_operation context OperationType.document_content_removed "t1" store)
unfolding program
delete_content_from_document-unfinished_example =
    delete_content_from_document-unfinished (λ _. RemoveFile.removed) context times "g1" "b" store
      (inr (1, (refl, refl))) refl

-- The last content of a document goes with it.
removed_last :
    (delete_content_from_document (λ _. RemoveFile.removed) (some context) times "g1" "a" store).0
    ≡ ok (some (record { deleted_paths = []; document_deleted = true }))
unfolding program
removed_last = refl
