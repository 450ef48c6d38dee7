-- ===== src/Source/Files/Steps.antt =====
-- Blocks that commit, and the statements that leave all tags alone.
use read_flow.Db.Result.{err, ok, Result}
use read_flow.Db.Monad.{rollback, commit, conclude, continue, Ending, M, OnOk}
use read_flow.Db.Contents.{has_content, upsert_content}
use read_flow.Source.Files.{update_file_row}
use read_flow.Db.Tables.{FileRow, Db}
use read_flow.Source.{ApiFile}
use read_flow.Prelude.{◌==◌, ℕ, Bool-cases, ◌&&◌, eqb, ◌≡◌, not, any, String, refl, inl, inr}

-- What holds of the store where a block commits; it does not roll back.
abbrev pub OnCommit : {A : Type 0} → (Db → Type 0) → Result (Ending A) × Db → Type 0
OnCommit Q (ok (commit a), db) = Q db
OnCommit Q (ok (rollback a), db) = ⊥
OnCommit Q (err e, db) = Unit

pub OnCommit-continue :
    {A B : Type 0} (P Q : Db → Type 0) (r : Result A × Db) (k : A → M (Ending B))
    → OnOk P r
    → ((a : A) (db : Db) → P db → OnCommit Q (k a db))
    → OnCommit Q (continue r k)
OnCommit-continue P Q (ok a, db) k p next = next a db p
OnCommit-continue P Q (err e, db) k p next = tt

pub OnCommit-conclude :
    (Q : Db → Type 0) (before : Db) (r : Result (Ending (Unit {0})) × Db)
    → OnCommit Q r
    → (conclude before r).0 ≡ ok tt
    → Q (conclude before r).1
OnCommit-conclude Q before (ok (commit a), db) q done = q
OnCommit-conclude Q before (ok (rollback a), db) q done = absurd q
OnCommit-conclude Q before (err e, db) q done = cc done

unfoldable pub SameTags : Db → Db → Type 0
SameTags db d = d.content_tags ≡ db.content_tags

pub upsert_content-SameTags : (f : String) (db : Db) → OnOk (SameTags db) (upsert_content f db)
unfolding upsert_content SameTags
upsert_content-SameTags f db = elim (Bool-cases (has_content f db.contents)) [
  | inl known ↦ rw known refl
  | inr fresh ↦ rw fresh refl
]

pub update_file_row-SameTags :
    (id : ℕ) (file : ApiFile) (db : Db) → OnOk (SameTags db) (update_file_row id file db)
unfolding update_file_row SameTags
update_file_row-SameTags id file db =
    elim (Bool-cases (any (λ (f : FileRow). f.id == id) db.files)) [
      | inr missing ↦ rw missing refl
      | inl there ↦
          elim (Bool-cases
            (any (λ (f : FileRow). not (f.id == id) && eqb f.path file.path) db.files)) [
              | inl clash ↦ rw (there, clash) tt
              | inr free ↦ elim (Bool-cases (has_content file.fingerprint db.contents)) [
                | inl known ↦ rw (there, free, known) refl
                | inr unknown ↦ rw (there, free, unknown) tt
              ]
            ]
    ]
