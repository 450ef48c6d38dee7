-- ===== src/Db/Linking/Rows.antt =====
-- The files of the store, and the rows that the pass of documents.rs after a scan reads of them.

use read_flow.Db.Linking.{FileForLinking, files_for_linking}
use read_flow.Db.Linking.Links.{holding, held}
use read_flow.Db.Tables.{Content, FileRow}
use read_flow.Prelude.{
  ℕ, String, Option, none, some, List, [], ◌∷◌, find, eqb, All, Option-cases, inl, inr, ◌≡◌, refl,
}

-- The content of every file is in the table.
abbrev pub HasContent : List Content → FileRow → Type 0
HasContent cs f = (i : Option ℕ) × (holding f.fingerprint cs ≡ some i)

module _ (P : String → String → Type 0) (cs : List Content) where
  pub rows-All :
      (fs : List FileRow)
      → All (λ f. P f.path f.fingerprint) fs
      → All (λ (r : FileForLinking). P r.path r.fingerprint) (files_for_linking cs fs)
  rows-All [] h = tt
  rows-All (f ∷ fs) h =
      elim (Option-cases (find (λ (c : Content). eqb c.fingerprint f.fingerprint) cs)) [
        | inl q ↦ rw (q, files_for_linking) (rows-All fs h.1)
        | inr (c, q) ↦ rw (q, files_for_linking) (h.0, rows-All fs h.1)
      ]

  pub files-All :
      (fs : List FileRow)
      → All (HasContent cs) fs
      → All (λ (r : FileForLinking). P r.path r.fingerprint) (files_for_linking cs fs)
      → All (λ f. P f.path f.fingerprint) fs
  files-All [] known h = tt
  files-All (f ∷ fs) ((i, k), known) h =
      with_content (find (λ c. eqb c.fingerprint f.fingerprint) cs) refl k h (files-All fs known)
    where
      Rest : Type 0
      Rest = All (λ g. P g.path g.fingerprint) fs

      with_content :
          (o : Option Content)
          → find (λ c. eqb c.fingerprint f.fingerprint) cs ≡ o
          → held o ≡ some i
          → All
              (λ (r : FileForLinking). P r.path r.fingerprint)
              (elim o [
                | none ↦ files_for_linking cs fs
                | some c ↦
                    record {
                      path = f.path;
                      fingerprint = f.fingerprint;
                      document_id = c.document_id;
                    }
                    ∷ files_for_linking cs fs
              ])
          → (All (λ (r : FileForLinking). P r.path r.fingerprint) (files_for_linking cs fs) → Rest)
          → P f.path f.fingerprint × Rest
      with_content none q e k rest = cc
      with_content (some c) q e k rest = (k.0, rest k.1)
