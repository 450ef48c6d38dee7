-- ===== src/Db/Removal/Rows.antt =====
-- What the statements of a removal leave of the rows of a content.
use read_flow.Prelude.{
  All, ℕ, ◌==◌, String, Bool, true, false, not, ◌&&◌, none, some, List, [], ◌∷◌, any, retain,
  update, eqb, if◌then◌else◌, Bool-cases, Option-cases, inl, inr, ◌≡◌, refl, arith,
}
use read_flow.Db.Tables.{Document, Content, FileRow}
use read_flow.Db.Contents.{has_content}
use read_flow.Db.Documents.{linked_to, unlink}
use read_flow.Db.Documents.Keys.{
  AreKeyed, AreKeyed-without, id_of, without, guid_of-without, guid_of-id_of, id_of-guid_of,
}

abbrev pub files_without : List FileRow → List FileRow → List FileRow
files_without [] files = files
files_without (f ∷ fs) files = files_without fs (retain (λ g. not (g.id == f.id)) files)

abbrev pub holds : String → FileRow → Bool
holds fingerprint f = eqb f.fingerprint fingerprint

-- Every row that holds the content has its id among those to remove.
abbrev Doomed : String → List FileRow → List FileRow → Type 0
Doomed fingerprint fs files =
    All (λ f. (holds fingerprint f && not (any (λ (g : FileRow). f.id == g.id) fs)) ≡ false) files

Doomed-cons :
    (fingerprint : String) (f : FileRow) (fs files : List FileRow)
    → Doomed fingerprint fs files
    → Doomed fingerprint (f ∷ fs) files
Doomed-cons fingerprint f fs [] h = tt
Doomed-cons fingerprint f fs (g ∷ files) h =
    (ground (arith, h.0), Doomed-cons fingerprint f fs files h.1)

Doomed-head :
    (fingerprint : String) (f : FileRow) (fs files : List FileRow) (b : Bool)
    → holds fingerprint f ≡ b
    → Doomed fingerprint fs files
    → Doomed fingerprint (if b then f ∷ fs else fs) (f ∷ files)
Doomed-head fingerprint f fs files true e h = (ground arith, Doomed-cons fingerprint f fs files h)
Doomed-head fingerprint f fs files false e h = (ground arith, h)

pub Doomed-retain :
    (fingerprint : String) (files : List FileRow)
    → Doomed fingerprint (retain (holds fingerprint) files) files
Doomed-retain fingerprint [] = tt
Doomed-retain fingerprint (f ∷ files) =
    Doomed-head fingerprint f (retain (holds fingerprint) files) files (holds fingerprint f) refl
      (Doomed-retain fingerprint files)

Doomed-step :
    (fingerprint : String) (f : FileRow) (fs files : List FileRow)
    → Doomed fingerprint (f ∷ fs) files
    → Doomed fingerprint fs (retain (λ g. not (g.id == f.id)) files)
Doomed-step fingerprint f fs [] h = tt
Doomed-step fingerprint f fs (g ∷ files) h = elim (Bool-cases (g.id == f.id)) [
  | inl t ↦ rw t (Doomed-step fingerprint f fs files h.1)
  | inr t ↦ rw t (ground (arith, h.0), Doomed-step fingerprint f fs files h.1)
]

Doomed-nil :
    (fingerprint : String) (files : List FileRow)
    → Doomed fingerprint [] files
    → any (holds fingerprint) files ≡ false
Doomed-nil fingerprint [] h = refl
Doomed-nil fingerprint (f ∷ files) h = ground (arith, h.0, Doomed-nil fingerprint files h.1)

pub Doomed-files_without :
    (fingerprint : String) (fs files : List FileRow)
    → Doomed fingerprint fs files
    → any (holds fingerprint) (files_without fs files) ≡ false
Doomed-files_without fingerprint [] files h = Doomed-nil fingerprint files h
Doomed-files_without fingerprint (f ∷ fs) files h =
    Doomed-files_without fingerprint fs (retain (λ g. not (g.id == f.id)) files)
      (Doomed-step fingerprint f fs files h)

pub forgotten-has_content :
    (fingerprint : String) (cs : List Content)
    → has_content fingerprint (retain (λ c. not (eqb c.fingerprint fingerprint)) cs) ≡ false
forgotten-has_content fingerprint [] = refl
forgotten-has_content fingerprint (c ∷ cs) = ground (arith, forgotten-has_content fingerprint cs)

pub unlinked-has_content :
    (fingerprint : String) (id : ℕ) (cs : List Content)
    → has_content fingerprint (update (linked_to id) unlink cs) ≡ has_content fingerprint cs
unlinked-has_content fingerprint id [] = refl
unlinked-has_content fingerprint id (c ∷ cs) =
    ground (arith, unlinked-has_content fingerprint id cs)

pub retain-retain :
    {A : Type 0} (p q : A → Bool) (xs : List A)
    → retain (λ x. p x && q x) xs ≡ retain p (retain q xs)
retain-retain p q [] = refl
retain-retain p q (x ∷ xs) = ground (arith, retain-retain p q xs)

pub id_of-without :
    (guid : String) (id : ℕ) (ds : List Document)
    → AreKeyed ds
    → id_of guid ds ≡ some id
    → id_of guid (without id ds) ≡ none
id_of-without guid id ds keyed known = elim (Option-cases (id_of guid (without id ds))) [
  | inl e ↦ e
  | inr (j, e) ↦
      let under = guid_of-id_of j guid (without id ds) (AreKeyed-without id ds keyed) e in
      let q = guid_of-without id j ds in ground (arith, id_of-guid_of j guid ds keyed)
]
