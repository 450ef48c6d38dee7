-- ===== src/Db/Linking/Links.antt =====
-- What the pass of covers.rs and documents.rs after a scan does to the document of one content.

use read_flow.Db.Linking.{FileForLinking, link_content}
use read_flow.Db.Documents.{link}
use read_flow.Db.Tables.{Db, Content}
use read_flow.Db.Monad.{M, for_each}
use read_flow.Prelude.{
  ℕ, String, Bool, false, Option, none, some, List, [], ◌∷◌, find, update, find-update, find_sound,
  eqb, eqb_refl, eqb→eq, if◌then◌else◌, All, All-map, Bool-cases, Option-cases, inl, inr, ◌≡◌, refl,
  ◌∙◌, arith,
}

-- The document of the content of a fingerprint, where there is such a content.
abbrev pub held : Option Content → Option (Option ℕ)
held none = none
held (some c) = some c.document_id

abbrev pub holding : String → List Content → Option (Option ℕ)
holding fp cs = held (find (λ c. eqb c.fingerprint fp) cs)

abbrev rehold : ℕ → Option (Option ℕ) → Option (Option ℕ)
rehold id none = none
rehold id (some o) = some (some id)

-- The row of a file is what the contents table says.
abbrev pub IsRead : List Content → FileForLinking → Type 0
IsRead cs f = holding f.fingerprint cs ≡ some f.document_id

-- The fingerprint of no file of the group.
abbrev pub IsForeign : List FileForLinking → String → Type 0
IsForeign files fp = All (λ f. eqb fp f.fingerprint ≡ false) files

abbrev pub BelongsTo : ℕ → List Content → FileForLinking → Type 0
BelongsTo id cs f = holding f.fingerprint cs ≡ some (some id)

abbrev IsKnown : List Content → FileForLinking → Type 0
IsKnown cs f = (i : Option ℕ) × (holding f.fingerprint cs ≡ some i)

abbrev relinked : String → ℕ → List Content → List Content
relinked fp id cs = update (λ c. eqb c.fingerprint fp) (link id) cs

holding-relinked :
    (fp x : String) (id : ℕ) (cs : List Content)
    → holding fp (relinked x id cs)
      ≡ (if eqb fp x then rehold id (holding fp cs) else holding fp cs)
holding-relinked fp x id cs =
    let at : Content → Bool = λ c. eqb c.fingerprint fp in
    rw (find-update (λ c. eqb c.fingerprint x) at (link id) cs (λ c. refl))
      (elim (Option-cases (find at cs)) [
        | inl q ↦ rw q (ground arith)
        | inr (c, q) ↦ rw (q, eqb→eq c.fingerprint fp (find_sound at cs c q)) (ground arith)
      ])

IsKnown-relinked :
    (x : String) (id : ℕ) (cs : List Content) (f : FileForLinking)
    → IsKnown cs f
    → IsKnown (relinked x id cs) f
IsKnown-relinked x id cs f (i, h) = elim (Bool-cases (eqb f.fingerprint x)) [
  | inl e ↦ (some id, rw (holding-relinked, e, h) refl)
  | inr e ↦ (i, rw (holding-relinked, e) h)
]

BelongsTo-relinked :
    (x : String) (id : ℕ) (cs : List Content) (f : FileForLinking)
    → BelongsTo id cs f
    → BelongsTo id (relinked x id cs) f
BelongsTo-relinked x id cs f h = elim (Bool-cases (eqb f.fingerprint x)) [
  | inl e ↦ rw (holding-relinked, e, h) refl
  | inr e ↦ rw (holding-relinked, e) h
]

abbrev links : List FileForLinking → ℕ → M (Unit {0})
links files id = for_each files (λ f. link_content f.fingerprint id)

pub links-IsForeign :
    (files : List FileForLinking) (id : ℕ) (fp : String) (db : Db)
    → IsForeign files fp
    → holding fp (links files id db).1.contents ≡ holding fp db.contents
unfolding for_each
links-IsForeign [] id fp db h = refl
links-IsForeign (f ∷ fs) id fp db h =
    links-IsForeign fs id fp (link_content f.fingerprint id db).1 h.1
    ∙ holding-relinked fp f.fingerprint id db.contents
    ∙ rw h.0 refl

links-BelongsTo :
    (files : List FileForLinking) (id : ℕ) (g : FileForLinking) (db : Db)
    → BelongsTo id db.contents g
    → BelongsTo id (links files id db).1.contents g
unfolding for_each
links-BelongsTo [] id g db h = h
links-BelongsTo (f ∷ fs) id g db h =
    links-BelongsTo fs id g (link_content f.fingerprint id db).1
      (BelongsTo-relinked f.fingerprint id db.contents g h)

links-known :
    (files : List FileForLinking) (id : ℕ) (db : Db)
    → All (IsKnown db.contents) files
    → All (BelongsTo id (links files id db).1.contents) files
unfolding for_each
links-known [] id db h = tt
links-known (f ∷ fs) id db ((i, e), h) =
    let next : Db = (link_content f.fingerprint id db).1 in
    (
      links-BelongsTo fs id f next (
          holding-relinked f.fingerprint f.fingerprint id db.contents
          ∙ rw (eqb_refl f.fingerprint, e) refl),
      links-known fs id next (
          All-map (IsKnown db.contents) (IsKnown next.contents) fs
            (λ g k. IsKnown-relinked f.fingerprint id db.contents g k) h),
    )

pub links-IsRead :
    (files : List FileForLinking) (id : ℕ) (db : Db)
    → All (IsRead db.contents) files
    → All (BelongsTo id (links files id db).1.contents) files
links-IsRead files id db h =
    links-known files id db
      (All-map (IsRead db.contents) (IsKnown db.contents) files (λ f e. (f.document_id, e)) h)
