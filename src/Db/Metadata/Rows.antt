-- ===== src/Db/Metadata/Rows.antt =====
-- core/src/db/dao/documents.rs: the rows that a merge of two documents' metadata leaves.
use read_flow.Prelude.{
  ◌++◌, append_assoc, append-nil, eqb, sym, inl, ap, ==_iff, any, Bool-cases, Option, ℕ, ◌==◌,
  String, Bool, true, none, some, List, [], ◌∷◌, update, find, if◌then◌else◌, Option-cases, inr,
  ◌≡◌, refl, ◌∙◌, arith, find_sound,
}
use read_flow.Db.Monad.{continue}
use read_flow.Db.Result.{Result, ok}
use read_flow.Db.Tables.{Db, DocumentUserMetadata}
use mathlib.Core.Option
use read_flow.Db.Metadata.{
  parse_authors, authors_json, extend_authors, merge_document_metadata_from_extracted, merge_source,
  merge_document_metadata_from_document, err, lacks_cover, cover_known, propagate_cover,
  AuthorsJson, or_else, get_document_user_metadata, merge_into, merged_row, extracted_from,
}

-- An `UPDATE … WHERE` whose rows keep a tested column where they are written.
find-update_at :
    {A : Type 0} (p q : A → Bool) (f : A → A) (xs : List A)
    → ((x : A) → p x ≡ true → q (f x) ≡ q x)
    → find q (update p f xs)
      ≡ elim (find q xs) [ none ↦ none | some x ↦ some (if p x then f x else x) ]
find-update_at p q f [] keep = refl
find-update_at p q f (x ∷ xs) keep = ground (arith, keep x, find-update_at p q f xs keep)

abbrev pub first_of : {A : Type 0} → Option A → Option A → Option A
first_of (some a) b = some a
first_of none b = b

-- The list that a text of authors stands for, and the text of a list.
abbrev pub listed : AuthorsJson → Option String → List String
listed json none = []
listed json (some text) = elim (json.from_str text) [ none ↦ [] | some authors ↦ authors ]

abbrev pub as_text : AuthorsJson → List String → Option String
as_text json [] = none
as_text json (a ∷ authors) = json.to_string (a ∷ authors)

-- The authors of the second list that the first one lacks, each once.
abbrev pub missing : List String → List String → List String
missing known [] = []
missing known (a ∷ new) =
    let others = missing known new in
    if any (eqb a) known then others else a ∷ missing (known ++ a ∷ []) new

-- The row of the document that stays: its own fields and cover where it has them, the other's where
-- it has none, its authors and then those that only the other has.
abbrev pub merged_with :
    AuthorsJson → String → DocumentUserMetadata → DocumentUserMetadata → DocumentUserMetadata
merged_with json now winner loser = record {
  document_id = winner.document_id;
  document_type = winner.document_type;
  title = first_of winner.title loser.title;
  subtitle = first_of winner.subtitle loser.subtitle;
  authors = as_text json (
      listed json winner.authors
      ++ missing (listed json winner.authors) (listed json loser.authors));
  description = first_of winner.description loser.description;
  language = first_of winner.language loser.language;
  publisher = first_of winner.publisher loser.publisher;
  identifier = first_of winner.identifier loser.identifier;
  date = first_of winner.date loser.date;
  subject = first_of winner.subject loser.subject;
  updated_at = now;
  selected_cover_fingerprint =
      first_of winner.selected_cover_fingerprint loser.selected_cover_fingerprint;
}

or_else-first_of : {A : Type 0} (a b : Option A) → or_else a b ≡ first_of a b
or_else-first_of none b = refl
or_else-first_of (some a) b = refl

parse_authors-listed :
    (json : AuthorsJson) (text : Option String) → parse_authors json text ≡ listed json text
unfolding parse_authors Option.bind
parse_authors-listed json none = refl
parse_authors-listed json (some text) = elim (Option-cases (json.from_str text)) [
  | inl e ↦ rw (e, listed) refl
  | inr (authors, e) ↦ rw (e, listed) refl
]

authors_json-as_text :
    (json : AuthorsJson) (authors : List String) → authors_json json authors ≡ as_text json authors
unfolding authors_json
authors_json-as_text json [] = refl
authors_json-as_text json (a ∷ authors) = refl

extend_authors-missing :
    (known new : List String) → extend_authors known new ≡ known ++ missing known new
unfolding extend_authors
extend_authors-missing known [] = sym (append-nil known)
extend_authors-missing known (a ∷ new) = elim (Bool-cases (any (eqb a) known)) [
  | inl old ↦ rw old (extend_authors-missing known new)
  | inr other ↦ rw other (
      extend_authors-missing (known ++ a ∷ []) new
      ∙ append_assoc known (a ∷ []) (missing (known ++ a ∷ []) new))
]

merged_row-merged_with :
    (json : AuthorsJson) (now : String) (winner loser : DocumentUserMetadata)
    → record (merged_row json now (extracted_from json loser) winner) {
      selected_cover_fingerprint =
          or_else winner.selected_cover_fingerprint loser.selected_cover_fingerprint;
    }
      ≡ merged_with json now winner loser
unfolding merged_row extracted_from
merged_row-merged_with json now winner loser =
    simp (or_else-first_of, parse_authors-listed, authors_json-as_text, extend_authors-missing)

-- What `find` by a document reads after the row of `w` became `f` of itself.
read-update :
    (w j : ℕ) (row : DocumentUserMetadata) (f : DocumentUserMetadata → DocumentUserMetadata)
    (p : DocumentUserMetadata → Bool) (rows : List DocumentUserMetadata)
    → find (λ m. m.document_id == w) rows ≡ some row
    → ((m : DocumentUserMetadata)
        → p m ≡ true
        → ((m.document_id == w) ≡ true) × (((f m).document_id == w) ≡ true))
    → find (λ m. m.document_id == j) (update p f rows) ≡ (
        if j == w then some (if p row then f row else row) else find (λ m. m.document_id == j) rows)
read-update w j row f p rows e only =
    find-update_at p (λ m. m.document_id == j) f rows (λ m t. ground (arith, only m t))
    ∙ elim (Option-cases (find (λ (m : DocumentUserMetadata). m.document_id == j) rows)) [
      | inl q ↦ rw q (ground arith)
      | inr (m, q) ↦ rw q (ground (arith, only m, find_sound (λ m. m.document_id == j) rows m q))
    ]

or_else-none : (o : Option String) → or_else o none ≡ o
or_else-none none = refl
or_else-none (some x) = refl

covered :
    (w : ℕ) (row : DocumentUserMetadata) (fp : String)
    → (row.document_id == w) ≡ true
    → (if lacks_cover w row then record row { selected_cover_fingerprint = some fp } else row)
      ≡ record row { selected_cover_fingerprint = or_else row.selected_cover_fingerprint (some fp) }
covered w row fp own = elim (Option-cases row.selected_cover_fingerprint) [
  | inl e ↦ rw (own, e) refl
  | inr (x, e) ↦ rw (own, e) refl
]

module _ (json : AuthorsJson) where
  merge_into-row :
      (now : String) (w j : ℕ) (winner loser : DocumentUserMetadata) (db : Db)
      → get_document_user_metadata w db ≡ some winner
      → let r = merge_into json now w (extracted_from json loser) (some winner) db in
        (r.0 ≡ ok tt)
        × (get_document_user_metadata j r.1 ≡ (
            if j == w
            then some (merged_row json now (extracted_from json loser) winner)
            else get_document_user_metadata j db))
  unfolding merge_into get_document_user_metadata merged_row
  merge_into-row now w j winner loser db e =
      let own = find_sound (λ m. m.document_id == w) db.metadata winner e in
      (
        refl,
        read-update w j winner (λ _. merged_row json now (extracted_from json loser) winner)
              (λ m. m.document_id == w) db.metadata e (λ m t. (t, own))
            ∙ rw own refl,
      )

  propagate_cover-row :
      (w j : ℕ) (winner : DocumentUserMetadata) (cover : Option String) (db : Db)
      → get_document_user_metadata w db ≡ some winner
      → cover_known cover db.contents ≡ true
      → let r = propagate_cover json w cover db in
        (r.0 ≡ ok tt)
        × (get_document_user_metadata j r.1 ≡ (
            if j == w
            then some (record winner {
              selected_cover_fingerprint = or_else winner.selected_cover_fingerprint cover;
            })
            else get_document_user_metadata j db))
  unfolding propagate_cover get_document_user_metadata
  propagate_cover-row w j winner none db e known = (
    refl,
    elim (Bool-cases (j == w)) [
      | inl t ↦ rw (t, (==_iff j w).0 t, or_else-none winner.selected_cover_fingerprint) e
      | inr t ↦ rw t refl
    ],
  )
  propagate_cover-row w j winner (some fp) db e known =
      elim (Bool-cases (any (lacks_cover w) db.metadata)) [
        | inl t ↦ rw (t, known, propagate_cover) (refl, written)
        | inr t ↦ rw (t, propagate_cover) (refl, written)
      ]
    where
      written :
          find
            (λ m. m.document_id == j)
            (update
              (lacks_cover w)
              (λ m. record m { selected_cover_fingerprint = some fp })
              db.metadata)
          ≡ (if j == w
              then some (record winner {
                selected_cover_fingerprint = or_else winner.selected_cover_fingerprint (some fp);
              })
              else find (λ m. m.document_id == j) db.metadata)
      written =
          read-update w j winner (λ m. record m { selected_cover_fingerprint = some fp })
            (lacks_cover w) db.metadata e (λ m t. ground arith)
          ∙ ap (λ row. if j == w then some row else find (λ m. m.document_id == j) db.metadata)
              (covered w winner fp (find_sound (λ m. m.document_id == w) db.metadata winner e))

  finish-row :
      (w j : ℕ) (row : DocumentUserMetadata) (before : Option DocumentUserMetadata)
      (r : Result (Unit {0}) × Db) (cover : Option String)
      → r.0 ≡ ok tt
      → get_document_user_metadata w r.1 ≡ some row
      → get_document_user_metadata j r.1 ≡ (if j == w then some row else before)
      → cover_known cover r.1.contents ≡ true
      → let r' = continue r (λ _. propagate_cover json w cover) in
        (r'.0 ≡ ok tt)
        × (get_document_user_metadata j r'.1 ≡ (
            if j == w
            then some (record row {
              selected_cover_fingerprint = or_else row.selected_cover_fingerprint cover;
            })
            else before))
  finish-row w j row before (ok u, d) cover done own at known =
      let p = propagate_cover-row w j row cover d own known in
      (p.0, p.1 ∙ elim (Bool-cases (j == w)) [ inl t ↦ rw t refl | inr t ↦ rw t (ground arith) ])
  finish-row w j row before (err e, d) cover done own at known = cc

  merge_into-known :
      (now : String) (w : ℕ) (winner loser : DocumentUserMetadata) (db : Db)
      → cover_known loser.selected_cover_fingerprint db.contents ≡ true
      → cover_known loser.selected_cover_fingerprint
          (merge_into json now w (extracted_from json loser) (some winner) db).1.contents
        ≡ true
  unfolding merge_into
  merge_into-known now w winner loser db known = known

  -- A merge of two documents that have metadata succeeds where the other's cover is a known content.
  -- The row of the document that stays gets the new time stamp, keeps its document type and every
  -- other field it has, its cover among them, takes the other's where it has none, and lists its
  -- authors and then those that only the other lists; every other row reads as before.
  pub merge_document_metadata-rows :
      (now : String) (w l j : ℕ) (winner loser : DocumentUserMetadata) (db : Db)
      → get_document_user_metadata w db ≡ some winner
      → get_document_user_metadata l db ≡ some loser
      → cover_known loser.selected_cover_fingerprint db.contents ≡ true
      → let r = merge_document_metadata_from_document json now w l db in
        (r.0 ≡ ok tt)
        × (get_document_user_metadata j r.1 ≡ (
            if j == w
            then some (merged_with json now winner loser)
            else get_document_user_metadata j db))
  unfolding merge_document_metadata_from_document merge_source
      merge_document_metadata_from_extracted merged_row
  merge_document_metadata-rows now w l j winner loser db ew el known =
      let row = merged_row json now (extracted_from json loser) winner in
      let own = merge_into-row now w w winner loser db ew in
      let other = merge_into-row now w j winner loser db ew in
      let same : (if w == w then some row else get_document_user_metadata w db) ≡ some row =
        ground arith in
      rw (el, ew, ← merged_row-merged_with json now winner loser)
        (finish-row w j row (get_document_user_metadata j db)
          (merge_into json now w (extracted_from json loser) (some winner) db)
          loser.selected_cover_fingerprint own.0 (own.1 ∙ same) other.1
          (merge_into-known now w winner loser db known))
