-- ===== src/Db/Metadata/Authors.antt =====
-- core/src/db/dao/documents.rs: the authors of a merged row.
use read_flow.Prelude.{
  String, true, ◌||◌, some, List, [], ◌∷◌, ◌++◌, append_assoc, append-nil, any, any-append, eqb,
  eqb→eq, Bool-cases, inl, inr, ◌≡◌, refl, sym, ◌∙◌, arith,
}
use mathlib.Core.Option
use read_flow.Db.Tables.{DocumentUserMetadata}
use read_flow.Db.Metadata.{
  AuthorsJson, authors_json, parse_authors, extend_authors, merged_row, extracted_from,
}

-- What serde_json documents of a list of texts: it is read back from its own text.
abbrev pub ReadsBack : AuthorsJson → List String → Type 0
ReadsBack json authors = Option.bind (json.to_string authors) json.from_str ≡ some authors

parse_authors-authors_json :
    (json : AuthorsJson) (authors : List String)
    → ReadsBack json authors
    → parse_authors json (authors_json json authors) ≡ authors
unfolding parse_authors authors_json Option.bind
parse_authors-authors_json json [] back = refl
parse_authors-authors_json json (a ∷ authors) back = rw back refl

listed_same :
    (a b : String) (known : List String)
    → eqb a b ≡ true
    → any (eqb b) known ≡ true
    → any (eqb a) known ≡ true
listed_same a b known e h = rw (eqb→eq a b e) h

listed-extend :
    (a : String) (known new : List String)
    → any (eqb a) (extend_authors known new) ≡ (any (eqb a) known || any (eqb a) new)
unfolding extend_authors
listed-extend a known [] = ground arith
listed-extend a known (b ∷ new) = elim (Bool-cases (any (eqb b) known)) [
  | inl old ↦ rw old (ground (arith, listed-extend a known new, listed_same a b known))
  | inr fresh ↦
      rw fresh
        (ground (arith, listed-extend a (known ++ b ∷ []) new, any-append (eqb a) known (b ∷ [])))
]

-- The list that is known stays, in its order, at the front.
extend-prefix :
    (known new : List String) → (more : List String) × (extend_authors known new ≡ known ++ more)
unfolding extend_authors
extend-prefix known [] = ([], sym (append-nil known))
extend-prefix known (b ∷ new) = elim (Bool-cases (any (eqb b) known)) [
  | inl old ↦ rw old (extend-prefix known new)
  | inr fresh ↦
      let rest = extend-prefix (known ++ b ∷ []) new in
      rw fresh (b ∷ rest.0, rest.1 ∙ append_assoc known (b ∷ []) rest.0)
]

-- Where serde_json reads back the list that is written, the row that a merge leaves lists the authors of the
-- document that stays, in their order, then others, and an author is listed after it exactly where
-- one of the two rows listed them.
pub merged_row-authors :
    (json : AuthorsJson) (now : String) (winner loser : DocumentUserMetadata)
    → ReadsBack json
        (extend_authors (parse_authors json winner.authors) (parse_authors json loser.authors))
    → let before = parse_authors json winner.authors in
      let after =
        parse_authors json (merged_row json now (extracted_from json loser) winner).authors in
      ((more : List String) × (after ≡ before ++ more))
      × ((a : String)
          → any (eqb a) after
            ≡ (any (eqb a) before || any (eqb a) (parse_authors json loser.authors)))
unfolding merged_row extracted_from
merged_row-authors json now winner loser back =
    let known = parse_authors json winner.authors in
    let new = parse_authors json loser.authors in
    rw (parse_authors-authors_json json (extend_authors known new) back)
      (extend-prefix known new, λ a. listed-extend a known new)
