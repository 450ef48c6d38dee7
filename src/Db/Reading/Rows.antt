-- ===== src/Db/Reading/Rows.antt =====
-- The row that a write of a reading state meets, makes, or leaves alone.

use read_flow.Db.Contents.{has_content}
use read_flow.Prelude.{
  Bool-cases, ◌∷◌, [], find-append, false, find_sound, any, inr, inl, true, ◌⊎◌, find, Option-cases,
  none, ◌≢◌, String, some, any-find, find-update, ◌≡◌, refl, arith,
}
use read_flow.Db.Result.{ok}
use read_flow.Db.Tables.{Db, ReadingState, ReadingRow}
use read_flow.Db.Reading.{write_row, has_content, is_row, get_reading_state}

abbrev change_row : (ReadingState → ReadingState) → ReadingRow → ReadingRow
change_row change r = record r { state = change r.state }

module _ (user fp : String) (first : ReadingState) (change : ReadingState → ReadingState)
    (keeps : (s : ReadingState) → (change s).fingerprint ≡ s.fingerprint) where
  keeps_row :
      (user' fp' : String) (r : ReadingRow)
      → is_row user' fp' (change_row change r) ≡ is_row user' fp' r
  keeps_row user' fp' r = rw (keeps r.state) refl

  -- The row that a write finds is changed in place.
  pub write-known :
      (db : Db) (old : ReadingState)
      → get_reading_state user fp db ≡ some old
      → ((write_row user fp first change db).0 ≡ ok tt)
        × (get_reading_state user fp (write_row user fp first change db).1 ≡ some (change old))
  unfolding get_reading_state
  write-known db old h = elim (Option-cases (find (is_row user fp) db.reading_state)) [
    | inl e ↦ ground arith
    | inr (r, e) ↦
        let hit = find_sound (is_row user fp) db.reading_state r e in
        let known : any (is_row user fp) db.reading_state ≡ true =
          rw (any-find (is_row user fp) db.reading_state, e) in
        rw
          (
            known,
            find-update (is_row user fp) (is_row user fp) (change_row change) db.reading_state
                (keeps_row user fp),
            e,
          )
          (ground arith)
  ]

  -- Without a row the first one is appended, if the content is known.
  pub write-new :
      (db : Db)
      → first.fingerprint ≡ fp
      → get_reading_state user fp db ≡ none
      → has_content fp db.contents ≡ true
      → ((write_row user fp first change db).0 ≡ ok tt)
        × (get_reading_state user fp (write_row user fp first change db).1 ≡ some first)
  unfolding get_reading_state
  write-new db own h known = elim (Option-cases (find (is_row user fp) db.reading_state)) [
    | inl e ↦
        let free : any (is_row user fp) db.reading_state ≡ false =
          rw (any-find (is_row user fp) db.reading_state, e) in
        rw
          (
            free,
            known,
            find-append (is_row user fp) db.reading_state
                (record { user_id = user; state = first } ∷ []),
            e,
          )
          (ground arith)
    | inr (r, e) ↦ ground arith
  ]

  apart :
      (user' fp' : String) (r : ReadingRow)
      → (user' ≢ user) ⊎ (fp' ≢ fp)
      → is_row user' fp' r ≡ true
      → is_row user fp r ≡ false
  apart user' fp' r other own = ground arith

  -- Any other user's, and any other content's, row reads as before.
  pub write-other :
      (user' fp' : String) (db : Db)
      → first.fingerprint ≡ fp
      → (user' ≢ user) ⊎ (fp' ≢ fp)
      → get_reading_state user' fp' (write_row user fp first change db).1
        ≡ get_reading_state user' fp' db
  unfolding get_reading_state
  write-other user' fp' db own other = elim (Bool-cases (any (is_row user fp) db.reading_state)) [
    | inl known ↦
        rw
          (
            known,
            find-update (is_row user fp) (is_row user' fp') (change_row change) db.reading_state
                (keeps_row user' fp'),
          )
          (elim (Option-cases (find (is_row user' fp') db.reading_state)) [
            | inl e ↦ rw e refl
            | inr (r, e) ↦
                rw (e, apart user' fp' r other (find_sound (is_row user' fp') db.reading_state r e))
                  refl
          ])
    | inr free ↦ elim (Bool-cases (has_content fp db.contents)) [
      | inl known ↦
          rw
            (
              free,
              known,
              find-append (is_row user' fp') db.reading_state
                  (record { user_id = user; state = first } ∷ []),
            )
            (elim (Option-cases (find (is_row user' fp') db.reading_state)) [
              | inl e ↦ rw e (ground arith)
              | inr (r, e) ↦ rw e refl
            ])
      | inr unknown ↦ rw (free, unknown) refl
    ]
  ]
