-- ===== src/Db/Reading/Progress.antt =====
-- What readers can rely on when progress is written: core/src/db/dao/reading_state.rs.
use read_flow.Db.Monad.{continue, continue-keeps}
use read_flow.Db.Contents.{has_content}
use read_flow.Prelude.{
  Option, ap, gtb_irrefl, ◌+◌, ◌≤◌, Bool-cases, false, any, inr, inl, true, ◌⊎◌, Option-cases, none,
  ◌≢◌, String, some, any-find, ◌≡◌, refl, arith,
}
use read_flow.Db.Result.{foreign_key_violation, err, Result, ok}
use read_flow.Db.Tables.{Db, ReadingState}
use read_flow.Db.Reading.Rows.{write-known, write-new, write-other}
use read_flow.Db.Reading.{
  or_no_row, write_row, next_status, first_state, upsert_reading_state, has_content, is_row,
  get_reading_state, updated_state,
}

updated_state-fingerprint :
    (s old : ReadingState) → (updated_state s old).fingerprint ≡ old.fingerprint
unfolding updated_state
updated_state-fingerprint s old = ground arith

first_state-fingerprint : (s : ReadingState) → (first_state s).fingerprint ≡ s.fingerprint
unfolding first_state
first_state-fingerprint s = ground arith

finish_upsert :
    (r : Result (Unit {0}) × Db) (user fp : String) (s : ReadingState)
    → r.0 ≡ ok tt
    → get_reading_state user fp r.1 ≡ some s
    → continue r (λ _ db. continue (ok (get_reading_state user fp db), db) or_no_row) ≡ (ok s, r.1)
finish_upsert (ok u, db) user fp s h g = rw g refl
finish_upsert (err e, db) user fp s h g = cc

module _ (user : String) (s : ReadingState) (db : Db) where
  abbrev pub written : Result (Unit {0}) × Db
  written = write_row user s.fingerprint (first_state s) (updated_state s) db

  pub upsert-known :
      (old : ReadingState)
      → get_reading_state user s.fingerprint db ≡ some old
      → (upsert_reading_state user s db ≡ (ok (updated_state s old), written.1))
        × (get_reading_state user s.fingerprint written.1 ≡ some (updated_state s old))
  unfolding upsert_reading_state
  upsert-known old h =
      let w =
        write-known user s.fingerprint (first_state s) (updated_state s)
          (updated_state-fingerprint s) db old h in
      (finish_upsert written user s.fingerprint (updated_state s old) w.0 w.1, w.1)

  pub upsert-new :
      get_reading_state user s.fingerprint db ≡ none
      → has_content s.fingerprint db.contents ≡ true
      → (upsert_reading_state user s db ≡ (ok (first_state s), written.1))
        × (get_reading_state user s.fingerprint written.1 ≡ some (first_state s))
  unfolding upsert_reading_state
  upsert-new h known =
      let w =
        write-new user s.fingerprint (first_state s) (updated_state s) (updated_state-fingerprint s)
          db (first_state-fingerprint s) h known in
      (finish_upsert written user s.fingerprint (first_state s) w.0 w.1, w.1)

  pub upsert-refused :
      get_reading_state user s.fingerprint db ≡ none
      → has_content s.fingerprint db.contents ≡ false
      → upsert_reading_state user s db ≡ (err foreign_key_violation, db)
  unfolding upsert_reading_state get_reading_state
  upsert-refused h unknown =
      let free : any (is_row user s.fingerprint) db.reading_state ≡ false =
        ground (arith, any-find (is_row user s.fingerprint) db.reading_state) in
      rw (free, unknown) refl

-- A status that is stored is never lowered by an upsert, and moves by one step at most.
pub upsert_reading_state-monotone :
    (user : String) (s old new : ReadingState) (db : Db)
    → get_reading_state user s.fingerprint db ≡ some old
    → (upsert_reading_state user s db).0 ≡ ok new
    → (old.status ≤ new.status) × (new.status ≤ old.status + 1)
unfolding updated_state next_status
upsert_reading_state-monotone user s old new db h e = ground (arith, upsert-known user s db old h)

updated_state-twice :
    (s old : ReadingState) → updated_state s (updated_state s old) ≡ updated_state s old
unfolding updated_state
updated_state-twice s old = ground (arith, gtb_irrefl s.last_updated)

updated_state-first : (s : ReadingState) → updated_state s (first_state s) ≡ first_state s
unfolding updated_state first_state
updated_state-first s = ground (arith, gtb_irrefl s.last_updated)

-- A repeated upsert answers as the first one did: a client may retry.
pub upsert_reading_state-twice :
    (user : String) (s : ReadingState) (db : Db)
    → (upsert_reading_state user s (upsert_reading_state user s db).1).0
      ≡ (upsert_reading_state user s db).0
upsert_reading_state-twice user s db =
    elim (Option-cases (get_reading_state user s.fingerprint db)) [
      | inr (old, h) ↦
          let u = upsert-known user s db old h in
          rw (u.0, (upsert-known user s (written user s db).1 (updated_state s old) u.1).0)
            (ap ok (updated_state-twice s old))
      | inl h ↦ elim (Bool-cases (has_content s.fingerprint db.contents)) [
        | inl known ↦
            let u = upsert-new user s db h known in
            rw (u.0, (upsert-known user s (written user s db).1 (first_state s) u.1).0)
              (ap ok (updated_state-first s))
        | inr unknown ↦ let u = upsert-refused user s db h unknown in rw (u, u) refl
      ]
    ]

or_no_row-store : (o : Option ReadingState) (db : Db) → (or_no_row o db).1 ≡ db
or_no_row-store none db = refl
or_no_row-store (some s) db = refl

upsert-store :
    (user : String) (s : ReadingState) (db : Db)
    → (upsert_reading_state user s db).1 ≡ (written user s db).1
unfolding upsert_reading_state
upsert-store user s db =
    continue-keeps (λ d. d) (written user s db) _
      (λ _ d. or_no_row-store (get_reading_state user s.fingerprint d) d)

-- An upsert changes no state of another user or of another content.
pub upsert_reading_state-other :
    (user user' fp' : String) (s : ReadingState) (db : Db)
    → (user' ≢ user) ⊎ (fp' ≢ s.fingerprint)
    → get_reading_state user' fp' (upsert_reading_state user s db).1
      ≡ get_reading_state user' fp' db
upsert_reading_state-other user user' fp' s db other = rw (upsert-store user s db) (
    write-other user s.fingerprint (first_state s) (updated_state s) (updated_state-fingerprint s)
      user' fp' db (first_state-fingerprint s) other)
