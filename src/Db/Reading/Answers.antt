-- ===== src/Db/Reading/Answers.antt =====
-- What an upsert of core/src/db/dao/reading_state.rs answers and stores, described column by column.

use read_flow.Db.Reading.{
  upsert_reading_state, get_reading_state, updated_state, next_status, first_state, one_percent,
  ninety_nine_percent, has_content, is_row,
}
use read_flow.Db.Reading.Progress.{written, upsert-known, upsert-new, upsert-refused}
use read_flow.Db.Contents.{has_content}
use read_flow.Db.Result.{Result, ok, err, foreign_key_violation}
use read_flow.Db.Tables.{Db, ReadingState}
use read_flow.Prelude.{
  ℕ, ◌*◌, ◌^◌, ◌≤◌, ◌<◌, ◌==◌, ltb, leb, String, true, false, Option, none, some, find, find_sound,
  eqb→eq, gtb, Option-cases, Bool-cases, inl, inr, ◌⊎◌, ◌≡◌, refl, arith,
}

-- The doubles 0.01 and 0.99 in units of 2^-1074.
abbrev pub hundredth : ℕ
hundredth = 5764607523034235 * 2 ^ 1015

abbrev pub ninety_nine_hundredths : ℕ
ninety_nine_hundredths = 4458563631096791 * 2 ^ 1022

-- The first row of a user for a content: unread up to one percent, and from then on being read, since
-- the time of the upsert.
pub data First (t : ℕ) (s new : ReadingState) : Type 0 where
  unopened : s.percentage ≤ t → new ≡ record s { status = 0 } → First t s new
  opened :
      t < s.percentage
      → new ≡ record s { status = 1; status_updated_at = s.last_updated }
      → First t s new

-- Nothing of the status is due: unread up to one percent, being read below ninety-nine, or read.
abbrev pub StaysPut : ℕ → ℕ → ReadingState → ReadingState → Type 0
StaysPut t u s old =
    ((old.status ≡ 0) × (s.percentage ≤ t))
    ⊎ ((old.status ≡ 1) × (s.percentage < u))
    ⊎ (2 ≤ old.status)

-- The row that is left of an old one: itself where the upsert is not later, else the upsert's own
-- columns, with the status one step on and the time of the upsert where a step is due.
pub data Merges (t u : ℕ) (s old new : ReadingState) : Type 0 where
  stale : gtb s.last_updated old.last_updated ≡ false → new ≡ old → Merges t u s old new
  begins :
      gtb s.last_updated old.last_updated ≡ true
      → old.status ≡ 0
      → t < s.percentage
      → new ≡ record s { status = 1; status_updated_at = s.last_updated }
      → Merges t u s old new
  finishes :
      gtb s.last_updated old.last_updated ≡ true
      → old.status ≡ 1
      → u ≤ s.percentage
      → new ≡ record s { status = 2; status_updated_at = s.last_updated }
      → Merges t u s old new
  goes_on :
      gtb s.last_updated old.last_updated ≡ true
      → StaysPut t u s old
      → new ≡ record s { status = old.status; status_updated_at = old.status_updated_at }
      → Merges t u s old new

-- What is read for the user and the upsert's content.
abbrev pub current : String → ReadingState → Db → Option ReadingState
current user s db = get_reading_state user s.fingerprint db

-- The answer of an upsert is what is stored, merged from an old row or first; for an unknown content
-- it is a refusal that changes nothing.
pub data Answered (user : String) (s : ReadingState) (db : Db)
    : Result ReadingState × Db → Type 0 where
  merged :
      (old new : ReadingState) (after : Db)
      → current user s db ≡ some old
      → Merges hundredth ninety_nine_hundredths s old new
      → current user s after ≡ some new
      → Answered user s db (ok new, after)
  stored :
      (new : ReadingState) (after : Db)
      → current user s db ≡ none
      → has_content s.fingerprint db.contents ≡ true
      → First hundredth s new
      → current user s after ≡ some new
      → Answered user s db (ok new, after)
  refused :
      current user s db ≡ none
      → has_content s.fingerprint db.contents ≡ false
      → Answered user s db (err foreign_key_violation, db)

first_state-First : (s : ReadingState) → First one_percent s (first_state s)
unfolding first_state
first_state-First s = elim (Bool-cases (ltb one_percent s.percentage)) [
  | inl e ↦ opened (ground arith) (rw (e, first_state) refl)
  | inr e ↦ unopened (ground arith) (rw (e, first_state) refl)
]

get_reading_state-fingerprint :
    (user fp : String) (db : Db) (old : ReadingState)
    → get_reading_state user fp db ≡ some old
    → old.fingerprint ≡ fp
unfolding get_reading_state
get_reading_state-fingerprint user fp db old h =
    elim (Option-cases (find (is_row user fp) db.reading_state)) [
      | inl e ↦ ground arith
      | inr (r, e) ↦
          ground
            (arith, find_sound (is_row user fp) db.reading_state r e, eqb→eq r.state.fingerprint fp)
    ]

updated_state-Merges :
    (s old : ReadingState)
    → old.fingerprint ≡ s.fingerprint
    → Merges one_percent ninety_nine_percent s old (updated_state s old)
unfolding updated_state next_status
updated_state-Merges s old same = elim (Bool-cases (gtb s.last_updated old.last_updated)) [
  | inr late ↦ stale late (rw (late, updated_state) refl)
  | inl newer ↦ elim (Bool-cases (old.status == 0)) [
    | inl idle ↦ elim (Bool-cases (ltb one_percent s.percentage)) [
      | inl due ↦
          begins newer (ground arith) (ground arith)
            (rw (newer, idle, due, same, updated_state) refl)
      | inr early ↦
          let other : (old.status == 1) ≡ false = ground arith in
          goes_on newer (inl (ground arith, ground arith))
            (rw (newer, idle, early, other, same, updated_state) refl)
    ]
    | inr begun ↦ elim (Bool-cases (old.status == 1)) [
      | inl one ↦ elim (Bool-cases (leb ninety_nine_percent s.percentage)) [
        | inl due ↦
            finishes newer (ground arith) (ground arith)
              (rw (newer, begun, one, due, same, updated_state) refl)
        | inr early ↦
            goes_on newer (inr (inl (ground arith, ground arith)))
              (rw (newer, begun, one, early, same, updated_state) refl)
      ]
      | inr done ↦
          goes_on newer (inr (inr (ground arith)))
            (rw (newer, begun, done, same, updated_state) refl)
    ]
  ]
]

-- An upsert answers by the columns: where the user has a row of the content it is the old row, unless
-- the upsert is later; then it has the upsert's position, percentage and time, and its status is one
-- step on exactly where the thresholds 0.01 and 0.99 of the stored status say so, at the upsert's
-- time. Where only the content is known it is a first row, unread or being read by the first
-- threshold. The answer is what is then stored. For an unknown content the upsert is refused and
-- changes nothing.
pub upsert_reading_state-Answered :
    (user : String) (s : ReadingState) (db : Db)
    → Answered user s db (upsert_reading_state user s db)
unfolding one_percent ninety_nine_percent
upsert_reading_state-Answered user s db = elim (Option-cases (current user s db)) [
  | inr (old, h) ↦
      let u = upsert-known user s db old h in
      rw (u.0) (
        merged old (updated_state s old) (written user s db).1 h
          (updated_state-Merges s old (get_reading_state-fingerprint user s.fingerprint db old h))
          (u.1))
  | inl h ↦ elim (Bool-cases (has_content s.fingerprint db.contents)) [
    | inl known ↦
        let u = upsert-new user s db h known in
        rw (u.0) (stored (first_state s) (written user s db).1 h known (first_state-First s) (u.1))
    | inr unknown ↦ rw (upsert-refused user s db h unknown) (refused h unknown)
  ]
]
