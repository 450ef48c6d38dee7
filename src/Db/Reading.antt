-- ===== src/Db/Reading.antt =====
-- core/src/db/dao/reading_state.rs. `percentage` counts units of 2^-1074, so the two thresholds
-- are the doubles 0.01 and 0.99 exactly.
pub mod Rows
pub mod Progress
pub mod Answers
use read_flow.Prelude.{
  ℕ, ◌*◌, ◌^◌, ◌==◌, ltb, leb, String, Bool, ◌&&◌, ◌||◌, Option, none, some, [], ◌∷◌, ◌++◌, any,
  find, update, eqb, gtb, if◌then◌else◌,
}
use mathlib.Core.Option
use read_flow.Db.Result.{ok, err, foreign_key_violation, row_not_found}
use read_flow.Db.Tables.{Db, ReadingState, ReadingRow}
use read_flow.Db.Monad.{M, ◌>>=◌, ◌>>◌, pure, fail, query}
use read_flow.Db.Contents.{has_content}

unfoldable pub one_percent : ℕ
one_percent = 5764607523034235 * 2 ^ 1015

unfoldable pub ninety_nine_percent : ℕ
ninety_nine_percent = 4458563631096791 * 2 ^ 1022

abbrev pub unread : ℕ
unread = 0

abbrev pub reading : ℕ
reading = 1

abbrev pub read : ℕ
read = 2

abbrev pub is_row : String → String → ReadingRow → Bool
is_row user_id fingerprint r = eqb r.user_id user_id && eqb r.state.fingerprint fingerprint

unfoldable pub get_reading_state : String → String → Db → Option ReadingState
get_reading_state user_id fingerprint db =
    Option.map (λ (r : ReadingRow). r.state) (find (is_row user_id fingerprint) db.reading_state)

-- The row of the `INSERT` path.
unfoldable pub first_state : ReadingState → ReadingState
first_state s =
    if ltb one_percent s.percentage
    then record s { status = reading; status_updated_at = s.last_updated }
    else record s { status = unread }

-- The `CASE` of the status.
unfoldable pub next_status : ℕ → ℕ → ℕ
next_status status percentage =
    if status == unread && ltb one_percent percentage
    then reading
    else if status == reading && leb ninety_nine_percent percentage
    then read
    else status

abbrev transitions : ℕ → ℕ → Bool
transitions status percentage =
    (status == unread && ltb one_percent percentage)
    || (status == reading && leb ninety_nine_percent percentage)

-- `DO UPDATE SET … WHERE excluded.last_updated > reading_state.last_updated`.
unfoldable pub updated_state : ReadingState → ReadingState → ReadingState
updated_state excluded old =
    if gtb excluded.last_updated old.last_updated
    then record old {
      position = excluded.position;
      percentage = excluded.percentage;
      last_updated = excluded.last_updated;
      status = next_status old.status excluded.percentage;
      status_updated_at =
          if transitions old.status excluded.percentage
          then excluded.last_updated
          else old.status_updated_at;
    }
    else old

abbrev pub write_row : String → String → ReadingState → (ReadingState → ReadingState) → M (Unit {0})
write_row user_id fingerprint first change db =
    if any (is_row user_id fingerprint) db.reading_state
    then (
      ok tt,
      record db {
        reading_state =
            update (is_row user_id fingerprint) (λ r. record r { state = change r.state })
              db.reading_state;
      },
    )
    else if has_content fingerprint db.contents
    then (
      ok tt,
      record db {
        reading_state = db.reading_state ++ record { user_id = user_id; state = first } ∷ [];
      },
    )
    else (err foreign_key_violation, db)

abbrev pub or_no_row : Option ReadingState → M ReadingState
or_no_row none = fail row_not_found
or_no_row (some s) = pure s

unfoldable pub upsert_reading_state : String → ReadingState → M ReadingState
upsert_reading_state user_id state = do
  write_row user_id state.fingerprint (first_state state) (updated_state state)
  stored ← query (get_reading_state user_id state.fingerprint)
  or_no_row stored

-- The defaults of the table's other columns.
abbrev pub status_row : String → String → ℕ → ReadingState
status_row now fingerprint status = record {
  fingerprint = fingerprint;
  status = status;
  position = "{}";
  percentage = 0;
  last_updated = now;
  status_updated_at = now;
}

-- The manual override; `now` is `strftime(…, 'now')`.
unfoldable pub update_reading_status_only : String → String → String → ℕ → M (Unit {0})
update_reading_status_only now user_id fingerprint status =
    write_row user_id fingerprint (status_row now fingerprint status)
      (λ old. record old { status = status; status_updated_at = now })
