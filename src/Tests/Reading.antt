-- ===== src/Tests/Reading.antt =====
-- The theorems on reading states at a first and at a later write.
use read_flow.Prelude.{
  ap, eqb, ◌+◌, ◌/◌, ◌^◌, ◌≤◌, String, true, false, [], ◌∷◌, str_dec, gtb, ◌≡◌, ◌≢◌, refl, inl,
}
use read_flow.Db.Result.{ok}
use read_flow.Db.Tables.{Db, ReadingState}
use read_flow.Db.Reading.{
  get_reading_state, upsert_reading_state, first_state, updated_state, next_status, one_percent,
  ninety_nine_percent,
}
use read_flow.Db.Reading.Progress.{upsert_reading_state-monotone, upsert_reading_state-other}
use read_flow.Db.Reading.Answers.{Answered, upsert_reading_state-Answered}
use read_flow.Tests.Store.{store}

program : Unit {0}
unfolding str_dec gtb get_reading_state upsert_reading_state first_state updated_state next_status
    one_percent ninety_nine_percent
program = tt

abbrev at_start : ReadingState
at_start = record {
  fingerprint = "a";
  status = 0;
  position = "p1";
  percentage = 2 ^ 1074 / 2;
  last_updated = "2026-01-01";
  status_updated_at = "";
}

-- The half of a book is read.
abbrev started : ReadingState
started = record at_start { status = 1; status_updated_at = "2026-01-01" }

abbrev later : ReadingState
later = record at_start { percentage = 2 ^ 1074; last_updated = "2026-01-02" }

abbrev begun : Db
begun = record store { reading_state = record { user_id = "u"; state = started } ∷ [] }

first_write : (upsert_reading_state "u" at_start store).0 ≡ ok started
unfolding program
first_write = refl

upsert_reading_state-Answered_example :
    Answered "u" later begun (upsert_reading_state "u" later begun)
upsert_reading_state-Answered_example = upsert_reading_state-Answered "u" later begun

upsert_reading_state-monotone_example : (1 ≤ 2) × (2 ≤ 1 + 1)
unfolding program
upsert_reading_state-monotone_example =
    upsert_reading_state-monotone "u" later started
      (record later { status = 2; status_updated_at = "2026-01-02" }) begun refl refl

apart : ◌≢◌ {A = String} "v" "u"
unfolding program
apart p = let q : false ≡ true = ap (λ s. eqb s "u") p in cc

upsert_reading_state-other_example :
    get_reading_state "v" "a" (upsert_reading_state "u" later begun).1
    ≡ get_reading_state "v" "a" begun
upsert_reading_state-other_example = upsert_reading_state-other "u" "v" "a" later begun (inl apart)
