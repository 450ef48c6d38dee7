-- ===== src/Tests/Files.antt =====
-- Scans of a file, twice.
use mathlib.Core.Option
use read_flow.Prelude.{ℕ, ◌^◌, Bool, true, false, none, [], ◌∷◌, str_dec, ◌≡◌, refl, arith}
use read_flow.Db.Result.{Result, ok}
use read_flow.Db.Tables.{Db}
use read_flow.Db.Monad.{for_each}
use read_flow.Db.Contents.{
  upsert_content, upsert_content_tag, join_file, status_of, select_file_by_path, insert_file_row,
  insert_file, as_i32, write_file_row, write_scanned_file,
}
use read_flow.Db.Contents.Rescan.{write_scanned_file-twice}
use read_flow.Tests.Store.{store}

program : Unit {0}
unfolding str_dec Option.bind for_each upsert_content upsert_content_tag join_file status_of
    select_file_by_path insert_file_row insert_file as_i32 write_file_row write_scanned_file
program = tt

abbrev scanned : ℕ → Db → Result (Bool × Bool) × Db
scanned size = write_scanned_file "t1" "f1" "/books/a.pdf" "pdf" size "c" ("new" ∷ []) none

write_scanned_file-twice_example :
    write_scanned_file "t2" "f2" "/books/a.pdf" "pdf" 10 "c" ("new" ∷ []) none (scanned 10 store).1
    ≡ (ok (false, false), (scanned 10 store).1)
unfolding program
write_scanned_file-twice_example =
    write_scanned_file-twice "/books/a.pdf" "c" 10 "t1" "f1" "t2" "f2" "pdf" ("new" ∷ []) none store
      (true, false) (omega arith) refl

-- A file of 2^31 bytes is stored with a size that wrapped round, so the next scan reports an update.
large_again : (scanned (2 ^ 31) (scanned (2 ^ 31) store).1).0 ≡ ok (false, true)
unfolding program
large_again = refl
