-- ===== src/Db/Result.antt =====
-- `dao::Error`, and the results of the statements of core/src/db/dao.
use read_flow.Prelude.{String}

-- `unique_violation` and `foreign_key_violation` are SQLite's refusals, which sqlx hands on.
pub data Error : Type 0 where
  row_not_found : Error
  unique_violation : Error
  foreign_key_violation : Error
  invalid_audit_event : String → String → Error
  io : String → Error

pub data Result {ℓ} (A : Type ℓ) : Type ℓ where
  ok : A → Result A
  err : Error → Result A
