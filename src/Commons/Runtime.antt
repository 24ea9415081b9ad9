-- ===== src/Commons/Runtime.antt =====
-- What the program takes from its environment: the calendar, the random and clock values that it
-- draws, JSON, and the SHA-1 digest. Draws are numbered; the n-th identifier and the n-th reading
-- of the clock are given.
use velo_external_db.Base.{ℕ, String, Option}
use velo_external_db.Commons.Values.{ℤ, Value}
use velo_external_db.Commons.Dates.{Calendar}

pub record Runtime : Type 0 where
  pub calendar : Calendar
  -- `uuidv4()` and `currentDateTime()`
  pub uuid : ℕ → String
  pub now : ℕ → ℤ
  -- `JSON.parse`, `none` where it throws, and `JSON.stringify`
  pub json_parse : Value → Option Value
  pub json_stringify : Value → String
  -- the SHA-1 digest of a text, in base 64
  pub sha1_base64 : String → String
  -- `String(date)`
  pub date_text : Option ℤ → String
