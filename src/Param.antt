-- ===== src/Param.antt =====
-- A bind parameter: a JavaScript value, by the tests that protocol.ts makes on it.
pub mod Double
use cubrid_client.Base.{ℕ, Bool, List, ℤ}
use cubrid_client.Writer.{DateFields}

pub data Param : Type 0 where
  -- null or undefined.
  null : Param
  boolean : Bool → Param
  -- A number, by the bit pattern of its IEEE double.
  number : ℕ → Param
  bigint : ℤ → Param
  text : List ℕ → Param
  -- A Date: its components in local time and in UTC; `invalid_date` has NaN for each.
  date : DateFields → DateFields → Param
  invalid_date : Param
  buffer : List ℕ → Param
  -- Any other value, by what `String(value)` gives.
  other : List ℕ → Param
