-- ===== src/Value.antt =====
-- The values that protocol.ts decodes from a cell, and the shapes that several decoders share.
pub mod Zoned
pub mod Lob
pub mod Collection
pub mod Read
pub mod Scalars
pub mod Fuel
use cubrid_client.Base.{ℕ, Bool, true, false, List, ℤ, ◌==◌, if◌then◌else◌}
use cubrid_client.Constants.{
  CubridDataType, type_set, type_multiset, type_sequence, type_bit, type_varbit, type_blob,
  type_clob, type_null,
}
use cubrid_client.Failure.{error}
use cubrid_client.Reader.{LocalDate, Parse, return, throw}

-- The fields of a ZonedDateTime.
pub record ZonedDateTime : Type 0 where
  pub type : CubridDataType
  pub year : ℤ
  pub month : ℤ
  pub day : ℤ
  pub hour : ℤ
  pub minute : ℤ
  pub second : ℤ
  pub millisecond : ℤ
  pub zone : List ℕ

pub record LobLocator : Type 0 where
  pub type : CubridDataType
  pub size : ℕ
  pub handle : List ℕ

mutual
  pub data Value : Type 0 where
    null : Value
    -- A SMALLINT or an INT.
    number : ℤ → Value
    -- A BIGINT, which is a JavaScript bigint.
    bigint : ℤ → Value
    -- A FLOAT or a DOUBLE, by its bit pattern.
    float : ℕ → Value
    double : ℕ → Value
    string : List ℕ → Value
    bytes : List ℕ → Value
    date : LocalDate → Value
    time : ℤ → ℤ → ℤ → Value
    zoned : ZonedDateTime → Value
    lob : LobLocator → Value
    collection : Values → Value

  pub data Values : Type 0 where
    nil : Values
    cons : Value → Values → Values

unfoldable pub is_collection_type : CubridDataType → Bool
is_collection_type type_set = true
is_collection_type type_multiset = true
is_collection_type type_sequence = true
is_collection_type _ = false

unfoldable pub is_bit_type : CubridDataType → Bool
is_bit_type type_bit = true
is_bit_type type_varbit = true
is_bit_type _ = false

unfoldable pub is_lob_type : CubridDataType → Bool
is_lob_type type_blob = true
is_lob_type type_clob = true
is_lob_type _ = false

unfoldable pub is_null_type : CubridDataType → Bool
is_null_type type_null = true
is_null_type _ = false

-- A value must use the whole of its cell, and nothing more.
unfoldable pub assert_exact_length : ℕ → ℕ → Parse (Unit {0})
assert_exact_length consumed declared = if consumed == declared then return tt else throw error
