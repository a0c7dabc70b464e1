-- ===== src/Value/Read.antt =====
-- readValue: the decoder of one value by its type. A collection holds values in turn; each is
-- shorter than the collection, so the nesting is bounded by the size, which is the fuel.
use cubrid_client.Base.{ℕ, zero, suc, ◌+◌, not, ◌==◌, if◌then◌else◌, pos}
use cubrid_client.Constants.{
  CubridDataType, type_char, type_string, type_nchar, type_varnchar, type_bit, type_varbit,
  type_numeric, type_int, type_short, type_monetary, type_float, type_double, type_date, type_time,
  type_timestamp, type_set, type_multiset, type_sequence, type_bigint, type_datetime, type_blob,
  type_clob, type_enum, type_timestamptz, type_timestampltz, type_datetimetz, type_datetimeltz,
}
use cubrid_client.Failure.{unsupported_value, diverges}
use cubrid_client.Reader.{
  Parse, return, throw, guard, ◌>>=◌, ◌>>◌, parse_int, parse_short, parse_long, parse_float,
  parse_double, parse_null_term_string, parse_bytes, parse_date, parse_time, parse_datetime,
  parse_timestamp, peek_zero_date,
}
use cubrid_client.Value.{
  Value, number, bigint, float, double, string, bytes, date, time, zoned, lob,
}
use cubrid_client.Value.Collection.{read_collection}
use cubrid_client.Value.Lob.{read_lob_locator}
use cubrid_client.Value.Zoned.{read_zoned_date_time}

-- The zero date of a type is unsupported; only the exact width of the type counts.
unfoldable pub reject_zero_date : ℕ → ℕ → Parse (Unit {0})
reject_zero_date size width =
    let peeked = (do zero_date ← peek_zero_date; guard (not zero_date) unsupported_value) in
    if size == width then peeked else return tt

abbrev read_text : ℕ → Parse Value
read_text size = do s ← parse_null_term_string (pos size); return (string s)

abbrev read_bits : ℕ → Parse Value
read_bits size = do bs ← parse_bytes (pos size); return (bytes bs)

abbrev read_zoned : CubridDataType → ℕ → Parse Value
read_zoned t size = do z ← read_zoned_date_time t size; return (zoned z)

abbrev read_lob : CubridDataType → ℕ → Parse Value
read_lob t size = do l ← read_lob_locator t size; return (lob l)

-- One value, where `read` decodes the values inside a collection.
unfoldable pub read_value_with :
    (CubridDataType → ℕ → Parse Value) → CubridDataType → ℕ → Parse Value
read_value_with read type_char size = read_text size
read_value_with read type_string size = read_text size
read_value_with read type_nchar size = read_text size
read_value_with read type_varnchar size = read_text size
read_value_with read type_enum size = read_text size
read_value_with read type_short size = do v ← parse_short; return (number v)
read_value_with read type_int size = do v ← parse_int; return (number v)
read_value_with read type_bigint size = do v ← parse_long; return (bigint v)
read_value_with read type_float size = do v ← parse_float; return (float v)
read_value_with read type_double size = do v ← parse_double; return (double v)
read_value_with read type_monetary size = do v ← parse_double; return (double v)
read_value_with read type_numeric size = read_text size
read_value_with read type_date size = do reject_zero_date size 6; d ← parse_date; return (date d)
read_value_with read type_time size = do (h, m, s) ← parse_time; return (time h m s)
read_value_with read type_datetime size = do
  reject_zero_date size 14
  d ← parse_datetime
  return (date d)
read_value_with read type_timestamp size = do
  reject_zero_date size 12
  d ← parse_timestamp
  return (date d)
read_value_with read type_timestamptz size = read_zoned type_timestamptz size
read_value_with read type_timestampltz size = read_zoned type_timestampltz size
read_value_with read type_datetimetz size = read_zoned type_datetimetz size
read_value_with read type_datetimeltz size = read_zoned type_datetimeltz size
read_value_with read type_bit size = read_bits size
read_value_with read type_varbit size = read_bits size
read_value_with read type_blob size = read_lob type_blob size
read_value_with read type_clob size = read_lob type_clob size
read_value_with read type_set size = read_collection read size
read_value_with read type_multiset size = read_collection read size
read_value_with read type_sequence size = read_collection read size
read_value_with read _ size = throw unsupported_value

unfoldable pub read_value_fuel : ℕ → CubridDataType → ℕ → Parse Value
read_value_fuel zero col_type size = throw diverges
read_value_fuel (suc fuel) col_type size = read_value_with (read_value_fuel fuel) col_type size

unfoldable pub read_value : CubridDataType → ℕ → Parse Value
read_value col_type size = read_value_fuel (size + 1) col_type size
