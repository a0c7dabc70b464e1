-- ===== src/Value/Scalars.antt =====
-- The decoders of single values under the rules of Reader.Rules.
use cubrid_client.Base.{ℕ, Bool, true, false, List, pos}
use cubrid_client.Constants.{CubridDataType, type_set, type_multiset, type_sequence}
use cubrid_client.Reader.{Parse}
use cubrid_client.Reader.Rules.{
  Steady, steady_rules, Steady-return, Steady-parse_short, Steady-parse_datetime,
  Steady-parse_timestamp, Steady-parse_date, Steady-parse_time, Steady-peek_zero_date,
}
use cubrid_client.Value.{Value, assert_exact_length}
use cubrid_client.Value.Collection.{read_collection}
use cubrid_client.Value.Lob.{read_lob_header, read_lob_locator}
use cubrid_client.Value.Read.{reject_zero_date, read_value_with}
use cubrid_client.Value.Zoned.{
  parse_short_if, decode_zone_text, read_zoned_fields, read_zoned_date_time,
}

Steady-parse_short_if : (b : Bool) → Steady (parse_short_if b)
Steady-parse_short_if true = Steady-parse_short
Steady-parse_short_if false = Steady-return (pos 0)

Steady-decode_zone_text : (bs : List ℕ) → Steady (decode_zone_text bs)
unfolding decode_zone_text
Steady-decode_zone_text bs = search steady_rules depth 8

Steady-read_zoned_fields : (t : CubridDataType) → Steady (read_zoned_fields t)
unfolding read_zoned_fields
Steady-read_zoned_fields t =
    search (steady_rules, Steady-parse_short_if, Steady-decode_zone_text) depth 40

Steady-read_zoned_date_time : (t : CubridDataType) (size : ℕ) → Steady (read_zoned_date_time t size)
unfolding read_zoned_date_time
Steady-read_zoned_date_time t size = search (steady_rules, Steady-read_zoned_fields) depth 20

Steady-read_lob_header :
    (t : CubridDataType) (size : ℕ) (handle : List ℕ) → Steady (read_lob_header t size handle)
unfolding read_lob_header
Steady-read_lob_header t size handle = search steady_rules depth 20

Steady-read_lob_locator : (t : CubridDataType) (size : ℕ) → Steady (read_lob_locator t size)
unfolding read_lob_locator
Steady-read_lob_locator t size = search (steady_rules, Steady-read_lob_header) depth 20

pub Steady-assert_exact_length : (a b : ℕ) → Steady (assert_exact_length a b)
unfolding assert_exact_length
Steady-assert_exact_length a b = search steady_rules depth 8

Steady-reject_zero_date : (size width : ℕ) → Steady (reject_zero_date size width)
unfolding reject_zero_date
Steady-reject_zero_date size width = search (steady_rules, Steady-peek_zero_date) depth 10

-- Every type but the collections.
module _ (read : CubridDataType → ℕ → Parse Value) (size : ℕ)
    (c : Steady (read_collection read size)) where
  ruleset scalar_rules = (
    steady_rules, Steady-reject_zero_date, Steady-parse_date, Steady-parse_time,
    Steady-parse_datetime, Steady-parse_timestamp, Steady-read_zoned_date_time,
    Steady-read_lob_locator,
  )

  pub Steady-read_value_with : (t : CubridDataType) → Steady (read_value_with read t size)
  unfolding read_value_with
  Steady-read_value_with type_set = c
  Steady-read_value_with type_multiset = c
  Steady-read_value_with type_sequence = c
  Steady-read_value_with t = search scalar_rules depth 12
