-- ===== src/Bind.antt =====
-- Bind parameters of src/protocol/protocol.ts: encodeBindParams, and encodePreparedParams with its
-- refusals.
pub mod Single
pub mod Prepared
use cubrid_client.Base.{
  ℕ, ◌+◌, ◌^◌, Bool, ◌||◌, List, [], ◌∷◌, leb, if◌then◌else◌, ℤ, pos, ltb_ℤ, pos_part, neg_part,
  length, Option, some, none,
}
use cubrid_client.Buffer.{fits}
use cubrid_client.Failure.{Result, ok, fail, error, ◌>>=◌}
use cubrid_client.Param.{
  Param, null, boolean, number, bigint, text, date, invalid_date, buffer, other,
}
use cubrid_client.Param.Double.{whole, is_safe, is_finite}
use cubrid_client.Sql.{assert_storable_text, decimal_ℤ}
use cubrid_client.Text.{utf8_encode}
use cubrid_client.Writer.{
  Write, ◌>>◌, build, write_int, write_byte, write_short, write_long, write_double, write_bytes,
  write_null_term_string, write_date_fields, DateFields, add_byte, add_int, add_long, add_double,
  add_bytes, add_null,
}

-- A value behind its length, which counts the type byte.
abbrev typed : ℕ → ℕ → Write → Write
typed size code value = do write_int (pos (1 + size)); write_byte (pos code); value

abbrev typed_text : List ℕ → Write
typed_text s =
    typed (length (utf8_encode s) + 1) 2 (do write_bytes (utf8_encode s); write_byte (pos 0))

abbrev one_or_zero : Bool → ℤ
one_or_zero b = pos (if b then 1 else 0)

abbrev nan_fields : DateFields
nan_fields = record {
  year = pos 0;
  month = pos 0;
  day = pos 0;
  hour = pos 0;
  minute = pos 0;
  second = pos 0;
  millisecond = pos 0;
}

-- A whole number goes as INT where it fits, and else as BIGINT; any other number as DOUBLE.
unfoldable pub encode_number : ℕ → Option ℤ → Write
encode_number bits none = typed 8 12 (write_double bits)
encode_number bits (some v) =
    if fits (2 ^ 31) v then typed 4 8 (write_int v) else typed 8 21 (write_long v)

-- Components in local time; a Buffer writes 0 for the NaN components of an invalid Date.
unfoldable pub encode_one_param : Param → Write
unfolding encode_number
encode_one_param null = write_int (pos 0)
encode_one_param (boolean b) = typed 2 9 (write_short (one_or_zero b))
encode_one_param (number bits) = encode_number bits (whole bits)
encode_one_param (bigint v) = typed 8 21 (write_long v)
encode_one_param (text s) = typed_text s
encode_one_param (date here utc) = typed 14 22 (write_date_fields here)
encode_one_param invalid_date = typed 14 22 (write_date_fields nan_fields)
encode_one_param (buffer bs) = typed (length bs) 6 (write_bytes bs)
encode_one_param (other s) = typed_text s

unfoldable pub encode_params : List Param → Write
encode_params [] = ok
encode_params (p ∷ ps) = do encode_one_param p; encode_params ps

unfoldable pub encode_bind_params : List Param → Result (List ℕ)
unfolding encode_params
encode_bind_params params = build 256 (encode_params params)

-- A refusal throws before anything is sent.
abbrev refuse : Write
refuse w = fail error

unfoldable pub write_prepared_number : ℕ → Write
write_prepared_number bits =
    if is_finite bits
    then elim (whole bits) [
      | none ↦ (do add_byte (pos 12); add_double bits)
      | some v ↦
          if is_safe v
          then (if fits (2 ^ 31) v
              then (do add_byte (pos 8); add_int v)
              else (do add_byte (pos 21); add_long v))
          else (do add_byte (pos 12); add_double bits)
    ]
    else refuse

-- NUMERIC_LIMIT.
abbrev numeric_limit : ℕ
numeric_limit = 10 ^ 38

unfoldable pub write_prepared_bigint : ℤ → Write
write_prepared_bigint v =
    if fits (2 ^ 63) v
    then (do add_byte (pos 21); add_long v)
    else if leb numeric_limit (pos_part v) || leb numeric_limit (neg_part v)
    then refuse
    else (do add_byte (pos 7); write_null_term_string (decimal_ℤ v))

-- Components in UTC, for the years 1 to 9999.
unfoldable pub write_prepared_date : DateFields → Write
write_prepared_date utc =
    if ltb_ℤ utc.year (pos 1) || ltb_ℤ (pos 9999) utc.year
    then refuse
    else (do add_byte (pos 22); write_int (pos 14); write_date_fields utc)

abbrev storable : List ℕ → Write → Write
storable s m w = do _ ← assert_storable_text s; m w

unfoldable pub write_prepared_param : Param → Write
unfolding write_prepared_number write_prepared_bigint write_prepared_date assert_storable_text
write_prepared_param null = do add_byte (pos 0); add_null
write_prepared_param (boolean b) = do add_byte (pos 8); add_int (one_or_zero b)
write_prepared_param (number bits) = write_prepared_number bits
write_prepared_param (bigint v) = write_prepared_bigint v
write_prepared_param (text s) = storable s (do add_byte (pos 1); write_null_term_string s)
write_prepared_param (date here utc) = write_prepared_date utc
write_prepared_param invalid_date = refuse
write_prepared_param (buffer []) = refuse
write_prepared_param (buffer (b ∷ bs)) = do add_byte (pos 6); add_bytes (b ∷ bs)
write_prepared_param (other s) = refuse

unfoldable pub write_prepared_params : List Param → Write
unfolding write_prepared_param
write_prepared_params [] = ok
write_prepared_params (p ∷ ps) = do write_prepared_param p; write_prepared_params ps

pub record PreparedBinds : Type 0 where
  pub count : ℕ
  pub bytes : List ℕ

abbrev binds_of : ℕ → Result (List ℕ) → Result PreparedBinds
binds_of n (ok bs) = ok (record { count = n; bytes = bs })
binds_of n (fail e) = fail e

unfoldable pub encode_prepared_params : List Param → Result PreparedBinds
unfolding write_prepared_params
encode_prepared_params params = binds_of (length params) (build 256 (write_prepared_params params))
