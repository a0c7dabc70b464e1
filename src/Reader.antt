-- ===== src/Reader.antt =====
-- PacketReader (src/protocol/packet-reader.ts): a buffer and a read position that moves forward.
-- A method is a function from the reader to what it returns or throws and the reader that it
-- leaves: a caller that catches an exception goes on with that reader.
pub mod Rules
pub mod RoundTrip
use cubrid_client.Base.{
  ℕ, zero, suc, ◌+◌, ◌-◌, ◌*◌, Bool, true, false, List, [], ◌∷◌, leb, ◌==◌, if◌then◌else◌, ℤ, pos,
  negsuc, ◌-ℤ◌, ◌==ℤ◌, length, take, drop,
}
use cubrid_client.Buffer.{be_value, signed, half_range}
use cubrid_client.Failure.{Failure, range_error, Result, ok, fail}
use cubrid_client.Text.{utf8_decode}

pub record PacketReader : Type 0 where
  pub buf : List ℕ
  pub offset : ℕ

unfoldable pub new_reader : List ℕ → PacketReader
new_reader bytes = record { buf = bytes; offset = 0 }

-- What a call does: it returns or throws, and leaves a reader.
pub data Outcome {ℓ} (A : Type ℓ) : Type ℓ where
  done : A → PacketReader → Outcome A
  thrown : Failure → PacketReader → Outcome A

abbrev pub Parse {ℓ} : Type ℓ → Type ℓ
Parse A = PacketReader → Outcome A

abbrev pub after {ℓ κ} : {A : Type ℓ} {B : Type κ} → Outcome A → (A → Parse B) → Outcome B
after (done a r) f = f a r
after (thrown e r) f = thrown e r

infixl 5 ◌>>=◌ ◌>>◌
abbrev pub ◌>>=◌ {ℓ κ} : {A : Type ℓ} {B : Type κ} → Parse A → (A → Parse B) → Parse B
◌>>=◌ m f r = after (m r) f

abbrev pub ◌>>◌ {ℓ κ} : {A : Type ℓ} {B : Type κ} → Parse A → Parse B → Parse B
◌>>◌ m k = m >>= λ _. k

abbrev pub return {ℓ} : {A : Type ℓ} → A → Parse A
return a r = done a r

abbrev pub throw {ℓ} : {A : Type ℓ} → Failure → Parse A
throw e r = thrown e r

abbrev pub guard : Bool → Failure → Parse (Unit {0})
guard true e = return tt
guard false e = throw e

-- The result of a whole call, whose reader is dropped.
abbrev pub result {ℓ} : {A : Type ℓ} → Outcome A → Result A
result (done a r) = ok a
result (thrown e r) = fail e

unfoldable pub position : PacketReader → ℕ
position r = r.offset

unfoldable pub remaining : PacketReader → ℕ
remaining r = length r.buf - r.offset

abbrev pub advance : ℕ → PacketReader → PacketReader
advance n r = record r { offset = r.offset + n }

-- The next `n` bytes.
abbrev pub window : ℕ → PacketReader → List ℕ
window n r = take n (drop r.offset r.buf)

-- Bytes that a Buffer read takes; it throws a RangeError when they are not all there.
unfoldable pub fixed : ℕ → Parse (List ℕ)
fixed n r =
    if leb (r.offset + n) (length r.buf)
    then done (window n r) (advance n r)
    else thrown range_error r

abbrev pub signed_value : ℕ → List ℕ → ℤ
signed_value size bs = signed (half_range size) (be_value 0 bs)

unfoldable pub parse_byte : Parse ℤ
parse_byte = do bs ← fixed 1; return (signed_value 1 bs)

unfoldable pub parse_ubyte : Parse ℕ
parse_ubyte = do bs ← fixed 1; return (be_value 0 bs)

unfoldable pub parse_short : Parse ℤ
parse_short = do bs ← fixed 2; return (signed_value 2 bs)

unfoldable pub parse_int : Parse ℤ
parse_int = do bs ← fixed 4; return (signed_value 4 bs)

unfoldable pub parse_long : Parse ℤ
parse_long = do bs ← fixed 8; return (signed_value 8 bs)

-- A float or a double is its bit pattern.
unfoldable pub parse_float : Parse ℕ
parse_float = do bs ← fixed 4; return (be_value 0 bs)

unfoldable pub parse_double : Parse ℕ
parse_double = do bs ← fixed 8; return (be_value 0 bs)

-- `assertAvailable`, and the length as a number of bytes.
unfoldable pub assert_available : ℤ → Parse ℕ
unfolding remaining
assert_available (pos n) r = if leb n (remaining r) then done n r else thrown range_error r
assert_available (negsuc n) r = thrown range_error r

-- `n` bytes that are known to be there.
abbrev pub taken : ℕ → Parse (List ℕ)
taken n r = done (window n r) (advance n r)

unfoldable pub parse_bytes : ℤ → Parse (List ℕ)
unfolding assert_available
parse_bytes size = do n ← assert_available size; taken n

-- The bytes without the NULs at their end.
unfoldable pub strip_nul : List ℕ → List ℕ
strip_nul [] = []
strip_nul (b ∷ bs) = elim (strip_nul bs) [
  | [] ↦ if b == 0 then [] else b ∷ []
  | c ∷ cs ↦ b ∷ c ∷ cs
]

unfoldable pub parse_null_term_string : ℤ → Parse (List ℕ)
unfolding assert_available
parse_null_term_string (pos zero) = return []
parse_null_term_string (pos (suc n)) = do
  m ← assert_available (pos (suc n))
  raw ← taken m
  return (utf8_decode (strip_nul raw))
parse_null_term_string (negsuc n) = return []

-- A reader over the next bytes alone; this reader moves past them.
unfoldable pub sub_reader : ℤ → Parse PacketReader
unfolding assert_available
sub_reader size = do n ← assert_available size; bytes ← taken n; return (new_reader bytes)

-- A decoder on a reader of its own: what it leaves of that reader is not this reader's concern.
abbrev pub within {ℓ} : {A : Type ℓ} → PacketReader → Parse A → Parse A
within cell p r = elim (p cell) [ done a _ ↦ done a r | thrown e _ ↦ thrown e r ]

unfoldable pub skip : ℤ → Parse (Unit {0})
unfolding assert_available
skip size = do n ← assert_available size; _ ← taken n; return tt

unfoldable pub parse_cas_info : Parse (List ℕ)
parse_cas_info = parse_bytes (pos 4)

-- Whether the next shorts, `n` of them, are all zero; nothing is consumed.
unfoldable pub peek_zeros : ℕ → ℕ → Parse Bool
unfolding fixed
peek_zeros zero i r = done true r
peek_zeros (suc n) i r = elim (fixed 2 (advance (i * 2) r)) [
  | done bs _ ↦ if signed_value 2 bs ==ℤ pos 0 then peek_zeros n (i + 1) r else done false r
  | thrown e _ ↦ thrown e r
]

unfoldable pub peek_zero_date : Parse Bool
unfolding peek_zeros
peek_zero_date = peek_zeros 3 0

-- The arguments of `localDate`; its month counts from 0.
pub record LocalDate : Type 0 where
  pub year : ℤ
  pub month : ℤ
  pub day : ℤ
  pub hour : ℤ
  pub minute : ℤ
  pub second : ℤ
  pub ms : ℤ

unfoldable pub parse_datetime : Parse LocalDate
parse_datetime = do
  year ← parse_short
  month ← parse_short
  day ← parse_short
  hour ← parse_short
  minute ← parse_short
  second ← parse_short
  ms ← parse_short
  return (record {
    year = year;
    month = month -ℤ pos 1;
    day = day;
    hour = hour;
    minute = minute;
    second = second;
    ms = ms;
  })

unfoldable pub parse_timestamp : Parse LocalDate
parse_timestamp = do
  year ← parse_short
  month ← parse_short
  day ← parse_short
  hour ← parse_short
  minute ← parse_short
  second ← parse_short
  return (record {
    year = year;
    month = month -ℤ pos 1;
    day = day;
    hour = hour;
    minute = minute;
    second = second;
    ms = pos 0;
  })

unfoldable pub parse_date : Parse LocalDate
parse_date = do
  year ← parse_short
  month ← parse_short
  day ← parse_short
  return (record {
    year = year;
    month = month -ℤ pos 1;
    day = day;
    hour = pos 0;
    minute = pos 0;
    second = pos 0;
    ms = pos 0;
  })

-- `new Date(1970, 0, 1, hour, minute, second)`.
unfoldable pub parse_time : Parse (ℤ × ℤ × ℤ)
parse_time = do
  hour ← parse_short
  minute ← parse_short
  second ← parse_short
  return (hour, minute, second)

pub record ServerError : Type 0 where
  pub code : ℤ
  pub message : List ℕ

-- The error block: a code, and the message in the rest of `response_length` bytes.
unfoldable pub read_error : ℤ → Parse ServerError
read_error response_length = do
  code ← parse_int
  message ← parse_null_term_string (response_length -ℤ pos 4)
  return (record { code = code; message = message })
