-- ===== src/Sql.antt =====
-- Client-side SQL: formatValue, escapeString, formatDatetime and interpolateParams of
-- src/protocol/protocol.ts, over texts as their UTF-16 code units.
pub mod Scan
pub mod Literal
pub mod Interpolate
pub mod Backslash
use cubrid_client.Base.{
  ℕ, zero, suc, ◌+◌, ◌-◌, ◌/◌, ◌%◌, Bool, true, false, ◌||◌, List, [], ◌∷◌, ◌++◌, ltb, ◌==◌,
  if◌then◌else◌, ℤ, pos, negsuc, includes, length, replicate,
}
use cubrid_client.Failure.{Result, ok, fail, error, ◌>>=◌}
use cubrid_client.Param.{
  Param, null, boolean, number, bigint, text, date, invalid_date, buffer, other,
}
use cubrid_client.Writer.{DateFields}

-- `value.replace(/c/g, by)`.
unfoldable pub replace_all : ℕ → List ℕ → List ℕ → List ℕ
replace_all c by [] = []
replace_all c by (x ∷ xs) = (if x == c then by else x ∷ []) ++ replace_all c by xs

-- NUL and Ctrl-Z are refused.
unfoldable pub assert_storable_text : List ℕ → Result (Unit {0})
assert_storable_text value =
    if includes 0 value then fail error else if includes 0x1a value then fail error else ok tt

abbrev pub backslash : ℕ
backslash = 0x5c

abbrev pub quote : ℕ
quote = 0x27

abbrev pub carriage_return : ℕ
carriage_return = 0x0d

abbrev pub line_feed : ℕ
line_feed = 0x0a

-- The text between the quotes: in literal mode only the quote is doubled; in escape mode the
-- backslash is too, and a backslash goes before a CR or an LF.
unfoldable pub escape_body : List ℕ → Bool → List ℕ
unfolding replace_all
escape_body value true = replace_all quote (quote ∷ quote ∷ []) value
escape_body value false = replace_all line_feed (backslash ∷ line_feed ∷ []) (
    replace_all carriage_return (backslash ∷ carriage_return ∷ []) (
      replace_all quote (quote ∷ quote ∷ [])
        (replace_all backslash (backslash ∷ backslash ∷ []) value)))

unfoldable pub escape_string : List ℕ → Bool → Result (List ℕ)
unfolding assert_storable_text escape_body
escape_string value no_backslash_escapes = do
  _ ← assert_storable_text value
  ok (quote ∷ escape_body value no_backslash_escapes ++ (quote ∷ []))

-- Decimal digits, on fuel; a number has at most as many digits as it is large, and one.
unfoldable pub digits_from : ℕ → ℕ → List ℕ → List ℕ
digits_from zero n more = more
digits_from (suc fuel) n more =
    let here = (0x30 + n % 10) ∷ more in
    let front = digits_from fuel (n / 10) here in if ltb n 10 then here else front

unfoldable pub decimal : ℕ → List ℕ
unfolding digits_from
decimal n = digits_from (n + 1) n []

unfoldable pub decimal_ℤ : ℤ → List ℕ
unfolding decimal
decimal_ℤ (pos n) = decimal n
decimal_ℤ (negsuc n) = 0x2d ∷ decimal (suc n)

-- `padStart(width, "0")`.
unfoldable pub pad_start : ℕ → List ℕ → List ℕ
pad_start width s = replicate (width - length s) 0x30 ++ s

abbrev hex_digit : ℕ → ℕ
hex_digit d = if ltb d 10 then 0x30 + d else 0x57 + d

unfoldable pub hex : List ℕ → List ℕ
hex [] = []
hex (b ∷ bs) = hex_digit (b / 16) ∷ hex_digit (b % 16) ∷ hex bs

abbrev until : List ℕ → ℕ → List ℕ → List ℕ
until s c rest = s ++ (c ∷ rest)

-- `DATETIME'` and the closing quote round the components, texts already.
unfoldable pub datetime_literal :
    List ℕ → List ℕ → List ℕ → List ℕ → List ℕ → List ℕ → List ℕ → List ℕ
datetime_literal y mo d h mi s ms =
    b'D'
    ∷ b'A'
    ∷ b'T'
    ∷ b'E'
    ∷ b'T'
    ∷ b'I'
    ∷ b'M'
    ∷ b'E'
    ∷ quote
    ∷ until y b'-' (
        until mo b'-'
          (until d b' ' (until h b':' (until mi b':' (until s b'.' (until ms quote []))))))

unfoldable pub format_datetime : DateFields → List ℕ
unfolding datetime_literal pad_start decimal_ℤ
format_datetime d =
    datetime_literal (decimal_ℤ d.year) (pad_start 2 (decimal_ℤ d.month))
      (pad_start 2 (decimal_ℤ d.day)) (pad_start 2 (decimal_ℤ d.hour))
      (pad_start 2 (decimal_ℤ d.minute)) (pad_start 2 (decimal_ℤ d.second))
      (pad_start 3 (decimal_ℤ d.millisecond))

abbrev nan : List ℕ
nan = b'N' ∷ b'a' ∷ b'N' ∷ []

-- `String(value)` of a number is the language's own; it is the argument `number_text`.
unfoldable pub format_value : (ℕ → List ℕ) → Param → Bool → Result (List ℕ)
unfolding escape_string format_datetime hex decimal_ℤ datetime_literal
format_value number_text null mode = ok (b'N' ∷ b'U' ∷ b'L' ∷ b'L' ∷ [])
format_value number_text (boolean b) mode = ok ((if b then b'1' else b'0') ∷ [])
format_value number_text (number bits) mode = ok (number_text bits)
format_value number_text (bigint v) mode = ok (decimal_ℤ v)
format_value number_text (text s) mode = escape_string s mode
format_value number_text (date here utc) mode = ok (format_datetime utc)
format_value number_text invalid_date mode = ok (datetime_literal nan nan nan nan nan nan nan)
format_value number_text (buffer bs) mode = ok (b'X' ∷ quote ∷ hex bs ++ (quote ∷ []))
format_value number_text (other s) mode = escape_string s mode
