-- ===== src/Value/Zoned.antt =====
-- readZonedDateTime: the date and time fields, and the zone as text with its NUL.
use cubrid_client.Base.{
  ℕ, suc, ◌+◌, ◌-◌, ◌*◌, ◌%◌, Bool, true, false, not, ◌&&◌, ◌||◌, List, [], ◌∷◌, leb, ◌==◌,
  if◌then◌else◌, ℤ, pos, leb_ℤ, ◌==ℤ◌, length, take, get_or, Option, some, none, pos_part,
}
use mathlib.Core.Option
use cubrid_client.Constants.{CubridDataType, type_datetimetz, type_datetimeltz}
use cubrid_client.Failure.{error, unsupported_value}
use cubrid_client.Reader.{
  Parse, return, throw, guard, within, ◌>>=◌, ◌>>◌, sub_reader, parse_short, parse_bytes, remaining,
  done,
}
use cubrid_client.Text.{utf8_encode, utf8_decode}
use cubrid_client.Value.{ZonedDateTime}

-- `indexOf(0)`.
unfoldable pub index_of_nul : List ℕ → Option ℕ
index_of_nul [] = none
index_of_nul (b ∷ bs) =
    let later = Option.map suc (index_of_nul bs) in if b == 0 then some 0 else later

unfoldable pub same_bytes : List ℕ → List ℕ → Bool
same_bytes [] [] = true
same_bytes (a ∷ as') (b ∷ bs) = a == b && same_bytes as' bs
same_bytes _ _ = false

-- A byte order mark in front is dropped.
unfoldable pub drop_mark : List ℕ → List ℕ
drop_mark [] = []
drop_mark (u ∷ us) = if u == 0xfeff then us else u ∷ us

-- TextDecoder("utf-8", { fatal: true }): bytes that are no UTF-8 do not encode back to themselves.
unfoldable pub decode_zone_text : List ℕ → Parse (List ℕ)
unfolding same_bytes drop_mark
decode_zone_text bs =
    if same_bytes (utf8_encode (utf8_decode bs)) bs
    then return (drop_mark (utf8_decode bs))
    else throw error

unfoldable pub is_leap : ℕ → Bool
is_leap year = year % 4 == 0 && (not (year % 100 == 0) || year % 400 == 0)

unfoldable pub days_in_month : ℕ → ℕ → ℕ
unfolding is_leap
days_in_month year month =
    get_or
      (31
        ∷ (if is_leap year then 29 else 28)
        ∷ 31
        ∷ 30
        ∷ 31
        ∷ 30
        ∷ 31
        ∷ 31
        ∷ 30
        ∷ 31
        ∷ 30
        ∷ 31
        ∷ [])
      month 0

unfoldable pub has_milliseconds : CubridDataType → Bool
has_milliseconds type_datetimetz = true
has_milliseconds type_datetimeltz = true
has_milliseconds _ = false

abbrev between : ℤ → ℕ → ℕ → Bool
between v lo hi = leb_ℤ (pos lo) v && leb_ℤ v (pos hi)

unfoldable pub is_time_of_day : ℤ → ℤ → ℤ → ℤ → Bool
is_time_of_day hour minute second millisecond =
    between hour 0 23 && between minute 0 59 && between second 0 59 && between millisecond 0 999

unfoldable pub is_calendar_date : ℤ → ℤ → ℤ → Bool
unfolding days_in_month
is_calendar_date year month day =
    between year 1 9999
    && between month 1 12
    && between day 1 (days_in_month (pos_part year) (pos_part month - 1))

-- The zone text must end with the one NUL of the cell, and not be empty.
unfoldable pub is_zone_text : List ℕ → Bool
unfolding index_of_nul
is_zone_text zone = elim (index_of_nul zone) [
  | none ↦ false
  | some nul ↦ nul + 1 == length zone && not (nul == 0)
]

abbrev pub parse_short_if : Bool → Parse ℤ
parse_short_if true = parse_short
parse_short_if false = return (pos 0)

-- The fields and the zone, on a reader over the cell alone.
unfoldable pub read_zoned_fields : CubridDataType → Parse ZonedDateTime
unfolding has_milliseconds is_time_of_day is_calendar_date is_zone_text decode_zone_text
read_zoned_fields col_type = do
  year ← parse_short
  month ← parse_short
  day ← parse_short
  hour ← parse_short
  minute ← parse_short
  second ← parse_short
  millisecond ← parse_short_if (has_milliseconds col_type)
  guard (is_time_of_day hour minute second millisecond) error
  rest ← (λ r. done (remaining r) r)
  zone_bytes ← parse_bytes (pos rest)
  guard (is_zone_text zone_bytes) error
  zone ← decode_zone_text (take (length zone_bytes - 1) zone_bytes)
  guard (not (year ==ℤ pos 0 && month ==ℤ pos 0 && day ==ℤ pos 0)) unsupported_value
  guard (is_calendar_date year month day) error
  return (record {
    type = col_type;
    year = year;
    month = month;
    day = day;
    hour = hour;
    minute = minute;
    second = second;
    millisecond = millisecond;
    zone = zone;
  })

unfoldable pub read_zoned_date_time : CubridDataType → ℕ → Parse ZonedDateTime
unfolding has_milliseconds read_zoned_fields
read_zoned_date_time col_type size = do
  cell ← sub_reader (pos size)
  guard (leb (2 * (if has_milliseconds col_type then 7 else 6) + 2) size) error
  within cell (read_zoned_fields col_type)
