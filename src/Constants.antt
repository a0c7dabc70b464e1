-- ===== src/Constants.antt =====
-- Constants of the CAS protocol (src/protocol/constants.ts).
use cubrid_client.Base.{
  ℕ, ◌+◌, ◌*◌, ◌<◌, ◌≡◌, refl, Bool, List, [], ◌∷◌, bit_or, get_or, ◌==◌, ==_iff, tests_to,
  tests_to_lem,
}

-- CASFunctionCode.
pub data CasFunctionCode : Type 0 where
  end_tran prepare execute get_db_parameter set_db_parameter close_req_handle fetch schema_info
        get_db_version execute_batch con_close check_cas lob_read get_last_insert_id
        prepare_and_execute :
      CasFunctionCode

unfoldable pub function_code : CasFunctionCode → ℕ
function_code end_tran = 1
function_code prepare = 2
function_code execute = 3
function_code get_db_parameter = 4
function_code set_db_parameter = 5
function_code close_req_handle = 6
function_code fetch = 8
function_code schema_info = 9
function_code get_db_version = 15
function_code execute_batch = 20
function_code con_close = 31
function_code check_cas = 32
function_code lob_read = 37
function_code get_last_insert_id = 40
function_code prepare_and_execute = 41

-- CUBRIDDataType. A type byte that has no name here stays a number: `other`.
pub data CubridDataType : Type 0 where
  type_null type_char type_string type_nchar type_varnchar type_bit type_varbit type_numeric
        type_int type_short type_monetary type_float type_double type_date type_time type_timestamp
        type_set type_multiset type_sequence type_object type_resultset type_bigint type_datetime
        type_blob type_clob type_enum type_timestamptz type_timestampltz type_datetimetz
        type_datetimeltz type_json :
      CubridDataType
  type_other : ℕ → CubridDataType

-- The types by their wire code, from 0 on.
abbrev wire_types : List CubridDataType
wire_types =
    type_null
    ∷ type_char
    ∷ type_string
    ∷ type_nchar
    ∷ type_varnchar
    ∷ type_bit
    ∷ type_varbit
    ∷ type_numeric
    ∷ type_int
    ∷ type_short
    ∷ type_monetary
    ∷ type_float
    ∷ type_double
    ∷ type_date
    ∷ type_time
    ∷ type_timestamp
    ∷ type_set
    ∷ type_multiset
    ∷ type_sequence
    ∷ type_object
    ∷ type_resultset
    ∷ type_bigint
    ∷ type_datetime
    ∷ type_blob
    ∷ type_clob
    ∷ type_enum
    ∷ type_other 26
    ∷ type_other 27
    ∷ type_other 28
    ∷ type_timestamptz
    ∷ type_timestampltz
    ∷ type_datetimetz
    ∷ type_datetimeltz
    ∷ type_other 33
    ∷ type_json
    ∷ []

-- The type that a wire byte stands for.
unfoldable pub type_of_code : ℕ → CubridDataType
type_of_code code = get_or wire_types code (type_other code)

unfoldable pub type_code : CubridDataType → ℕ
type_code type_null = 0
type_code type_char = 1
type_code type_string = 2
type_code type_nchar = 3
type_code type_varnchar = 4
type_code type_bit = 5
type_code type_varbit = 6
type_code type_numeric = 7
type_code type_int = 8
type_code type_short = 9
type_code type_monetary = 10
type_code type_float = 11
type_code type_double = 12
type_code type_date = 13
type_code type_time = 14
type_code type_timestamp = 15
type_code type_set = 16
type_code type_multiset = 17
type_code type_sequence = 18
type_code type_object = 19
type_code type_resultset = 20
type_code type_bigint = 21
type_code type_datetime = 22
type_code type_blob = 23
type_code type_clob = 24
type_code type_enum = 25
type_code type_timestamptz = 29
type_code type_timestampltz = 30
type_code type_datetimetz = 31
type_code type_datetimeltz = 32
type_code type_json = 34
type_code (type_other n) = n

-- For a byte, the type that it stands for has that byte as its code.
pub type_code-type_of_code : (code : ℕ) → code < 256 → type_code (type_of_code code) ≡ code
unfolding type_code type_of_code tests_to
type_code-type_of_code code h = (==_iff _ code).0 (tests_to_lem check 256 code h refl)
  where
    check : ℕ → Bool
    check c = type_code (type_of_code c) == c

-- CAS_MAGIC, CAS_MAGIC_SSL, CLIENT_JDBC and CAS_VERSION: the indicator 0x40 and version 7.
abbrev pub cas_magic : List ℕ
cas_magic = b'C' ∷ b'U' ∷ b'B' ∷ b'R' ∷ b'K' ∷ []

abbrev pub cas_magic_ssl : List ℕ
cas_magic_ssl = b'C' ∷ b'U' ∷ b'B' ∷ b'R' ∷ b'S' ∷ []

abbrev pub cas_protocol_version : ℕ
cas_protocol_version = 7

abbrev pub cas_version : ℕ
cas_version = bit_or 0x40 cas_protocol_version

-- The blocks of an OpenDatabase request.
abbrev pub open_db_field_size : ℕ
open_db_field_size = 32

abbrev pub open_db_filler_size : ℕ
open_db_filler_size = 512

abbrev pub open_db_reserved_size : ℕ
open_db_reserved_size = 20

abbrev pub open_db_total_size : ℕ
open_db_total_size = open_db_field_size * 3 + open_db_filler_size + open_db_reserved_size

-- StatementType.SELECT: the one statement type whose replies carry rows.
abbrev pub statement_select : ℕ
statement_select = 21

-- StatementType.INSERT, which REPLACE replies as too.
abbrev pub statement_insert : ℕ
statement_insert = 20

-- DEFAULT_MAX_FRAME_LENGTH.
abbrev pub default_max_frame_length : ℕ
default_max_frame_length = 1024 * 1024 * 1024
