-- ===== src/Columns.antt =====
-- Column metadata: parseColumnType and parseColumnMetadata of protocol.ts.
use cubrid_client.Base.{
  ℕ, zero, suc, Bool, ◌==◌, List, [], ◌∷◌, if◌then◌else◌, ℤ, pos, ◌==ℤ◌, Option, some, none,
  bit_and,
}
use cubrid_client.Constants.{CubridDataType, type_of_code, type_set, type_multiset, type_sequence}
use cubrid_client.Reader.{
  Parse, return, ◌>>=◌, parse_byte, parse_ubyte, parse_short, parse_int, parse_null_term_string,
}

pub record ColumnType : Type 0 where
  pub type : CubridDataType
  pub element_type : Option CubridDataType

pub record ColumnMeta : Type 0 where
  pub type : CubridDataType
  pub element_type : Option CubridDataType
  pub scale : ℤ
  pub precision : ℤ
  pub name : List ℕ
  pub real_name : List ℕ
  pub table_name : List ℕ
  pub is_nullable : Bool
  pub default_value : List ℕ
  pub is_auto_increment : Bool
  pub is_unique_key : Bool
  pub is_primary_key : Bool
  pub is_foreign_key : Bool

-- COLLECTION_KIND_BY_FLAG, at the bits of COLLECTION_KIND_MASK.
unfoldable pub collection_kind : ℕ → Option CubridDataType
collection_kind flag =
    if flag == 0x20
    then some type_set
    else if flag == 0x40
    then some type_multiset
    else if flag == 0x60
    then some type_sequence
    else none

abbrev collection_or_plain : Option CubridDataType → CubridDataType → ColumnType
collection_or_plain none wire_type = record { type = wire_type; element_type = none }
collection_or_plain (some kind) wire_type = record { type = kind; element_type = some wire_type }

-- The second byte of a type, behind a first byte with bit 0x80.
unfoldable pub second_byte : ℕ → Parse ColumnType
unfolding collection_kind
second_byte first = do
  wire_type ← parse_ubyte
  return (collection_or_plain (collection_kind (bit_and first 0x60)) (type_of_code wire_type))

unfoldable pub column_type_from : ℕ → Parse ColumnType
unfolding second_byte
column_type_from first =
    if bit_and first 0x80 == 0
    then return (record { type = type_of_code first; element_type = none })
    else second_byte first

unfoldable pub parse_column_type : Parse ColumnType
unfolding column_type_from
parse_column_type = do first ← parse_ubyte; column_type_from first

-- A text behind its length.
abbrev sized_text : Parse (List ℕ)
sized_text = do size ← parse_int; parse_null_term_string size

abbrev parse_flag : ℤ → Parse Bool
parse_flag value = do b ← parse_byte; return (b ==ℤ value)

unfoldable pub parse_column : Parse ColumnMeta
parse_column = do
  column_type ← parse_column_type
  scale ← parse_short
  precision ← parse_int
  name ← sized_text
  real_name ← sized_text
  table_name ← sized_text
  is_nullable ← parse_flag (pos 0)
  default_value ← sized_text
  is_auto_increment ← parse_flag (pos 1)
  is_unique_key ← parse_flag (pos 1)
  is_primary_key ← parse_flag (pos 1)
  _ ← parse_byte
  _ ← parse_byte
  is_foreign_key ← parse_flag (pos 1)
  _ ← parse_byte
  return (record {
    type = column_type.type;
    element_type = column_type.element_type;
    scale = scale;
    precision = precision;
    name = name;
    real_name = real_name;
    table_name = table_name;
    is_nullable = is_nullable;
    default_value = default_value;
    is_auto_increment = is_auto_increment;
    is_unique_key = is_unique_key;
    is_primary_key = is_primary_key;
    is_foreign_key = is_foreign_key;
  })

-- A loop of `count` rounds; a negative count makes none.
unfoldable pub parse_column_metadata : ℕ → Parse (List ColumnMeta)
parse_column_metadata zero = return []
parse_column_metadata (suc n) = do
  column ← parse_column
  columns ← parse_column_metadata n
  return (column ∷ columns)
