-- ===== src/Rows.antt =====
-- Row data: setColumn and parseRowData of protocol.ts.
pub mod Laws
pub mod Exact
use cubrid_client.Base.{
  ℕ, zero, suc, ◌+◌, ◌-◌, Bool, true, false, not, ◌&&◌, ◌||◌, List, [], ◌∷◌, leb, ◌==◌,
  if◌then◌else◌, ℤ, pos, negsuc, ◌-ℤ◌, Option, some, none,
}
use cubrid_client.Constants.{CubridDataType}
use cubrid_client.Columns.{ColumnMeta, ColumnType, parse_column_type}
use cubrid_client.Failure.{Failure, error, unsupported_value, malformed_reply, diverges}
use cubrid_client.Reader.{
  Parse, PacketReader, Outcome, done, thrown, return, throw, guard, ◌>>=◌, ◌>>◌, parse_int, skip,
  position,
}
use cubrid_client.Value.{
  Value, null, bytes, is_collection_type, is_bit_type, is_null_type, assert_exact_length,
}
use cubrid_client.Value.Collection.{is_none}
use cubrid_client.Value.Read.{read_value}
use cubrid_client.Value.Zoned.{same_bytes}

-- A row's own properties by name, in the order in which they were first set. The name `__proto__`
-- makes an own property like any other, so one function serves both branches of `setColumn`.
abbrev pub Row : Type 0
Row = List (List ℕ × Value)

unfoldable pub set_column : List ℕ → Value → Row → Row
set_column name value [] = (name, value) ∷ []
set_column name value ((k, v) ∷ row) =
    if same_bytes k name then (k, value) ∷ row else (k, v) ∷ set_column name value row

-- The current offset, as a value.
abbrev pub here : Parse ℕ
here r = done (position r) r

-- A cell length below -1, or of 0 where the cell must have a header, is malformed.
unfoldable pub is_cell_length : ℤ → CubridDataType → Bool → Bool
is_cell_length (pos zero) col_type has_type_header =
    not (is_collection_type col_type || has_type_header)
is_cell_length (pos (suc n)) col_type has_type_header = true
is_cell_length (negsuc zero) col_type has_type_header = true
is_cell_length (negsuc (suc n)) col_type has_type_header = false

-- A cell that states its own type gives it and the size that is left.
unfoldable pub read_type_header : CubridDataType → Bool → ℕ → Parse (CubridDataType × ℕ)
unfolding position
read_type_header col_type false size = return (col_type, size)
read_type_header col_type true size = do
  start ← here
  stated ← parse_column_type
  end ← here
  guard (leb (end - start) size) error
  return (stated.type, size - (end - start))

-- The catch block: an unsupported value is stepped over, any other failure is malformed.
abbrev pub caught : ℕ → Outcome Value → Outcome (Option Value)
caught end (done v r) = done (some v) r
caught end (thrown unsupported_value r) = (do skip (pos end -ℤ pos (position r)); return none) r
caught end (thrown diverges r) = thrown diverges r
caught end (thrown e r) = thrown malformed_reply r

-- The try block: the value must use up its cell, and only a bit string can be empty.
unfoldable pub decode_cell : CubridDataType → ℕ → ℕ → Parse Value
unfolding assert_exact_length position
decode_cell col_type size start = do
  value ← read_value col_type size
  end ← here
  assert_exact_length (end - start) size
  guard (not (size == 0)) error
  return value

unfoldable pub read_cell_value : CubridDataType → ℕ → Parse (Option Value)
unfolding decode_cell position skip
read_cell_value col_type size r =
    caught (position r + size) (decode_cell col_type size (position r) r)

unfoldable pub read_typed_cell : CubridDataType × ℕ → Parse (Option Value)
unfolding read_cell_value is_bit_type
read_typed_cell (col_type, size) =
    let cell = read_cell_value col_type size in
    if size == 0 && is_bit_type col_type then return (some (bytes [])) else cell

-- A cell of this length: -1 is SQL NULL.
unfoldable pub read_sized_cell : ColumnMeta → Bool → ℤ → Parse (Option Value)
unfolding read_type_header read_typed_cell
read_sized_cell column has_type_header (pos n) = do
  typed ← read_type_header column.type has_type_header n
  read_typed_cell typed
read_sized_cell column has_type_header (negsuc n) = return (some null)

-- One cell; `none` for a value that no decoder supports.
unfoldable pub read_cell : Bool → ColumnMeta → Parse (Option Value)
unfolding is_cell_length read_sized_cell is_null_type
read_cell is_call_type column = do
  size ← parse_int
  let has_type_header = is_call_type || is_null_type column.type
  guard (is_cell_length size column.type has_type_header) error
  read_sized_cell column has_type_header size

abbrev pub set_if : List ℕ → Option Value → Row → Row
set_if name none row = row
set_if name (some v) row = set_column name v row

-- The cells of one row, and whether an unsupported value has been seen so far.
unfoldable pub read_cells : Bool → List ColumnMeta → Row → Bool → Parse (Row × Bool)
unfolding read_cell set_column
read_cells is_call_type [] row seen = return (row, seen)
read_cells is_call_type (column ∷ columns) row seen = do
  value ← read_cell is_call_type column
  read_cells is_call_type columns (set_if column.name value row) (seen || is_none value)

-- The rows still to read, `n` of them.
unfoldable pub read_rows : Bool → List ColumnMeta → ℕ → Bool → Parse (List Row × Bool)
unfolding read_cells skip
read_rows is_call_type columns zero seen = return ([], seen)
read_rows is_call_type columns (suc n) seen = do
  _ ← parse_int
  skip (pos 8)
  (row, seen') ← read_cells is_call_type columns [] seen
  (rows, seen'') ← read_rows is_call_type columns n seen'
  return (row ∷ rows, seen'')

unfoldable pub parse_row_data : List ColumnMeta → ℕ → Bool → Parse (List Row)
unfolding read_rows
parse_row_data columns tuple_count is_call_type = do
  (rows, seen) ← read_rows is_call_type columns tuple_count false
  guard (not seen) unsupported_value
  return rows
