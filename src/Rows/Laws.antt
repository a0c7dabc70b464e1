-- ===== src/Rows/Laws.antt =====
-- parseColumnMetadata and parseRowData under the rules of Reader.Rules.
use cubrid_client.Base.{
  ℕ, zero, suc, ◌+◌, refl, arith, Bool, true, false, not, ◌||◌, List, [], ◌∷◌, ℤ, pos, negsuc, ◌-ℤ◌,
  some, none,
}
use cubrid_client.Columns.{
  ColumnMeta, column_type_from, second_byte, parse_column_type, parse_column, parse_column_metadata,
}
use cubrid_client.Constants.{CubridDataType}
use cubrid_client.Failure.{
  range_error, error, unsupported_value, malformed_reply, cas_reply, diverges,
}
use cubrid_client.Reader.{PacketReader, Outcome, done, thrown, position}
use cubrid_client.Reader.Rules.{
  Good, Good-Onward, Steady, steady_rules, Steady-return, Steady-bind, Steady-skip,
  Steady-parse_int, Steady-guard, Steady-then,
}
use cubrid_client.Rows.{
  Row, here, caught, decode_cell, read_cell_value, read_typed_cell, read_type_header,
  read_sized_cell, read_cell, read_cells, read_rows, parse_row_data, set_if,
}
use cubrid_client.Value.{Value, null}
use cubrid_client.Value.Collection.{is_none}
use cubrid_client.Value.Fuel.{Steady-read_value}
use cubrid_client.Value.Scalars.{Steady-assert_exact_length}

Steady-here : Steady here
Steady-here = record { at = λ r. (refl, omega arith) }

Steady-second_byte : (first : ℕ) → Steady (second_byte first)
unfolding second_byte
Steady-second_byte first = search steady_rules depth 10

Steady-column_type_from : (first : ℕ) → Steady (column_type_from first)
unfolding column_type_from
Steady-column_type_from first = search (steady_rules, Steady-second_byte) depth 10

pub Steady-parse_column_type : Steady parse_column_type
unfolding parse_column_type
Steady-parse_column_type = search (steady_rules, Steady-column_type_from) depth 10

Steady-parse_column : Steady parse_column
unfolding parse_column
Steady-parse_column = search (steady_rules, Steady-parse_column_type) depth 60

pub Steady-parse_column_metadata : (n : ℕ) → Steady (parse_column_metadata n)
unfolding parse_column_metadata
Steady-parse_column_metadata zero = Steady-return []
Steady-parse_column_metadata (suc n) = Steady-bind Steady-parse_column (λ column.
    Steady-bind (Steady-parse_column_metadata n) (λ columns. Steady-return (column ∷ columns)))

Steady-read_type_header :
    (t : CubridDataType) (b : Bool) (size : ℕ) → Steady (read_type_header t b size)
unfolding read_type_header
Steady-read_type_header t false size = Steady-return (t, size)
Steady-read_type_header t true size =
    search (steady_rules, Steady-here, Steady-parse_column_type) depth 20

Steady-decode_cell : (t : CubridDataType) (size start : ℕ) → Steady (decode_cell t size start)
unfolding decode_cell
Steady-decode_cell t size start =
    search (steady_rules, Steady-read_value, Steady-here, Steady-assert_exact_length) depth 20

Good-caught : (end : ℕ) (r : PacketReader) (o : Outcome Value) → Good r o → Good r (caught end o)
Good-caught end r (done v r') g = g
Good-caught end r (thrown unsupported_value r') (g, x) =
    Good-Onward _ g
      ((Steady-then (Steady-skip (pos end -ℤ pos (position r'))) (Steady-return none)).at r')
Good-caught end r (thrown range_error r') g = g
Good-caught end r (thrown error r') g = g
Good-caught end r (thrown malformed_reply r') g = g
Good-caught end r (thrown (cas_reply a b m) r') g = g
Good-caught end r (thrown diverges r') (g, x) = absurd x

Steady-read_cell_value : (t : CubridDataType) (size : ℕ) → Steady (read_cell_value t size)
unfolding read_cell_value
Steady-read_cell_value t size = record {
  at = λ r. Good-caught (position r + size) r _ ((Steady-decode_cell t size (position r)).at r);
}

Steady-read_typed_cell : (t : CubridDataType) (size : ℕ) → Steady (read_typed_cell (t, size))
unfolding read_typed_cell
Steady-read_typed_cell t size = search (steady_rules, Steady-read_cell_value) depth 8

Steady-read_sized_cell : (c : ColumnMeta) (b : Bool) (size : ℤ) → Steady (read_sized_cell c b size)
unfolding read_sized_cell
Steady-read_sized_cell c b (pos n) =
    Steady-bind (Steady-read_type_header c.type b n) (λ (t, m). Steady-read_typed_cell t m)
Steady-read_sized_cell c b (negsuc n) = Steady-return (some null)

Steady-read_cell : (b : Bool) (c : ColumnMeta) → Steady (read_cell b c)
unfolding read_cell
Steady-read_cell b c = search (steady_rules, Steady-read_sized_cell) depth 12

Steady-read_cells :
    (b : Bool) (columns : List ColumnMeta) (row : Row) (seen : Bool)
    → Steady (read_cells b columns row seen)
unfolding read_cells
Steady-read_cells b [] row seen = Steady-return {A = Row × Bool} (row, seen)
Steady-read_cells b (c ∷ cs) row seen =
    Steady-bind (Steady-read_cell b c)
      (λ v. Steady-read_cells b cs (set_if c.name v row) (seen || is_none v))

Steady-read_rows :
    (b : Bool) (columns : List ColumnMeta) (n : ℕ) (seen : Bool)
    → Steady (read_rows b columns n seen)
unfolding read_rows
Steady-read_rows b columns zero seen = Steady-return {A = List Row × Bool} ([], seen)
Steady-read_rows b columns (suc n) seen = Steady-bind Steady-parse_int (λ _.
    Steady-then (Steady-skip (pos 8)) (
      Steady-bind (Steady-read_cells b columns [] seen) (λ (row, seen').
        Steady-bind (Steady-read_rows b columns n seen')
          (λ (rows, seen''). Steady-return {A = List Row × Bool} (row ∷ rows, seen'')))))

pub Steady-parse_row_data :
    (columns : List ColumnMeta) (n : ℕ) (b : Bool) → Steady (parse_row_data columns n b)
unfolding parse_row_data
Steady-parse_row_data columns n b =
    Steady-bind (Steady-read_rows b columns n false) (λ (rows, seen).
      Steady-then (Steady-guard (not seen) unsupported_value tt) (Steady-return rows))
