-- ===== src/Tests/Cells.antt =====
-- An unsupported value in a cell of eight bytes: it is stepped over, up to the next cell.
use cubrid_client.Base.{◌≡◌, refl, true, false, [], ◌∷◌, ◌+◌, pos, pos_part, none}
use cubrid_client.Columns.{ColumnMeta}
use cubrid_client.Constants.{type_object}
use cubrid_client.Reader.{PacketReader, done}
use cubrid_client.Value.Read.{read_value, read_value_fuel, read_value_with}
use cubrid_client.Rows.{read_sized_cell}
use cubrid_client.Rows.Exact.{EndsAt, read_sized_cell-EndsAt}

abbrev object_column : ColumnMeta
object_column = record {
  type = type_object;
  element_type = none;
  scale = pos 0;
  precision = pos 0;
  name = b'o' ∷ [];
  real_name = [];
  table_name = [];
  is_nullable = true;
  default_value = [];
  is_auto_increment = false;
  is_unique_key = false;
  is_primary_key = false;
  is_foreign_key = false;
}

abbrev reader : PacketReader
reader = record { buf = 0 ∷ 1 ∷ 2 ∷ 3 ∷ 4 ∷ 5 ∷ 6 ∷ 7 ∷ 8 ∷ 9 ∷ []; offset = 1 }

steps_over :
    read_sized_cell object_column false (pos 8) reader ≡ done none (record reader { offset = 9 })
unfolding read_sized_cell read_value read_value_fuel read_value_with
steps_over = refl

read_sized_cell-EndsAt_example :
    EndsAt (reader.offset + pos_part (pos 8)) (read_sized_cell object_column false (pos 8) reader)
read_sized_cell-EndsAt_example = read_sized_cell-EndsAt object_column false (pos 8) reader
