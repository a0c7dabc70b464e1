-- ===== src/Value/Lob.antt =====
-- readLobLocator: the handle's db_type, the content's size and the locator with its NUL.
use cubrid_client.Base.{
  ℕ, ◌-◌, ◌^◌, not, ◌&&◌, List, leb, ◌==◌, pos, ◌==ℤ◌, ◌+ℤ◌, leb_ℤ, pos_part, get_or,
}
use cubrid_client.Constants.{CubridDataType, type_blob}
use cubrid_client.Failure.{error}
use cubrid_client.Reader.{
  Parse, return, guard, within, ◌>>=◌, ◌>>◌, new_reader, parse_bytes, parse_int, parse_long,
}
use cubrid_client.Value.{LobLocator}

-- The handle's own number for a BLOB or a CLOB.
unfoldable pub lob_db_type : CubridDataType → ℕ
lob_db_type type_blob = 33
lob_db_type _ = 34

-- Number.MAX_SAFE_INTEGER.
abbrev pub max_safe_integer : ℕ
max_safe_integer = 2 ^ 53 - 1

-- The header of the handle, on a reader of its own, and the locator that it announces.
unfoldable pub read_lob_header : CubridDataType → ℕ → List ℕ → Parse LobLocator
unfolding lob_db_type
read_lob_header col_type size handle = do
  db_type ← parse_int
  lob_size ← parse_long
  locator_length ← parse_int
  guard (db_type ==ℤ pos (lob_db_type col_type)) error
  guard (leb_ℤ (pos 0) lob_size && leb_ℤ lob_size (pos max_safe_integer)) error
  guard (pos 16 +ℤ locator_length ==ℤ pos size) error
  guard (not (locator_length ==ℤ pos 0) && get_or handle (size - 1) 1 == 0) error
  return (record { type = col_type; size = pos_part lob_size; handle = handle })

unfoldable pub read_lob_locator : CubridDataType → ℕ → Parse LobLocator
unfolding read_lob_header
read_lob_locator col_type size = do
  handle ← parse_bytes (pos size)
  guard (leb 16 size) error
  within (new_reader handle) (read_lob_header col_type size handle)
