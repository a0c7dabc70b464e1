-- ===== src/Writer.antt =====
-- PacketWriter (src/protocol/packet-writer.ts): a growing buffer and a write position.
-- A method returns the writer that it leaves behind; a builder is a `do` block of methods, and a
-- Buffer write out of range throws.
pub mod Spec
pub mod Grow
pub mod Emits
pub mod Fields
use cubrid_client.Base.{
  ℕ, zero, suc, ◌+◌, ◌-◌, ◌*◌, ◌^◌, Bool, List, [], ◌∷◌, ◌++◌, ltb, leb, if◌then◌else◌, ℤ, pos,
  length, take, drop, replicate, min,
}
use cubrid_client.Buffer.{be_bytes, word, fits, half_range}
use cubrid_client.Failure.{Result, ok, fail, range_error, diverges, ◌>>=◌}
use cubrid_client.Text.{utf8_encode}

pub record PacketWriter : Type 0 where
  pub buf : List ℕ
  pub offset : ℕ

unfoldable pub new_writer : ℕ → PacketWriter
new_writer capacity = record { buf = replicate capacity 0; offset = 0 }

abbrev pub Write : Type 0
Write = PacketWriter → Result PacketWriter

-- One method after another on the same writer.
infixl 5 ◌>>◌
abbrev pub ◌>>◌ : Write → Write → Write
◌>>◌ m k w = m w >>= k

-- `while (newSize < target) newSize *= GROWTH_FACTOR`, on fuel.
unfoldable pub grow_size : ℕ → ℕ → ℕ → Result ℕ
grow_size zero size target = if ltb size target then fail diverges else ok size
grow_size (suc fuel) size target =
    let more = grow_size fuel (size * 2) target in if ltb size target then more else ok size

-- The size doubles from 1 at least, so `target` rounds are enough.
unfoldable pub ensure_capacity : ℕ → Write
ensure_capacity needed w = if leb (w.offset + needed) (length w.buf) then ok w else do
  size ← grow_size (w.offset + needed) (length w.buf * 2) (w.offset + needed)
  ok (record w { buf = take w.offset w.buf ++ replicate (size - w.offset) 0 })

-- The bytes laid over the buffer at the write position, which moves past them.
abbrev pub put : List ℕ → Write
put bs w = ok (record {
  buf = take w.offset w.buf ++ (bs ++ drop (w.offset + length bs) w.buf);
  offset = w.offset + length bs;
})

-- `writeInt8`, `writeInt16BE`, `writeInt32BE`, `writeBigInt64BE`: they throw out of range.
abbrev pub put_int : ℕ → ℤ → Write
put_int size value w =
    if fits (half_range size) value
    then put (be_bytes size (word (half_range size) value)) w
    else fail range_error

unfoldable pub write_byte : ℤ → Write
write_byte value w = do w' ← ensure_capacity 1 w; put_int 1 value w'

unfoldable pub write_short : ℤ → Write
write_short value w = do w' ← ensure_capacity 2 w; put_int 2 value w'

unfoldable pub write_int : ℤ → Write
write_int value w = do w' ← ensure_capacity 4 w; put_int 4 value w'

unfoldable pub write_long : ℤ → Write
write_long value w = do w' ← ensure_capacity 8 w; put_int 8 value w'

-- A double is given by its bit pattern; writing a pattern cannot fail.
unfoldable pub write_double : ℕ → Write
write_double bits w = do w' ← ensure_capacity 8 w; put (be_bytes 8 bits) w'

unfoldable pub write_float : ℕ → Write
write_float bits w = do w' ← ensure_capacity 4 w; put (be_bytes 4 bits) w'

unfoldable pub write_bytes : List ℕ → Write
write_bytes bs w = do w' ← ensure_capacity (length bs) w; put bs w'

-- The first `size` bytes of the text, filled up with zeros.
unfoldable pub write_fixed_string : List ℕ → ℕ → Write
write_fixed_string value size w = do
  w' ← ensure_capacity size w
  let copy_len = min (length (utf8_encode value)) size
  put (take copy_len (utf8_encode value) ++ replicate (size - copy_len) 0) w'

unfoldable pub write_null_term_string : List ℕ → Write
write_null_term_string value = do
  write_int (pos (length (utf8_encode value) + 1))
  write_bytes (utf8_encode value)
  write_byte (pos 0)

unfoldable pub add_byte : ℤ → Write
add_byte value = do write_int (pos 1); write_byte value

unfoldable pub add_short : ℤ → Write
add_short value = do write_int (pos 2); write_short value

unfoldable pub add_int : ℤ → Write
add_int value = do write_int (pos 4); write_int value

unfoldable pub add_long : ℤ → Write
add_long value = do write_int (pos 8); write_long value

unfoldable pub add_float : ℕ → Write
add_float bits = do write_int (pos 4); write_float bits

unfoldable pub add_double : ℕ → Write
add_double bits = do write_int (pos 8); write_double bits

unfoldable pub add_bytes : List ℕ → Write
add_bytes bs = do write_int (pos (length bs)); write_bytes bs

unfoldable pub add_null : Write
add_null = write_int (pos 0)

-- The components that `getFullYear`, `getMonth() + 1`, ..., `getMilliseconds` give of a Date.
pub record DateFields : Type 0 where
  pub year : ℤ
  pub month : ℤ
  pub day : ℤ
  pub hour : ℤ
  pub minute : ℤ
  pub second : ℤ
  pub millisecond : ℤ

-- The seven shorts of a date and time, as every writer of one lays them out.
unfoldable pub write_date_fields : DateFields → Write
write_date_fields d = do
  write_short d.year
  write_short d.month
  write_short d.day
  write_short d.hour
  write_short d.minute
  write_short d.second
  write_short d.millisecond

unfoldable pub add_datetime : DateFields → Write
add_datetime d = do write_int (pos 14); write_date_fields d

unfoldable pub add_date : DateFields → Write
add_date d = do
  write_int (pos 14)
  write_date_fields (record d { hour = pos 0; minute = pos 0; second = pos 0; millisecond = pos 0 })

unfoldable pub to_buffer : PacketWriter → List ℕ
to_buffer w = take w.offset w.buf

-- What the builders do: a new writer, the methods, and the written part.
unfoldable pub build : ℕ → Write → Result (List ℕ)
build capacity m = do w ← m (new_writer capacity); ok (to_buffer w)

-- `PacketWriter.buildHeader`: the frame's data length and the first four bytes of CAS_INFO.
unfoldable pub build_header : ℕ → List ℕ → Result (List ℕ)
build_header data_length cas_info =
    if ltb data_length (2 ^ 32)
    then ok
        (be_bytes 4 data_length ++ (take 4 cas_info ++ replicate (4 - min 4 (length cas_info)) 0))
    else fail range_error
