-- ===== src/Writer/Emits.antt =====
-- What each method emits, for values in the range of its width.
use cubrid_client.Base.{
  ℕ, ◌-◌, ◌≡◌, refl, arith, List, ◌++◌, ℤ, length, take, replicate, min, length-append, length-take,
  length-replicate, ◌^◌,
}
use cubrid_client.Failure.{◌>>=◌}
use cubrid_client.Buffer.{be_bytes, word, Fits, half_range}
use cubrid_client.Buffer.RoundTrip.{length-be_bytes, fits_of_Fits}
use cubrid_client.Text.{utf8_encode}
use cubrid_client.Writer.{
  Write, PacketWriter, ensure_capacity, put_int, write_byte, write_short, write_int, write_long,
  write_double, write_bytes, write_fixed_string,
}
use cubrid_client.Writer.Spec.{Emits}
use cubrid_client.Writer.Grow.{Emits-put}

-- The bytes of a signed integer of `size` bytes.
abbrev pub int_bytes : ℕ → ℤ → List ℕ
int_bytes size v = be_bytes size (word (half_range size) v)

-- `ensure_capacity size` and then the integer, as the four integer methods do.
put_int-Emits :
    (size : ℕ) (v : ℤ) {m : Write}
    → Fits (half_range size) v
    → ((w : PacketWriter) → m w ≡ (ensure_capacity size w >>= put_int size v))
    → Emits m (int_bytes size v)
put_int-Emits size v h e =
    Emits-put size (int_bytes size v) (length-be_bytes size _) e
      (λ w. rw (fits_of_Fits (half_range size) v h))

pub write_byte-Emits : (v : ℤ) → Fits 128 v → Emits (write_byte v) (int_bytes 1 v)
unfolding write_byte
write_byte-Emits v h = put_int-Emits 1 v h (λ w. refl)

pub write_short-Emits : (v : ℤ) → Fits (2 ^ 15) v → Emits (write_short v) (int_bytes 2 v)
unfolding write_short
write_short-Emits v h = put_int-Emits 2 v h (λ w. refl)

pub write_int-Emits : (v : ℤ) → Fits (2 ^ 31) v → Emits (write_int v) (int_bytes 4 v)
unfolding write_int
write_int-Emits v h = put_int-Emits 4 v h (λ w. refl)

pub write_long-Emits : (v : ℤ) → Fits (2 ^ 63) v → Emits (write_long v) (int_bytes 8 v)
unfolding write_long
write_long-Emits v h = put_int-Emits 8 v h (λ w. refl)

pub write_double-Emits : (bits : ℕ) → Emits (write_double bits) (be_bytes 8 bits)
unfolding write_double
write_double-Emits bits =
    Emits-put 8 (be_bytes 8 bits) (length-be_bytes 8 bits) (λ w. refl) (λ w. refl)

pub write_bytes-Emits : (bs : List ℕ) → Emits (write_bytes bs) bs
unfolding write_bytes
write_bytes-Emits bs = Emits-put (length bs) bs refl (λ w. refl) (λ w. refl)

-- A text in a block of `size` bytes: cut, or filled up with zeros.
unfoldable pub fixed_block : List ℕ → ℕ → List ℕ
fixed_block bs size = take (min (length bs) size) bs ++ replicate (size - min (length bs) size) 0

pub length-fixed_block : (bs : List ℕ) (size : ℕ) → length (fixed_block bs size) ≡ size
unfolding fixed_block
length-fixed_block bs size =
    rw (length-append, length-replicate, length-take (min (length bs) size) bs (omega arith))
      (omega arith)

pub write_fixed_string-Emits :
    (s : List ℕ) (size : ℕ) → Emits (write_fixed_string s size) (fixed_block (utf8_encode s) size)
unfolding write_fixed_string fixed_block
write_fixed_string-Emits s size =
    let block = fixed_block (utf8_encode s) size in
    Emits-put size block (length-fixed_block (utf8_encode s) size) (λ w. refl) (λ w. refl)
