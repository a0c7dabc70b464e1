-- ===== src/Buffer.antt =====
-- Node's Buffer, as far as src/protocol uses it: big-endian integers in a list of bytes.
-- A buffer is the list of its bytes, each a number below 256. The integers that the readers
-- return and the writers take are signed, in two's complement; a number of `2 * h` values has
-- its sign bit at `h`.
pub mod RoundTrip
use cubrid_client.Base.{
  ℕ, zero, suc, ◌+◌, ◌-◌, ◌*◌, ◌/◌, ◌%◌, ◌^◌, ◌<◌, Bool, List, [], ◌∷◌, ltb, if◌then◌else◌, ℤ, pos,
  negsuc,
}

-- The `k` low bytes of a number, highest first.
unfoldable pub be_bytes : ℕ → ℕ → List ℕ
be_bytes zero v = []
be_bytes (suc k) v = (v / 256 ^ k % 256) ∷ be_bytes k v

-- The number that bytes stand for, behind the higher digits `acc`.
unfoldable pub be_value : ℕ → List ℕ → ℕ
be_value acc [] = acc
be_value acc (b ∷ bs) = be_value (acc * 256 + b) bs

-- Two's complement over `2 * h` values.
unfoldable pub word : ℕ → ℤ → ℕ
word h (pos n) = n
word h (negsuc n) = 2 * h - 1 - n

unfoldable pub signed : ℕ → ℕ → ℤ
signed h w = if ltb w h then pos w else negsuc (2 * h - w - 1)

-- The signed range, as a test (the writers throw outside it) and as a statement.
unfoldable pub fits : ℕ → ℤ → Bool
fits h (pos n) = ltb n h
fits h (negsuc n) = ltb n h

abbrev pub Fits : ℕ → ℤ → Type 0
Fits h (pos n) = n < h
Fits h (negsuc n) = n < h

abbrev pub IsByte : ℕ → Type 0
IsByte b = b < 256

-- Half the number of values of an integer of `k` bytes.
abbrev pub half_range : ℕ → ℕ
half_range k = 2 ^ (8 * k - 1)
