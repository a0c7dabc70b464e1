-- ===== src/Buffer/RoundTrip.antt =====
-- The bytes of integers, and the integers of bytes.
use cubrid_client.Base.{
  ℕ, zero, suc, ◌*◌, ◌^◌, ◌<◌, ◌≡◌, refl, ap, true, arith, ℤ, pos, negsuc, length, All,
}
use cubrid_client.Buffer.{be_bytes, be_value, word, signed, fits, Fits, IsByte}

pub length-be_bytes : (k v : ℕ) → length (be_bytes k v) ≡ k
unfolding be_bytes
length-be_bytes zero v = refl
length-be_bytes (suc k) v = ap suc (length-be_bytes k v)

pub be_bytes-IsByte : (k v : ℕ) → All IsByte (be_bytes k v)
unfolding be_bytes
be_bytes-IsByte zero v = tt
be_bytes-IsByte (suc k) v = (omega arith, be_bytes-IsByte k v)

pub be_value-be_bytes_one : (v : ℕ) → v < 256 → be_value 0 (be_bytes 1 v) ≡ v
unfolding be_bytes be_value
be_value-be_bytes_one v h = omega arith

pub be_value-be_bytes_two : (v : ℕ) → v < 2 ^ 16 → be_value 0 (be_bytes 2 v) ≡ v
unfolding be_bytes be_value
be_value-be_bytes_two v h = omega arith

pub be_value-be_bytes_four : (v : ℕ) → v < 2 ^ 32 → be_value 0 (be_bytes 4 v) ≡ v
unfolding be_bytes be_value
be_value-be_bytes_four v h = omega arith

pub be_value-be_bytes_eight : (v : ℕ) → v < 2 ^ 64 → be_value 0 (be_bytes 8 v) ≡ v
unfolding be_bytes be_value
be_value-be_bytes_eight v h = omega arith

pub signed-word : (h : ℕ) (v : ℤ) → Fits h v → signed h (word h v) ≡ v
unfolding signed word
signed-word h (pos n) p = ground arith
signed-word h (negsuc n) p = ground arith

pub word-lt : (h : ℕ) (v : ℤ) → Fits h v → word h v < 2 * h
unfolding word
word-lt h (pos n) p = omega arith
word-lt h (negsuc n) p = omega arith

pub fits_of_Fits : (h : ℕ) (v : ℤ) → Fits h v → fits h v ≡ true
unfolding fits
fits_of_Fits h (pos n) p = ground arith
fits_of_Fits h (negsuc n) p = ground arith
