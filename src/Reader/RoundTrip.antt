-- ===== src/Reader/RoundTrip.antt =====
-- The integers of PacketWriter under PacketReader.
use cubrid_client.Base.{
  ℕ, ◌+◌, ◌^◌, ◌<◌, ◌≡◌, refl, ap, sym, ◌∙◌, arith, true, List, [], ◌++◌, append_assoc, append-nil,
  ℤ, leb, length, length-append, take-length_append, drop-length_append,
}
use cubrid_client.Buffer.{word, signed, Fits}
use cubrid_client.Buffer.RoundTrip.{
  be_value-be_bytes_two, be_value-be_bytes_four, be_value-be_bytes_eight, signed-word, word-lt,
}
use cubrid_client.Failure.{ok}
use cubrid_client.Reader.{
  PacketReader, done, Parse, ◌>>=◌, return, result, new_reader, fixed, signed_value, parse_short,
  parse_int, parse_long,
}
use cubrid_client.Writer.{◌>>◌, build, write_short, write_int, write_long}
use cubrid_client.Writer.Spec.{Emits-then, build-Emits}
use cubrid_client.Writer.Emits.{int_bytes, write_short-Emits, write_int-Emits, write_long-Emits}
use cubrid_client.Writer.Fields.{length-int_bytes}

-- A reader that stands behind `before` and has `bytes` in front of it.
abbrev pub reader_at : List ℕ → List ℕ → PacketReader
reader_at before bytes = record { buf = before ++ bytes; offset = length before }

fixed_lem :
    (before bytes rest : List ℕ) (n : ℕ)
    → n ≡ length bytes
    → fixed n (reader_at before (bytes ++ rest)) ≡ done bytes (reader_at (before ++ bytes) rest)
unfolding fixed
fixed_lem before bytes rest n e =
    let there : leb (length before + n) (length (before ++ (bytes ++ rest))) ≡ true =
      ground (arith, length-append before (bytes ++ rest), length-append bytes rest) in
    rw (
      there,
      drop-length_append (length before) before (bytes ++ rest) refl,
      take-length_append n bytes rest e,
      append_assoc before bytes rest,
      length-append before bytes,
      e,
    )

signed_value-two : (v : ℤ) → Fits (2 ^ 15) v → signed_value 2 (int_bytes 2 v) ≡ v
signed_value-two v h =
    ap (λ n. signed (2 ^ 15) n) (be_value-be_bytes_two (word (2 ^ 15) v) (word-lt (2 ^ 15) v h))
    ∙ signed-word (2 ^ 15) v h

signed_value-four : (v : ℤ) → Fits (2 ^ 31) v → signed_value 4 (int_bytes 4 v) ≡ v
signed_value-four v h =
    ap (λ n. signed (2 ^ 31) n) (be_value-be_bytes_four (word (2 ^ 31) v) (word-lt (2 ^ 31) v h))
    ∙ signed-word (2 ^ 31) v h

signed_value-eight : (v : ℤ) → Fits (2 ^ 63) v → signed_value 8 (int_bytes 8 v) ≡ v
signed_value-eight v h =
    ap (λ n. signed (2 ^ 63) n) (be_value-be_bytes_eight (word (2 ^ 63) v) (word-lt (2 ^ 63) v h))
    ∙ signed-word (2 ^ 63) v h

pub parse_short_lem :
    (before rest : List ℕ) (v : ℤ)
    → Fits (2 ^ 15) v
    → parse_short (reader_at before (int_bytes 2 v ++ rest))
      ≡ done v (reader_at (before ++ int_bytes 2 v) rest)
unfolding parse_short
parse_short_lem before rest v h =
    rw (fixed_lem before (int_bytes 2 v) rest 2 (sym (length-int_bytes 2 v)), signed_value-two v h)

pub parse_int_lem :
    (before rest : List ℕ) (v : ℤ)
    → Fits (2 ^ 31) v
    → parse_int (reader_at before (int_bytes 4 v ++ rest))
      ≡ done v (reader_at (before ++ int_bytes 4 v) rest)
unfolding parse_int
parse_int_lem before rest v h =
    rw (fixed_lem before (int_bytes 4 v) rest 4 (sym (length-int_bytes 4 v)), signed_value-four v h)

pub parse_long_lem :
    (before rest : List ℕ) (v : ℤ)
    → Fits (2 ^ 63) v
    → parse_long (reader_at before (int_bytes 8 v ++ rest))
      ≡ done v (reader_at (before ++ int_bytes 8 v) rest)
unfolding parse_long
parse_long_lem before rest v h =
    rw
      (fixed_lem before (int_bytes 8 v) rest 8 (sym (length-int_bytes 8 v)), signed_value-eight v h)

-- A short, an int and a long, one after another.
abbrev pub parse_three : Parse (ℤ × (ℤ × ℤ))
parse_three = do s ← parse_short; i ← parse_int; l ← parse_long; return (s, (i, l))

three_bytes : ℤ → ℤ → ℤ → List ℕ
three_bytes s i l = int_bytes 2 s ++ (int_bytes 4 i ++ (int_bytes 8 l ++ []))

parse_three_lem :
    (s i l : ℤ)
    → Fits (2 ^ 15) s
    → Fits (2 ^ 31) i
    → Fits (2 ^ 63) l
    → result (parse_three (new_reader (three_bytes s i l))) ≡ ok (s, (i, l))
unfolding new_reader three_bytes
parse_three_lem s i l hs hi hl = rw (
  parse_short_lem [] (int_bytes 4 i ++ (int_bytes 8 l ++ [])) s hs,
  parse_int_lem (int_bytes 2 s) (int_bytes 8 l ++ []) i hi,
  parse_long_lem (int_bytes 2 s ++ int_bytes 4 i) [] l hl,
)

-- For a buffer of any positive capacity, and a short, an int and a long in the ranges of their
-- widths: the writer's three methods succeed, and the reader's three methods, in the same order on
-- the bytes that they wrote, return the three values.
pub parse_three-build :
    (capacity : ℕ) (s i l : ℤ)
    → 0 < capacity
    → Fits (2 ^ 15) s
    → Fits (2 ^ 31) i
    → Fits (2 ^ 63) l
    → (bytes : List ℕ) × (build capacity (do write_short s; write_int i; write_long l) ≡ ok bytes)
      × (result (parse_three (new_reader bytes)) ≡ ok (s, (i, l)))
unfolding three_bytes
parse_three-build capacity s i l room hs hi hl = (
  three_bytes s i l,
  rw append-nil (
      build-Emits capacity _ room (
        Emits-then _ _ (write_short-Emits s hs)
          (Emits-then _ _ (write_int-Emits i hi) (write_long-Emits l hl)))),
  parse_three_lem s i l hs hi hl,
)
