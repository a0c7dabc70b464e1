-- ===== src/Writer/Fields.antt =====
-- The CAS convention: each argument is its length in four bytes and then its bytes.
use cubrid_client.Base.{
  ℕ, zero, suc, ◌+◌, ◌≤◌, ◌<◌, ◌≡◌, refl, ap, ◌∙◌, arith, List, [], ◌∷◌, ◌++◌, ℤ, pos, length,
  length-append, take, drop, take-length_append, drop-length_append, All, Option, some, none, leb,
  if◌then◌else◌, ◌^◌, true,
}
use mathlib.Core.Option
use cubrid_client.Buffer.{be_bytes, be_value, word, Fits}
use cubrid_client.Buffer.RoundTrip.{length-be_bytes, be_value-be_bytes_four}
use cubrid_client.Text.{utf8_encode}
use cubrid_client.Writer.{
  Write, ◌>>◌, write_int, write_byte, write_null_term_string, add_byte, add_short, add_int,
  add_long, add_double, add_bytes, add_null,
}
use cubrid_client.Writer.Spec.{Emits, Emits-then}
use cubrid_client.Writer.Emits.{
  int_bytes, write_byte-Emits, write_short-Emits, write_int-Emits, write_long-Emits,
  write_double-Emits, write_bytes-Emits,
}

abbrev pub arg : List ℕ → List ℕ
arg bs = int_bytes 4 (pos (length bs)) ++ bs

abbrev pub flat_args : List (List ℕ) → List ℕ
flat_args [] = []
flat_args (x ∷ xs) = arg x ++ flat_args xs

pub length-int_bytes : (k : ℕ) (v : ℤ) → length (int_bytes k v) ≡ k
length-int_bytes k v = length-be_bytes k _

-- A length word and then its bytes are one argument.
pub arg-Emits :
    (bs : List ℕ) (n : ℕ) {m : Write}
    → length bs ≡ n
    → n < 2 ^ 31
    → Emits m bs
    → Emits (write_int (pos n) >> m) (arg bs)
arg-Emits bs n {m} e h j = rw e (Emits-then (int_bytes 4 (pos n)) bs (write_int-Emits (pos n) h) j)

pub add_byte-Emits : (v : ℤ) → Fits 128 v → Emits (add_byte v) (arg (int_bytes 1 v))
unfolding add_byte
add_byte-Emits v h = arg-Emits _ 1 (length-int_bytes 1 v) (omega arith) (write_byte-Emits v h)

pub add_short-Emits : (v : ℤ) → Fits (2 ^ 15) v → Emits (add_short v) (arg (int_bytes 2 v))
unfolding add_short
add_short-Emits v h = arg-Emits _ 2 (length-int_bytes 2 v) (omega arith) (write_short-Emits v h)

pub add_int-Emits : (v : ℤ) → Fits (2 ^ 31) v → Emits (add_int v) (arg (int_bytes 4 v))
unfolding add_int
add_int-Emits v h = arg-Emits _ 4 (length-int_bytes 4 v) (omega arith) (write_int-Emits v h)

pub add_long-Emits : (v : ℤ) → Fits (2 ^ 63) v → Emits (add_long v) (arg (int_bytes 8 v))
unfolding add_long
add_long-Emits v h = arg-Emits _ 8 (length-int_bytes 8 v) (omega arith) (write_long-Emits v h)

pub add_double-Emits : (bits : ℕ) → Emits (add_double bits) (arg (be_bytes 8 bits))
unfolding add_double
add_double-Emits bits =
    arg-Emits _ 8 (length-be_bytes 8 bits) (omega arith) (write_double-Emits bits)

pub add_bytes-Emits : (bs : List ℕ) → length bs < 2 ^ 31 → Emits (add_bytes bs) (arg bs)
unfolding add_bytes
add_bytes-Emits bs h = arg-Emits bs (length bs) refl h (write_bytes-Emits bs)

pub add_null-Emits : Emits add_null (arg [])
unfolding add_null be_bytes
add_null-Emits = write_int-Emits (pos 0) (omega arith)

-- An empty argument is its length alone.
pub write_int_zero-Emits : Emits (write_int (pos 0)) (arg [])
unfolding be_bytes
write_int_zero-Emits = write_int-Emits (pos 0) (omega arith)

-- A text goes out with a NUL behind it, which its length counts.
abbrev pub null_term : List ℕ → List ℕ
null_term s = utf8_encode s ++ (0 ∷ [])

pub write_null_term_string-Emits :
    (s : List ℕ)
    → length (utf8_encode s) + 1 < 2 ^ 31
    → Emits (write_null_term_string s) (arg (null_term s))
unfolding write_null_term_string
write_null_term_string-Emits s h =
    arg-Emits (null_term s) (length (utf8_encode s) + 1) (length-append (utf8_encode s) (0 ∷ [])) h
      (Emits-then (utf8_encode s) (0 ∷ []) (write_bytes-Emits (utf8_encode s)) nul)
  where
    nul : Emits (write_byte (pos 0)) (0 ∷ [])
    nul = unfold be_bytes word in write_byte-Emits (pos 0) (omega arith)

-- How a server takes such arguments apart, on fuel: the length, and that many bytes.
pub read_args : ℕ → List ℕ → Option (List (List ℕ))
read_args fuel [] = some []
read_args (suc fuel) (a ∷ b ∷ c ∷ d ∷ rest) =
    let n = be_value 0 (a ∷ b ∷ c ∷ d ∷ []) in
    let more = Option.map (λ xs. take n rest ∷ xs) (read_args fuel (drop n rest)) in
    if leb n (length rest) then more else none
read_args _ _ = none

le→leb : (a b : ℕ) → a ≤ b → leb a b ≡ true
le→leb a b h = ground arith

-- One argument at the front.
read_args-arg :
    (x rest : List ℕ) (fuel : ℕ)
    → length x < 2 ^ 31
    → read_args (suc fuel) (arg x ++ rest) ≡ Option.map (λ xs. x ∷ xs) (read_args fuel rest)
unfolding read_args be_bytes word
read_args-arg x rest fuel h =
    let size = be_value-be_bytes_four (length x) (omega arith) in
    let reach = le→leb (length x) (length (x ++ rest)) (rw length-append (omega arith)) in
    rw (
      size,
      reach,
      take-length_append (length x) x rest refl,
      drop-length_append (length x) x rest refl,
    )

-- Taking apart what was put together gives the arguments back.
pub read_args-flat_args :
    (xs : List (List ℕ)) (fuel : ℕ)
    → All (λ x. length x < 2 ^ 31) xs
    → length xs ≤ fuel
    → read_args fuel (flat_args xs) ≡ some xs
read_args-flat_args [] fuel h k = unfold read_args in refl
read_args-flat_args (x ∷ xs) zero h k = absurd (omega arith)
read_args-flat_args (x ∷ xs) (suc fuel) (h, hs) k =
    read_args-arg x (flat_args xs) fuel h
    ∙ ap (λ r. Option.map (λ t. x ∷ t) r) (read_args-flat_args xs fuel hs (omega arith))
