-- ===== src/Reader/Rules.antt =====
-- Rules for parsers: the reader that a method leaves, and how a method ends.
use cubrid_client.Base.{
  ℕ, zero, suc, ◌+◌, ◌*◌, ◌==ℤ◌, ◌≤◌, ◌≡◌, refl, arith, Bool, true, false, List, ℤ, pos, negsuc,
  leb, length, ◌∙◌, [], if◌then◌else◌,
}
use cubrid_client.Failure.{
  Failure, range_error, error, unsupported_value, malformed_reply, cas_reply, diverges,
}
use cubrid_client.Text.{utf8_decode}
use cubrid_client.Reader.{
  PacketReader, Outcome, done, thrown, after, Parse, ◌>>=◌, ◌>>◌, return, throw, guard, fixed,
  parse_byte, parse_ubyte, parse_short, parse_int, parse_long, parse_float, parse_double,
  assert_available, parse_bytes, parse_null_term_string, skip, peek_zeros, peek_zero_date,
  parse_datetime, parse_timestamp, parse_date, parse_time, read_error, sub_reader, within,
  remaining, window, advance, taken, new_reader, signed_value, strip_nul,
}

-- The reader that is left has the same buffer and stands no further back.
abbrev pub Onward : PacketReader → PacketReader → Type 0
Onward r r' = (r'.buf ≡ r.buf) × (r.offset ≤ r'.offset)

abbrev pub IsException : Failure → Type 0
IsException diverges = ⊥
IsException _ = Unit

abbrev pub Good {ℓ} : {A : Type ℓ} → PacketReader → Outcome A → Type 0
Good r (done a r') = Onward r r'
Good r (thrown e r') = Onward r r' × IsException e

-- On every reader the method returns or throws, and leaves the reader onward.
pub record Steady {ℓ} {A : Type ℓ} (p : Parse A) : Type 0 where
  pub at : (r : PacketReader) → Good r (p r)

Onward-trans : {r r' r'' : PacketReader} → Onward r r' → Onward r' r'' → Onward r r''
Onward-trans (e, h) (e', h') = (e' ∙ e, omega arith)

pub Good-Onward {ℓ} :
    {A : Type ℓ} {r r' : PacketReader} (o : Outcome A) → Onward r r' → Good r' o → Good r o
Good-Onward (done b r'') h g = Onward-trans h g
Good-Onward (thrown e r'') h (g, x) = (Onward-trans h g, x)

pub Good-after {ℓ κ} :
    {A : Type ℓ} {B : Type κ} {r : PacketReader} (o : Outcome A) (f : A → Parse B)
    → Good r o
    → ((a : A) (r' : PacketReader) → Onward r r' → Good r' (f a r'))
    → Good r (after o f)
Good-after (done a r') f h k = Good-Onward (f a r') h (k a r' h)
Good-after (thrown e r') f h k = h

-- The rules by which a `do` block is steady.
pub Steady-bind {ℓ κ} :
    {A : Type ℓ} {B : Type κ} {p : Parse A} {f : A → Parse B}
    → Steady p
    → ((a : A) → Steady (f a))
    → Steady (p >>= f)
Steady-bind {p} {f} h k = record { at = λ r. Good-after (p r) f (h.at r) (λ a r' _. (k a).at r') }

pub Steady-then {ℓ κ} :
    {A : Type ℓ} {B : Type κ} {p : Parse A} {q : Parse B} → Steady p → Steady q → Steady (p >> q)
Steady-then {p} {q} h k = Steady-bind h (λ _. k)

pub Steady-return {ℓ} : {A : Type ℓ} (a : A) → Steady (return a)
Steady-return a = record { at = λ r. (refl, omega arith) }

pub Steady-throw {ℓ} : {A : Type ℓ} (e : Failure) → IsException e → Steady (throw {A = A} e)
Steady-throw range_error h = record { at = λ r. ((refl, omega arith), tt) }
Steady-throw error h = record { at = λ r. ((refl, omega arith), tt) }
Steady-throw unsupported_value h = record { at = λ r. ((refl, omega arith), tt) }
Steady-throw malformed_reply h = record { at = λ r. ((refl, omega arith), tt) }
Steady-throw (cas_reply c d m) h = record { at = λ r. ((refl, omega arith), tt) }
Steady-throw diverges h = absurd h

pub Steady-guard : (b : Bool) (e : Failure) → IsException e → Steady (guard b e)
Steady-guard true e h = Steady-return tt
Steady-guard false e h = Steady-throw e h

pub Steady-if {ℓ} :
    {A : Type ℓ} (b : Bool) {p q : Parse A} → Steady p → Steady q → Steady (if b then p else q)
Steady-if true h k = h
Steady-if false h k = k

pub Steady-remaining : Steady (λ r. done (remaining r) r)
Steady-remaining = record { at = λ r. (refl, omega arith) }

-- A decoder on a reader of its own leaves this reader where it is.
pub Steady-within {ℓ} :
    {A : Type ℓ} (cell : PacketReader) {p : Parse A} → Steady p → Steady (within cell p)
Steady-within {A} cell {p} h = record { at = λ r. go r (p cell) (h.at cell) }
  where
    go :
        (r : PacketReader) (o : Outcome A)
        → Good cell o
        → Good r (elim o [ done a _ ↦ done a r | thrown e _ ↦ thrown e r ])
    go r (done a r') g = (refl, omega arith)
    go r (thrown e r') (g, x) = ((refl, omega arith), x)

Steady-fixed : (n : ℕ) → Steady (fixed n)
unfolding fixed
Steady-fixed n = record { at = λ r. go r (leb (r.offset + n) (length r.buf)) }
  where
    go :
        (r : PacketReader) (b : Bool)
        → Good r (if b then done (window n r) (advance n r) else thrown range_error r)
    go r true = (refl, omega arith)
    go r false = ((refl, omega arith), tt)

Steady-number {ℓ} : {A : Type ℓ} (n : ℕ) (f : List ℕ → A) → Steady (do bs ← fixed n; return (f bs))
Steady-number n f = Steady-bind (Steady-fixed n) (λ bs. Steady-return (f bs))

pub Steady-parse_byte : Steady parse_byte
unfolding parse_byte
Steady-parse_byte = Steady-number 1 _

pub Steady-parse_ubyte : Steady parse_ubyte
unfolding parse_ubyte
Steady-parse_ubyte = Steady-number 1 _

pub Steady-parse_short : Steady parse_short
unfolding parse_short
Steady-parse_short = Steady-number 2 _

pub Steady-parse_int : Steady parse_int
unfolding parse_int
Steady-parse_int = Steady-number 4 _

pub Steady-parse_long : Steady parse_long
unfolding parse_long
Steady-parse_long = Steady-number 8 _

pub Steady-parse_float : Steady parse_float
unfolding parse_float
Steady-parse_float = Steady-number 4 _

pub Steady-parse_double : Steady parse_double
unfolding parse_double
Steady-parse_double = Steady-number 8 _

-- A length that is there, and the bytes that it stands for.
Steady-sized {ℓ} :
    {A : Type ℓ} (size : ℤ) (f : List ℕ → A)
    → Steady (do n ← assert_available size; bs ← taken n; return (f bs))
unfolding assert_available
Steady-sized (pos n) f = record { at = λ r. go r (leb n (remaining r)) }
  where
    go :
        (r : PacketReader) (b : Bool)
        → Good r (
            after
              (if b then done n r else thrown range_error r)
              (λ m r'. done (f (window m r')) (advance m r')))
    go r true = (refl, omega arith)
    go r false = ((refl, omega arith), tt)
Steady-sized (negsuc n) f = record { at = λ r. ((refl, omega arith), tt) }

pub Steady-parse_bytes : (size : ℤ) → Steady (parse_bytes size)
unfolding parse_bytes
Steady-parse_bytes size = Steady-sized size (λ bs. bs)

pub Steady-sub_reader : (size : ℤ) → Steady (sub_reader size)
unfolding sub_reader
Steady-sub_reader size = Steady-sized size new_reader

pub Steady-skip : (size : ℤ) → Steady (skip size)
unfolding skip
Steady-skip size = Steady-sized size (λ _. tt)

pub Steady-parse_null_term_string : (size : ℤ) → Steady (parse_null_term_string size)
unfolding parse_null_term_string
Steady-parse_null_term_string (pos zero) = Steady-return []
Steady-parse_null_term_string (pos (suc n)) =
    Steady-sized (pos (suc n)) (λ bs. utf8_decode (strip_nul bs))
Steady-parse_null_term_string (negsuc n) = Steady-return []

pub ruleset steady_numbers = (
  Steady-parse_byte, Steady-parse_ubyte, Steady-parse_short, Steady-parse_int, Steady-parse_long,
  Steady-parse_float, Steady-parse_double, Steady-remaining,
)

pub ruleset steady_rules = (
  steady_numbers, Steady-bind, Steady-then, Steady-return, Steady-guard, Steady-throw, Steady-if,
  Steady-within, Steady-parse_bytes, Steady-sub_reader, Steady-skip, Steady-parse_null_term_string,
)

pub Steady-parse_datetime : Steady parse_datetime
unfolding parse_datetime
Steady-parse_datetime = search steady_rules depth 20

pub Steady-parse_timestamp : Steady parse_timestamp
unfolding parse_timestamp
Steady-parse_timestamp = search steady_rules depth 20

pub Steady-parse_date : Steady parse_date
unfolding parse_date
Steady-parse_date = search steady_rules depth 20

pub Steady-parse_time : Steady parse_time
unfolding parse_time
Steady-parse_time = search steady_rules depth 20

pub Steady-read_error : (size : ℤ) → Steady (read_error size)
unfolding read_error
Steady-read_error size = search steady_rules depth 20

Steady-peek_zeros : (n i : ℕ) → Steady (peek_zeros n i)
unfolding peek_zeros
Steady-peek_zeros zero i = Steady-return true
Steady-peek_zeros (suc n) i = record {
  at = λ r. go r (Steady-peek_zeros n (i + 1)) (fixed 2 (advance (i * 2) r)) (seen r);
}
  where
    seen : (r : PacketReader) → Good (advance (i * 2) r) (fixed 2 (advance (i * 2) r))
    seen r = (Steady-fixed 2).at (advance (i * 2) r)

    rest :
        (r : PacketReader) (b : Bool)
        → Steady (peek_zeros n (i + 1))
        → Good r (if b then peek_zeros n (i + 1) r else done false r)
    rest r true ih = ih.at r
    rest r false ih = (refl, omega arith)

    go :
        (r : PacketReader)
        → Steady (peek_zeros n (i + 1))
        → (o : Outcome (List ℕ)) → Good (advance (i * 2) r) o
        → Good r (elim o [
          | done bs _ ↦ if signed_value 2 bs ==ℤ pos 0 then peek_zeros n (i + 1) r else done false r
          | thrown e _ ↦ thrown e r
        ])
    go r ih (done bs r') g = rest r (signed_value 2 bs ==ℤ pos 0) ih
    go r ih (thrown e r') (g, x) = ((refl, omega arith), x)

pub Steady-peek_zero_date : Steady peek_zero_date
unfolding peek_zero_date
Steady-peek_zero_date = Steady-peek_zeros 3 0
