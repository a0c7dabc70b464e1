-- ===== src/Config/Bounds.antt =====
-- The bounds of the settings, and the checks of each of them.
use cubrid_client.Base.{
  ◌/◌, ◌%◌, ◌*◌, ◌+◌, ◌<◌, ◌≤◌, ◌⊎◌, inl, inr, ==_iff, subst, ◌==◌, sym, ℕ, ◌^◌, ◌-◌, ◌≡◌, refl,
  Bool, true, false, ◌&&◌, ◌||◌, Option, some, none, ℤ, pos, negsuc, leb_ℤ, ltb_ℤ, leb, ◌==◌, ◌≤ℤ◌,
  arith,
}
use cubrid_client.Failure.{Result, ok, fail, ◌>>=◌}
use cubrid_client.Param.Double.{is_finite, whole, is_safe}
use cubrid_client.Config.{
  IsolationLevel, read_committed, repeatable_read, serializable, other_level, ClientConfig, max_int,
  max_int_bits, require, holds_of, assert_integer, assert_valid_read_timeout,
  assert_valid_isolation_level,
}

-- A setting that is not given, or is a double that stands for an integer with the property.
pub data Setting (P : ℤ → Type 0) : Option ℕ → Type 0 where
  not_given : Setting P none
  integer : (bits : ℕ) (v : ℤ) → whole bits ≡ some v → P v → Setting P (some bits)

pub data KnownLevel : Option IsolationLevel → Type 0 where
  no_level : KnownLevel none
  is_read_committed : KnownLevel (some read_committed)
  is_repeatable_read : KnownLevel (some repeatable_read)
  is_serializable : KnownLevel (some serializable)

-- The fields of a double, below the sign.
abbrev biased_exponent : ℕ → ℕ
biased_exponent bits = bits / 2 ^ 52 % 2048

abbrev fraction : ℕ → ℕ
fraction bits = bits % 2 ^ 52

-- A double from 0 to 2 ^ 31 - 1, whole or not. With the exponent field 1053 it is
-- (2 ^ 52 + fraction) / 2 ^ 22, which is from 2 ^ 30 to below 2 ^ 31; with a smaller one it is
-- below 2 ^ 30.
pub data FiniteTimeout : Option ℕ → Type 0 where
  no_timeout : FiniteTimeout none
  negative_zero : FiniteTimeout (some (2 ^ 63))
  smaller : (bits : ℕ) → bits < 2 ^ 63 → biased_exponent bits < 1053 → FiniteTimeout (some bits)
  as_large :
      (bits : ℕ)
      → bits < 2 ^ 63
      → biased_exponent bits ≡ 1053
      → 2 ^ 52 + fraction bits ≤ (2 ^ 31 - 1) * 2 ^ 22
      → FiniteTimeout (some bits)

pub record InBounds (c : ClientConfig) : Type 0 where
  pub read_timeout : FiniteTimeout c.read_timeout
  pub retries : Setting (λ v. pos 0 ≤ℤ v) c.max_connection_retry_count
  pub lob_bytes : Setting (λ v. (pos 1 ≤ℤ v) × (v ≤ℤ pos (2 ^ 53 - 1))) c.max_lob_bytes
  pub fetch_size : Setting (λ v. (pos 1 ≤ℤ v) × (v ≤ℤ pos (2 ^ 31 - 1))) c.fetch_size
  pub lock_timeout :
      Setting (λ v. (negsuc 0 ≤ℤ v) × (v ≤ℤ pos (2 ^ 31 - 1))) c.transaction_options.lock_timeout
  pub level : KnownLevel c.transaction_options.isolation_level

pub then_ok {ℓ} :
    {A : Type ℓ} (m : Result (Unit {0})) (f : Unit {0} → Result A) (c : A)
    → (m >>= f) ≡ ok c
    → (m ≡ ok tt) × (f tt ≡ ok c)
then_ok (ok x) f c e = (refl, e)
then_ok (fail t) f c e = absurd (cc)

pub require-true : (b : Bool) → require b ≡ ok tt → b ≡ true
require-true true e = refl
require-true false e = absurd (cc)

pub assert_integer-Setting :
    (test : ℤ → Bool) (P : ℤ → Type 0)
    → ((v : ℤ) → test v ≡ true → P v)
    → (o : Option ℕ) → assert_integer test o ≡ ok tt
    → Setting P o
unfolding assert_integer
assert_integer-Setting test P sound none e = not_given
assert_integer-Setting test P sound (some bits) e =
    go (whole bits) refl (require-true (holds_of test (whole bits)) e)
  where
    go : (o : Option ℤ) → whole bits ≡ o → holds_of test o ≡ true → Setting P (some bits)
    go none q t = absurd (cc)
    go (some v) q t = integer bits v q (sound v t)

pub assert_level-Known :
    (o : Option IsolationLevel) → assert_valid_isolation_level o ≡ ok tt → KnownLevel o
unfolding assert_valid_isolation_level
assert_level-Known none e = no_level
assert_level-Known (some read_committed) e = is_read_committed
assert_level-Known (some repeatable_read) e = is_repeatable_read
assert_level-Known (some serializable) e = is_serializable
assert_level-Known (some (other_level name)) e = absurd (cc)

small_or_large : (n : ℕ) → (n < 1053) ⊎ (1053 ≤ n)
small_or_large n = omega arith

timeout_sized : (bits : ℕ) → bits ≤ max_int_bits → FiniteTimeout (some bits)
timeout_sized bits h = elim (small_or_large (biased_exponent bits)) [
  | inl small ↦ smaller bits (omega arith) small
  | inr large ↦ as_large bits (omega arith) (omega arith) (omega arith)
]

pub assert_timeout-Finite : (o : Option ℕ) → assert_valid_read_timeout o ≡ ok tt → FiniteTimeout o
unfolding assert_valid_read_timeout
assert_timeout-Finite none e = no_timeout
assert_timeout-Finite (some bits) e =
    in_range (leb bits max_int_bits) refl
      (both (is_finite bits) (leb bits max_int_bits || bits == 2 ^ 63) (require-true _ e)).1
  where
    both : (a b : Bool) → a && b ≡ true → (a ≡ true) × (b ≡ true)
    both true b q = (refl, q)
    both false b q = absurd (cc)

    in_range :
        (b : Bool)
        → leb bits max_int_bits ≡ b
        → b || bits == 2 ^ 63 ≡ true
        → FiniteTimeout (some bits)
    in_range true h t = timeout_sized bits (ground arith)
    in_range false h t =
        subst (λ n. FiniteTimeout (some n)) (sym ((==_iff bits (2 ^ 63)).0 t)) negative_zero

-- The other way round: what lies in the bounds passes.
pub Setting-assert_integer :
    (test : ℤ → Bool) (P : ℤ → Type 0)
    → ((v : ℤ) → P v → test v ≡ true)
    → (o : Option ℕ) → Setting P o
    → assert_integer test o ≡ ok tt
unfolding assert_integer
Setting-assert_integer test P complete none s = refl
Setting-assert_integer test P complete (some _) (integer bits v q x) = simp (q, complete v x)

pub Known-assert_level :
    (o : Option IsolationLevel) → KnownLevel o → assert_valid_isolation_level o ≡ ok tt
unfolding assert_valid_isolation_level
Known-assert_level _ no_level = refl
Known-assert_level _ is_read_committed = refl
Known-assert_level _ is_repeatable_read = refl
Known-assert_level _ is_serializable = refl

finite_below : (bits : ℕ) → biased_exponent bits ≤ 1053 → is_finite bits ≡ true
unfolding is_finite
finite_below bits h = ground arith

leb-true : (a b : ℕ) → a ≤ b → leb a b ≡ true
leb-true a b h = ground arith

pub Finite-assert_timeout : (o : Option ℕ) → FiniteTimeout o → assert_valid_read_timeout o ≡ ok tt
unfolding assert_valid_read_timeout
Finite-assert_timeout _ no_timeout = refl
Finite-assert_timeout _ negative_zero = rw (finite_below (2 ^ 63) (omega arith)) refl
Finite-assert_timeout _ (smaller bits n e) =
    rw (finite_below bits (omega arith), leb-true bits max_int_bits (omega arith)) refl
Finite-assert_timeout _ (as_large bits n e f) =
    rw (finite_below bits (omega arith), leb-true bits max_int_bits (omega arith)) refl

pub lob_bounds :
    (v : ℤ) → is_safe v && ltb_ℤ (pos 0) v ≡ true → (pos 1 ≤ℤ v) × (v ≤ℤ pos (2 ^ 53 - 1))
unfolding is_safe
lob_bounds v e = (ground arith, ground arith)

pub fetch_bounds :
    (v : ℤ)
    → ltb_ℤ (pos 0) v && leb_ℤ v (pos max_int) ≡ true
    → (pos 1 ≤ℤ v) × (v ≤ℤ pos (2 ^ 31 - 1))
fetch_bounds v e = (ground arith, ground arith)

pub lock_bounds :
    (v : ℤ)
    → leb_ℤ (negsuc 0) v && leb_ℤ v (pos max_int) ≡ true
    → (negsuc 0 ≤ℤ v) × (v ≤ℤ pos (2 ^ 31 - 1))
lock_bounds v e = (ground arith, ground arith)

pub retry_bounds : (v : ℤ) → leb_ℤ (pos 0) v ≡ true → pos 0 ≤ℤ v
retry_bounds v e = ground arith

pub bounds_lob :
    (v : ℤ) → (pos 1 ≤ℤ v) × (v ≤ℤ pos (2 ^ 53 - 1)) → is_safe v && ltb_ℤ (pos 0) v ≡ true
unfolding is_safe
bounds_lob v (a, b) = ground arith

pub bounds_fetch :
    (v : ℤ)
    → (pos 1 ≤ℤ v) × (v ≤ℤ pos (2 ^ 31 - 1))
    → ltb_ℤ (pos 0) v && leb_ℤ v (pos max_int) ≡ true
bounds_fetch v (a, b) = ground arith

pub bounds_lock :
    (v : ℤ)
    → (negsuc 0 ≤ℤ v) × (v ≤ℤ pos (2 ^ 31 - 1))
    → leb_ℤ (negsuc 0) v && leb_ℤ v (pos max_int) ≡ true
bounds_lock v (a, b) = ground arith

pub bounds_retry : (v : ℤ) → pos 0 ≤ℤ v → leb_ℤ (pos 0) v ≡ true
bounds_retry v e = ground arith
