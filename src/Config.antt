-- ===== src/Config.antt =====
-- The settings of a client (src/internals/normalize-config.ts). A number is the bit pattern of its
-- double. `ssl` and `logger`, which are passed on as they are, are left out.
use cubrid_client.Base.{
  ℕ, ◌^◌, ◌-◌, Bool, true, false, ◌&&◌, ◌||◌, leb, ltb, ◌==◌, if◌then◌else◌, List, [], Option, some,
  none, ℤ, pos, negsuc, leb_ℤ, ltb_ℤ,
}
use cubrid_client.Failure.{Result, ok, fail, range_error, ◌>>=◌}
use cubrid_client.Param.Double.{is_finite, whole, is_safe}
pub mod Bounds
pub mod Accepted

-- `ISOLATION_LEVELS`, and what else a caller may pass.
pub data IsolationLevel : Type 0 where
  read_committed repeatable_read serializable : IsolationLevel
  other_level : List ℕ → IsolationLevel

pub record TransactionOptions : Type 0 where
  pub isolation_level : Option IsolationLevel
  pub lock_timeout : Option ℕ

pub record ClientOptions : Type 0 where
  pub host : List ℕ
  pub port : Option ℕ
  pub database : List ℕ
  pub user : List ℕ
  pub password : Option (List ℕ)
  pub connection_timeout : Option ℕ
  pub read_timeout : Option ℕ
  pub max_lob_bytes : Option ℕ
  pub fetch_size : Option ℕ
  pub transaction_options : TransactionOptions
  pub max_connection_retry_count : Option ℕ

pub record ClientConfig : Type 0 where
  pub host : List ℕ
  pub port : ℕ
  pub database : List ℕ
  pub user : List ℕ
  pub password : List ℕ
  pub connection_timeout : Option ℕ
  pub read_timeout : Option ℕ
  pub max_lob_bytes : Option ℕ
  pub fetch_size : Option ℕ
  pub transaction_options : TransactionOptions
  pub max_connection_retry_count : Option ℕ

-- `MAX_READ_TIMEOUT`, `MAX_FETCH_SIZE` and `MAX_LOCK_TIMEOUT`.
abbrev pub max_int : ℕ
max_int = 2 ^ 31 - 1

-- The double 2147483647.
abbrev pub max_int_bits : ℕ
max_int_bits = 0x41dfffffffc00000

-- The double 33000.
abbrev pub default_port : ℕ
default_port = 0x40e01d0000000000

abbrev pub require : Bool → Result (Unit {0})
require b = if b then ok tt else fail range_error

abbrev pub holds_of : (ℤ → Bool) → Option ℤ → Bool
holds_of test none = false
holds_of test (some v) = test v

-- A setting that is not given, or is an integer of which `test` holds.
unfoldable pub assert_integer : (ℤ → Bool) → Option ℕ → Result (Unit {0})
assert_integer test none = ok tt
assert_integer test (some bits) = require (holds_of test (whole bits))

abbrev pub assert_valid_retry_count : Option ℕ → Result (Unit {0})
assert_valid_retry_count = assert_integer (λ v. leb_ℤ (pos 0) v)

abbrev pub assert_valid_max_lob_bytes : Option ℕ → Result (Unit {0})
assert_valid_max_lob_bytes = assert_integer (λ v. is_safe v && ltb_ℤ (pos 0) v)

abbrev pub assert_valid_fetch_size : Option ℕ → Result (Unit {0})
assert_valid_fetch_size = assert_integer (λ v. ltb_ℤ (pos 0) v && leb_ℤ v (pos max_int))

abbrev pub assert_valid_lock_timeout : Option ℕ → Result (Unit {0})
assert_valid_lock_timeout = assert_integer (λ v. leb_ℤ (negsuc 0) v && leb_ℤ v (pos max_int))

-- Zero or above and at most 2147483647: the doubles that are not negative stand in the order of
-- their bit patterns.
unfoldable pub assert_valid_read_timeout : Option ℕ → Result (Unit {0})
assert_valid_read_timeout none = ok tt
assert_valid_read_timeout (some bits) =
    require (is_finite bits && (leb bits max_int_bits || bits == 2 ^ 63))

unfoldable pub assert_valid_isolation_level : Option IsolationLevel → Result (Unit {0})
assert_valid_isolation_level (some (other_level name)) = fail range_error
assert_valid_isolation_level (some read_committed) = ok tt
assert_valid_isolation_level (some repeatable_read) = ok tt
assert_valid_isolation_level (some serializable) = ok tt
assert_valid_isolation_level none = ok tt

unfoldable pub assert_valid_transaction_options : TransactionOptions → Result (Unit {0})
unfolding assert_valid_isolation_level assert_integer
assert_valid_transaction_options o =
    assert_valid_isolation_level o.isolation_level
    >>= (λ _. assert_valid_lock_timeout o.lock_timeout)

-- `consumerTimeout` has bounds of its own.
unfoldable pub assert_valid_stream_options : Option ℕ → Option ℕ → Result (Unit {0})
unfolding assert_integer
assert_valid_stream_options fetch_size consumer_timeout =
    assert_valid_fetch_size fetch_size
    >>= (λ _. assert_integer (λ v. leb_ℤ (pos 0) v && leb_ℤ v (pos max_int)) consumer_timeout)

abbrev pub given_or {ℓ} : {A : Type ℓ} → Option A → A → A
given_or none a = a
given_or (some b) a = b

abbrev pub configured : ClientOptions → ClientConfig
configured o = record {
  host = o.host;
  port = given_or o.port default_port;
  database = o.database;
  user = o.user;
  password = given_or o.password [];
  connection_timeout = o.connection_timeout;
  read_timeout = o.read_timeout;
  max_lob_bytes = o.max_lob_bytes;
  fetch_size = o.fetch_size;
  transaction_options = o.transaction_options;
  max_connection_retry_count = o.max_connection_retry_count;
}

unfoldable pub normalize_config : ClientOptions → Result ClientConfig
unfolding assert_valid_read_timeout assert_integer assert_valid_transaction_options
normalize_config o =
    assert_valid_read_timeout o.read_timeout
    >>= (λ _. assert_valid_retry_count o.max_connection_retry_count)
    >>= (λ _. assert_valid_max_lob_bytes o.max_lob_bytes)
    >>= (λ _. assert_valid_fetch_size o.fetch_size)
    >>= (λ _. assert_valid_transaction_options o.transaction_options)
    >>= (λ _. ok (configured o))
