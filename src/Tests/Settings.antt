-- ===== src/Tests/Settings.antt =====
-- Options with a fetch size of 100, a lock timeout of -1 and a read timeout of 0.
use cubrid_client.Base.{◌≡◌, refl, [], ◌∷◌, some, none}
use cubrid_client.Failure.{ok, fail, range_error}
use cubrid_client.Param.Double.{is_finite, whole}
use cubrid_client.Config.{serializable, ClientOptions, configured, normalize_config}

abbrev options : ClientOptions
options = record {
  host = 104 ∷ [];
  port = none;
  database = 100 ∷ [];
  user = 117 ∷ [];
  password = none;
  connection_timeout = none;
  read_timeout = some 0;
  max_lob_bytes = none;
  fetch_size = some 0x4059000000000000;
  transaction_options = record {
    isolation_level = some serializable;
    lock_timeout = some 0xbff0000000000000;
  };
  max_connection_retry_count = none;
}

accepted : normalize_config options ≡ ok (configured options)
unfolding normalize_config is_finite whole
accepted = refl

-- A read timeout of 0.5.
half_a_millisecond :
    normalize_config (record options { read_timeout = some 0x3fe0000000000000 })
    ≡ ok (configured (record options { read_timeout = some 0x3fe0000000000000 }))
unfolding normalize_config is_finite whole
half_a_millisecond = refl

-- A lock timeout of -2.
refused :
    normalize_config (record options {
      transaction_options = record {
        isolation_level = none;
        lock_timeout = some 0xc000000000000000;
      };
    })
    ≡ fail range_error
unfolding normalize_config is_finite whole
refused = refl
