-- ===== src/Config/Accepted.antt =====
-- Which options are accepted, and as which configuration.
use cubrid_client.Base.{◌≡◌}
use cubrid_client.Failure.{ok}
use cubrid_client.Config.{
  ClientOptions, assert_valid_retry_count, assert_valid_max_lob_bytes, assert_valid_fetch_size,
  assert_valid_read_timeout, assert_valid_transaction_options,
}

-- The checks of normalizeConfig.
record Checked (o : ClientOptions) : Type 0 where
  timeout : assert_valid_read_timeout o.read_timeout ≡ ok tt
  count : assert_valid_retry_count o.max_connection_retry_count ≡ ok tt
  limit : assert_valid_max_lob_bytes o.max_lob_bytes ≡ ok tt
  size : assert_valid_fetch_size o.fetch_size ≡ ok tt
  options : assert_valid_transaction_options o.transaction_options ≡ ok tt
