-- ===== src/Tests/Numbers.antt =====
-- Integers written and read back.
use cubrid_client.Base.{ℕ, ◌≡◌, arith, List, pos, negsuc}
use cubrid_client.Failure.{ok}
use cubrid_client.Reader.{new_reader, result}
use cubrid_client.Reader.RoundTrip.{parse_three, parse_three-build}
use cubrid_client.Writer.{◌>>◌, build, write_short, write_int, write_long}

parse_three-build_example :
    (bytes : List ℕ) × (build 2
        (do write_short (negsuc 0); write_int (pos 70000); write_long (negsuc 4000000000))
      ≡ ok bytes)
    × (result (parse_three (new_reader bytes)) ≡ ok (negsuc 0, (pos 70000, negsuc 4000000000)))
parse_three-build_example =
    parse_three-build 2 (negsuc 0) (pos 70000) (negsuc 4000000000) (omega arith) (omega arith)
      (omega arith) (omega arith)
