-- ===== src/Tests/Replies.antt =====
-- Replies at concrete bytes.
use cubrid_client.Base.{ℕ, ◌≡◌, refl, List, [], ◌∷◌, pos, negsuc}
use cubrid_client.Constants.{type_sequence}
use cubrid_client.Failure.{fail, malformed_reply, cas_reply}
use cubrid_client.Buffer.{signed, be_value}
use cubrid_client.Text.{utf8_decode}
use cubrid_client.Reader.{
  new_reader, parse_int, fixed, parse_byte, read_error, parse_null_term_string, strip_nul,
}
use cubrid_client.Reader.Rules.{Good}
use cubrid_client.Reply.Execute.{
  PrepareResult, parse_prepare, parse_prepare_and_execute, parse_execute, parse_fetch,
}
use cubrid_client.Reply.Simple.{parse_get_last_insert_id}
use cubrid_client.Reply.Verdict.{IsDecided}
use cubrid_client.Reply.Total.{replies-IsDecided}
use cubrid_client.Value.Read.{read_value}
use cubrid_client.Value.Fuel.{read_value-Good}

-- A response code of -1, the server's code -493 and the text "x".
abbrev refusal : List ℕ
refusal = 255 ∷ 255 ∷ 255 ∷ 255 ∷ 255 ∷ 255 ∷ 254 ∷ 19 ∷ 120 ∷ 0 ∷ []

abbrev statement : PrepareResult
statement = record {
  query_handle = pos 1;
  statement_type = pos 21;
  bind_count = pos 0;
  column_count = pos 0;
  columns = [];
}

refused : parse_prepare refusal ≡ fail (cas_reply (negsuc 0) (negsuc 492) (120 ∷ []))
unfolding parse_prepare parse_int fixed new_reader signed be_value read_error parse_null_term_string
    utf8_decode strip_nul
refused = refl

cut_short : parse_prepare (0 ∷ 0 ∷ 0 ∷ 1 ∷ 0 ∷ 0 ∷ 0 ∷ 0 ∷ 21 ∷ []) ≡ fail malformed_reply
unfolding parse_prepare parse_int fixed new_reader signed be_value parse_byte
cut_short = refl

replies-IsDecided_example :
    IsDecided (parse_prepare refusal)
    × IsDecided (parse_prepare_and_execute refusal 7)
    × IsDecided (parse_execute refusal statement 7)
    × IsDecided (parse_fetch refusal [])
    × IsDecided (parse_get_last_insert_id refusal)
replies-IsDecided_example = replies-IsDecided refusal statement [] 7

read_value-Good_example :
    Good (new_reader refusal) (read_value type_sequence 9 (new_reader refusal))
read_value-Good_example = read_value-Good type_sequence 9 (new_reader refusal)
