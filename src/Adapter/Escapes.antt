-- ===== src/Adapter/Escapes.antt =====
-- The mode in which the server reads backslashes: needsBackslashMode, ensureBackslashMode and
-- negotiateBackslashEscapes of src/adapters/native.ts.
use cubrid_client.Base.{
  ℕ, Bool, true, false, ◌||◌, List, [], ◌∷◌, ◌==◌, if◌then◌else◌, Option, some, none, ℤ, pos, ◌==ℤ◌,
  includes,
}
use cubrid_client.Failure.{error}
use cubrid_client.Errors.{failure}
use cubrid_client.Param.{Param, text, other}
use cubrid_client.Request.{write_prepare_and_execute}
use cubrid_client.Reply.Execute.{parse_prepare_and_execute}
use cubrid_client.Rows.{Row}
use cubrid_client.Sql.{backslash, carriage_return, line_feed}
use cubrid_client.Session.Exchange.{send_and_recv}
use cubrid_client.Adapter.{Turn, done, threw}
use cubrid_client.Adapter.Turns.{Platform, ◌>>=◌, ◌>>◌, give, lifted, the_cas, on_cas, change}
use cubrid_client.Adapter.Handle.{with_query_handle}

abbrev has_escape : List ℕ → Bool
has_escape s = includes backslash s || includes carriage_return s || includes line_feed s

abbrev depends_on_mode : Param → Bool
depends_on_mode (text s) = has_escape s
depends_on_mode (other s) = has_escape s
depends_on_mode _ = false

-- `needsBackslashMode`.
unfoldable pub needs_backslash_mode : List Param → Bool
needs_backslash_mode [] = false
needs_backslash_mode (p ∷ ps) = depends_on_mode p || needs_backslash_mode ps

-- The text SELECT CHAR_LENGTH('\\').
abbrev pub probe_sql : List ℕ
probe_sql =
    83 ∷ 69 ∷ 76 ∷ 69 ∷ 67 ∷ 84 ∷ 32 ∷ 67 ∷ 72 ∷ 65 ∷ 82 ∷ 95 ∷ 76 ∷ 69 ∷ 78 ∷ 71 ∷ 84 ∷ 72 ∷ 40
    ∷ 39 ∷ 92 ∷ 92 ∷ 39 ∷ 41 ∷ []

abbrev pub measured_mode : Option ℤ → Turn Bool
measured_mode none a = threw (failure error) a
measured_mode (some n) a =
    if n ==ℤ pos 2
    then done true a
    else if n ==ℤ pos 1
    then done false a
    else threw (failure error) a

module _ (p : Platform) where
  -- The first value of the first row, as a number; `none` is NaN.
  abbrev pub probed : List Row → Option ℤ
  probed [] = none
  probed ([] ∷ rows) = none
  probed (((name, value) ∷ cells) ∷ rows) = p.number_of value

  -- `negotiateBackslashEscapes`.
  unfoldable pub negotiate_backslash_escapes : Turn Bool
  negotiate_backslash_escapes = do
    c ← the_cas
    f ← lifted (write_prepare_and_execute probe_sql false c.cas_info)
    payload ← on_cas (send_and_recv p.network p.config f)
    with_query_handle p payload (do
      after ← the_cas
      result ← lifted (parse_prepare_and_execute payload after.proto_version)
      measured_mode (probed result.rows))

  abbrev pub measure_mode : Turn Bool
  measure_mode = do
    c ← the_cas
    mode ← negotiate_backslash_escapes
    change (λ a. record a {
      no_backslash_escapes = some mode;
      backslash_mode_generation = some c.generation;
    })
    give mode

  abbrev pub known_mode : Option Bool → Option ℕ → Turn Bool
  known_mode (some mode) (some g) a =
      if a.world.cas.generation == g then done mode a else measure_mode a
  known_mode _ _ a = measure_mode a

  -- `ensureBackslashMode`.
  unfoldable pub ensure_backslash_mode : Turn Bool
  unfolding negotiate_backslash_escapes
  ensure_backslash_mode a = known_mode a.no_backslash_escapes a.backslash_mode_generation a
