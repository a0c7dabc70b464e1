-- ===== src/Adapter/InsertId.antt =====
-- The generated AUTO_INCREMENT value: fetchLastInsertId, followInsertIdSession, forgetInsertId,
-- readInsertIdBaseline and readExecuteResult of src/adapters/native.ts.
pub mod Reported
use cubrid_client.Base.{
  ℕ, ◌+◌, Bool, true, false, not, ◌&&◌, ◌||◌, List, [], ◌∷◌, ltb, leb, ◌==◌, if◌then◌else◌, Option,
  some, none, ℤ, pos, negsuc, ◌==ℤ◌, pos_part,
}
use cubrid_client.Constants.{statement_select, statement_insert}
use cubrid_client.Failure.{error}
use cubrid_client.Errors.{Thrown, failure}
use cubrid_client.Param.Double.{is_safe}
use cubrid_client.Request.{write_get_last_insert_id}
use cubrid_client.Reply.Simple.{parse_get_last_insert_id}
use cubrid_client.Reply.Execute.{ResultInfo, PrepareAndExecuteResult}
use cubrid_client.Value.Zoned.{same_bytes}
use cubrid_client.Session.Exchange.{send_and_recv, discard_session, is_connected}
use cubrid_client.Adapter.{
  Baseline, no_value, unknown, seen, Adapter, Turned, Turn, done, threw, differs, assert_session,
}
use cubrid_client.Adapter.Turns.{
  Platform, ◌>>=◌, ◌>>◌, give, refuse, lifted, the_cas, on_cas, change, do_if,
}
use cubrid_client.Adapter.Handle.{dropping_damaged}

-- `followInsertIdSession`: a new session starts with no value.
abbrev pub other_session : Option ℕ → ℕ → Bool
other_session none n = true
other_session (some m) n = not (m == n)

unfoldable pub follow_insert_id_session : Adapter → Adapter
follow_insert_id_session a =
    if other_session a.insert_id_generation a.world.cas.generation
    then record a {
      insert_id_generation = some a.world.cas.generation;
      insert_id_baseline = no_value;
    }
    else a

-- `forgetInsertId`. The adapter has a connection wherever this is called.
unfoldable pub forget_insert_id : Adapter → Adapter
unfolding follow_insert_id_session
forget_insert_id a = record (follow_insert_id_session a) { insert_id_baseline = unknown }

abbrev pub baseline_of : Option (List ℕ) → Baseline
baseline_of none = no_value
baseline_of (some text) = seen text

abbrev pub is_unknown : Baseline → Bool
is_unknown unknown = true
is_unknown _ = false

-- The test `/insert|replace/i`: only ASCII letters have another case here.
abbrev lower_case : ℕ → ℕ
lower_case c = if leb 65 c && leb c 90 then c + 32 else c

unfoldable pub starts_with : List ℕ → List ℕ → Bool
starts_with [] text = true
starts_with (w ∷ word) [] = false
starts_with (w ∷ word) (c ∷ text) = lower_case c == w && starts_with word text

unfoldable pub contains_word : List ℕ → List ℕ → Bool
unfolding starts_with
contains_word word [] = starts_with word []
contains_word word (c ∷ text) = starts_with word (c ∷ text) || contains_word word text

abbrev pub may_insert : List ℕ → Bool
may_insert sql =
    contains_word (105 ∷ 110 ∷ 115 ∷ 101 ∷ 114 ∷ 116 ∷ []) sql
    || contains_word (114 ∷ 101 ∷ 112 ∷ 108 ∷ 97 ∷ 99 ∷ 101 ∷ []) sql

-- A number if it is a safe integer, and else a bigint.
pub data InsertId : Type 0 where
  number bigint : ℤ → InsertId

pub record ExecuteResult : Type 0 where
  pub affected_rows : ℕ
  pub last_insert_id : Option InsertId

abbrev pub is_select : ResultInfo → Bool
is_select info = info.statement_type ==ℤ pos statement_select

abbrev pub is_insert : ResultInfo → Bool
is_insert info = info.statement_type ==ℤ pos statement_insert

unfoldable pub affected_rows : List ResultInfo → ℕ
affected_rows [] = 0
affected_rows (info ∷ infos) =
    (if is_select info then 0 else pos_part info.result_count) + affected_rows infos

abbrev pub some_info : (ResultInfo → Bool) → List ResultInfo → Bool
some_info test [] = false
some_info test (info ∷ infos) = test info || some_info test infos

-- The value is certainly new: the one before it is known, and is another.
abbrev pub is_generated : Baseline → List ℕ → Bool
is_generated unknown text = false
is_generated no_value text = true
is_generated (seen old) text = not (same_bytes old text)

abbrev pub to_id : Option ℤ → Turn (Option InsertId)
to_id none = refuse (failure error)
to_id (some n) = give (some (if is_safe n then number n else bigint n))

module _ (p : Platform) where
  unfoldable pub fetch_last_insert_id : Turn (Option (List ℕ))
  fetch_last_insert_id = do
    c ← the_cas
    f ← lifted (write_get_last_insert_id c.cas_info)
    payload ← on_cas (send_and_recv p.network p.config f)
    lifted (parse_get_last_insert_id payload)

  abbrev pub refresh_baseline : Turn (Unit {0})
  refresh_baseline = do
    value ← fetch_last_insert_id
    change follow_insert_id_session
    change (λ a. record a { insert_id_baseline = baseline_of value })

  -- `readInsertIdBaseline`.
  unfoldable pub read_insert_id_baseline : List ℕ → Turn (Unit {0})
  unfolding fetch_last_insert_id follow_insert_id_session contains_word
  read_insert_id_baseline sql = do
    change follow_insert_id_session
    baseline ← (λ a. done a.insert_id_baseline a)
    do_if (is_unknown baseline && may_insert sql) (do
      assert_session
      c ← the_cas
      do_if (is_connected c) (λ a. dropping_damaged (refresh_baseline a)))

  -- What the value after the statement says, and what is remembered of it.
  unfoldable pub report_id : Option (List ℕ) → Turn (Option InsertId)
  report_id none = do change (λ a. record a { insert_id_baseline = no_value }); give none
  report_id (some text) = do
    baseline ← (λ a. done a.insert_id_baseline a)
    change (λ a. record a { insert_id_baseline = seen text })
    if is_generated baseline text then to_id (p.big_int text) else give none

  abbrev pub last_id_of : List ResultInfo → Turn (Option InsertId)
  last_id_of infos a =
      if some_info is_insert infos
      then (do text ← fetch_last_insert_id; change follow_insert_id_session; report_id text) a
      else (do do_if (ltb 0 (affected_rows infos)) (change forget_insert_id); give none) a

  -- `readExecuteResult`.
  unfoldable pub read_execute_result : PrepareAndExecuteResult → Turn ExecuteResult
  unfolding fetch_last_insert_id follow_insert_id_session forget_insert_id report_id affected_rows
  read_execute_result result = do
    id ← last_id_of result.result_infos
    give (record { affected_rows = affected_rows result.result_infos; last_insert_id = id })
