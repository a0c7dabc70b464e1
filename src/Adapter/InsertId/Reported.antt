-- ===== src/Adapter/InsertId/Reported.antt =====
-- readExecuteResult: when a generated value is reported.
use cubrid_client.Base.{
  ℕ, ◌+◌, ◌≡◌, ◌≢◌, false, List, [], ◌∷◌, if◌then◌else◌, Option, some, none, ℤ, pos, pos_part,
}
use cubrid_client.Errors.{Thrown}
use cubrid_client.Param.Double.{is_safe}
use cubrid_client.Reply.Execute.{ResultInfo, PrepareAndExecuteResult}
use cubrid_client.Value.Zoned.{same_bytes}
use cubrid_client.Adapter.{Baseline, no_value, seen, Adapter, Turned, done, threw}
use cubrid_client.Adapter.Turns.{Platform}
use cubrid_client.Adapter.InsertId.{
  follow_insert_id_session, InsertId, number, bigint, ExecuteResult, affected_rows,
  fetch_last_insert_id,
}

-- The value is certainly new: what the session held before is known, and is another.
pub data IsNew : Baseline → List ℕ → Type 0 where
  held_none : {text : List ℕ} → IsNew no_value text
  held_other : {old text : List ℕ} → same_bytes old text ≡ false → IsNew (seen old) text

-- Where the question for the value behind a statement ends.
pub data Reported (p : Platform) (a : Adapter) : Turned (Option InsertId) → Type 0 where
  not_reported : (b : Adapter) → Reported p a (done none b)
  reported :
      (text : List ℕ) (n : ℤ) (c b : Adapter)
      → fetch_last_insert_id p a ≡ done (some text) c
      → IsNew (follow_insert_id_session c).insert_id_baseline text
      → p.big_int text ≡ some n
      → b.insert_id_baseline ≡ seen text
      → b.insert_id_generation ≡ some c.world.cas.generation
      → Reported p a (done (some (if is_safe n then number n else bigint n)) b)
  not_answered : (e : Thrown) (b : Adapter) → Reported p a (threw e b)

-- The sum of the counts above 0 of the statements that are no SELECT, which is type 21.
pub data ChangedRows : List ResultInfo → ℕ → Type 0 where
  no_statement : ChangedRows [] 0
  a_select :
      (info : ResultInfo) (infos : List ResultInfo) (n : ℕ)
      → info.statement_type ≡ pos 21
      → ChangedRows infos n
      → ChangedRows (info ∷ infos) n
  no_select :
      (info : ResultInfo) (infos : List ResultInfo) (m n : ℕ)
      → info.statement_type ≢ pos 21
      → m ≡ pos_part info.result_count
      → ChangedRows infos n
      → ChangedRows (info ∷ infos) (m + n)

-- Where readExecuteResult ends: the affected rows are those of the statements, and an id is one that
-- was reported.
pub data Executed (p : Platform) (result : PrepareAndExecuteResult) (a : Adapter)
    : Turned ExecuteResult → Type 0 where
  executed :
      (id : Option InsertId) (rows : ℕ) (b : Adapter)
      → ChangedRows result.result_infos rows
      → Reported p a (done id b)
      → Executed p result a (done (record { affected_rows = rows; last_insert_id = id }) b)
  not_executed : (e : Thrown) (b : Adapter) → Executed p result a (threw e b)
