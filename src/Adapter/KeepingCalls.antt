-- ===== src/Adapter/KeepingCalls.antt =====
-- What the uses of a statement's result leave alone, with the insert ids and the backslash mode.
use cubrid_client.Base.{
  ℕ, refl, Bool, true, false, not, ◌&&◌, List, [], ◌∷◌, ltb, ◌==◌, if◌then◌else◌, Option, some,
  none, ℤ, pos, length, ◌==ℤ◌, ltb_ℤ,
}
use cubrid_client.Bind.{PreparedBinds}
use cubrid_client.Constants.{statement_select}
use cubrid_client.Failure.{error}
use cubrid_client.Errors.{failure}
use cubrid_client.Param.{Param}
use cubrid_client.Request.{write_prepare_and_execute, write_get_last_insert_id}
use cubrid_client.Reply.Simple.{parse_get_last_insert_id}
use cubrid_client.Reply.Execute.{ResultInfo, PrepareAndExecuteResult, parse_prepare_and_execute}
use cubrid_client.Rows.{Row}
use cubrid_client.Sql.Scan.{interpolate_params}
use cubrid_client.Session.Exchange.{is_connected}
use cubrid_client.Session.Growth.{Grows-refl, send_and_recv-IsGrowing, ensure_session-IsGrowing}
use cubrid_client.Adapter.{Baseline, no_value, seen, Adapter, done, threw}
use cubrid_client.Adapter.Turns.{Platform, change}
use cubrid_client.Adapter.Handle.{dropping_damaged}
use cubrid_client.Adapter.InsertId.{
  other_session, follow_insert_id_session, forget_insert_id, baseline_of, is_unknown, may_insert,
  is_select, is_insert, affected_rows, some_info, is_generated, to_id, fetch_last_insert_id,
  refresh_baseline, read_insert_id_baseline, report_id, last_id_of, read_execute_result,
}
use cubrid_client.Adapter.Escapes.{
  needs_backslash_mode, measured_mode, probed, probe_sql, negotiate_backslash_escapes, measure_mode,
  known_mode, ensure_backslash_mode,
}
use cubrid_client.Adapter.Running.{
  IssuedOn, is_stale, refuse_stale, settle_statement, resolve_sql, decoded,
}
use cubrid_client.Adapter.Calls.{any_lob, remaining_rows, lobs_loaded, read_select, read_query}
use cubrid_client.Adapter.Kept.{
  Kept, left_by, Kept-refl, Kept-if, IsKeeping, IsKeeping-bind, IsKeeping-then, IsKeeping-give,
  IsKeeping-refuse, IsKeeping-lifted, IsKeeping-if, the_cas-IsKeeping, on_cas-IsKeeping,
  do_if-IsKeeping, assert_session-IsKeeping, drop_if_ended-IsKeeping,
}
use cubrid_client.Adapter.Keeping.{
  Kept-dropping_damaged, with_query_handle-IsKeeping, execute_handle-IsKeeping,
  fetch_remaining-IsKeeping,
}
use cubrid_client.Adapter.KeepingLobs.{load_lobs-IsKeeping}

pub Kept-follow : (a : Adapter) → Kept a (follow_insert_id_session a)
unfolding follow_insert_id_session
Kept-follow a = go (other_session a.insert_id_generation a.world.cas.generation)
  where
    go :
        (b : Bool)
        → Kept a (
            if b
            then record a {
              insert_id_generation = some a.world.cas.generation;
              insert_id_baseline = no_value;
            }
            else a)
    go true = record { mode = refl; bound = refl; grown = Grows-refl a.world }
    go false = Kept-refl a

pub Kept-forget : (a : Adapter) → Kept a (forget_insert_id a)
unfolding forget_insert_id
Kept-forget a =
    let k : Kept a (follow_insert_id_session a) = Kept-follow a in
    record { mode = k.mode; bound = k.bound; grown = k.grown }

set_baseline-IsKeeping :
    (b : Baseline) → IsKeeping (change (λ a. record a { insert_id_baseline = b }))
set_baseline-IsKeeping b = record {
  at = λ a. record { mode = refl; bound = refl; grown = Grows-refl a.world };
}

set_mode-IsKeeping :
    (mode : Bool) (g : ℕ)
    → IsKeeping (
        change
          (λ a. record a { no_backslash_escapes = some mode; backslash_mode_generation = some g }))
set_mode-IsKeeping mode g = record {
  at = λ a. record { mode = refl; bound = refl; grown = Grows-refl a.world };
}

baseline-IsKeeping : IsKeeping (λ (a : Adapter). done a.insert_id_baseline a)
baseline-IsKeeping = record { at = Kept-refl }

follow-IsKeeping : IsKeeping (change follow_insert_id_session)
follow-IsKeeping = record { at = Kept-follow }

forget-IsKeeping : IsKeeping (change forget_insert_id)
forget-IsKeeping = record { at = Kept-forget }

to_id-IsKeeping : (o : Option ℤ) → IsKeeping (to_id o)
to_id-IsKeeping none = IsKeeping-refuse (failure error)
to_id-IsKeeping (some n) = IsKeeping-give _

module _ (p : Platform) where
  fetch_last_insert_id-IsKeeping : IsKeeping (fetch_last_insert_id p)
  unfolding fetch_last_insert_id
  fetch_last_insert_id-IsKeeping = IsKeeping-bind the_cas-IsKeeping (λ c.
      IsKeeping-bind (IsKeeping-lifted (write_get_last_insert_id c.cas_info)) (λ f.
        IsKeeping-bind (on_cas-IsKeeping (send_and_recv-IsGrowing p.network p.config f))
          (λ payload. IsKeeping-lifted (parse_get_last_insert_id payload))))

  refresh_baseline-IsKeeping : IsKeeping (refresh_baseline p)
  refresh_baseline-IsKeeping =
      IsKeeping-bind fetch_last_insert_id-IsKeeping
        (λ value. IsKeeping-then follow-IsKeeping (set_baseline-IsKeeping (baseline_of value)))

  dropping-IsKeeping : IsKeeping (λ a. dropping_damaged (refresh_baseline p a))
  dropping-IsKeeping = record {
    at = λ a. Kept-dropping_damaged (refresh_baseline p a) (refresh_baseline-IsKeeping.at a);
  }

  pub read_insert_id_baseline-IsKeeping : (sql : List ℕ) → IsKeeping (read_insert_id_baseline p sql)
  unfolding read_insert_id_baseline
  read_insert_id_baseline-IsKeeping sql = IsKeeping-then follow-IsKeeping (
      IsKeeping-bind baseline-IsKeeping (λ b. do_if-IsKeeping (is_unknown b && may_insert sql) (
        IsKeeping-then assert_session-IsKeeping (
          IsKeeping-bind the_cas-IsKeeping
            (λ c. do_if-IsKeeping (is_connected c) dropping-IsKeeping)))))

  report_id-IsKeeping : (o : Option (List ℕ)) → IsKeeping (report_id p o)
  unfolding report_id
  report_id-IsKeeping none = IsKeeping-then (set_baseline-IsKeeping no_value) (IsKeeping-give none)
  report_id-IsKeeping (some text) = IsKeeping-bind baseline-IsKeeping (λ b.
      IsKeeping-then (set_baseline-IsKeeping (seen text)) (
        IsKeeping-if (is_generated b text) (to_id-IsKeeping (p.big_int text))
          (IsKeeping-give none)))

  last_id_of-IsKeeping : (infos : List ResultInfo) → IsKeeping (last_id_of p infos)
  last_id_of-IsKeeping infos = record {
    at = λ a.
        Kept-if (some_info is_insert infos) _ _
          ((IsKeeping-bind fetch_last_insert_id-IsKeeping
              (λ text. IsKeeping-then follow-IsKeeping (report_id-IsKeeping text))).at
            a)
          ((IsKeeping-then (do_if-IsKeeping (ltb 0 (affected_rows infos)) forget-IsKeeping)
              (IsKeeping-give none)).at
            a);
  }

  pub read_execute_result-IsKeeping :
      (result : PrepareAndExecuteResult) → IsKeeping (read_execute_result p result)
  unfolding read_execute_result
  read_execute_result-IsKeeping result =
      IsKeeping-bind (last_id_of-IsKeeping result.result_infos) (λ id. IsKeeping-give _)

  negotiate-IsKeeping : IsKeeping (negotiate_backslash_escapes p)
  unfolding negotiate_backslash_escapes
  negotiate-IsKeeping = IsKeeping-bind the_cas-IsKeeping (λ c.
      IsKeeping-bind (IsKeeping-lifted (write_prepare_and_execute probe_sql false c.cas_info)) (λ f.
        IsKeeping-bind (on_cas-IsKeeping (send_and_recv-IsGrowing p.network p.config f)) (λ payload.
          with_query_handle-IsKeeping p payload (
            IsKeeping-bind the_cas-IsKeeping (λ after.
              IsKeeping-bind
                (IsKeeping-lifted (parse_prepare_and_execute payload after.proto_version))
                (λ result. measured (probed p result.rows)))))))
    where
      measured : (o : Option ℤ) → IsKeeping (measured_mode o)
      measured none = record { at = Kept-refl }
      measured (some n) = record {
        at = λ a.
            Kept-if (n ==ℤ pos 2) (done true a)
              (if n ==ℤ pos 1 then done false a else threw (failure error) a) (Kept-refl a)
              (Kept-if (n ==ℤ pos 1) (done false a) (threw (failure error) a) (Kept-refl a)
                (Kept-refl a));
      }

  measure_mode-IsKeeping : IsKeeping (measure_mode p)
  measure_mode-IsKeeping = IsKeeping-bind the_cas-IsKeeping (λ c.
      IsKeeping-bind negotiate-IsKeeping
        (λ mode. IsKeeping-then (set_mode-IsKeeping mode c.generation) (IsKeeping-give mode)))

  pub ensure_backslash_mode-IsKeeping : IsKeeping (ensure_backslash_mode p)
  unfolding ensure_backslash_mode
  ensure_backslash_mode-IsKeeping = record {
    at = λ a. go a a.no_backslash_escapes a.backslash_mode_generation;
  }
    where
      go : (a : Adapter) (x : Option Bool) (y : Option ℕ) → Kept a (left_by (known_mode p x y a))
      go a none y = measure_mode-IsKeeping.at a
      go a (some mode) none = measure_mode-IsKeeping.at a
      go a (some mode) (some g) =
          Kept-if (a.world.cas.generation == g) (done mode a) (measure_mode p a) (Kept-refl a)
            (measure_mode-IsKeeping.at a)

  remaining_rows-IsKeeping :
      (result : PrepareAndExecuteResult) → IsKeeping (remaining_rows p result)
  remaining_rows-IsKeeping result = record {
    at = λ a.
        Kept-if (ltb_ℤ (pos (length result.rows)) result.total_tuple_count) _ (done result.rows a)
          ((fetch_remaining-IsKeeping p result result.rows).at a) (Kept-refl a);
  }

  lobs_loaded-IsKeeping :
      (g : ℕ) (result : PrepareAndExecuteResult) (rows : List Row) (ends : Bool)
      → IsKeeping (lobs_loaded p g result rows ends)
  lobs_loaded-IsKeeping g result rows ends = record {
    at = λ a.
        Kept-if (any_lob result.statement.columns) _ (done rows a)
          ((load_lobs-IsKeeping p g rows ends).at a) (Kept-refl a);
  }

  read_select-IsKeeping :
      (ends : Bool) (result : PrepareAndExecuteResult) → IsKeeping (read_select p ends result)
  read_select-IsKeeping ends result = IsKeeping-bind the_cas-IsKeeping (λ c.
      IsKeeping-bind (remaining_rows-IsKeeping result) (λ rows.
        IsKeeping-bind (lobs_loaded-IsKeeping c.generation result rows ends)
          (λ loaded. IsKeeping-give _)))

  selected-IsKeeping :
      (ends : Bool) (result : PrepareAndExecuteResult)
      → IsKeeping (λ a.
        if result.statement.statement_type ==ℤ pos statement_select
        then read_select p ends result a
        else done (record { rows = []; columns = [] }) a)
  selected-IsKeeping ends result = record {
    at = λ a.
        Kept-if (result.statement.statement_type ==ℤ pos statement_select)
          (read_select p ends result a) (done (record { rows = []; columns = [] }) a)
          ((read_select-IsKeeping ends result).at a) (Kept-refl a);
  }

  pub read_query-IsKeeping :
      (ends : Bool) (result : PrepareAndExecuteResult) → IsKeeping (read_query p ends result)
  unfolding read_query
  read_query-IsKeeping ends result =
      IsKeeping-then
        (do_if-IsKeeping (some_info (λ info. not (is_select info)) result.result_infos)
          forget-IsKeeping)
        (selected-IsKeeping ends result)

  refuse_stale-IsKeeping : (issued : IssuedOn) → IsKeeping (refuse_stale issued)
  refuse_stale-IsKeeping issued = record {
    at = λ a.
        Kept-if (is_stale issued a) (threw (failure error) a) (done tt a) (Kept-refl a)
          (Kept-refl a);
  }

  pub settle_statement-IsKeeping : (issued : IssuedOn) → IsKeeping (settle_statement p issued)
  unfolding settle_statement
  settle_statement-IsKeeping issued = IsKeeping-then drop_if_ended-IsKeeping (
      IsKeeping-then assert_session-IsKeeping (
        IsKeeping-then (refuse_stale-IsKeeping issued)
          (on_cas-IsKeeping (ensure_session-IsGrowing p.network p.config))))

  mode-IsKeeping :
      (params : List Param)
      → IsKeeping
          (λ a. if needs_backslash_mode params then ensure_backslash_mode p a else done true a)
  mode-IsKeeping params = record {
    at = λ a.
        Kept-if (needs_backslash_mode params) (ensure_backslash_mode p a) (done true a)
          (ensure_backslash_mode-IsKeeping.at a) (Kept-refl a);
  }

  pub resolve_sql-IsKeeping :
      (sql : List ℕ) (params : List Param) (o : Option PreparedBinds)
      → IsKeeping (resolve_sql p sql params o)
  unfolding resolve_sql
  resolve_sql-IsKeeping sql params (some binds) = IsKeeping-give sql
  resolve_sql-IsKeeping sql [] none = IsKeeping-give sql
  resolve_sql-IsKeeping sql (q ∷ qs) none =
      IsKeeping-bind (mode-IsKeeping (q ∷ qs))
        (λ mode. IsKeeping-lifted (interpolate_params p.number_text sql (q ∷ qs) mode))

  pub decoded-IsKeeping :
      (o : Option PreparedBinds) (payload : List ℕ) (g : ℕ) → IsKeeping (decoded p o payload g)
  decoded-IsKeeping none payload g =
      IsKeeping-bind the_cas-IsKeeping
        (λ c. IsKeeping-lifted (parse_prepare_and_execute payload c.proto_version))
  decoded-IsKeeping (some binds) payload g = execute_handle-IsKeeping p payload binds g
