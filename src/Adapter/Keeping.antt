-- ===== src/Adapter/Keeping.antt =====
-- The parts of a statement, each with what it leaves alone: handles, windows of rows, LOB contents,
-- insert ids and the backslash mode.
use cubrid_client.Base.{
  ℕ, zero, suc, ◌-◌, not, ◌||◌, List, ◌++◌, Option, some, none, ℤ, pos, length, ◌==ℤ◌, leb_ℤ, ltb_ℤ,
  ◌+ℤ◌, pos_part,
}
use cubrid_client.Bind.{PreparedBinds}
use cubrid_client.Failure.{error}
use cubrid_client.Errors.{failure}
use cubrid_client.Request.{Frame}
use cubrid_client.Reply.Simple.{parse_simple_response}
use cubrid_client.Reply.Execute.{
  FetchResult, PrepareAndExecuteResult, parse_fetch, read_query_handle,
}
use cubrid_client.Rows.{Row}
use cubrid_client.Session.Exchange.{send_and_recv_on_session}
use cubrid_client.Session.Growth.{send_and_recv_on_session-IsGrowing, release_on_session-IsGrowing}
use cubrid_client.Adapter.{Adapter, Turned, done, Turn}
use cubrid_client.Adapter.Turns.{Platform, or_default, give, on_cas}
use cubrid_client.Adapter.Handle.{
  dropping_damaged, release_handle, close_query_handle, close_if_open, with_query_handle,
  exchange_on_session, execute_handle, ended_or_lost, end_statement_transaction,
}
use cubrid_client.Adapter.Fetching.{
  default_fetch_size, checked_rows, fetch_window, fetch_rest, fetch_remaining,
}
use cubrid_client.Adapter.Kept.{
  Kept, left_by, Kept-refl, Kept-if, Kept-catching, Kept-finally, IsKeeping, IsKeeping-bind,
  IsKeeping-if, answered_or_lost-IsKeeping, IsKeeping-give, IsKeeping-refuse, IsKeeping-lifted,
  the_cas-IsKeeping, on_cas-IsKeeping, keeping_rules,
}

pub Kept-dropping_damaged {ℓ} :
    {A : Type ℓ} {a : Adapter} (s : Turned A)
    → Kept a (left_by s)
    → Kept a (left_by (dropping_damaged s))
Kept-dropping_damaged s k = Kept-catching s _ k (λ e. search keeping_rules depth 20)

checked_rows-IsKeeping : (total : ℤ) (n : ℕ) (w : FetchResult) → IsKeeping (checked_rows total n w)
unfolding checked_rows
checked_rows-IsKeeping total n w =
    IsKeeping-if (leb_ℤ w.tuple_count (pos 0)) (IsKeeping-refuse (failure error)) (
      IsKeeping-if
        (not (pos (length w.rows) ==ℤ w.tuple_count) || ltb_ℤ total (pos n +ℤ w.tuple_count))
        (IsKeeping-refuse (failure error)) (IsKeeping-give w.rows))

module _ (p : Platform) where
  pub asked-IsKeeping :
      (generation : ℕ) (f : Frame)
      → IsKeeping (on_cas (send_and_recv_on_session p.network generation f))
  asked-IsKeeping generation f =
      on_cas-IsKeeping (send_and_recv_on_session-IsGrowing p.network generation f)

  close_query_handle-IsKeeping :
      (query_handle : ℤ) (generation : ℕ) → IsKeeping (close_query_handle p query_handle generation)
  unfolding close_query_handle release_handle
  close_query_handle-IsKeeping query_handle generation = record {
    at = λ a.
        Kept-catching (release_handle p query_handle generation a) (λ e. give tt) (released.at a)
          (λ e. IsKeeping-give tt);
  }
    where
      released : IsKeeping (release_handle p query_handle generation)
      released = IsKeeping-bind the_cas-IsKeeping (λ c. IsKeeping-bind (IsKeeping-lifted _) (λ f.
          IsKeeping-bind (on_cas-IsKeeping (release_on_session-IsGrowing p.network generation f))
            (λ reply. search keeping_rules depth 20)))

  pub close_if_open-IsKeeping : (o : Option ℤ) (g : ℕ) → IsKeeping (close_if_open p o g)
  close_if_open-IsKeeping none g = IsKeeping-give tt
  close_if_open-IsKeeping (some query_handle) g = close_query_handle-IsKeeping query_handle g

  pub with_query_handle-IsKeeping {ℓ} :
      {A : Type ℓ} {m : Turn A} (response : List ℕ)
      → IsKeeping m
      → IsKeeping (with_query_handle p response m)
  unfolding with_query_handle
  with_query_handle-IsKeeping {m} response h = record {
    at = λ a.
        Kept-finally (dropping_damaged (m a)) _ (Kept-dropping_damaged (m a) (h.at a))
          (close_if_open-IsKeeping (read_query_handle response) a.world.cas.generation);
  }

  exchange_on_session-IsKeeping :
      (generation : ℕ) (f : Frame) → IsKeeping (exchange_on_session p generation f)
  unfolding exchange_on_session
  exchange_on_session-IsKeeping generation f =
      IsKeeping-bind (asked-IsKeeping generation f) (λ reply. search keeping_rules depth 20)

  pub execute_handle-IsKeeping :
      (reply : List ℕ) (binds : PreparedBinds) (generation : ℕ)
      → IsKeeping (execute_handle p reply binds generation)
  unfolding execute_handle
  execute_handle-IsKeeping reply binds generation =
      search (exchange_on_session-IsKeeping, keeping_rules) depth 20

  pub end_statement_transaction-IsKeeping :
      (type : ℤ) (generation : ℕ) → IsKeeping (end_statement_transaction p type generation)
  unfolding end_statement_transaction
  end_statement_transaction-IsKeeping type generation = IsKeeping-bind the_cas-IsKeeping (λ c.
      IsKeeping-bind (IsKeeping-lifted _)
        (λ f. IsKeeping-bind (asked-IsKeeping generation f) checked))
    where
      checked : (r : Option (List ℕ)) → IsKeeping (ended_or_lost p type r)
      checked none = search keeping_rules depth 20
      checked (some payload) = IsKeeping-lifted (parse_simple_response payload)

  module _ (generation : ℕ) (result : PrepareAndExecuteResult) (fetch_size : ℕ) where
    fetch_window-IsKeeping : (n : ℕ) → IsKeeping (fetch_window p generation result fetch_size n)
    unfolding fetch_window
    fetch_window-IsKeeping n = IsKeeping-bind the_cas-IsKeeping (λ c.
        IsKeeping-bind (IsKeeping-lifted _) (λ f.
          IsKeeping-bind (asked-IsKeeping generation f) (λ reply.
            IsKeeping-bind (answered_or_lost-IsKeeping reply) (λ payload.
              IsKeeping-bind (IsKeeping-lifted (parse_fetch payload result.statement.columns))
                (checked_rows-IsKeeping result.total_tuple_count n)))))

    fetch_rest-IsKeeping :
        (fuel : ℕ) (rows : List Row)
        → IsKeeping (fetch_rest p generation result fetch_size fuel rows)
    unfolding fetch_rest
    fetch_rest-IsKeeping zero rows = record { at = Kept-refl }
    fetch_rest-IsKeeping (suc fuel) rows = record {
      at = λ a.
          Kept-if (ltb_ℤ (pos (length rows)) result.total_tuple_count) _ (done rows a)
            ((IsKeeping-bind (fetch_window-IsKeeping (length rows))
                (λ window. fetch_rest-IsKeeping fuel (rows ++ window))).at
              a)
            (Kept-refl a);
    }

  pub fetch_remaining-IsKeeping :
      (result : PrepareAndExecuteResult) (rows : List Row)
      → IsKeeping (fetch_remaining p result rows)
  unfolding fetch_remaining
  fetch_remaining-IsKeeping result rows = IsKeeping-bind the_cas-IsKeeping (λ c.
      fetch_rest-IsKeeping c.generation result (or_default p.fetch_size default_fetch_size)
        (suc (pos_part result.total_tuple_count - length rows)) rows)
