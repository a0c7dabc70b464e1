-- ===== src/Adapter/Damaged.antt =====
-- A damaged reply inside withQueryHandle of src/adapters/native.ts.
use cubrid_client.Base.{ℕ, ◌≡◌, refl, ap, ◌∙◌, true, List, Option, some, none, ℤ}
use cubrid_client.Failure.{Result, ok, fail, malformed_reply}
use cubrid_client.Errors.{failure}
use cubrid_client.Request.{Frame, write_close_req_handle}
use cubrid_client.Reply.Execute.{read_query_handle}
use cubrid_client.Session.Exchange.{exchange_lost, discard_session, on_session, release_on_session}
use cubrid_client.Adapter.{Adapter, Turned, done, threw, Turn, then_turn}
use cubrid_client.Adapter.Turns.{Platform, give, lifted, catching, finally, on_cas, check_reply}
use cubrid_client.Adapter.Handle.{
  dropping_damaged, release_handle, close_query_handle, close_if_open, with_query_handle,
}

-- The session is gone, and its failure is counted.
abbrev pub dropped : Adapter → Adapter
dropped b = record b { world = record b.world { cas = exchange_lost true b.world.cas } }

released_nowhere :
    (p : Platform) (g : ℕ) (b : Adapter) (r : Result Frame)
    → catching
        (then_turn
          (lifted r (dropped b))
          (λ f c. then_turn (on_cas (release_on_session p.network g f) c) check_reply))
        (λ _. give tt)
      ≡ done tt (dropped b)
unfolding release_on_session on_session
released_nowhere p g b (fail e) = refl
released_nowhere p g b (ok f) = refl

close_if_open-dropped :
    (p : Platform) (o : Option ℤ) (g : ℕ) (b : Adapter)
    → close_if_open p o g (dropped b) ≡ done tt (dropped b)
unfolding close_query_handle release_handle
close_if_open-dropped p none g b = refl
close_if_open-dropped p (some h) g b =
    released_nowhere p g b (write_close_req_handle h (dropped b).world.cas.cas_info)

-- If what runs while a handle is open meets a damaged reply, the session is dropped and counted as
-- a failed exchange, nothing at all is sent any more, not even the release of the handle, and the
-- failure is thrown as it is.
pub with_query_handle-dropped {ℓ} :
    {A : Type ℓ} (p : Platform) (response : List ℕ) (body : Turn A) (a b : Adapter)
    → body a ≡ threw (failure malformed_reply) b
    → with_query_handle p response body a ≡ threw (failure malformed_reply) (dropped b)
unfolding with_query_handle discard_session
with_query_handle-dropped p response body a b e =
    ap
      (λ s.
        finally (dropping_damaged s)
          (close_if_open p (read_query_handle response) a.world.cas.generation))
      e
    ∙ ap (λ (s : Turned (Unit {0})). then_turn s (λ _. threw (failure malformed_reply)))
        (close_if_open-dropped p (read_query_handle response) a.world.cas.generation b)
