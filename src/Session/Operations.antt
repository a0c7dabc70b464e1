-- ===== src/Session/Operations.antt =====
-- The operations of a connection, and any sequence of them in the order of its queue.
use cubrid_client.Base.{ℕ, Bool, List, [], ◌∷◌}
use cubrid_client.Request.{Frame}
use cubrid_client.Session.World.{SessionParameter, World, Network, give}
use cubrid_client.Session.Opening.{CasConfig}
use cubrid_client.Session.Exchange.{
  ensure_session, send_and_recv, on_session, discard_session, set_session_parameters, close, ping,
}
use cubrid_client.Session.Quiet.{world_of}
use cubrid_client.Session.Safe.{IsSound, IsSafe-give, discard_session-IsSafe}
use cubrid_client.Session.Sound.{
  ensure_session-IsSafe, send_and_recv-IsSafe, on_session-IsSafe, set_session_parameters-IsSafe,
  close-IsSafe, ping-IsSafe,
}

pub data Operation : Type 0 where
  ensure disconnect drop_session : Operation
  request : Frame → Operation
  request_on : ℕ → Frame → Bool → Operation
  configure : List SessionParameter → Operation
  check_alive : Bool → Operation

module _ (net : Network) (config : CasConfig) where
  -- One operation, run to its end; what it throws goes to its caller.
  unfoldable pub perform : Operation → World → World
  perform ensure w = world_of (ensure_session net config w)
  perform disconnect w = world_of (close (give tt) w)
  perform drop_session w = world_of (discard_session w)
  perform (request f) w = world_of (send_and_recv net config f w)
  perform (request_on generation f unknown) w = world_of (on_session net generation f unknown w)
  perform (configure ps) w = world_of (set_session_parameters net config ps w)
  perform (check_alive inside) w = world_of (ping net config inside w)

  unfoldable pub perform_all : List Operation → World → World
  perform_all [] w = w
  perform_all (o ∷ os) w = perform_all os (perform o w)

  perform-IsSound : (o : Operation) (w : World) → IsSound w → IsSound (perform o w)
  unfolding perform
  perform-IsSound ensure w q = (ensure_session-IsSafe net config).at w q
  perform-IsSound disconnect w q = (close-IsSafe (give tt) (IsSafe-give tt)).at w q
  perform-IsSound drop_session w q = discard_session-IsSafe.at w q
  perform-IsSound (request f) w q = (send_and_recv-IsSafe net config f).at w q
  perform-IsSound (request_on generation f unknown) w q =
      (on_session-IsSafe net generation f unknown).at w q
  perform-IsSound (configure ps) w q = (set_session_parameters-IsSafe net config ps).at w q
  perform-IsSound (check_alive inside) w q = (ping-IsSafe net config inside).at w q

-- Whatever operations run, in whatever order, and whatever the network answers: a connection that
-- is sound stays sound. So between operations it never counts as connected without a socket, it is
-- never left half set up, and no request ever goes to a session older than the one before it.
pub perform_all-IsSound :
    (net : Network) (config : CasConfig) (os : List Operation) (w : World)
    → IsSound w
    → IsSound (perform_all net config os w)
unfolding perform_all
perform_all-IsSound net config [] w q = q
perform_all-IsSound net config (o ∷ os) w q =
    perform_all-IsSound net config os (perform net config o w) (perform-IsSound net config o w q)
