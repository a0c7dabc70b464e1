-- ===== src/Session/Steady.antt =====
-- What the steps of a handshake leave of the state.
use cubrid_client.Base.{
  ℕ, zero, suc, ◌≡◌, refl, ◌∙◌, Bool, true, false, ◌&&◌, List, [], ◌∷◌, if◌then◌else◌, ℤ, pos,
  negsuc,
}
use cubrid_client.Failure.{error, Result, ok, fail}
use cubrid_client.Errors.{Thrown, failure, connection_lost}
use cubrid_client.Request.{Frame, write_set_db_parameter, write_check_cas}
use cubrid_client.Reply.Simple.{parse_simple_response, parse_check_cas}
use cubrid_client.Session.World.{
  SessionParameter, Cas, Sent, World, Ask, ask_tls, ask_reply, Answer, dead, broken, received,
  Network, Step, returned, raised, Act, then_do, ◌>>=◌, ◌>>◌, give, raise, rescue, lift, with_cas,
  tick, create_socket, heard, await_bytes, on_wire, send_recv,
}
use cubrid_client.Session.Opening.{
  quiet_exchange, apply_parameter, apply_parameters, check_cas_now, settled_cas, settings_failed,
  settings, apply_session_parameters, redirected, upgrade,
}
use cubrid_client.Session.Quiet.{world_of}

-- The fields that say which session there is and what it is used for.
pub record Shape : Type 0 where
  pub has_socket : Bool
  pub connected : Bool
  pub setting_up : Bool
  pub generation : ℕ
  pub session_parameters : List SessionParameter

abbrev pub shape : Cas → Shape
shape c = record {
  has_socket = c.has_socket;
  connected = c.connected;
  setting_up = c.setting_up;
  generation = c.generation;
  session_parameters = c.session_parameters;
}

abbrev pub shape_of : World → Shape
shape_of w = shape w.cas

-- What a request without a frame leaves as it was.
abbrev pub idle_of : World → Cas × List Sent
idle_of w = (w.cas, w.sent)

-- A method that changes nothing that `view` shows.
pub record IsSteady {ℓ} {V : Type 0} (view : World → V) {A : Type ℓ} (m : Act A) : Type ℓ where
  pub at : (w : World) → view (world_of (m w)) ≡ view w

module _ {V : Type 0} {view : World → V} where
  Steady-then {ℓ κ} :
      {A : Type ℓ} {B : Type κ} (w : World) (s : Step A) (f : A → Act B)
      → view (world_of s) ≡ view w
      → ((a : A) → IsSteady view (f a))
      → view (world_of (then_do s f)) ≡ view w
  Steady-then w (returned a w') f q h = (h a).at w' ∙ q
  Steady-then w (raised e w') f q h = q

  pub IsSteady-bind {ℓ κ} :
      {A : Type ℓ} {B : Type κ} {m : Act A} {f : A → Act B}
      → IsSteady view m
      → ((a : A) → IsSteady view (f a))
      → IsSteady view (m >>= f)
  IsSteady-bind {m} {f} h k = record { at = λ w. Steady-then w (m w) f (h.at w) k }

  pub IsSteady-give {ℓ} : {A : Type ℓ} (a : A) → IsSteady view (give a)
  IsSteady-give a = record { at = λ w. refl }

  pub IsSteady-raise {ℓ} : {A : Type ℓ} (e : Thrown) → IsSteady view (raise {A = A} e)
  IsSteady-raise e = record { at = λ w. refl }

  pub IsSteady-lift {ℓ} : {A : Type ℓ} (r : Result A) → IsSteady view (lift r)
  IsSteady-lift (ok a) = IsSteady-give a
  IsSteady-lift (fail e) = IsSteady-raise (failure e)

  Steady-rescue {ℓ} :
      {A : Type ℓ} (w : World) (s : Step A) (f : Thrown → Act A)
      → view (world_of s) ≡ view w
      → ((e : Thrown) → IsSteady view (f e))
      → view (world_of (rescue s f)) ≡ view w
  Steady-rescue w (returned a w') f q h = q
  Steady-rescue w (raised e w') f q h = (h e).at w' ∙ q

Steady-if {ℓ} :
    {V : Type 0} (view : World → V) {A : Type ℓ} (w : World) (b : Bool) (s t : Step A)
    → view (world_of s) ≡ view w
    → view (world_of t) ≡ view w
    → view (world_of (if b then s else t)) ≡ view w
Steady-if view w true s t p q = p
Steady-if view w false s t p q = q

-- Steps without a frame only let the clock run.
module _ {V : Type 0} (view : World → V) (still : (w : World) → view (tick w) ≡ view w)
    (net : Network) where
  pub create_socket-IsSteady : IsSteady view (create_socket net)
  unfolding create_socket
  create_socket-IsSteady = record {
    at = λ w. Steady-if view w (net.opens w.clock) _ _ (still w) (still w);
  }

  heard-IsSteady : (a : Answer) → IsSteady view (heard net a)
  heard-IsSteady dead = IsSteady-raise connection_lost
  heard-IsSteady (broken e) = IsSteady-raise e
  heard-IsSteady (received bytes) = IsSteady-give bytes

  pub await_bytes-IsSteady : (ask : Ask) → IsSteady view (await_bytes net ask)
  unfolding await_bytes
  await_bytes-IsSteady ask = record {
    at = λ w. (heard-IsSteady (net.answers w.clock ask)).at (tick w) ∙ still w;
  }

  pub redirected-IsSteady : (port : ℤ) → IsSteady view (redirected net port)
  unfolding redirected
  redirected-IsSteady (negsuc n) = IsSteady-raise (failure error)
  redirected-IsSteady (pos zero) = IsSteady-give tt
  redirected-IsSteady (pos (suc n)) = create_socket-IsSteady

  pub upgrade-IsSteady : (ssl : Bool) → IsSteady view (upgrade net ssl)
  unfolding upgrade
  upgrade-IsSteady false = IsSteady-give tt
  upgrade-IsSteady true = IsSteady-bind (await_bytes-IsSteady ask_tls) (λ _. IsSteady-give tt)

module _ (net : Network) where
  on_wire-Steady :
      (payload : List ℕ) (a : Answer) (w : World)
      → shape_of (world_of (on_wire net payload a w)) ≡ shape_of w
  on_wire-Steady payload dead w = refl
  on_wire-Steady payload (broken e) w = refl
  on_wire-Steady payload (received bytes) w = refl

  pub send_recv-IsSteady : (f : Frame) → IsSteady shape_of (send_recv net f)
  unfolding send_recv
  send_recv-IsSteady f = record {
    at = λ w.
        Steady-if shape_of w (w.cas.has_socket && w.cas.connected) _ _
          (on_wire-Steady f.payload (net.answers w.clock (ask_reply f.payload)) (tick w)) refl;
  }

  quiet_exchange-IsSteady : (f : Frame) → IsSteady shape_of (quiet_exchange net f)
  unfolding quiet_exchange
  quiet_exchange-IsSteady f =
      IsSteady-bind (send_recv-IsSteady f) (λ body. record { at = λ w. refl })

  apply_parameter-IsSteady : (p : SessionParameter) → IsSteady shape_of (apply_parameter net p)
  unfolding apply_parameter
  apply_parameter-IsSteady p = record {
    at = λ w.
        (IsSteady-bind (IsSteady-lift (write_set_db_parameter p.parameter p.value w.cas.cas_info))
            (λ f.
              IsSteady-bind (quiet_exchange-IsSteady f)
                (λ payload. IsSteady-lift (parse_simple_response payload)))).at
          w;
  }

  apply_parameters-IsSteady :
      (ps : List SessionParameter) → IsSteady shape_of (apply_parameters net ps)
  unfolding apply_parameters
  apply_parameters-IsSteady [] = IsSteady-give tt
  apply_parameters-IsSteady (p ∷ ps) =
      IsSteady-bind (apply_parameter-IsSteady p) (λ _. apply_parameters-IsSteady ps)

  pub check_cas_now-IsSteady : IsSteady shape_of (check_cas_now net)
  unfolding check_cas_now
  check_cas_now-IsSteady = record {
    at = λ w.
        (IsSteady-bind (IsSteady-lift (write_check_cas w.cas.cas_info)) (λ f.
            IsSteady-bind (quiet_exchange-IsSteady f)
              (λ payload. IsSteady-lift (parse_check_cas payload)))).at
          w;
  }

  settings-Steady :
      (ps : List SessionParameter) (w : World)
      → shape_of (world_of (settings net ps w)) ≡ shape_of w
  settings-Steady [] w = refl
  settings-Steady (p ∷ ps) w =
      Steady-then {view = shape_of} w
        (rescue ((do apply_parameters net (p ∷ ps); check_cas_now net) w)
          (λ e. raise (settings_failed e)))
        (λ _. with_cas settled_cas)
        (Steady-rescue {view = shape_of} w ((do apply_parameters net (p ∷ ps); check_cas_now net) w)
          (λ e. raise (settings_failed e))
          ((IsSteady-bind (apply_parameters-IsSteady (p ∷ ps)) (λ _. check_cas_now-IsSteady)).at w)
          (λ e. IsSteady-raise (settings_failed e)))
        (λ _. record { at = λ w'. refl })

  pub apply_session_parameters-IsSteady : IsSteady shape_of (apply_session_parameters net)
  unfolding apply_session_parameters
  apply_session_parameters-IsSteady = record {
    at = λ w. settings-Steady w.cas.session_parameters w;
  }
