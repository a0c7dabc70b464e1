-- ===== src/Session/Outcome.antt =====
-- What became of a request that went through sendAndRecv or sendAndRecvOnSession.
use cubrid_client.Base.{
  ℕ, ◌≡◌, ◌⊎◌, refl, arith, Bool, true, false, ◌&&◌, ◌==◌, List, ◌∷◌, if◌then◌else◌, inl, inr, drop,
  Option, some, none,
}
use cubrid_client.Errors.{Thrown, connection_lost}
use cubrid_client.Request.{Frame}
use cubrid_client.Session.World.{
  Sent, World, ask_reply, Answer, dead, broken, received, Network, Step, returned, raised, then_do,
  ◌>>=◌, give, tick, retired, on_wire, send_recv,
}
use cubrid_client.Session.Opening.{CasConfig, check_cas_now}
use cubrid_client.Session.Exchange.{
  probe_cas, needs_probe, after_probe, verify_session, exchange_lost, replied, exchange_unlocked,
  send_and_recv, on_session,
}
use cubrid_client.Session.Quiet.{
  Quiet, world_of, Quiet-refl, IsQuiet, IsQuiet-bind, IsQuiet-then, IsQuiet-with_cas,
}
use cubrid_client.Session.Control.{branch-Quiet, check_cas_now-IsQuiet, connect_unlocked-IsQuiet}

-- The entry of a request on the wire.
abbrev pub entry : World → List ℕ → Sent
entry w payload = record { on = w.cas.generation; payload = payload }

-- Where an exchange that starts in the world `w` ends. Answered: the request is on the wire once,
-- on the session of `w`, and the result is the reply to it. Lost: it is there at most once, the
-- session is gone, and a failed exchange is counted if `unknown` says so.
pub data Exchanged (net : Network) (f : Frame) (unknown : Bool) (w : World)
    : Step (List ℕ) → Type 0 where
  replied_to :
      (body : List ℕ) (w' : World)
      → net.answers w.clock (ask_reply f.payload) ≡ received body
      → w'.sent ≡ entry w f.payload ∷ w.sent
      → w'.cas ≡ replied f.payload body w.cas
      → Exchanged net f unknown w (returned (drop 4 body) w')
  lost :
      (e : Thrown) (w' : World)
      → (w'.sent ≡ w.sent) ⊎ (w'.sent ≡ entry w f.payload ∷ w.sent)
      → w'.cas ≡ exchange_lost unknown w.cas
      → Exchanged net f unknown w (raised e w')

module _ (net : Network) (f : Frame) (unknown : Bool) where
  abbrev settle_exchange : Step (List ℕ) → Step (List ℕ)
  settle_exchange s = elim s [
    | returned body w' ↦ returned (drop 4 body) (record w' { cas = replied f.payload body w'.cas })
    | raised e w' ↦ raised e (record w' { cas = exchange_lost unknown w'.cas })
  ]

  settle_exchange-Exchanged :
      (w : World) (a : Answer)
      → net.answers w.clock (ask_reply f.payload) ≡ a
      → Exchanged net f unknown w (settle_exchange (on_wire net f.payload a (tick w)))
  settle_exchange-Exchanged w dead e = lost connection_lost _ (inl refl) refl
  settle_exchange-Exchanged w (broken t) e = lost t _ (inr refl) refl
  settle_exchange-Exchanged w (received body) e = replied_to body _ e refl refl

  pub exchange_unlocked-Exchanged :
      (w : World) → Exchanged net f unknown w (exchange_unlocked net f unknown w)
  unfolding exchange_unlocked send_recv
  exchange_unlocked-Exchanged w = go (w.cas.has_socket && w.cas.connected)
    where
      go :
          (b : Bool)
          → Exchanged net f unknown w (
              settle_exchange (
                if b
                then on_wire net f.payload (net.answers w.clock (ask_reply f.payload)) (tick w)
                else raised connection_lost w))
      go true = settle_exchange-Exchanged w (net.answers w.clock (ask_reply f.payload)) refl
      go false = lost connection_lost _ (inl refl) refl

module _ (net : Network) (config : CasConfig) where
  probe_cas-IsQuiet : IsQuiet (probe_cas net)
  unfolding probe_cas
  probe_cas-IsQuiet = record {
    at = λ w. go w (check_cas_now net w) ((check_cas_now-IsQuiet net).at w);
  }
    where
      go :
          (w : World) (s : Step (Unit {0}))
          → Quiet w (world_of s)
          → Quiet w (
              world_of (elim s as (λ _. Step Bool) [
                | returned u w' ↦ returned true w'
                | raised e w' ↦ returned false w'
              ]))
      go w (returned u w') q = q
      go w (raised e w') q = q

  after_probe-IsQuiet : (b : Bool) → IsQuiet (after_probe net config b)
  after_probe-IsQuiet true =
      IsQuiet-with_cas (λ c. record c { cas_verified = true })
        (λ c. (refl, refl, refl, omega arith))
  after_probe-IsQuiet false =
      IsQuiet-then (IsQuiet-with_cas retired (λ c. (refl, refl, refl, omega arith)))
        (connect_unlocked-IsQuiet net config)

  pub verify_session-IsQuiet : IsQuiet (verify_session net config)
  unfolding verify_session
  verify_session-IsQuiet = record {
    at = λ w.
        branch-Quiet w (needs_probe w.cas) ((probe_cas net >>= after_probe net config) w)
          (returned tt w) ((IsQuiet-bind probe_cas-IsQuiet after_probe-IsQuiet).at w)
          (Quiet-refl w);
  }

-- Where `send_and_recv` ends: the session could not be verified, and only control requests went
-- out; or they went out first, if at all, and then came one exchange.
pub data Delivery (net : Network) (f : Frame) (w : World) : Step (List ℕ) → Type 0 where
  not_sent : (e : Thrown) (w' : World) → Quiet w w' → Delivery net f w (raised e w')
  exchanged :
      (between : World) (s : Step (List ℕ))
      → Quiet w between
      → Exchanged net f true between s
      → Delivery net f w s

pub send_and_recv-Delivery :
    (net : Network) (config : CasConfig) (f : Frame) (w : World)
    → Delivery net f w (send_and_recv net config f w)
unfolding send_and_recv
send_and_recv-Delivery net config f w =
    go (verify_session net config w) ((verify_session-IsQuiet net config).at w)
  where
    go :
        (s : Step (Unit {0}))
        → Quiet w (world_of s)
        → Delivery net f w (then_do s (λ _. exchange_unlocked net f true))
    go (returned u w') q = exchanged w' _ q (exchange_unlocked-Exchanged net f true w')
    go (raised e w') q = not_sent e w' q

-- Where a request for the session `generation` ends: the session is gone and nothing happened at
-- all, or it was there and one exchange took place on it.
pub data Held (net : Network) (generation : ℕ) (f : Frame) (unknown : Bool) (w : World)
    : Step (Option (List ℕ)) → Type 0 where
  gone :
      (w.cas.connected && w.cas.generation == generation) ≡ false
      → Held net generation f unknown w (returned none w)
  reply :
      (answer : List ℕ) (w' : World)
      → (w.cas.connected && w.cas.generation == generation) ≡ true
      → Exchanged net f unknown w (returned answer w')
      → Held net generation f unknown w (returned (some answer) w')
  failed :
      (e : Thrown) (w' : World)
      → (w.cas.connected && w.cas.generation == generation) ≡ true
      → Exchanged net f unknown w (raised e w')
      → Held net generation f unknown w (raised e w')

-- A request that belongs to one session runs on that session or not at all: if the connection is not
-- on the session of that generation, nothing is sent, nothing changes and the result is `none`;
-- otherwise exactly one exchange takes place, without a new session before it.
pub on_session-Held :
    (net : Network) (generation : ℕ) (f : Frame) (unknown : Bool) (w : World)
    → Held net generation f unknown w (on_session net generation f unknown w)
unfolding on_session
on_session-Held net generation f unknown w =
    go (w.cas.connected && w.cas.generation == generation) refl
  where
    ran :
        (w.cas.connected && w.cas.generation == generation) ≡ true
        → (s : Step (List ℕ)) → Exchanged net f unknown w s
        → Held net generation f unknown w (then_do s (λ body. give (some body)))
    ran e (returned body w') x = reply body w' e x
    ran e (raised t w') x = failed t w' e x

    go :
        (b : Bool)
        → (w.cas.connected && w.cas.generation == generation) ≡ b
        → Held net generation f unknown w (
            if b
            then (do body ← exchange_unlocked net f unknown; give (some body)) w
            else returned none w)
    go true e =
        ran e (exchange_unlocked net f unknown w) (exchange_unlocked-Exchanged net f unknown w)
    go false e = gone e
