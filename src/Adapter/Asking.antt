-- ===== src/Adapter/Asking.antt =====
-- A request for one session whose reply is demanded, as FETCH and LOB_READ are sent.
use cubrid_client.Base.{
  ℕ, ◌≡◌, refl, ap, ◌∙◌, arith, Bool, true, false, ◌&&◌, ◌==◌, List, ◌∷◌, if◌then◌else◌, some, none,
  drop,
}
use cubrid_client.Errors.{Thrown, connection_lost}
use cubrid_client.Request.{Frame}
use cubrid_client.Session.World.{World, ask_reply, received, Step, returned, then_do}
use cubrid_client.Session.Exchange.{exchange_unlocked, on_session, send_and_recv_on_session}
use cubrid_client.Session.Outcome.{Exchanged, replied_to, lost, exchange_unlocked-Exchanged}
use cubrid_client.Adapter.{Adapter, Turned, threw, Turn, then_turn, at_world}
use cubrid_client.Adapter.Turns.{Platform, on_cas, answered_or_lost}

pub generation_there :
    (w : World) (g : ℕ) → (w.cas.connected && w.cas.generation == g) ≡ true → w.cas.generation ≡ g
generation_there w g h = ground arith

-- The request went to the session `g`, and this is the reply to it.
pub record RepliedOn (p : Platform) (g : ℕ) (f : Frame) (w w' : World) (body : List ℕ)
    : Type 0 where
  pub wire : w'.sent ≡ record { on = g; payload = f.payload } ∷ w.sent
  pub reply : p.network.answers w.clock (ask_reply f.payload) ≡ received body

module _ {ℓ} {B : Type 0} (p : Platform) (g : ℕ) (f : Frame) (a : Adapter) (k : List ℕ → Turn B)
    (P : Turned B → Type ℓ)
    (answered : (body : List ℕ) (b : Adapter)
      → RepliedOn p g f a.world b.world body
      → P (k (drop 4 body) b))
    (failing : (e : Thrown) (b : Adapter) → P (threw e b)) where
  exchanged_then :
      a.world.cas.generation ≡ g
      → (s : Step (List ℕ)) → Exchanged p.network f true a.world s
      → P (
          then_turn
            (at_world a (then_do s (λ answer w. returned (some answer) w)))
            (λ reply b. then_turn (answered_or_lost reply b) k))
  exchanged_then h _ (lost x w y z) = failing x _
  exchanged_then h _ (replied_to body w r s c) =
      answered body (record a { world = w })
        (record {
          wire = s ∙ ap (λ n. record { on = n; payload = f.payload } ∷ a.world.sent) h;
          reply = r;
        })

  -- A property of what follows the reply, and of every failure, holds of the whole request.
  pub asked_then : P (
      then_turn
        (on_cas (send_and_recv_on_session p.network g f) a)
        (λ reply b. then_turn (answered_or_lost reply b) k))
  unfolding send_and_recv_on_session on_session
  asked_then = go (a.world.cas.connected && a.world.cas.generation == g) refl
    where
      go :
          (b : Bool)
          → (a.world.cas.connected && a.world.cas.generation == g) ≡ b
          → P (
              then_turn
                (at_world a (
                  if b
                  then then_do
                      (exchange_unlocked p.network f true a.world)
                      (λ answer w. returned (some answer) w)
                  else returned none a.world))
                (λ reply c. then_turn (answered_or_lost reply c) k))
      go true h =
          exchanged_then (generation_there a.world g h) (exchange_unlocked p.network f true a.world)
            (exchange_unlocked-Exchanged p.network f true a.world)
      go false h = failing connection_lost _
