-- ===== src/Session/Growth.antt =====
-- The wire of a connection only grows, whatever its methods do.
use cubrid_client.Base.{
  ℕ, ◌≡◌, refl, sym, ap, ◌∙◌, Bool, true, false, not, List, [], ◌∷◌, ◌++◌, append_assoc, inl, inr,
}
use cubrid_client.Failure.{Result, ok, fail}
use cubrid_client.Request.{Frame, write_check_cas, write_get_db_version}
use cubrid_client.Reply.Simple.{parse_check_cas, parse_get_db_version}
use cubrid_client.Session.World.{
  Sent, World, Cas, Network, Step, returned, raised, Act, then_do, ◌>>=◌, lift, get_cas,
}
use cubrid_client.Session.Opening.{CasConfig, connect_unlocked}
use cubrid_client.Session.Exchange.{
  send_and_recv, on_session, send_and_recv_on_session, release_on_session, discard_session,
  ensure_session, confirm, ping,
}
use cubrid_client.Session.Quiet.{Quiet, world_of, IsQuiet, IsQuiet-then}
use cubrid_client.Session.Control.{connect_unlocked-IsQuiet}
use cubrid_client.Session.Outcome.{
  Exchanged, replied_to, lost, Delivery, not_sent, exchanged, send_and_recv-Delivery, Held, gone,
  reply, failed, on_session-Held, verify_session-IsQuiet,
}

-- The requests of `w'` are those of `w` and later ones.
pub record Grows (w w' : World) : Type 0 where
  pub later : List Sent
  pub wire : w'.sent ≡ later ++ w.sent

pub Grows-refl : (w : World) → Grows w w
Grows-refl w = record { later = []; wire = refl }

pub Grows-trans : {w w' w'' : World} → Grows w w' → Grows w' w'' → Grows w w''
Grows-trans {w} {w'} {w''} q r = record {
  later = r.later ++ q.later;
  wire = r.wire ∙ ap (λ t. r.later ++ t) q.wire ∙ sym (append_assoc r.later q.later w.sent);
}

pub Quiet-Grows : (w w' : World) → Quiet w w' → Grows w w'
Quiet-Grows w w' q = record { later = q.requests; wire = q.wire }

-- A method after which the wire has grown.
pub record IsGrowing {ℓ} {A : Type ℓ} (m : Act A) : Type ℓ where
  pub at : (w : World) → Grows w (world_of (m w))

IsQuiet-IsGrowing {ℓ} : {A : Type ℓ} {m : Act A} → IsQuiet m → IsGrowing m
IsQuiet-IsGrowing {m} q = record { at = λ w. Quiet-Grows w (world_of (m w)) (q.at w) }

pub discard_session-IsGrowing : IsGrowing discard_session
unfolding discard_session
discard_session-IsGrowing = record { at = λ w. record { later = []; wire = refl } }

Exchanged-Grows :
    (net : Network) (f : Frame) (unknown : Bool) (w : World) (s : Step (List ℕ))
    → Exchanged net f unknown w s
    → Grows w (world_of s)
Exchanged-Grows net f unknown w _ (replied_to body w' a s c) = record { later = _ ∷ []; wire = s }
Exchanged-Grows net f unknown w _ (lost e w' (inl s) c) = record { later = []; wire = s }
Exchanged-Grows net f unknown w _ (lost e w' (inr s) c) = record { later = _ ∷ []; wire = s }

module _ (net : Network) where
  on_session-IsGrowing :
      (generation : ℕ) (f : Frame) (unknown : Bool)
      → IsGrowing (on_session net generation f unknown)
  on_session-IsGrowing generation f unknown = record {
    at = λ w.
        go w (on_session net generation f unknown w) (on_session-Held net generation f unknown w);
  }
    where
      go : (w : World) (s : _) → Held net generation f unknown w s → Grows w (world_of s)
      go w _ (gone e) = Grows-refl w
      go w _ (reply answer w' e x) = Exchanged-Grows net f unknown w (returned answer w') x
      go w _ (failed t w' e x) = Exchanged-Grows net f unknown w (raised t w') x

  pub send_and_recv_on_session-IsGrowing :
      (generation : ℕ) (f : Frame) → IsGrowing (send_and_recv_on_session net generation f)
  unfolding send_and_recv_on_session
  send_and_recv_on_session-IsGrowing generation f = on_session-IsGrowing generation f true

  pub release_on_session-IsGrowing :
      (generation : ℕ) (f : Frame) → IsGrowing (release_on_session net generation f)
  unfolding release_on_session
  release_on_session-IsGrowing generation f = on_session-IsGrowing generation f false

module _ (net : Network) (config : CasConfig) where
  pub connect_unlocked-IsGrowing : IsGrowing (connect_unlocked net config)
  connect_unlocked-IsGrowing = IsQuiet-IsGrowing (connect_unlocked-IsQuiet net config)

  pub ensure_session-IsGrowing : IsGrowing (ensure_session net config)
  unfolding ensure_session
  ensure_session-IsGrowing =
      IsQuiet-IsGrowing
        (IsQuiet-then (verify_session-IsQuiet net config) (connect_unlocked-IsQuiet net config))

  pub send_and_recv-IsGrowing : (f : Frame) → IsGrowing (send_and_recv net config f)
  send_and_recv-IsGrowing f = record {
    at = λ w. go w (send_and_recv net config f w) (send_and_recv-Delivery net config f w);
  }
    where
      go : (w : World) (s : Step (List ℕ)) → Delivery net f w s → Grows w (world_of s)
      go w _ (not_sent e w' q) = Quiet-Grows w w' q
      go w _ (exchanged v s q x) =
          Grows-trans (Quiet-Grows w v q) (Exchanged-Grows net f true v s x)

IsGrowing-bind {ℓ κ} :
    {A : Type ℓ} {B : Type κ} {m : Act A} {f : A → Act B}
    → IsGrowing m
    → ((a : A) → IsGrowing (f a))
    → IsGrowing (m >>= f)
IsGrowing-bind {m} {f} h k = record { at = λ w. go w (m w) (h.at w) }
  where
    go : (w : World) (s : Step _) → Grows w (world_of s) → Grows w (world_of (then_do s f))
    go w (returned a w') q = Grows-trans q ((k a).at w')
    go w (raised e w') q = q

IsGrowing-lift {ℓ} : {A : Type ℓ} (r : Result A) → IsGrowing (lift r)
IsGrowing-lift (ok a) = record { at = Grows-refl }
IsGrowing-lift (fail e) = record { at = Grows-refl }

get_cas-IsGrowing :
    {A : Type 0} {f : Cas → Act A} → ((c : Cas) → IsGrowing (f c)) → IsGrowing (get_cas >>= f)
get_cas-IsGrowing h = record { at = λ w. (h w.cas).at w }

module _ (net : Network) (config : CasConfig) where
  confirm-IsGrowing : (b : Bool) → IsGrowing (confirm net config b)
  unfolding confirm
  confirm-IsGrowing false = record { at = Grows-refl }
  confirm-IsGrowing true = get_cas-IsGrowing (λ c.
      IsGrowing-bind (IsGrowing-lift (write_check_cas c.cas_info)) (λ f.
        IsGrowing-bind (send_and_recv-IsGrowing net config f)
          (λ payload. IsGrowing-lift (parse_check_cas payload))))

  pub ping-IsGrowing : (b : Bool) → IsGrowing (ping net config b)
  unfolding ping
  ping-IsGrowing b = IsGrowing-bind (confirm-IsGrowing b) (λ _. get_cas-IsGrowing (λ c.
      IsGrowing-bind (IsGrowing-lift (write_get_db_version (not b) c.cas_info)) (λ f.
        IsGrowing-bind (send_and_recv-IsGrowing net config f)
          (λ payload. IsGrowing-lift (parse_get_db_version payload)))))
