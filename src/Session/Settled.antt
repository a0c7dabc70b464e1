-- ===== src/Session/Settled.antt =====
-- The settings of a session: which requests they were, and that the server took each.
use cubrid_client.Base.{
  ℕ, ◌≡◌, refl, sym, subst, ap, ◌∙◌, Bool, true, false, ◌&&◌, List, [], ◌∷◌, if◌then◌else◌, drop,
}
use cubrid_client.Failure.{Result, ok, fail}
use cubrid_client.Errors.{Thrown, failure, connection_lost}
use cubrid_client.Request.{Frame, write_set_db_parameter, write_check_cas}
use cubrid_client.Reply.Simple.{parse_simple_response, parse_check_cas}
use cubrid_client.Session.World.{
  SessionParameter, Sent, World, ask_reply, Answer, dead, broken, received, Network, Step, returned,
  raised, Act, then_do, ◌>>=◌, ◌>>◌, give, raise, rescue, lift, with_cas, tick, copied, on_wire,
  send_recv,
}
use cubrid_client.Session.Opening.{
  quiet_exchange, apply_parameter, apply_parameters, check_cas_now, settled_cas, settings_failed,
  settings, apply_session_parameters,
}

-- The server took the request `payload`: its reply at some tick passes `parse`.
pub record Taken (net : Network) (payload : List ℕ) (parse : List ℕ → Result (Unit {0}))
    : Type 0 where
  pub at : ℕ
  pub body : List ℕ
  pub reply : net.answers at (ask_reply payload) ≡ received body
  pub passes : parse (drop 4 body) ≡ ok tt

-- The requests for the parameters went out in order on the session `g`, and were taken: the wire is
-- `s` before them and `t` after them.
pub data Applied (net : Network) (g : ℕ)
    : List SessionParameter → List Sent → List Sent → Type 0 where
  no_more : {s : List Sent} → Applied net g [] s s
  applied :
      {p : SessionParameter} {ps : List SessionParameter} {s t : List Sent} (cas_info : List ℕ)
      (f : Frame)
      → write_set_db_parameter p.parameter p.value cas_info ≡ ok f
      → Taken net f.payload parse_simple_response
      → Applied net g ps (record { on = g; payload = f.payload } ∷ s) t
      → Applied net g (p ∷ ps) s t

-- Without parameters nothing goes out; with some, a CHECK_CAS that holds the CAS follows them.
pub data Settled (net : Network) (g : ℕ)
    : List SessionParameter → List Sent → List Sent → Type 0 where
  unset : {s : List Sent} → Settled net g [] s s
  held :
      {p : SessionParameter} {ps : List SessionParameter} {s t : List Sent} (cas_info : List ℕ)
      (f : Frame)
      → Applied net g (p ∷ ps) s t
      → write_check_cas cas_info ≡ ok f
      → Taken net f.payload parse_check_cas
      → Settled net g (p ∷ ps) s (record { on = g; payload = f.payload } ∷ t)

-- One exchange of a session step: what a returned reply says.
data Heard (net : Network) (f : Frame) (w : World) : Step (List ℕ) → Type 0 where
  heard_reply :
      (body : List ℕ) (w' : World)
      → net.answers w.clock (ask_reply f.payload) ≡ received body
      → w'.sent ≡ record { on = w.cas.generation; payload = f.payload } ∷ w.sent
      → w'.cas.generation ≡ w.cas.generation
      → Heard net f w (returned (drop 4 body) w')
  silent : (e : Thrown) (w' : World) → Heard net f w (raised e w')

-- A step that ends with a reply that `parse` passes.
data Took (net : Network) (write : Result Frame) (parse : List ℕ → Result (Unit {0})) (w : World)
    : Step (Unit {0}) → Type 0 where
  took :
      (f : Frame) (w' : World)
      → write ≡ ok f
      → Taken net f.payload parse
      → w'.sent ≡ record { on = w.cas.generation; payload = f.payload } ∷ w.sent
      → w'.cas.generation ≡ w.cas.generation
      → Took net write parse w (returned tt w')
  failed : (e : Thrown) (w' : World) → Took net write parse w (raised e w')

module _ (net : Network) where
  abbrev note_reply : Step (List ℕ) → Step (List ℕ)
  note_reply s = then_do s (λ body. do
    with_cas (λ c. record c { cas_info = copied body c.cas_info })
    give (drop 4 body))

  quiet_exchange-Heard : (f : Frame) (w : World) → Heard net f w (quiet_exchange net f w)
  unfolding quiet_exchange send_recv
  quiet_exchange-Heard f w = go (w.cas.has_socket && w.cas.connected)
    where
      wired :
          (a : Answer)
          → net.answers w.clock (ask_reply f.payload) ≡ a
          → Heard net f w (note_reply (on_wire net f.payload a (tick w)))
      wired dead e = silent connection_lost _
      wired (broken t) e = silent t _
      wired (received body) e = heard_reply body _ e refl refl

      go :
          (b : Bool)
          → Heard net f w (
              note_reply (
                if b
                then on_wire net f.payload (net.answers w.clock (ask_reply f.payload)) (tick w)
                else raised connection_lost w))
      go true = wired (net.answers w.clock (ask_reply f.payload)) refl
      go false = silent connection_lost w

  -- A request of the settings: write it, exchange it, parse the reply.
  asked-Took :
      (write : Result Frame) (parse : List ℕ → Result (Unit {0})) (w : World)
      → Took net write parse w
          ((lift write >>= λ f. quiet_exchange net f >>= λ payload. lift (parse payload)) w)
  asked-Took (fail e) parse w = failed (failure e) w
  asked-Took (ok f) parse w = go (quiet_exchange net f w) (quiet_exchange-Heard f w)
    where
      parsed :
          (body : List ℕ) (w' : World)
          → net.answers w.clock (ask_reply f.payload) ≡ received body
          → w'.sent ≡ record { on = w.cas.generation; payload = f.payload } ∷ w.sent
          → w'.cas.generation ≡ w.cas.generation
          → (r : Result (Unit {0})) → parse (drop 4 body) ≡ r
          → Took net (ok f) parse w (lift r w')
      parsed body w' a b c (ok tt) e =
          took f w' refl (record { at = w.clock; body = body; reply = a; passes = e }) b c
      parsed body w' a b c (fail t) e = failed (failure t) w'

      go :
          (s : Step (List ℕ))
          → Heard net f w s
          → Took net (ok f) parse w (then_do s (λ payload. lift (parse payload)))
      go s (heard_reply body w' a b c) = parsed body w' a b c (parse (drop 4 body)) refl
      go s (silent e w') = failed e w'

  apply_parameter-Took :
      (p : SessionParameter) (w : World)
      → Took net
          (write_set_db_parameter p.parameter p.value w.cas.cas_info)
          parse_simple_response
          w
          (apply_parameter net p w)
  unfolding apply_parameter
  apply_parameter-Took p w =
      asked-Took (write_set_db_parameter p.parameter p.value w.cas.cas_info) parse_simple_response w

  check_cas_now-Took :
      (w : World)
      → Took net (write_check_cas w.cas.cas_info) parse_check_cas w (check_cas_now net w)
  unfolding check_cas_now
  check_cas_now-Took w = asked-Took (write_check_cas w.cas.cas_info) parse_check_cas w

-- A step that returns in a world with `Q`, or raises.
pub data Yields (Q : World → Type 0) : Step (Unit {0}) → Type 0 where
  yields : (w : World) → Q w → Yields Q (returned tt w)
  fails : (e : Thrown) (w : World) → Yields Q (raised e w)

pub Yields-then :
    {Q R : World → Type 0} (s : Step (Unit {0})) (f : Unit {0} → Act (Unit {0}))
    → Yields Q s
    → ((w : World) → Q w → Yields R (f tt w))
    → Yields R (then_do s f)
Yields-then _ f (yields w q) h = h w q
Yields-then _ f (fails e w) h = fails e w

pub Yields-rescue :
    {Q : World → Type 0} (s : Step (Unit {0})) (g : Thrown → Thrown)
    → Yields Q s
    → Yields Q (rescue s (λ e. raise (g e)))
Yields-rescue _ g (yields w q) = yields w q
Yields-rescue _ g (fails e w) = fails (g e) w

pub Yields-map :
    {Q R : World → Type 0} (s : Step (Unit {0}))
    → Yields Q s
    → ((w : World) → Q w → R w)
    → Yields R s
Yields-map _ (yields w q) h = yields w (h w q)
Yields-map _ (fails e w) h = fails e w

-- Where the settings of the session `g` are done that began with the wire `s`.
pub record Finished (R : List Sent → Type 0) (g : ℕ) (w : World) : Type 0 where
  pub wire : R w.sent
  pub same : w.cas.generation ≡ g

module _ (net : Network) (g : ℕ) where
  apply_first :
      (p : SessionParameter) (ps : List SessionParameter) (w : World) (s : Step (Unit {0}))
      → w.cas.generation ≡ g
      → ((w' : World)
          → w'.cas.generation ≡ g
          → Yields (Finished (Applied net g ps w'.sent) g) (apply_parameters net ps w'))
      → Took net
          (write_set_db_parameter p.parameter p.value w.cas.cas_info)
          parse_simple_response
          w
          s
      → Yields
          (Finished (Applied net g (p ∷ ps) w.sent) g)
          (then_do s (λ _. apply_parameters net ps))
  apply_first p ps w _ e rest (took f w' a b c d) =
      Yields-map (apply_parameters net ps w') (rest w' (d ∙ e)) (λ v q. record {
        wire = applied w.cas.cas_info f a b (
            subst (λ l. Applied net g ps l v.sent)
              (c ∙ ap (λ n. record { on = n; payload = f.payload } ∷ w.sent) e) q.wire);
        same = q.same;
      })
  apply_first p ps w _ e rest (failed t w') = fails t w'

  apply_parameters-Applied :
      (ps : List SessionParameter) (w : World)
      → w.cas.generation ≡ g
      → Yields (Finished (Applied net g ps w.sent) g) (apply_parameters net ps w)
  unfolding apply_parameters
  apply_parameters-Applied [] w e = yields w (record { wire = no_more; same = e })
  apply_parameters-Applied (p ∷ ps) w e =
      apply_first p ps w (apply_parameter net p w) e (apply_parameters-Applied ps)
        (apply_parameter-Took net p w)

  hold_last :
      (p : SessionParameter) (ps : List SessionParameter) (s : List Sent) (w : World)
      (t : Step (Unit {0}))
      → Finished (Applied net g (p ∷ ps) s) g w
      → Took net (write_check_cas w.cas.cas_info) parse_check_cas w t
      → Yields (Finished (Settled net g (p ∷ ps) s) g) t
  hold_last p ps s w _ q (took f w' a b c d) = yields w' (record {
    wire =
        subst (Settled net g (p ∷ ps) s)
          (sym (c ∙ ap (λ n. record { on = n; payload = f.payload } ∷ w.sent) q.same))
          (held w.cas.cas_info f q.wire a b);
    same = d ∙ q.same;
  })
  hold_last p ps s w _ q (failed e w') = fails e w'

  settings-Settled :
      (ps : List SessionParameter) (w : World)
      → w.cas.generation ≡ g
      → Yields (Finished (Settled net g ps w.sent) g) (settings net ps w)
  settings-Settled [] w e = yields w (record { wire = unset; same = e })
  settings-Settled (p ∷ ps) w e =
      Yields-then
        (rescue ((do apply_parameters net (p ∷ ps); check_cas_now net) w)
          (λ e. raise (settings_failed e)))
        (λ _. with_cas settled_cas)
        (Yields-rescue ((do apply_parameters net (p ∷ ps); check_cas_now net) w) settings_failed (
          Yields-then (apply_parameters net (p ∷ ps) w) (λ _. check_cas_now net)
            (apply_parameters-Applied (p ∷ ps) w e)
            (λ v q. hold_last p ps w.sent v (check_cas_now net v) q (check_cas_now-Took net v))))
        (λ v q. yields _ (record { wire = q.wire; same = q.same }))

  pub apply_session_parameters-Settled :
      (w : World)
      → w.cas.generation ≡ g
      → Yields
          (Finished (Settled net g w.cas.session_parameters w.sent) g)
          (apply_session_parameters net w)
  unfolding apply_session_parameters
  apply_session_parameters-Settled w e = settings-Settled w.cas.session_parameters w e
