-- ===== src/Adapter/Commit.antt =====
-- What a commit that succeeds has done.
use cubrid_client.Base.{
  ℕ, ◌≡◌, refl, sym, subst, ap, ◌∙◌, arith, Bool, true, false, not, ◌&&◌, ◌||◌, ◌==◌, ==_iff,
  if◌then◌else◌, Bool-cases, inl, inr, Option, some, none, ℤ, pos, List, ◌∷◌, ◌++◌, drop,
}
use cubrid_client.Failure.{Result, ok, fail}
use cubrid_client.Errors.{Thrown, connection_lost, is_given}
use cubrid_client.Request.{Frame, write_end_tran}
use cubrid_client.Reply.Simple.{parse_simple_response}
use cubrid_client.Session.World.{
  Sent, World, ask_reply, received, Network, Step, returned, raised, then_do, ◌>>=◌, lift,
}
use cubrid_client.Session.Opening.{CasConfig}
use cubrid_client.Session.Exchange.{send_and_recv, discard_session, is_connected}
use cubrid_client.Session.Quiet.{Quiet, Controls, Descent}
use cubrid_client.Session.Outcome.{
  entry, replied_to, lost, Delivery, not_sent, exchanged, send_and_recv-Delivery,
}
use cubrid_client.Session.Settled.{Taken}
use cubrid_client.Adapter.{
  Adapter, Turned, done, threw, then_turn, at_world, differs, transaction_ended, session_lost,
  not_connected_error, assert_unaborted, assert_session, drop_if_ended, end_transaction,
  record_abort, end_if_lost, settle_failure, require_connected, end_tran_now, ready_to_commit,
  commit_sent, commit_now,
}

-- A request of this kind went out and the server has accepted it: between the two worlds there are
-- control requests, and after them this one.
pub record Accepted (net : Network) (type : ℤ) (w w' : World) : Type 0 where
  pub cas_info : List ℕ
  pub request : Frame
  pub written : write_end_tran type cas_info ≡ ok request
  pub reply : Taken net request.payload parse_simple_response
  pub controls : List Sent
  pub are_controls : Controls controls
  pub order : Descent w.cas.generation w'.cas.generation controls
  pub wire :
      w'.sent ≡ record { on = w'.cas.generation; payload = request.payload } ∷ (controls ++ w.sent)

pub data EndSent (net : Network) (type : ℤ) (w : World) : Step (Unit {0}) → Type 0 where
  end_accepted : (w' : World) → Accepted net type w w' → EndSent net type w (returned tt w')
  end_failed : (e : Thrown) (w' : World) → EndSent net type w (raised e w')

module _ (net : Network) (config : CasConfig) (type : ℤ) (w : World) where
  -- The reply, parsed.
  parsed :
      (f : Frame) (v w' : World) (body : List ℕ)
      → write_end_tran type w.cas.cas_info ≡ ok f
      → Quiet w v
      → net.answers v.clock (ask_reply f.payload) ≡ received body
      → w'.sent ≡ entry v f.payload ∷ v.sent
      → w'.cas.generation ≡ v.cas.generation
      → (r : Result (Unit {0})) → parse_simple_response (drop 4 body) ≡ r
      → EndSent net type w (lift r w')
  parsed f v w' body e q a s g (fail t) h = end_failed _ w'
  parsed f v w' body e q a s g (ok tt) h = end_accepted w' (record {
    cas_info = w.cas.cas_info;
    request = f;
    written = e;
    reply = record { at = v.clock; body = body; reply = a; passes = h };
    controls = q.requests;
    are_controls = q.controls;
    order = subst (λ n. Descent w.cas.generation n q.requests) (sym g) q.order;
    wire =
        s
        ∙ ap (λ n. record { on = n; payload = f.payload } ∷ v.sent) (sym g)
        ∙ ap (λ l. record { on = w'.cas.generation; payload = f.payload } ∷ l) q.wire;
  })

  delivered :
      (f : Frame)
      → write_end_tran type w.cas.cas_info ≡ ok f
      → (s : Step (List ℕ)) → Delivery net f w s
      → EndSent net type w (then_do s (λ payload. lift (parse_simple_response payload)))
  delivered f e _ (not_sent t w' q) = end_failed t w'
  delivered f e _ (exchanged v _ q (lost t w' x y)) = end_failed t w'
  delivered f e _ (exchanged v _ q (replied_to body w' a s c)) =
      parsed f v w' body e q a s (ap (λ x. x.generation) c) (parse_simple_response (drop 4 body))
        refl

  written :
      (r : Result Frame)
      → write_end_tran type w.cas.cas_info ≡ r
      → EndSent net type w (
          (lift r >>= λ f.
          send_and_recv net config f >>= λ payload. lift (parse_simple_response payload))
            w)
  written (fail t) e = end_failed _ w
  written (ok f) e =
      delivered f e (send_and_recv net config f w) (send_and_recv-Delivery net config f w)

  pub end_tran_now-EndSent : EndSent net type w (end_tran_now net config type w)
  unfolding end_tran_now
  end_tran_now-EndSent = written (write_end_tran type w.cas.cas_info) refl

-- The states from which the request goes out: nothing has changed, and the transaction's session is
-- there.
data Ready (a : Adapter) : Turned (Unit {0}) → Type 0 where
  ready : session_lost a ≡ false → Ready a (done tt a)
  unready : (e : Thrown) (b : Adapter) → Ready a (threw e b)

asserted : (a : Adapter) (x : Option Thrown) → Ready a (assert_unaborted x a)
asserted a (some e) = unready _ a
asserted a none = elim (Bool-cases (session_lost a)) [
  | inl e ↦ rw e (unready connection_lost a)
  | inr e ↦
      subst (λ (b : Bool). Ready a (if b then threw connection_lost a else done tt a)) (sym e)
        (ready e)
]

required-Ready : (a : Adapter) → Ready a (then_turn (require_connected a) (λ _. assert_session))
required-Ready a = go (is_connected a.world.cas)
  where
    go :
        (b : Bool)
        → Ready a (
            then_turn {0, 0} {A = Unit {0}}
              (if b then done tt a else threw (not_connected_error a) a)
              (λ _. assert_session))
    go true = asserted a a.transaction_abort
    go false = unready _ a

ready_to_commit-Ready :
    (net : Network) (config : CasConfig) (a : Adapter) → Ready a (ready_to_commit net config a)
unfolding drop_if_ended discard_session
ready_to_commit-Ready net config a = go (is_connected a.world.cas && transaction_ended a)
  where
    go :
        (b : Bool)
        → Ready a (
            then_turn
              (if b then at_world a (discard_session a.world) else done tt a)
              (λ _ c. then_turn (require_connected c) (λ _. assert_session)))
    go true = unready _ _
    go false = required-Ready a

-- Where a commit of the transaction on the session `g` ends.
pub data Committed (net : Network) (g : ℕ) (a : Adapter) : Turned (Unit {0}) → Type 0 where
  committed :
      (b : Adapter)
      → Accepted net (pos 1) a.world b.world
      → a.world.cas.generation ≡ g
      → b.world.cas.generation ≡ g
      → b.auto_commit ≡ true
      → b.transaction_generation ≡ none
      → Committed net g a (done tt b)
  not_committed :
      (e : Thrown) (b : Adapter) → session_lost b ≡ false → Committed net g a (threw e b)

pub last_false : (p q r : Bool) → (p || (q || r)) ≡ false → r ≡ false
last_false p q r h = ground arith

not-false : (b : Bool) → not b ≡ false → b ≡ true
not-false b h = ground arith

-- The session of an open transaction that is not lost is the one that it began on.
pub same_generation :
    (a : Adapter) (g : ℕ)
    → a.auto_commit ≡ false
    → a.transaction_generation ≡ some g
    → session_lost a ≡ false
    → a.world.cas.generation ≡ g
same_generation a g c t l = (==_iff a.world.cas.generation g).0 (
    not-false (a.world.cas.generation == g) (
      last_false (is_given a.transaction_abort) (not (is_connected a.world.cas))
        (not (a.world.cas.generation == g))
        (subst
          (λ b.
            (not b
              && (is_given a.transaction_abort
                  || (not (is_connected a.world.cas) || not (a.world.cas.generation == g))))
            ≡ false)
          c
          (subst
            (λ x.
              (not a.auto_commit
                && (is_given a.transaction_abort
                    || (not (is_connected a.world.cas) || differs a.world.cas.generation x)))
              ≡ false)
            t l))))

pub settled : (a : Adapter) → session_lost (end_if_lost a) ≡ false
settled a = go (session_lost a) refl
  where
    go : (b : Bool) → session_lost a ≡ b → session_lost (if b then end_transaction a else a) ≡ false
    go true e = refl
    go false e = e

module _ (net : Network) (config : CasConfig) (g : ℕ) (a : Adapter)
    (in_transaction : a.auto_commit ≡ false) (bound_to : a.transaction_generation ≡ some g) where
  ended :
      (w : World)
      → a.world.cas.generation ≡ g
      → Accepted net (pos 1) a.world w
      → (x : Turned (Unit {0})) → Ready (record a { world = w }) x
      → Committed net g a (settle_failure (then_turn x (λ _ c. done tt (end_transaction c))))
  ended w e q _ (ready l) =
      committed _ q e (same_generation (record a { world = w }) g in_transaction bound_to l) refl
        refl
  ended w e q _ (unready t b) = not_committed _ _ (settled (record_abort t b))

  sent :
      a.world.cas.generation ≡ g
      → (s : Step (Unit {0})) → EndSent net (pos 1) a.world s
      → Committed net g a (
          settle_failure (
            then_turn
              (at_world a s)
              (λ _ b. then_turn (assert_session b) (λ _ c. done tt (end_transaction c)))))
  sent e _ (end_accepted w q) =
      ended w e q (assert_session (record a { world = w }))
        (asserted (record a { world = w }) a.transaction_abort)
  sent e _ (end_failed t w) = not_committed _ _ (settled (record_abort t (record a { world = w })))

  started :
      (x : Turned (Unit {0}))
      → Ready a x
      → Committed net g a (settle_failure (then_turn x (λ _. commit_sent net config)))
  started _ (ready l) =
      sent (same_generation a g in_transaction bound_to l) (end_tran_now net config (pos 1) a.world)
        (end_tran_now-EndSent net config (pos 1) a.world)
  started _ (unready t b) = not_committed _ _ (settled (record_abort t b))

-- For a transaction whose statements ran on the session `g`: if commit returns, the server has
-- accepted a COMMIT that went out on that very session, after nothing but control requests on the
-- same session, so no new session took its place, and the transaction is over. If commit throws, the
-- adapter holds no transaction on a session that is lost.
pub commit_now-Committed :
    (net : Network) (config : CasConfig) (g : ℕ) (a : Adapter)
    → a.auto_commit ≡ false
    → a.transaction_generation ≡ some g
    → Committed net g a (commit_now net config a)
unfolding commit_now
commit_now-Committed net config g a c t =
    started net config g a c t (ready_to_commit net config a) (ready_to_commit-Ready net config a)
