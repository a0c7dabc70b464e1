-- ===== src/Adapter/Joining.antt =====
-- A statement of a transaction: the session that it ran on, and the session that the transaction is
-- bound to behind it.
use cubrid_client.Base.{
  ℕ, ◌≡◌, refl, sym, ap, ◌∙◌, Bool, true, false, not, ◌&&◌, ◌||◌, ◌⊎◌, inl, inr, List, [], ◌∷◌,
  if◌then◌else◌, Option, some, none, pos, drop,
}
use cubrid_client.Bind.{PreparedBinds}
use cubrid_client.Errors.{Thrown, connection_lost, is_given}
use cubrid_client.Request.{Frame}
use cubrid_client.Reply.Execute.{PrepareAndExecuteResult, read_query_handle}
use cubrid_client.Session.World.{World, Network, ask_reply, received, Step}
use cubrid_client.Session.Exchange.{discard_session, send_and_recv}
use cubrid_client.Session.Outcome.{
  replied_to, lost, Delivery, not_sent, exchanged, send_and_recv-Delivery,
}
use cubrid_client.Session.Growth.{Grows, Grows-refl, Grows-trans, Quiet-Grows}
use cubrid_client.Adapter.{
  Adapter, Turned, done, threw, Turn, then_turn, at_world, transaction_ended, session_lost,
  bind_generation, bind_transaction_session,
}
use cubrid_client.Adapter.Turns.{Platform, give, refuse, finally, on_cas, do_if, is_malformed}
use cubrid_client.Adapter.Bound.{bound_generation, or-false}
use cubrid_client.Adapter.Handle.{
  dropping_damaged, close_if_open, with_query_handle, end_statement_transaction,
}
use cubrid_client.Adapter.Running.{
  refuse_ended, consume, after_reply, roll_back, undo, received_statement, exchange_statement,
}
use cubrid_client.Adapter.Kept.{
  Kept, left_by, Kept-refl, Kept-if, Kept-catching, IsKeeping, IsKeeping-bind, IsKeeping-then,
  IsKeeping-give, IsKeeping-refuse, do_if-IsKeeping, discard-IsKeeping,
}
use cubrid_client.Adapter.Keeping.{close_if_open-IsKeeping, end_statement_transaction-IsKeeping}
use cubrid_client.Adapter.KeepingCalls.{decoded-IsKeeping}

-- A transaction that is bound to a session stays bound to it.
abbrev pub Stays : Option ℕ → Option ℕ → Type 0
Stays before after = (before ≡ none) ⊎ (after ≡ before)

Stays-trans : (x y z : Option ℕ) → Stays x y → z ≡ y → Stays x z
Stays-trans x y z (inl e) h = inl e
Stays-trans x y z (inr e) h = inr (h ∙ e)

-- Where a step on the session `g` leaves a transaction: a result is there only if the transaction is
-- bound to `g`.
pub data At {ℓ} {A : Type ℓ} (g : ℕ) (d : Adapter) : Turned A → Type ℓ where
  at_done :
      (x : A) (b : Adapter)
      → b.auto_commit ≡ d.auto_commit
      → b.transaction_generation ≡ some g
      → Stays d.transaction_generation b.transaction_generation
      → Grows d.world b.world
      → At g d (done x b)
  at_threw :
      (e : Thrown) (b : Adapter)
      → b.auto_commit ≡ d.auto_commit
      → Stays d.transaction_generation b.transaction_generation
      → Grows d.world b.world
      → At g d (threw e b)

module _ (g : ℕ) (d : Adapter) where
  threw-Kept {ℓ} :
      {A : Type ℓ} (e : Thrown) (b c : Adapter)
      → b.auto_commit ≡ d.auto_commit
      → Stays d.transaction_generation b.transaction_generation
      → Grows d.world b.world
      → Kept b c
      → At {A = A} g d (threw e c)
  threw-Kept e b c m s w k =
      at_threw e c (k.mode ∙ m) (Stays-trans _ _ _ s k.bound) (Grows-trans w k.grown)

  At-Kept {ℓ} :
      {A : Type ℓ} (b : Adapter) (t : Turned A)
      → b.auto_commit ≡ d.auto_commit
      → b.transaction_generation ≡ some g
      → Stays d.transaction_generation b.transaction_generation
      → Grows d.world b.world
      → Kept b (left_by t)
      → At g d t
  At-Kept b (done x c) m e s w k =
      at_done x c (k.mode ∙ m) (k.bound ∙ e) (Stays-trans _ _ _ s k.bound) (Grows-trans w k.grown)
  At-Kept b (threw t c) m e s w k = threw-Kept t b c m s w k

  At-then {ℓ κ} :
      {A : Type ℓ} {B : Type κ} (s : Turned A) (f : A → Turn B)
      → At g d s
      → ((x : A) → IsKeeping (f x))
      → At g d (then_turn s f)
  At-then _ f (at_done x b m e s w) h = At-Kept b (f x b) m e s w ((h x).at b)
  At-then _ f (at_threw t b m s w) h = at_threw t b m s w

  -- A failure behind which something else runs, which may fail instead.
  At-rethrown {ℓ} :
      {A : Type ℓ} (t : Thrown) (b : Adapter) (r : Turned (Unit {0}))
      → b.auto_commit ≡ d.auto_commit
      → Stays d.transaction_generation b.transaction_generation
      → Grows d.world b.world
      → Kept b (left_by r)
      → At {A = A} g d (then_turn r (λ _. refuse t))
  At-rethrown t b (done u c) m s w l = threw-Kept t b c m s w l
  At-rethrown t b (threw v c) m s w l = threw-Kept v b c m s w l

  At-dropping {ℓ} : {A : Type ℓ} (s : Turned A) → At g d s → At g d (dropping_damaged s)
  At-dropping _ (at_done x b m e s w) = at_done x b m e s w
  At-dropping _ (at_threw t b m s w) =
      At-rethrown t b (do_if (is_malformed t) (on_cas discard_session) b) m s w
        ((do_if-IsKeeping (is_malformed t) discard-IsKeeping).at b)

  At-finally {ℓ} :
      {A : Type ℓ} (s : Turned A) (k : Turn (Unit {0}))
      → At g d s
      → IsKeeping k
      → At g d (finally s k)
  At-finally _ k (at_done x b m e s w) h =
      At-Kept b (then_turn (k b) (λ _. give x)) m e s w ((IsKeeping-then h (IsKeeping-give x)).at b)
  At-finally _ k (at_threw t b m s w) h = At-rethrown t b (k b) m s w (h.at b)

bind_generation-Stays :
    (d : Adapter) → Stays d.transaction_generation (bind_generation d).transaction_generation
bind_generation-Stays d = go d.auto_commit d.transaction_generation
  where
    go :
        (b : Bool) (x : Option ℕ)
        → Stays x (if not b && not (is_given x) then some d.world.cas.generation else x)
    go b none = inl refl
    go true (some h) = inr refl
    go false (some h) = inr refl

bind_transaction_session-At :
    (d : Adapter) → d.auto_commit ≡ false → At d.world.cas.generation d (bind_transaction_session d)
unfolding bind_transaction_session discard_session
bind_transaction_session-At d c =
    go (session_lost (bind_generation d) || transaction_ended (bind_generation d)) refl
  where
    go :
        (b : Bool)
        → (session_lost (bind_generation d) || transaction_ended (bind_generation d)) ≡ b
        → At d.world.cas.generation d (
            if b
            then then_turn {0, 0} {A = Unit {0}}
                (at_world (bind_generation d) (discard_session d.world))
                (λ _. threw connection_lost)
            else done tt (bind_generation d))
    go true e =
        at_threw connection_lost _ refl (bind_generation-Stays d)
          (record { later = []; wire = refl })
    go false e =
        at_done tt (bind_generation d) refl
          (bound_generation d d.transaction_generation refl c
            (or-false (session_lost (bind_generation d)) (transaction_ended (bind_generation d))
              e).0)
          (bind_generation-Stays d) (Grows-refl d.world)

-- A request with this payload was answered on the session `g`, between two states of the connection.
pub record RequestOn (net : Network) (payload : List ℕ) (g : ℕ) (w w' : World) : Type 0 where
  pub at : ℕ
  pub body : List ℕ
  pub reply : net.answers at (ask_reply payload) ≡ received body
  pub before : World
  pub after : World
  pub opening : Grows w before
  pub wire : after.sent ≡ record { on = g; payload = payload } ∷ before.sent
  pub closing : Grows after w'

-- Where an exchange leaves a transaction, with the request.
pub data Joined {ℓ} {A : Type ℓ} (net : Network) (payload : List ℕ) (d : Adapter)
    : Turned A → Type ℓ where
  joined :
      (g : ℕ) (x : A) (b : Adapter)
      → b.auto_commit ≡ d.auto_commit
      → b.transaction_generation ≡ some g
      → Stays d.transaction_generation b.transaction_generation
      → RequestOn net payload g d.world b.world
      → Joined net payload d (done x b)
  unjoined :
      (e : Thrown) (b : Adapter)
      → b.auto_commit ≡ d.auto_commit
      → Stays d.transaction_generation b.transaction_generation
      → Joined net payload d (threw e b)

refuse_ended-IsKeeping : IsKeeping refuse_ended
unfolding refuse_ended
refuse_ended-IsKeeping = record {
  at = λ a.
      Kept-if (transaction_ended a) _ (done tt a)
        ((IsKeeping-then discard-IsKeeping (IsKeeping-refuse {A = Unit {0}} connection_lost)).at a)
        (Kept-refl a);
}

roll_back-IsKeeping : (p : Platform) (g : ℕ) → IsKeeping (roll_back p g)
roll_back-IsKeeping p g = record {
  at = λ b.
      Kept-catching (end_statement_transaction p (pos 2) g b) (λ _. give tt)
        ((end_statement_transaction-IsKeeping p (pos 2) g).at b) (λ e. IsKeeping-give tt);
}

module _ {ℓ} {A : Type ℓ} (p : Platform) (body : PrepareAndExecuteResult → Turn A)
    (binds : Option PreparedBinds) (deferred : Bool)
    (keeping : (result : PrepareAndExecuteResult) → IsKeeping (body result)) where
  consume-At :
      (payload : List ℕ) (d : Adapter)
      → d.auto_commit ≡ false
      → At d.world.cas.generation d (consume p body binds deferred payload d.world.cas.generation d)
  unfolding consume
  consume-At payload d c =
      At-then d.world.cas.generation d (bind_transaction_session d) _
        (bind_transaction_session-At d c)
        (λ _. IsKeeping-bind (decoded-IsKeeping p binds payload d.world.cas.generation) (λ result.
          IsKeeping-bind (keeping result) (λ value.
            IsKeeping-then
              (do_if-IsKeeping deferred
                (end_statement_transaction-IsKeeping p (pos 1) d.world.cas.generation))
              (IsKeeping-give value))))

  after_reply-At :
      (payload : List ℕ) (d : Adapter)
      → d.auto_commit ≡ false
      → At d.world.cas.generation d
          (after_reply p body binds deferred payload d.world.cas.generation d)
  unfolding after_reply with_query_handle
  after_reply-At payload d c =
      let g : ℕ = d.world.cas.generation in
      At-then g d (with_query_handle p payload (consume p body binds deferred payload g) d) _
        (At-finally g d (dropping_damaged (consume p body binds deferred payload g d))
          (close_if_open p (read_query_handle payload) g)
          (At-dropping g d (consume p body binds deferred payload g d) (consume-At payload d c))
          (close_if_open-IsKeeping p (read_query_handle payload) g))
        (λ value. IsKeeping-then refuse_ended-IsKeeping (IsKeeping-give value))

  failed-Joined :
      (f : Frame) (d : Adapter) (t : Thrown) (b : Adapter)
      → b.auto_commit ≡ d.auto_commit
      → Stays d.transaction_generation b.transaction_generation
      → (g : ℕ) → Joined p.network f.payload d (undo p body binds deferred g (threw t b))
  failed-Joined f d t b m s g =
      go t b m s (do_if deferred (roll_back p g) b)
        ((do_if-IsKeeping deferred (roll_back-IsKeeping p g)).at b)
    where
      go :
          (t : Thrown) (b : Adapter)
          → b.auto_commit ≡ d.auto_commit
          → Stays d.transaction_generation b.transaction_generation
          → (r : Turned (Unit {0})) → Kept b (left_by r)
          → Joined {A = A} p.network f.payload d (then_turn r (λ _. refuse t))
      go t b m s (done u c) l = unjoined t c (l.mode ∙ m) (Stays-trans _ _ _ s l.bound)
      go t b m s (threw v c) l = unjoined v c (l.mode ∙ m) (Stays-trans _ _ _ s l.bound)

  -- The `catch` block behind a reply on the session `g`.
  undo-Joined :
      (f : Frame) (d : Adapter) (v w : World) (answer : List ℕ) (tick : ℕ) (s : Turned A)
      → Grows d.world v
      → p.network.answers tick (ask_reply f.payload) ≡ received answer
      → w.sent ≡ record { on = w.cas.generation; payload = f.payload } ∷ v.sent
      → At w.cas.generation (record d { world = w }) s
      → Joined p.network f.payload d (undo p body binds deferred w.cas.generation s)
  undo-Joined f d v w answer tick _ o r e (at_done x b m h s k) =
      joined w.cas.generation x b m h s (record {
        at = tick;
        body = answer;
        reply = r;
        before = v;
        after = w;
        opening = o;
        wire = e;
        closing = k;
      })
  undo-Joined f d v w answer tick _ o r e (at_threw t b m s k) =
      failed-Joined f d t b m s w.cas.generation

  received-Joined :
      (f : Frame) (d : Adapter)
      → d.auto_commit ≡ false
      → (s : Step (List ℕ)) → Delivery p.network f d.world s
      → Joined p.network f.payload d (received_statement p body binds deferred d s)
  received-Joined f d c _ (not_sent t w q) =
      failed-Joined f d t (record d { world = w }) refl (inr refl) d.world.cas.generation
  received-Joined f d c _ (exchanged v _ q (lost t w x y)) =
      failed-Joined f d t (record d { world = w }) refl (inr refl) d.world.cas.generation
  received-Joined f d c _ (exchanged v _ q (replied_to answer w a e h)) =
      undo-Joined f d v w answer v.clock
        (after_reply p body binds deferred (drop 4 answer) w.cas.generation
          (record d { world = w }))
        (Quiet-Grows d.world v q) a
        (e
          ∙ ap (λ n. record { on = n; payload = f.payload } ∷ v.sent)
              (sym (ap (λ x. x.generation) h)))
        (after_reply-At (drop 4 answer) (record d { world = w }) c)

  pub exchange_statement-Joined :
      (f : Frame) (d : Adapter)
      → d.auto_commit ≡ false
      → Joined p.network f.payload d (exchange_statement p body binds deferred f d)
  unfolding exchange_statement
  exchange_statement-Joined f d c =
      received-Joined f d c (send_and_recv p.network p.config f d.world)
        (send_and_recv-Delivery p.network p.config f d.world)
