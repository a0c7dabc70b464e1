-- ===== src/Adapter/Deferred.antt =====
-- A statement outside a transaction that runStatement (src/adapters/native.ts) runs as one of its own,
-- for execute and for prepared statements: it ends by END_TRAN.
use cubrid_client.Base.{ℕ, ◌≡◌, refl, sym, ap, ◌∙◌, true, List, [], ◌∷◌, Option, pos, drop}
use cubrid_client.Bind.{PreparedBinds}
use cubrid_client.Errors.{Thrown}
use cubrid_client.Request.{Frame}
use cubrid_client.Reply.Execute.{PrepareAndExecuteResult}
use cubrid_client.Session.World.{World, ask_reply, received, returned, raised, Step}
use cubrid_client.Session.Exchange.{send_and_recv}
use cubrid_client.Session.Outcome.{
  replied_to, lost, Delivery, not_sent, exchanged, send_and_recv-Delivery,
}
use cubrid_client.Session.Quiet.{world_of}
use cubrid_client.Session.Growth.{Grows, Grows-trans, Quiet-Grows, send_and_recv-IsGrowing}
use cubrid_client.Adapter.{Adapter, Turned, done, threw, Turn, then_turn}
use cubrid_client.Adapter.Turns.{Platform, refuse}
use cubrid_client.Adapter.Running.{
  after_reply, roll_back, undo, received_statement, exchange_statement,
}
use cubrid_client.Adapter.Kept.{IsKeeping}
use cubrid_client.Adapter.Joining.{RequestOn}
use cubrid_client.Adapter.Ending.{EndedOn, Undone, Rolled, rolled, roll_back-Rolled}
use cubrid_client.Adapter.Consuming.{Consumed, consumed, spoilt, after_reply-Consumed}

-- The session of a statement: the one that answered its request, or the one the adapter was on if
-- none did.
pub data SessionOf (p : Platform) (f : Frame) (a : Adapter) : ℕ → Type 0 where
  answered_by :
      (payload : List ℕ) (w : World)
      → send_and_recv p.network p.config f a.world ≡ returned payload w
      → SessionOf p f a w.cas.generation
  unanswered :
      (e : Thrown) (w : World)
      → send_and_recv p.network p.config f a.world ≡ raised e w
      → SessionOf p f a a.world.cas.generation

-- Where a deferred statement ends, from its request on. If it returns, the request was answered on
-- one session, and the server accepted a COMMIT on that very session, which went out from the state
-- in which `body` left the adapter. If it throws, the last thing that happened is a rollback on the
-- statement's session.
pub data Deferred {ℓ} {A : Type ℓ} (p : Platform) (body : PrepareAndExecuteResult → Turn A)
    (f : Frame) (a : Adapter) : Turned A → Type ℓ where
  committed :
      (g : ℕ) (result : PrepareAndExecuteResult) (used left : Adapter) (x : A) (b : Adapter)
      (u' : World)
      → SessionOf p f a g
      → RequestOn p.network f.payload g a.world used.world
      → body result used ≡ done x left
      → EndedOn p.network (pos 1) g left.world u'
      → Grows u' b.world
      → Deferred p body f a (done x b)
  withdrawn :
      (g : ℕ) (e : Thrown) (b : Adapter) (u : World)
      → SessionOf p f a g
      → Grows a.world u
      → Undone p.network g u b.world
      → Deferred p body f a (threw e b)

module _ {ℓ} {A : Type ℓ} (p : Platform) (body : PrepareAndExecuteResult → Turn A)
    (binds : Option PreparedBinds)
    (keeping : (result : PrepareAndExecuteResult) → IsKeeping (body result)) where
  -- A failure, with the rollback that follows it.
  failed-Deferred :
      (f : Frame) (a : Adapter) (g : ℕ) (t : Thrown) (b : Adapter)
      → SessionOf p f a g
      → Grows a.world b.world
      → (r : Turned (Unit {0})) → Rolled p.network g b r
      → Deferred p body f a (then_turn r (λ _. refuse t))
  failed-Deferred f a g t b o w _ (rolled c m r) = withdrawn g t c b.world o w r

  undo-Deferred :
      (f : Frame) (a : Adapter) (v w : World) (answer : List ℕ) (tick : ℕ) (s : Turned A)
      → SessionOf p f a w.cas.generation
      → Grows a.world v
      → p.network.answers tick (ask_reply f.payload) ≡ received answer
      → w.sent ≡ record { on = w.cas.generation; payload = f.payload } ∷ v.sent
      → Consumed p body w.cas.generation (record a { world = w }) s
      → Deferred p body f a (undo p body binds true w.cas.generation s)
  undo-Deferred f a v w answer tick _ i o r e (consumed y used left x b u m k q h l) =
      committed w.cas.generation y used left x b u i
        (record {
          at = tick;
          body = answer;
          reply = r;
          before = v;
          after = w;
          opening = o;
          wire = e;
          closing = k;
        })
        q h l
  undo-Deferred f a v w answer tick _ i o r e (spoilt t b k) =
      failed-Deferred f a w.cas.generation t b i
        (Grows-trans o (Grows-trans (record { later = _ ∷ []; wire = e }) k))
        (roll_back p w.cas.generation b) (roll_back-Rolled p w.cas.generation b)

  received-Deferred :
      (f : Frame) (a : Adapter)
      → a.auto_commit ≡ true
      → (s : Step (List ℕ)) → send_and_recv p.network p.config f a.world ≡ s
      → Grows a.world (world_of s)
      → Delivery p.network f a.world s
      → Deferred p body f a (received_statement p body binds true a s)
  received-Deferred f a c _ i k (not_sent t w q) =
      failed-Deferred f a a.world.cas.generation t (record a { world = w }) (unanswered t w i) k _
        (roll_back-Rolled p a.world.cas.generation (record a { world = w }))
  received-Deferred f a c _ i k (exchanged v _ q (lost t w x y)) =
      failed-Deferred f a a.world.cas.generation t (record a { world = w }) (unanswered t w i) k _
        (roll_back-Rolled p a.world.cas.generation (record a { world = w }))
  received-Deferred f a c _ i k (exchanged v _ q (replied_to answer w r e h)) =
      undo-Deferred f a v w answer v.clock
        (after_reply p body binds true (drop 4 answer) w.cas.generation (record a { world = w }))
        (answered_by (drop 4 answer) w i) (Quiet-Grows a.world v q) r
        (e
          ∙ ap (λ n. record { on = n; payload = f.payload } ∷ v.sent)
              (sym (ap (λ x. x.generation) h)))
        (after_reply-Consumed p body binds keeping (drop 4 answer) (record a { world = w }) c)

  -- A statement outside a transaction that ends by END_TRAN, from its request on, whatever `body` does
  -- with its result short of touching the transaction. If the call returns, the request was answered,
  -- and the server accepted a COMMIT on the very session that answered it, which went out directly
  -- behind everything that was done with the result. If the call throws, a rollback on the
  -- statement's session, the one that answered or else the one before the request, comes last: one
  -- ROLLBACK went out on it, or that session was gone, or was dropped with what it held.
  pub exchange_statement-Deferred :
      (f : Frame) (a : Adapter)
      → a.auto_commit ≡ true
      → Deferred p body f a (exchange_statement p body binds true f a)
  unfolding exchange_statement
  exchange_statement-Deferred f a c =
      received-Deferred f a c (send_and_recv p.network p.config f a.world) refl
        ((send_and_recv-IsGrowing p.network p.config f).at a.world)
        (send_and_recv-Delivery p.network p.config f a.world)
