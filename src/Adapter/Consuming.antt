-- ===== src/Adapter/Consuming.antt =====
-- What runStatement (src/adapters/native.ts) does while the handle of a statement is open, for a
-- statement that ends by END_TRAN.
use cubrid_client.Base.{
  ℕ, ◌≡◌, refl, sym, ap, ◌∙◌, subst, Bool, true, false, not, ◌&&◌, ◌||◌, List, [], if◌then◌else◌,
  Option, some, none, ℤ, pos,
}
use cubrid_client.Bind.{PreparedBinds}
use cubrid_client.Errors.{Thrown, connection_lost}
use cubrid_client.Reply.Execute.{PrepareAndExecuteResult, read_query_handle}
use cubrid_client.Session.World.{World}
use cubrid_client.Session.Exchange.{discard_session}
use cubrid_client.Session.Growth.{Grows, Grows-refl, Grows-trans}
use cubrid_client.Adapter.{
  Adapter, Turned, done, threw, Turn, then_turn, at_world, differs, transaction_ended, session_lost,
  bind_generation, bind_transaction_session,
}
use cubrid_client.Adapter.Turns.{
  Platform, ◌>>◌, give, refuse, catching, finally, on_cas, do_if, is_malformed,
}
use cubrid_client.Adapter.Handle.{
  dropping_damaged, close_query_handle, close_if_open, with_query_handle, end_statement_transaction,
}
use cubrid_client.Adapter.Running.{refuse_ended, decoded, consume, after_reply}
use cubrid_client.Adapter.Kept.{
  Kept, left_by, Kept-refl, IsKeeping, do_if-IsKeeping, discard-IsKeeping,
}
use cubrid_client.Adapter.Keeping.{close_if_open-IsKeeping, end_statement_transaction-IsKeeping}
use cubrid_client.Adapter.KeepingCalls.{decoded-IsKeeping}
use cubrid_client.Adapter.Ending.{
  EndedOn, Finished, finished, unfinished, end_statement_transaction-Finished,
}

-- The mode is the same, and the wire has grown.
pub record Follows (a b : Adapter) : Type 0 where
  mode : b.auto_commit ≡ a.auto_commit
  grown : Grows a.world b.world

Follows-trans : {a b c : Adapter} → Follows a b → Follows b c → Follows a c
Follows-trans k l = record { mode = l.mode ∙ k.mode; grown = Grows-trans k.grown l.grown }

Kept-Follows : {a b : Adapter} → Kept a b → Follows a b
Kept-Follows k = record { mode = k.mode; grown = k.grown }

bind-Follows : (d : Adapter) → Follows d (left_by (bind_transaction_session d))
unfolding bind_transaction_session discard_session
bind-Follows d = go (session_lost (bind_generation d) || transaction_ended (bind_generation d))
  where
    go :
        (b : Bool)
        → Follows d (
            left_by (
              if b
              then then_turn {0, 0} {A = Unit {0}}
                  (at_world (bind_generation d) (discard_session d.world))
                  (λ _. threw connection_lost)
              else done tt (bind_generation d)))
    go true = record { mode = refl; grown = record { later = []; wire = refl } }
    go false = record { mode = refl; grown = Grows-refl d.world }

-- A step that always returns.
pub data Passed (b : Adapter) : Turned (Unit {0}) → Type 0 where
  passed : (c : Adapter) → Kept b c → Passed b (done tt c)

close_if_open-Passed :
    (p : Platform) (o : Option ℤ) (g : ℕ) (b : Adapter) → Passed b (close_if_open p o g b)
unfolding close_query_handle
close_if_open-Passed p none g b = passed b (Kept-refl b)
close_if_open-Passed p (some h) g b = go _ ((close_if_open-IsKeeping p (some h) g).at b)
  where
    go :
        (s : Turned (Unit {0}))
        → Kept b (left_by (catching s (λ e. give tt)))
        → Passed b (catching s (λ e. give tt))
    go (done u c) k = passed c k
    go (threw e c) k = passed c k

-- With autocommit on there is no transaction that could have ended.
refuse_ended-auto : (b : Adapter) → b.auto_commit ≡ true → refuse_ended b ≡ done tt b
unfolding refuse_ended
refuse_ended-auto b e =
    ap
      (λ m.
        if not m && differs b.world.cas.out_of_transaction_replies b.transaction_end_replies
        then then_turn {0, 0} {A = Unit {0}} (at_world b (discard_session b.world))
            (λ _. threw connection_lost)
        else done tt b)
      e

-- Where a statement ends that began on the session `g`, before its handle is released and after. If
-- it succeeds, END_TRAN went out from the very state in which `body` left the adapter.
pub data Consumed {ℓ} {A : Type ℓ} (p : Platform) (body : PrepareAndExecuteResult → Turn A) (g : ℕ)
    (d : Adapter) : Turned A → Type ℓ where
  consumed :
      (result : PrepareAndExecuteResult) (used left : Adapter) (x : A) (b : Adapter) (u' : World)
      → b.auto_commit ≡ true
      → Grows d.world used.world
      → body result used ≡ done x left
      → EndedOn p.network (pos 1) g left.world u'
      → Grows u' b.world
      → Consumed p body g d (done x b)
  spoilt : (e : Thrown) (b : Adapter) → Grows d.world b.world → Consumed p body g d (threw e b)

module _ {ℓ} {A : Type ℓ} (p : Platform) (body : PrepareAndExecuteResult → Turn A)
    (binds : Option PreparedBinds)
    (keeping : (result : PrepareAndExecuteResult) → IsKeeping (body result)) where
  ended-Consumed :
      (g : ℕ) (d c c' : Adapter) (result : PrepareAndExecuteResult) (x : A) (s : Turned (Unit {0}))
      → Follows d c
      → body result c ≡ done x c'
      → Kept c c'
      → d.auto_commit ≡ true
      → Kept c' (left_by s)
      → Finished p.network g c' s
      → Consumed p body g d (then_turn s (λ _. give x))
  ended-Consumed g d c c' result x _ k q i e l (finished b r m) =
      consumed result c c' x b b.world (m ∙ (i.mode ∙ (k.mode ∙ e))) k.grown q r
        (Grows-refl b.world)
  ended-Consumed g d c c' result x _ k q i e l (unfinished t b m) =
      spoilt t b (Grows-trans k.grown (Grows-trans i.grown l.grown))

  used-Consumed :
      (g : ℕ) (d c : Adapter) (result : PrepareAndExecuteResult) (s : Turned A)
      → body result c ≡ s
      → d.auto_commit ≡ true
      → Follows d c
      → Kept c (left_by s)
      → Consumed p body g d
          (then_turn s (λ x c'. then_turn (end_statement_transaction p (pos 1) g c') (λ _. give x)))
  used-Consumed g d c result (threw t c') q e k i = spoilt t c' (Grows-trans k.grown i.grown)
  used-Consumed g d c result (done x c') q e k i =
      ended-Consumed g d c c' result x (end_statement_transaction p (pos 1) g c') k q i e
        ((end_statement_transaction-IsKeeping p (pos 1) g).at c')
        (end_statement_transaction-Finished p g c')

  decoded-Consumed :
      (g : ℕ) (d : Adapter) (s : Turned PrepareAndExecuteResult)
      → d.auto_commit ≡ true
      → Follows d (left_by s)
      → Consumed p body g d (
          then_turn s (λ result c.
            then_turn
              (body result c)
              (λ x c'. then_turn (end_statement_transaction p (pos 1) g c') (λ _. give x))))
  decoded-Consumed g d (threw t c) e k = spoilt t c k.grown
  decoded-Consumed g d (done result c) e k =
      used-Consumed g d c result (body result c) refl e k ((keeping result).at c)

  consume-Consumed :
      (payload : List ℕ) (g : ℕ) (d : Adapter)
      → d.auto_commit ≡ true
      → Consumed p body g d (consume p body binds true payload g d)
  unfolding consume
  consume-Consumed payload g d e = go (bind_transaction_session d) (bind-Follows d)
    where
      go :
          (s : Turned (Unit {0}))
          → Follows d (left_by s)
          → Consumed p body g d (
              then_turn s (λ _ b. then_turn (decoded p binds payload g b) (λ result c.
                then_turn
                  (body result c)
                  (λ x c'. then_turn (end_statement_transaction p (pos 1) g c') (λ _. give x)))))
      go (threw t b) k = spoilt t b k.grown
      go (done u b) k =
          decoded-Consumed g d (decoded p binds payload g b) e
            (Follows-trans k (Kept-Follows ((decoded-IsKeeping p binds payload g).at b)))

  dropped-Consumed :
      (g : ℕ) (d : Adapter) (s : Turned A)
      → Consumed p body g d s
      → Consumed p body g d (dropping_damaged s)
  dropped-Consumed g d _ (consumed y used left x b u m k q r l) =
      consumed y used left x b u m k q r l
  dropped-Consumed g d _ (spoilt t b k) =
      go (do_if (is_malformed t) (on_cas discard_session) b)
        ((do_if-IsKeeping (is_malformed t) discard-IsKeeping).at b)
    where
      go :
          (r : Turned (Unit {0}))
          → Kept b (left_by r)
          → Consumed p body g d (then_turn r (λ _. refuse t))
      go (done u c) l = spoilt t c (Grows-trans k l.grown)
      go (threw v c) l = spoilt v c (Grows-trans k l.grown)

  closed-Consumed :
      (g : ℕ) (d : Adapter) (s : Turned A) (k : Turn (Unit {0}))
      → ((b : Adapter) → Passed b (k b))
      → Consumed p body g d s
      → Consumed p body g d (then_turn (finally s k) (λ x. refuse_ended >> give x))
  closed-Consumed g d _ k h (spoilt t b w) = go (k b) (h b)
    where
      go :
          (r : Turned (Unit {0}))
          → Passed b r
          → Consumed p body g d
              (then_turn (then_turn r (λ _. refuse t)) (λ x. refuse_ended >> give x))
      go _ (passed c l) = spoilt t c (Grows-trans w l.grown)
  closed-Consumed g d _ k h (consumed y used left x b u m w v r l) = go (k b) (h b)
    where
      go :
          (q : Turned (Unit {0}))
          → Passed b q
          → Consumed p body g d
              (then_turn (then_turn q (λ _. give x)) (λ x. refuse_ended >> give x))
      go _ (passed c j) =
          subst (λ t. Consumed p body g d (then_turn t (λ _. give x)))
            (sym (refuse_ended-auto c (j.mode ∙ m)))
            (consumed y used left x c u (j.mode ∙ m) w v r (Grows-trans l j.grown))

  pub after_reply-Consumed :
      (payload : List ℕ) (d : Adapter)
      → d.auto_commit ≡ true
      → Consumed p body d.world.cas.generation d
          (after_reply p body binds true payload d.world.cas.generation d)
  unfolding after_reply with_query_handle
  after_reply-Consumed payload d e =
      let g : ℕ = d.world.cas.generation in
      closed-Consumed g d (dropping_damaged (consume p body binds true payload g d))
        (close_if_open p (read_query_handle payload) g)
        (close_if_open-Passed p (read_query_handle payload) g)
        (dropped-Consumed g d (consume p body binds true payload g d)
          (consume-Consumed payload g d e))
