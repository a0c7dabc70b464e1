-- ===== src/Adapter/History.antt =====
-- A whole transaction of src/adapters/native.ts: the calls between begin and commit, in any order,
-- whatever becomes of each.
use cubrid_client.Base.{
  ℕ, ◌≡◌, ◌≢◌, refl, sym, ◌∙◌, subst, arith, false, inl, inr, List, [], ◌∷◌, Option, some, none,
}
use cubrid_client.Errors.{Thrown}
use cubrid_client.Adapter.{Adapter, Turned, done, threw, commit_now}
use cubrid_client.Adapter.Turns.{Platform}
use cubrid_client.Adapter.Commit.{Committed, commit_now-Committed}
use cubrid_client.Adapter.InsertId.{ExecuteResult}
use cubrid_client.Adapter.Running.{StatementCall}
use cubrid_client.Adapter.Calls.{QueryResult, execute_now, query_now, ping_now}
use cubrid_client.Adapter.Kept.{Kept, left_by}
use cubrid_client.Adapter.Joining.{Stays}
use cubrid_client.Adapter.Transacted.{
  RanOn, Acknowledged, acknowledged, refused, Stays-chain, execute_now-Acknowledged,
  query_now-Acknowledged, Kept-ping_now,
}

-- A call in a transaction.
pub data Deed : Type 0 where
  executing querying : StatementCall → Deed
  pinging : Deed

-- The turns of the calls, one after the other. A failure is the caller's to see; the next call runs.
unfoldable pub do_deed : Platform → Deed → Adapter → Adapter
do_deed p (executing call) a = left_by (execute_now p call a)
do_deed p (querying call) a = left_by (query_now p call a)
do_deed p pinging a = left_by (ping_now p a)

unfoldable pub do_deeds : Platform → List Deed → Adapter → Adapter
unfolding do_deed
do_deeds p [] a = a
do_deeds p (deed ∷ deeds) a = do_deeds p deeds (do_deed p deed a)

-- What became of the calls, for a transaction that is bound to `bound` at the end: every execute and
-- query that returned ran on that session. Of a ping nothing is said.
pub data History (p : Platform) (bound : Option ℕ) : List Deed → Adapter → Adapter → Type 0 where
  no_more : {a : Adapter} → History p bound [] a a
  executed :
      {a b c : Adapter} {call : StatementCall} {deeds : List Deed} (g : ℕ) (x : ExecuteResult)
      → execute_now p call a ≡ done x b
      → bound ≡ some g
      → RanOn p call.binds g a.world b.world
      → History p bound deeds b c
      → History p bound (executing call ∷ deeds) a c
  queried :
      {a b c : Adapter} {call : StatementCall} {deeds : List Deed} (g : ℕ) (x : QueryResult)
      → query_now p call a ≡ done x b
      → bound ≡ some g
      → RanOn p call.binds g a.world b.world
      → History p bound deeds b c
      → History p bound (querying call ∷ deeds) a c
  not_executed :
      {a b c : Adapter} {call : StatementCall} {deeds : List Deed} (e : Thrown)
      → execute_now p call a ≡ threw e b
      → History p bound deeds b c
      → History p bound (executing call ∷ deeds) a c
  not_queried :
      {a b c : Adapter} {call : StatementCall} {deeds : List Deed} (e : Thrown)
      → query_now p call a ≡ threw e b
      → History p bound deeds b c
      → History p bound (querying call ∷ deeds) a c
  pinged :
      {a c : Adapter} {deeds : List Deed}
      → History p bound deeds (do_deed p pinging a) c
      → History p bound (pinging ∷ deeds) a c

-- Where the commit behind the calls ends.
pub data Ended (p : Platform) (deeds : List Deed) (a c : Adapter) : Turned (Unit {0}) → Type 0 where
  nothing_ran :
      (s : Turned (Unit {0}))
      → c.transaction_generation ≡ none
      → History p none deeds a c
      → Ended p deeds a c s
  ran_on :
      (g : ℕ) (s : Turned (Unit {0}))
      → c.transaction_generation ≡ some g
      → History p (some g) deeds a c
      → Committed p.network g c s
      → Ended p deeds a c s

some≢none : (g : ℕ) → some g ≢ none
some≢none g h = ground arith

-- A bound transaction is bound to the same session at the end.
still_bound : (x y : Option ℕ) (g : ℕ) → x ≡ some g → Stays x y → y ≡ some g
still_bound x y g e (inl h) = absurd (some≢none g (sym e ∙ h))
still_bound x y g e (inr h) = h ∙ e

-- The calls keep the transaction open and bound, and every call that returned ran on its session.
record Lived (p : Platform) (deeds : List Deed) (a c : Adapter) : Type 0 where
  mode : c.auto_commit ≡ false
  bound : Stays a.transaction_generation c.transaction_generation
  history : History p c.transaction_generation deeds a c

module _ (p : Platform) (deeds : List Deed)
    (rest : (b : Adapter) → b.auto_commit ≡ false → Lived p deeds b (do_deeds p deeds b)) where
  executed-Lived :
      (call : StatementCall) (a : Adapter) (s : Turned ExecuteResult)
      → execute_now p call a ≡ s
      → Acknowledged p call.binds a s
      → Lived p (executing call ∷ deeds) a (do_deeds p deeds (left_by s))
  executed-Lived call a _ e (acknowledged g x b m h s r) =
      let l : Lived p deeds b (do_deeds p deeds b) = rest b m in
      record {
        mode = l.mode;
        bound = Stays-chain _ _ _ s l.bound;
        history = executed g x e (still_bound _ _ g h l.bound) r l.history;
      }
  executed-Lived call a _ e (refused t b m s) =
      let l : Lived p deeds b (do_deeds p deeds b) = rest b m in
      record {
        mode = l.mode;
        bound = Stays-chain _ _ _ s l.bound;
        history = not_executed t e l.history;
      }

  queried-Lived :
      (call : StatementCall) (a : Adapter) (s : Turned QueryResult)
      → query_now p call a ≡ s
      → Acknowledged p call.binds a s
      → Lived p (querying call ∷ deeds) a (do_deeds p deeds (left_by s))
  queried-Lived call a _ e (acknowledged g x b m h s r) =
      let l : Lived p deeds b (do_deeds p deeds b) = rest b m in
      record {
        mode = l.mode;
        bound = Stays-chain _ _ _ s l.bound;
        history = queried g x e (still_bound _ _ g h l.bound) r l.history;
      }
  queried-Lived call a _ e (refused t b m s) =
      let l : Lived p deeds b (do_deeds p deeds b) = rest b m in
      record {
        mode = l.mode;
        bound = Stays-chain _ _ _ s l.bound;
        history = not_queried t e l.history;
      }

module _ (p : Platform) where
  do_deeds-Lived :
      (deeds : List Deed) (a : Adapter)
      → a.auto_commit ≡ false
      → Lived p deeds a (do_deeds p deeds a)
  unfolding do_deeds do_deed
  do_deeds-Lived [] a c = record { mode = c; bound = inr refl; history = no_more }
  do_deeds-Lived (executing call ∷ deeds) a c =
      executed-Lived p deeds (do_deeds-Lived deeds) call a (execute_now p call a) refl
        (execute_now-Acknowledged p call a c)
  do_deeds-Lived (querying call ∷ deeds) a c =
      queried-Lived p deeds (do_deeds-Lived deeds) call a (query_now p call a) refl
        (query_now-Acknowledged p call a c)
  do_deeds-Lived (pinging ∷ deeds) a c =
      let k : Kept a (do_deed p pinging a) = Kept-ping_now p a in
      let l : Lived p deeds (do_deed p pinging a) (do_deeds p deeds (do_deed p pinging a)) =
        do_deeds-Lived deeds (do_deed p pinging a) (k.mode ∙ c) in
      record {
        mode = l.mode;
        bound = Stays-chain _ _ _ (inr k.bound) l.bound;
        history = pinged l.history;
      }

-- A whole transaction: after any calls of execute, query and ping in it, with any network and
-- whatever failed in between, either the transaction is bound to a session, every execute and query
-- that returned ran on it, and a commit that returns was accepted by that very session; or the
-- transaction is bound to no session, and no execute and no query returned.
pub do_deeds-Ended :
    (p : Platform) (deeds : List Deed) (a : Adapter)
    → a.auto_commit ≡ false
    → Ended p deeds a (do_deeds p deeds a) (commit_now p.network p.config (do_deeds p deeds a))
do_deeds-Ended p deeds a c =
    go (do_deeds p deeds a).transaction_generation refl (do_deeds-Lived p deeds a c)
  where
    go :
        (x : Option ℕ)
        → (do_deeds p deeds a).transaction_generation ≡ x
        → Lived p deeds a (do_deeds p deeds a)
        → Ended p deeds a (do_deeds p deeds a) (commit_now p.network p.config (do_deeds p deeds a))
    go none e l =
        nothing_ran _ e (subst (λ t. History p t deeds a (do_deeds p deeds a)) e l.history)
    go (some g) e l =
        ran_on g _ e (subst (λ t. History p t deeds a (do_deeds p deeds a)) e l.history)
          (commit_now-Committed p.network p.config g (do_deeds p deeds a) l.mode e)
