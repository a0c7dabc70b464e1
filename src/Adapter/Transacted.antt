-- ===== src/Adapter/Transacted.antt =====
-- runStatement inside a transaction, execute and query over it, and a whole transaction: what ran
-- before its commit.
use cubrid_client.Base.{
  ℕ, ◌≡◌, refl, sym, ap, ◌∙◌, subst, Bool, true, false, not, ◌&&◌, inl, inr, List, if◌then◌else◌,
  Option, some, none,
}
use cubrid_client.Bind.{PreparedBinds}
use cubrid_client.Errors.{Thrown, failure, is_given, query, map_error, is_server_transaction_abort}
use cubrid_client.Failure.{Result, ok, fail}
use cubrid_client.Request.{Frame}
use cubrid_client.Reply.Execute.{PrepareAndExecuteResult}
use cubrid_client.Session.World.{World}
use cubrid_client.Session.Opening.{connect_unlocked}
use cubrid_client.Session.Exchange.{is_connected, ping}
use cubrid_client.Session.Growth.{Grows-trans, connect_unlocked-IsGrowing, ping-IsGrowing}
use cubrid_client.Adapter.{
  Adapter, Turned, done, threw, Turn, then_turn, at_world, record_abort, connect_if_needed,
}
use cubrid_client.Adapter.Turns.{Platform, lifted, on_cas}
use cubrid_client.Adapter.InsertId.{forget_insert_id, read_insert_id_baseline, read_execute_result}
use cubrid_client.Adapter.Running.{
  StatementCall, defers, statement_request, note_end_replies, settle_statement, resolve_sql,
  exchange_statement, run_statement,
}
use cubrid_client.Adapter.Calls.{
  bind_lost, failed_call, read_query, execute_now, query_now, failed_ping, ping_now,
}
use cubrid_client.Adapter.Kept.{
  Kept, left_by, Kept-refl, Kept-trans, Kept-then, Kept-if, IsKeeping, on_cas-IsKeeping,
}
use cubrid_client.Adapter.KeepingCalls.{
  Kept-forget, settle_statement-IsKeeping, resolve_sql-IsKeeping, read_insert_id_baseline-IsKeeping,
  read_execute_result-IsKeeping, read_query-IsKeeping,
}
use cubrid_client.Adapter.Joining.{
  Stays, RequestOn, Joined, joined, unjoined, exchange_statement-Joined,
}

-- The request of a statement in a transaction, answered on the session `g`: it does not ask the
-- server to commit.
pub record RanOn (p : Platform) (binds : Option PreparedBinds) (g : ℕ) (w w' : World) : Type 0 where
  pub sql : List ℕ
  pub cas_info : List ℕ
  pub request : Frame
  pub written : statement_request binds sql false cas_info ≡ ok request
  pub exchange : RequestOn p.network request.payload g w w'

-- Where a statement leaves a transaction. If it succeeded, it ran on the session that the
-- transaction is bound to behind it; and a transaction that is bound stays bound to its session.
pub data Acknowledged {ℓ} {A : Type ℓ} (p : Platform) (binds : Option PreparedBinds) (a : Adapter)
    : Turned A → Type ℓ where
  acknowledged :
      (g : ℕ) (x : A) (b : Adapter)
      → b.auto_commit ≡ false
      → b.transaction_generation ≡ some g
      → Stays a.transaction_generation b.transaction_generation
      → RanOn p binds g a.world b.world
      → Acknowledged p binds a (done x b)
  refused :
      (e : Thrown) (b : Adapter)
      → b.auto_commit ≡ false
      → Stays a.transaction_generation b.transaction_generation
      → Acknowledged p binds a (threw e b)

Stays-from : (x y z : Option ℕ) → y ≡ x → Stays y z → Stays x z
Stays-from x y z e (inl h) = inl (sym e ∙ h)
Stays-from x y z e (inr h) = inr (h ∙ e)

pub Stays-chain : (x y z : Option ℕ) → Stays x y → Stays y z → Stays x z
Stays-chain x y z (inl e) t = inl e
Stays-chain x y z (inr e) (inl h) = inl (sym e ∙ h)
Stays-chain x y z (inr e) (inr h) = inr (h ∙ e)

module _ {ℓ} {A : Type ℓ} (p : Platform) (body : PrepareAndExecuteResult → Turn A)
    (keeping : (result : PrepareAndExecuteResult) → IsKeeping (body result)) (call : StatementCall)
    (a : Adapter) where
  -- Nothing but steps that keep the transaction has come before.
  from_joined :
      (sql cas_info : List ℕ) (f : Frame) (d : Adapter) (s : Turned A)
      → Kept a d
      → d.auto_commit ≡ false
      → statement_request call.binds sql false cas_info ≡ ok f
      → Joined p.network f.payload d s
      → Acknowledged p call.binds a s
  from_joined sql cas_info f d _ k c w (joined g x b m h s r) =
      acknowledged g x b (m ∙ c) h (Stays-from _ _ _ k.bound s) (record {
        sql = sql;
        cas_info = cas_info;
        request = f;
        written = w;
        exchange = record {
          at = r.at;
          body = r.body;
          reply = r.reply;
          before = r.before;
          after = r.after;
          opening = Grows-trans k.grown r.opening;
          wire = r.wire;
          closing = r.closing;
        };
      })
  from_joined sql cas_info f d _ k c w (unjoined e b m s) =
      refused e b (m ∙ c) (Stays-from _ _ _ k.bound s)

  written-Acknowledged :
      (sql : List ℕ) (deferred : Bool) (d : Adapter)
      → Kept a d
      → d.auto_commit ≡ false
      → (r : Result Frame) → statement_request call.binds sql false d.world.cas.cas_info ≡ r
      → Acknowledged p call.binds a (
          then_turn
            (lifted r d)
            (λ f e. exchange_statement p body call.binds deferred f (note_end_replies e)))
  written-Acknowledged sql deferred d k c (fail t) e = refused (failure t) d c (inr k.bound)
  written-Acknowledged sql deferred d k c (ok f) e =
      from_joined sql d.world.cas.cas_info f (note_end_replies d) _
        (record { mode = k.mode; bound = k.bound; grown = k.grown }) c e
        (exchange_statement-Joined p body call.binds deferred keeping f (note_end_replies d) c)

  abbrev from_resolved : Bool → Turned (List ℕ) → Turned A
  from_resolved commit_after t = then_turn t (λ sql d.
      then_turn
        (lifted
          (statement_request call.binds sql
            (d.auto_commit && not (defers commit_after call.binds d)) d.world.cas.cas_info)
          d)
        (λ f e.
          exchange_statement p body call.binds (defers commit_after call.binds d) f
            (note_end_replies e)))

  resolved-Acknowledged :
      (commit_after : Bool) (t : Turned (List ℕ))
      → a.auto_commit ≡ false
      → Kept a (left_by t)
      → Acknowledged p call.binds a (from_resolved commit_after t)
  resolved-Acknowledged commit_after (threw e d) c k = refused e d (k.mode ∙ c) (inr k.bound)
  resolved-Acknowledged commit_after (done sql d) c k =
      written-Acknowledged sql (defers commit_after call.binds d) d k (k.mode ∙ c) _ (
        ap
          (λ b.
            statement_request call.binds sql (b && not (defers commit_after call.binds d))
              d.world.cas.cas_info)
          (sym (k.mode ∙ c)))

  settled-Acknowledged :
      (commit_after : Bool) (t : Turned (Unit {0}))
      → a.auto_commit ≡ false
      → Kept a (left_by t)
      → Acknowledged p call.binds a (
          then_turn t
            (λ _ d. from_resolved commit_after (resolve_sql p call.sql call.params call.binds d)))
  settled-Acknowledged commit_after (threw e d) c k = refused e d (k.mode ∙ c) (inr k.bound)
  settled-Acknowledged commit_after (done u d) c k =
      resolved-Acknowledged commit_after (resolve_sql p call.sql call.params call.binds d) c
        (Kept-trans k ((resolve_sql-IsKeeping p call.sql call.params call.binds).at d))

  pub run_statement-Acknowledged :
      (commit_after : Bool)
      → a.auto_commit ≡ false
      → Acknowledged p call.binds a (run_statement p call commit_after body a)
  unfolding run_statement
  run_statement-Acknowledged commit_after c =
      settled-Acknowledged commit_after (settle_statement p call.issued a) c
        ((settle_statement-IsKeeping p call.issued).at a)

record_abort-mode : (e : Thrown) (a : Adapter) → (record_abort e a).auto_commit ≡ a.auto_commit
record_abort-mode e a = go (not a.auto_commit && is_server_transaction_abort e)
  where
    go :
        (b : Bool)
        → (if b then record a { transaction_abort = some e } else a).auto_commit ≡ a.auto_commit
    go true = refl
    go false = refl

record_abort-bound :
    (e : Thrown) (a : Adapter)
    → (record_abort e a).transaction_generation ≡ a.transaction_generation
record_abort-bound e a = go (not a.auto_commit && is_server_transaction_abort e)
  where
    go :
        (b : Bool)
        → (if b then record a { transaction_abort = some e } else a).transaction_generation
          ≡ a.transaction_generation
    go true = refl
    go false = refl

bind_lost-Stays :
    (a : Adapter) → Stays a.transaction_generation (bind_lost a).transaction_generation
bind_lost-Stays a = go a.auto_commit a.transaction_generation (not (is_connected a.world.cas))
  where
    go :
        (b : Bool) (x : Option ℕ) (lost : Bool)
        → Stays x (if not b && (not (is_given x) && lost) then some a.world.cas.generation else x)
    go b none lost = inl refl
    go true (some g) lost = inr refl
    go false (some g) lost = inr refl

module _ {ℓ} {A : Type ℓ} (p : Platform) (binds : Option PreparedBinds) (a : Adapter) where
  Acknowledged-after :
      (d : Adapter) (s : Turned A) → Kept a d → Acknowledged p binds d s → Acknowledged p binds a s
  Acknowledged-after d _ k (acknowledged g x b m h s r) =
      acknowledged g x b m h (Stays-from _ _ _ k.bound s) (record {
        sql = r.sql;
        cas_info = r.cas_info;
        request = r.request;
        written = r.written;
        exchange = record {
          at = r.exchange.at;
          body = r.exchange.body;
          reply = r.exchange.reply;
          before = r.exchange.before;
          after = r.exchange.after;
          opening = Grows-trans k.grown r.exchange.opening;
          wire = r.exchange.wire;
          closing = r.exchange.closing;
        };
      })
  Acknowledged-after d _ k (refused e b m s) = refused e b m (Stays-from _ _ _ k.bound s)

  -- What a failure leaves behind does not move the transaction.
  failed_call-Acknowledged :
      (s : Turned A) → Acknowledged p binds a s → Acknowledged p binds a (failed_call s)
  failed_call-Acknowledged _ (acknowledged g x b m h s r) = acknowledged g x b m h s r
  failed_call-Acknowledged _ (refused e b m s) =
      let b' : Adapter = forget_insert_id b in
      let k : Kept b b' = Kept-forget b in
      refused (map_error query e) (record_abort e (bind_lost b'))
        (record_abort-mode e (bind_lost b') ∙ (k.mode ∙ m))
        (Stays-chain _ _ _ s (
          Stays-from _ _ _ k.bound (
            subst (Stays b'.transaction_generation) (sym (record_abort-bound e (bind_lost b')))
              (bind_lost-Stays b'))))

pub execute_now-Acknowledged :
    (p : Platform) (call : StatementCall) (a : Adapter)
    → a.auto_commit ≡ false
    → Acknowledged p call.binds a (execute_now p call a)
unfolding execute_now
execute_now-Acknowledged p call a c = failed_call-Acknowledged p call.binds a _ (
    go (read_insert_id_baseline p call.sql a) ((read_insert_id_baseline-IsKeeping p call.sql).at a))
  where
    go :
        (t : Turned (Unit {0}))
        → Kept a (left_by t)
        → Acknowledged p call.binds a
            (then_turn t (λ _. run_statement p call true (read_execute_result p)))
    go (threw e d) k = refused e d (k.mode ∙ c) (inr k.bound)
    go (done u d) k =
        Acknowledged-after p call.binds a d (run_statement p call true (read_execute_result p) d) k
          (run_statement-Acknowledged p (read_execute_result p) (read_execute_result-IsKeeping p)
            call d true (k.mode ∙ c))

pub query_now-Acknowledged :
    (p : Platform) (call : StatementCall) (a : Adapter)
    → a.auto_commit ≡ false
    → Acknowledged p call.binds a (query_now p call a)
unfolding query_now
query_now-Acknowledged p call a c = failed_call-Acknowledged p call.binds a _ (
    run_statement-Acknowledged p (read_query p (not (is_given call.binds)))
      (read_query-IsKeeping p (not (is_given call.binds))) call a false c)

connect_if_needed-IsKeeping : (p : Platform) → IsKeeping (connect_if_needed p.network p.config)
connect_if_needed-IsKeeping p = record {
  at = λ a.
      Kept-if (is_connected a.world.cas) (done tt a)
        (at_world a (connect_unlocked p.network p.config a.world)) (Kept-refl a)
        ((on_cas-IsKeeping (connect_unlocked-IsGrowing p.network p.config)).at a);
}

pinged-IsKeeping :
    (p : Platform) → IsKeeping (λ b. on_cas (ping p.network p.config (not b.auto_commit)) b)
pinged-IsKeeping p = record {
  at = λ b. (on_cas-IsKeeping (ping-IsGrowing p.network p.config (not b.auto_commit))).at b;
}

pub Kept-ping_now : (p : Platform) (a : Adapter) → Kept a (left_by (ping_now p a))
unfolding ping_now
Kept-ping_now p a =
    mapped
      (then_turn (connect_if_needed p.network p.config a)
        (λ _ b. on_cas (ping p.network p.config (not b.auto_commit)) b))
      (Kept-then (connect_if_needed p.network p.config a) _ ((connect_if_needed-IsKeeping p).at a)
        (λ _. pinged-IsKeeping p))
  where
    mapped : (s : Turned (List ℕ)) → Kept a (left_by s) → Kept a (left_by (failed_ping p s))
    mapped (done x b) k = k
    mapped (threw e b) k = k
