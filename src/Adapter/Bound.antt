-- ===== src/Adapter/Bound.antt =====
-- A transaction's session: bound by its first statement, and left by a rollback.
use cubrid_client.Base.{
  ℕ, ◌≡◌, refl, sym, ap, ◌∙◌, arith, Bool, true, false, not, ◌&&◌, ◌||◌, if◌then◌else◌, Option,
  some, none, pos, ◌+◌,
}
use cubrid_client.Errors.{Thrown, connection_lost, is_given}
use cubrid_client.Session.World.{Network, Step}
use cubrid_client.Session.Opening.{CasConfig}
use cubrid_client.Session.Exchange.{discard_session, is_connected}
use cubrid_client.Adapter.{
  Adapter, Turned, done, threw, then_turn, at_world, transaction_ended, session_lost,
  not_connected_error, end_transaction, record_abort, settle_failure, end_tran_now, rollback_now,
  bind_generation, bind_transaction_session,
}
use cubrid_client.Adapter.Commit.{
  same_generation, Accepted, EndSent, end_accepted, end_failed, end_tran_now-EndSent, settled,
}

-- Where a rollback ends.
pub data RolledBack (net : Network) (a : Adapter) : Turned (Unit {0}) → Type 0 where
  rolled_back :
      (b : Adapter)
      → Accepted net (pos 2) a.world b.world
      → b.auto_commit ≡ true
      → b.transaction_generation ≡ none
      → b.transaction_abort ≡ none
      → RolledBack net a (done tt b)
  not_rolled_back :
      (e : Thrown) (b : Adapter) → session_lost b ≡ false → RolledBack net a (threw e b)

undone-RolledBack :
    (net : Network) (a : Adapter) (s : Step (Unit {0}))
    → EndSent net (pos 2) a.world s
    → RolledBack net a
        (settle_failure (then_turn (at_world a s) (λ _ c. done tt (end_transaction c))))
undone-RolledBack net a _ (end_accepted w q) = rolled_back _ q refl refl refl
undone-RolledBack net a _ (end_failed t w) =
    not_rolled_back _ _ (settled (record_abort t (record a { world = w })))

-- If rollback returns, the server has accepted a ROLLBACK, before which only control requests went
-- out, and the adapter is out of its transaction, with no abort to acknowledge. If it throws, the
-- adapter holds no transaction on a session that is lost.
pub rollback_now-RolledBack :
    (net : Network) (config : CasConfig) (a : Adapter)
    → RolledBack net a (rollback_now net config a)
unfolding rollback_now
rollback_now-RolledBack net config a = go (is_connected a.world.cas)
  where
    go :
        (b : Bool)
        → RolledBack net a (
            settle_failure (
              then_turn {0, 0} {A = Unit {0}}
                (if b then done tt a else threw (not_connected_error a) a)
                (λ _ c.
                  then_turn
                    (at_world c (end_tran_now net config (pos 2) c.world))
                    (λ _ d. done tt (end_transaction d)))))
    go true =
        undone-RolledBack net a (end_tran_now net config (pos 2) a.world)
          (end_tran_now-EndSent net config (pos 2) a.world)
    go false = not_rolled_back _ _ (settled (record_abort (not_connected_error a) a))

-- Whether a statement that was answered counts as part of the transaction.
pub data Statement (a : Adapter) : Turned (Unit {0}) → Type 0 where
  part :
      (b : Adapter)
      → b.world ≡ a.world
      → b.transaction_generation ≡ some a.world.cas.generation
      → session_lost b ≡ false
      → transaction_ended b ≡ false
      → Statement a (done tt b)
  discarded :
      (b : Adapter)
      → is_connected b.world.cas ≡ false
      → b.world.sent ≡ a.world.sent
      → b.world.cas.failed_exchanges ≡ a.world.cas.failed_exchanges + 1
      → Statement a (threw connection_lost b)

pub or-false : (p q : Bool) → (p || q) ≡ false → (p ≡ false) × (q ≡ false)
or-false p q h = (ground arith, ground arith)

-- The generation that binding leaves, by whether the transaction has one.
abbrev bound_to : ℕ → Bool → Option ℕ → Option ℕ
bound_to n b x = if not b && not (is_given x) then some n else x

pub bound_generation :
    (a : Adapter) (x : Option ℕ)
    → a.transaction_generation ≡ x
    → a.auto_commit ≡ false
    → session_lost (bind_generation a) ≡ false
    → (bind_generation a).transaction_generation ≡ some a.world.cas.generation
bound_generation a none e c l =
    ap (λ b. bound_to a.world.cas.generation b a.transaction_generation) c
    ∙ ap (bound_to a.world.cas.generation false) e
bound_generation a (some g) e c l =
    let h : (bind_generation a).transaction_generation ≡ some g =
      ap (λ b. bound_to a.world.cas.generation b a.transaction_generation) c
      ∙ ap (bound_to a.world.cas.generation false) e in
    h ∙ ap some (sym (same_generation (bind_generation a) g c h l))

-- A statement of a transaction that was answered is part of it only if it ran on the session that
-- the transaction holds, which the first statement sets, and no reply has said that the transaction
-- is over. Otherwise the session is dropped, with everything on it, and counted as a failed exchange;
-- nothing is sent in either case.
pub bind_transaction_session-Statement :
    (a : Adapter) → a.auto_commit ≡ false → Statement a (bind_transaction_session a)
unfolding bind_transaction_session discard_session
bind_transaction_session-Statement a c =
    go (session_lost (bind_generation a) || transaction_ended (bind_generation a)) refl
  where
    go :
        (b : Bool)
        → (session_lost (bind_generation a) || transaction_ended (bind_generation a)) ≡ b
        → Statement a (
            if b
            then then_turn {0, 0} {A = Unit {0}}
                (at_world (bind_generation a) (discard_session a.world))
                (λ _. threw connection_lost)
            else done tt (bind_generation a))
    go true e = discarded _ refl refl refl
    go false e =
        let (l, o) =
          or-false (session_lost (bind_generation a)) (transaction_ended (bind_generation a)) e in
        part (bind_generation a) refl (bound_generation a a.transaction_generation refl c l) l o
