-- ===== src/Client/Whole.antt =====
-- A transaction that succeeds.
use cubrid_client.Base.{
  ℕ, ◌+◌, ◌≡◌, refl, subst, Bool, ◌||◌, true, false, List, ◌∷◌, Option, some, none, if◌then◌else◌,
}
use cubrid_client.Failure.{error}
use cubrid_client.Errors.{Thrown, failure, map_error, transaction}
use cubrid_client.Client.{
  create, close_it, begin_it, is_required, run_callback, set_options, ConnectionCall, Client,
  Connections, fine, refused, returned, raised, then_did, did_of, logged, call,
  apply_transaction_options, made, make_connection, close_after, callback_done, commit_it,
  rollback_it, Standing, still_open, unawaited, completed_itself, completion_failed, run_commit,
  finish_transaction, transaction_finished, transaction_begun, on_own, run_transaction,
}

-- The calls of `log` that are later than those of `base`, none of which failed.
pub data Succeeded (k : Connections) (base : List ConnectionCall)
    : List ConnectionCall → Type 0 where
  nothing_later : Succeeded k base base
  one_more :
      (log : List ConnectionCall) (x : ConnectionCall)
      → Succeeded k base log
      → k.fails log x ≡ none
      → Succeeded k base (x ∷ log)

-- The calls of a transaction on connection `n` up to its callback, in order.
unfoldable pub up_to_callback : Bool → ℕ → Client → Client
up_to_callback given n c = logged n run_callback (
    logged n begin_it (
      if given
      then logged n set_options (record (logged n create c) { made_count = c.made_count + 1 })
      else record (logged n create c) { made_count = c.made_count + 1 }))

-- How a transaction is completed behind its callback: by a COMMIT, or by nothing more where the
-- callback has completed it.
pub data Completed (k : Connections) (n : ℕ) (c : Client) : Client → Type 0 where
  by_finish : k.standing c.log ≡ still_open → Completed k n c (logged n commit_it c)
  by_callback : k.standing c.log ≡ completed_itself → Completed k n c c

-- The end of a transaction behind the callback, which left the state `c`.
pub record Closed (k : Connections) (base : List ConnectionCall) (n : ℕ) (c d : Client)
    : Type 0 where
  pub completed_at : Client
  pub completion : Completed k n c completed_at
  pub last : d ≡ logged n close_it completed_at
  pub succeeded : Succeeded k base d.log

module _ (k : Connections) (base : List ConnectionCall) where
  Succeeded-to : (c d : Client) → c ≡ d → Succeeded k base c.log → Succeeded k base d.log
  Succeeded-to c d e s = subst (λ b. Succeeded k base b.log) e s

  close_after-Succeeded :
      (n : ℕ) (c d : Client)
      → Succeeded k base c.log
      → close_after k n c ≡ returned d
      → Succeeded k base d.log × (d ≡ logged n close_it c)
  close_after-Succeeded n c d s e = go (k.fails c.log (record { on = n; method = close_it })) refl e
    where
      go :
          (o : Option Thrown)
          → k.fails c.log (record { on = n; method = close_it }) ≡ o
          → elim (did_of o (logged n close_it c)) [
            | fine b ↦ returned b
            | refused t b ↦ raised t none none b
          ]
            ≡ returned d
          → Succeeded k base d.log × (d ≡ logged n close_it c)
      go none f e = (
        Succeeded-to (logged n close_it c) d (cc)
            (one_more c.log (record { on = n; method = close_it }) s f),
        cc,
      )
      go (some t) f e = absurd (cc)

  close_after-Closed :
      (n : ℕ) (c e d : Client)
      → Completed k n c e
      → Succeeded k base e.log
      → close_after k n e ≡ returned d
      → Closed k base n c d
  close_after-Closed n c e d m s r =
      let q = close_after-Succeeded n e d s r in
      record { completed_at = e; completion = m; last = q.1; succeeded = q.0 }

  commit-Closed :
      (n : ℕ) (c d : Client)
      → k.standing c.log ≡ still_open
      → Succeeded k base c.log
      → transaction_finished k n (run_commit k n c) ≡ returned d
      → Closed k base n c d
  commit-Closed n c d h s e = go (k.fails c.log (record { on = n; method = commit_it })) refl e
    where
      go :
          (o : Option Thrown)
          → k.fails c.log (record { on = n; method = commit_it }) ≡ o
          → transaction_finished k n (elim (did_of o (logged n commit_it c)) [
            | fine b ↦ fine b
            | refused t b ↦ refused t (logged n rollback_it b)
          ])
            ≡ returned d
          → Closed k base n c d
      go none f e =
          close_after-Closed n c (logged n commit_it c) d (by_finish h)
            (one_more c.log (record { on = n; method = commit_it }) s f) e
      go (some t) f e = absurd (cc)

  finish-Closed :
      (n : ℕ) (x : Standing) (c d : Client)
      → k.standing c.log ≡ x
      → Succeeded k base c.log
      → transaction_finished k n (finish_transaction k n x c) ≡ returned d
      → Closed k base n c d
  unfolding finish_transaction
  finish-Closed n still_open c d h s e = commit-Closed n c d h s e
  finish-Closed n (unawaited t) c d h s e = absurd (cc)
  finish-Closed n completed_itself c d h s e = close_after-Closed n c c d (by_callback h) s e
  finish-Closed n (completion_failed t) c d h s e = absurd (cc)

  callback-Succeeded :
      (n : ℕ) (c d : Client) (o : Option Thrown)
      → k.fails c.log (record { on = n; method = run_callback }) ≡ o
      → Succeeded k base c.log
      → callback_done k n (did_of o (logged n run_callback c)) ≡ returned d
      → Closed k base n (logged n run_callback c) d
  unfolding callback_done
  callback-Succeeded n c d none f s e =
      finish-Closed n (k.standing (logged n run_callback c).log) (logged n run_callback c) d refl
        (one_more c.log (record { on = n; method = run_callback }) s f) e
  callback-Succeeded n c d (some t) f s e = absurd (cc)

  begun-Succeeded :
      (n : ℕ) (c d : Client) (o : Option Thrown)
      → k.fails c.log (record { on = n; method = begin_it }) ≡ o
      → Succeeded k base c.log
      → transaction_begun k n (did_of o (logged n begin_it c)) ≡ returned d
      → Closed k base n (logged n run_callback (logged n begin_it c)) d
  begun-Succeeded n c d none f s e =
      callback-Succeeded n (logged n begin_it c) d _ refl
        (one_more c.log (record { on = n; method = begin_it }) s f) e
  begun-Succeeded n c d (some t) f s e = absurd (cc)

  options-Succeeded :
      (n : ℕ) (c d : Client) (o : Option Thrown)
      → k.fails c.log (record { on = n; method = set_options }) ≡ o
      → Succeeded k base c.log
      → transaction_begun k n (then_did (did_of o (logged n set_options c)) (call k n begin_it))
        ≡ returned d
      → Closed k base n (logged n run_callback (logged n begin_it (logged n set_options c))) d
  options-Succeeded n c d none f s e =
      begun-Succeeded n (logged n set_options c) d _ refl
        (one_more c.log (record { on = n; method = set_options }) s f) e
  options-Succeeded n c d (some t) f s e = absurd (cc)

  supported-Succeeded :
      (b : Bool) (n : ℕ) (c d : Client)
      → Succeeded k base c.log
      → transaction_begun k n (
          then_did
            (if b then call k n set_options c else refused (failure error) c)
            (call k n begin_it))
        ≡ returned d
      → Closed k base n (logged n run_callback (logged n begin_it (logged n set_options c))) d
  supported-Succeeded true n c d s e = options-Succeeded n c d _ refl s e
  supported-Succeeded false n c d s e = absurd (cc)

  made-Succeeded :
      (given : Bool) (c d : Client) (o : Option Thrown)
      → k.fails c.log (record { on = c.made_count; method = create }) ≡ o
      → Succeeded k base c.log
      → on_own k c.made_count given (made k o c) ≡ returned d
      → Closed k base c.made_count (up_to_callback given c.made_count c) d
  unfolding apply_transaction_options up_to_callback
  made-Succeeded true c d none f s e =
      supported-Succeeded (k.supports set_options || is_required set_options) c.made_count _ d
        (one_more c.log (record { on = c.made_count; method = create }) s f) e
  made-Succeeded false c d none f s e =
      begun-Succeeded c.made_count _ d _ refl
        (one_more c.log (record { on = c.made_count; method = create }) s f) e
  made-Succeeded given c d (some t) f s e = absurd (cc)

-- A transaction that returns was run on an open client, by a connection that it made: it sent the
-- options where there are any, began, ran the callback, committed unless the callback had completed
-- the transaction itself, and closed the connection, in this order and with no other call; each of
-- these calls succeeded, and the shared connection is as before.
pub run_transaction-Succeeded :
    (k : Connections) (given : Bool) (c d : Client)
    → run_transaction k given c ≡ returned d
    → (c.closed ≡ false) × Closed k c.log c.made_count (up_to_callback given c.made_count c) d
unfolding run_transaction make_connection
run_transaction-Succeeded k given c d e = go c.closed refl e
  where
    go :
        (b : Bool)
        → c.closed ≡ b
        → (if b
            then raised (map_error transaction (failure error)) none none c
            else on_own k c.made_count given (make_connection k c))
          ≡ returned d
        → (c.closed ≡ false) × Closed k c.log c.made_count (up_to_callback given c.made_count c) d
    go true f r = absurd (cc)
    go false f r = (f, made-Succeeded k c.log given c d _ refl nothing_later r)
