-- ===== src/Client/Ends.antt =====
-- What close leaves of a client.
use cubrid_client.Base.{
  ℕ, ◌<◌, ◌≡◌, refl, sym, ◌∙◌, ap, subst, Bool, true, ◌||◌, List, [], ◌∷◌, Option, some, none,
  arith,
}
use cubrid_client.Errors.{Thrown, map_error, connection}
use cubrid_client.Client.{
  close_it, Client, Connections, fine, refused, did_of, client_of, logged, close_shared,
  close_client, ClientCall, stating, ending, checking, transacting, closing, perform_call,
  perform_calls, new_client, use_shared, get_shared_connection, run_transaction,
}
use cubrid_client.Client.Held.{Accounted, was_closed, is_held}
use cubrid_client.Client.Tidy.{Accounted-perform_calls, Accounted-perform_call}

module _ (k : Connections) where
  close_shared-free :
      (o : Option ℕ) (c : Client)
      → c.closed ≡ true
      → c.shared ≡ o
      → (d : Client) → close_shared k o c ≡ fine d
      → (d.closed ≡ true) × (d.shared ≡ none)
  close_shared-free none c h e d r = (cc, cc)
  close_shared-free (some n) c h e d r = go (k.fails c.log (record { on = n; method = close_it })) r
    where
      go :
          (o : Option Thrown)
          → elim (did_of o (logged n close_it c)) [
            | fine b ↦ fine (record b { shared = none })
            | refused t b ↦ refused (map_error connection t) b
          ]
            ≡ fine d
          → (d.closed ≡ true) × (d.shared ≡ none)
      go none r = (cc, cc)
      go (some t) r = absurd (cc)

  close_client-free :
      (c d : Client) → close_client k c ≡ fine d → (d.closed ≡ true) × (d.shared ≡ none)
  unfolding close_client
  close_client-free c d e = close_shared-free c.shared (record c { closed = true }) refl refl d e

  inert_call :
      (given : Bool) (x : ClientCall) (d : Client)
      → d.closed ≡ true
      → d.shared ≡ none
      → perform_call k given x d ≡ d
  unfolding perform_call use_shared get_shared_connection run_transaction close_client
  inert_call given (stating x) d e s = simp (e)
  inert_call given (ending x) d e s = simp (e)
  inert_call given (checking x) d e s = simp (e)
  inert_call given (transacting wanted) d e s = simp (e)
  inert_call given closing d e s = go d.shared s
    where
      go : (o : Option ℕ) → o ≡ none → client_of (close_shared k o (record d { closed = true })) ≡ d
      go none t = ap (λ b. record d { closed = b }) (sym e)
      go (some n) t = absurd (cc)

  inert_calls :
      (given : Bool) (xs : List ClientCall) (d : Client)
      → d.closed ≡ true
      → d.shared ≡ none
      → perform_calls k given xs d ≡ d
  unfolding perform_calls
  inert_calls given [] d e s = refl
  inert_calls given (x ∷ xs) d e s =
      ap (perform_calls k given xs) (inert_call given x d e s) ∙ inert_calls given xs d e s

  -- Once a close has succeeded, no later call, further closes included, asks anything of a connection,
  -- opens one or changes the client otherwise.
  pub close_client-inert :
      (c d : Client) (given : Bool) (later : List ClientCall)
      → close_client k c ≡ fine d
      → perform_calls k given later d ≡ d
  close_client-inert c d given later e = inert_calls given later d q.0 q.1
    where
      q : (d.closed ≡ true) × (d.shared ≡ none)
      q = close_client-free c d e

  -- After any calls on a new client and then a close that succeeds, each connection that the client
  -- ever made was asked to close, be it the shared one, a transaction's own, or one that did not take
  -- its options.
  pub close_client-Closed :
      (given : Bool) (calls : List ClientCall) (d : Client)
      → close_client k (perform_calls k given calls new_client) ≡ fine d
      → (i : ℕ) → i < d.made_count
      → was_closed i d.log ≡ true
  unfolding Accounted is_held perform_call
  close_client-Closed given calls d e i below =
      subst (λ o. is_held o i || was_closed i d.log ≡ true)
        (close_client-free (perform_calls k given calls new_client) d e).1
        (subst (Accounted none i) (ap client_of e)
          (Accounted-perform_call k i given closing (perform_calls k given calls new_client)
            (Accounted-perform_calls k i given calls new_client (λ b. absurd (omega arith))))
          below)
