-- ===== src/Client/Tidy.antt =====
-- No connection of the client is left open and forgotten.
use cubrid_client.Base.{
  ℕ, ◌+◌, ◌≡◌, refl, sym, ◌∙◌, subst, Bool, true, false, ◌||◌, List, [], ◌∷◌, Option, some, none,
  if◌then◌else◌,
}
use cubrid_client.Failure.{error}
use cubrid_client.Errors.{query, Thrown, map_error, failure, ErrorKind, transaction, connection}
use cubrid_client.Client.{
  Method, create, close_it, commit_it, rollback_it, Standing, still_open, unawaited,
  completed_itself, completion_failed, run_commit, finish_transaction, abort_transaction,
  transaction_finished, begin_it, run_callback, set_options, Client, Connections, Did, fine,
  refused, returned, raised, then_did, did_of, client_of, logged, call, apply_transaction_options,
  made, make_connection, kept_or_closed, prepare_shared_connection, shared_or_new,
  get_shared_connection, on_shared, use_shared, close_after, callback_done, transaction_begun,
  on_own, run_transaction, close_shared, close_client, ClientCall, stating, ending, checking,
  statement_method, transaction_method, check_method, is_required, transacting, closing,
  client_after, perform_call, perform_calls,
}
use cubrid_client.Client.Held.{
  was_closed, is_held, Accounted, Accounted-logged, client_of-map_refusal, Accounted-call,
  Accounted-then, Accounted-if, Accounted-optional, Accounted-apply, Accounted-closing,
  Accounted-sharing, Accounted-made, Accounted-unshared, Accounted-closed,
}

module _ (k : Connections) where
  did_of-shared : (o : Option Thrown) (c : Client) → (client_of (did_of o c)).shared ≡ c.shared
  did_of-shared none c = refl
  did_of-shared (some e) c = refl

  call-shared :
      (b : Bool) (n : ℕ) (m : Method) (c : Client)
      → (client_of (if b then call k n m c else refused (failure error) c)).shared ≡ c.shared
  call-shared true n m c =
      did_of-shared (k.fails c.log (record { on = n; method = m })) (logged n m c)
  call-shared false n m c = refl

  apply-shared :
      (given : Bool) (n : ℕ) (c : Client)
      → (client_of (apply_transaction_options k given n c)).shared ≡ c.shared
  unfolding apply_transaction_options
  apply-shared true n c =
      call-shared (k.supports set_options || is_required set_options) n set_options c
  apply-shared false n c = refl

  module _ (i : ℕ) where
    Accounted-kept :
        (n : ℕ) (s : Did)
        → (client_of s).shared ≡ none
        → Accounted (some n) i (client_of s)
        → Accounted none i (client_of (kept_or_closed k n s))
    unfolding Accounted
    Accounted-kept n (fine c) e h below = Accounted-sharing i n c e h below
    Accounted-kept n (refused t c) e h below =
        subst (λ o. is_held o i || was_closed i (logged n close_it c).log ≡ true) e
          (Accounted-closing i n c h below)

    Accounted-prepared :
        (given : Bool) (o : Option Thrown) (c : Client)
        → c.shared ≡ none
        → Accounted none i c
        → Accounted none i
            (client_of (then_did (made k o c) (prepare_shared_connection k given c.made_count)))
    unfolding prepare_shared_connection
    Accounted-prepared given none c e h =
        Accounted-kept c.made_count (apply_transaction_options k given c.made_count _)
          (apply-shared given c.made_count _ ∙ e)
          (Accounted-apply k (some c.made_count) i given c.made_count _ (Accounted-made i c h))
    Accounted-prepared given (some t) c e h = Accounted-logged k none i c.made_count create c h

    Accounted-shared_or_new :
        (given : Bool) (o : Option ℕ) (c : Client)
        → c.shared ≡ o
        → Accounted none i c
        → Accounted none i (client_of (shared_or_new k given o c))
    unfolding make_connection
    Accounted-shared_or_new given (some n) c e h = h
    Accounted-shared_or_new given none c e h =
        Accounted-prepared given (k.fails c.log (record { on = c.made_count; method = create })) c e
          h

    Accounted-on_shared :
        (o : Option ℕ) (m : Method) (c : Client)
        → Accounted none i c
        → Accounted none i (client_of (on_shared k o m c))
    Accounted-on_shared none m c h = h
    Accounted-on_shared (some n) m c h = Accounted-optional k none i n m c h

    Accounted-use :
        (given : Bool) (kind : ErrorKind) (m : Method) (c : Client)
        → Accounted none i c
        → Accounted none i (client_of (use_shared k given kind m c))
    unfolding use_shared get_shared_connection
    Accounted-use given kind m c h =
        subst (Accounted none i)
          (sym (
            client_of-map_refusal k none i kind
              (then_did (get_shared_connection k given c) (λ d. on_shared k d.shared m d))))
          (Accounted-then k none i (get_shared_connection k given c) (λ d. on_shared k d.shared m d)
            (Accounted-if k none i c.closed (refused (failure error) c)
              (shared_or_new k given c.shared c) h
              (Accounted-shared_or_new given c.shared c refl h))
            (λ d. Accounted-on_shared d.shared m d))

    Accounted-close_after :
        (n : ℕ) (c : Client)
        → Accounted (some n) i c
        → Accounted none i (client_after (close_after k n c))
    Accounted-close_after n c h =
        go (k.fails c.log (record { on = n; method = close_it })) (logged n close_it c)
          (Accounted-closing i n c h)
      where
        go :
            (o : Option Thrown) (d : Client)
            → Accounted none i d
            → Accounted none i (
                client_after
                  (elim (did_of o d) [ fine b ↦ returned b | refused e b ↦ raised e none none b ]))
        go none d t = t
        go (some e) d t = t

    Accounted-commit :
        (n : ℕ) (c : Client)
        → Accounted (some n) i c
        → Accounted (some n) i (client_of (run_commit k n c))
    Accounted-commit n c h =
        go (k.fails c.log (record { on = n; method = commit_it })) (logged n commit_it c)
          (Accounted-logged k (some n) i n commit_it c h)
      where
        go :
            (o : Option Thrown) (d : Client)
            → Accounted (some n) i d
            → Accounted (some n) i (
                client_of (elim (did_of o d) [
                  | fine b ↦ fine b
                  | refused e b ↦ refused e (logged n rollback_it b)
                ]))
        go none d t = t
        go (some e) d t = Accounted-logged k (some n) i n rollback_it d t

    Accounted-finish :
        (n : ℕ) (x : Standing) (c : Client)
        → Accounted (some n) i c
        → Accounted (some n) i (client_of (finish_transaction k n x c))
    unfolding finish_transaction
    Accounted-finish n still_open c h = Accounted-commit n c h
    Accounted-finish n (unawaited e) c h = Accounted-logged k (some n) i n rollback_it c h
    Accounted-finish n completed_itself c h = h
    Accounted-finish n (completion_failed e) c h = h

    Accounted-abort :
        (n : ℕ) (x : Standing) (c : Client)
        → Accounted (some n) i c
        → Accounted (some n) i (abort_transaction k n x c)
    unfolding abort_transaction
    Accounted-abort n still_open c h = Accounted-logged k (some n) i n rollback_it c h
    Accounted-abort n (unawaited e) c h = Accounted-logged k (some n) i n rollback_it c h
    Accounted-abort n completed_itself c h = h
    Accounted-abort n (completion_failed e) c h = h

    Accounted-finished :
        (n : ℕ) (s : Did)
        → Accounted (some n) i (client_of s)
        → Accounted none i (client_after (transaction_finished k n s))
    Accounted-finished n (fine c) h = Accounted-close_after n c h
    Accounted-finished n (refused t c) h = Accounted-closing i n c h

    Accounted-callback :
        (n : ℕ) (s : Did)
        → Accounted (some n) i (client_of s)
        → Accounted none i (client_after (callback_done k n s))
    unfolding callback_done
    Accounted-callback n (fine c) h =
        Accounted-finished n (finish_transaction k n (k.standing c.log) c)
          (Accounted-finish n (k.standing c.log) c h)
    Accounted-callback n (refused t c) h =
        Accounted-closing i n (abort_transaction k n (k.standing c.log) c)
          (Accounted-abort n (k.standing c.log) c h)

    Accounted-begun :
        (n : ℕ) (s : Did)
        → Accounted (some n) i (client_of s)
        → Accounted none i (client_after (transaction_begun k n s))
    Accounted-begun n (fine c) h =
        Accounted-callback n (call k n run_callback c)
          (Accounted-call k (some n) i n run_callback c h)
    Accounted-begun n (refused t c) h = Accounted-closing i n c h

    Accounted-own :
        (given : Bool) (o : Option Thrown) (c : Client)
        → Accounted none i c
        → Accounted none i (client_after (on_own k c.made_count given (made k o c)))
    Accounted-own given (some t) c h = Accounted-logged k none i c.made_count create c h
    Accounted-own given none c h =
        Accounted-begun c.made_count
          (then_did
            (apply_transaction_options k given c.made_count
              (record (logged c.made_count create c) { made_count = c.made_count + 1 }))
            (call k c.made_count begin_it))
          (Accounted-then k (some c.made_count) i (apply_transaction_options k given c.made_count _)
            (call k c.made_count begin_it)
            (Accounted-apply k (some c.made_count) i given c.made_count _ (Accounted-made i c h))
            (λ d. Accounted-call k (some c.made_count) i c.made_count begin_it d))

    Accounted-transaction :
        (given : Bool) (b : Bool) (c : Client)
        → Accounted none i c
        → Accounted none i (
            client_after (
              if b
              then raised (map_error transaction (failure error)) none none c
              else on_own k c.made_count given (make_connection k c)))
    unfolding make_connection
    Accounted-transaction given true c h = h
    Accounted-transaction given false c h =
        Accounted-own given (k.fails c.log (record { on = c.made_count; method = create })) c h

    Accounted-close_shared :
        (o : Option ℕ) (c : Client)
        → c.shared ≡ o
        → Accounted none i c
        → Accounted none i (client_of (close_shared k o c))
    Accounted-close_shared none c e h = h
    Accounted-close_shared (some n) c e h =
        go (k.fails c.log (record { on = n; method = close_it }))
      where
        go :
            (o : Option Thrown)
            → Accounted none i (
                client_of (elim (did_of o (logged n close_it c)) [
                  | fine d ↦ fine (record d { shared = none })
                  | refused t d ↦ refused (map_error connection t) d
                ]))
        go none = Accounted-unshared i n c e h
        go (some t) = Accounted-logged k none i n close_it c h

    pub Accounted-perform_call :
        (given : Bool) (x : ClientCall) (c : Client)
        → Accounted none i c
        → Accounted none i (perform_call k given x c)
    unfolding perform_call run_transaction close_client
    Accounted-perform_call given (stating x) c h =
        Accounted-use given query (statement_method x) c h
    Accounted-perform_call given (ending x) c h =
        Accounted-use given transaction (transaction_method x) c h
    Accounted-perform_call given (checking x) c h =
        Accounted-use given connection (check_method x) c h
    Accounted-perform_call given (transacting wanted) c h =
        Accounted-transaction (given || wanted) c.closed c h
    Accounted-perform_call given closing c h =
        Accounted-close_shared c.shared (record c { closed = true }) refl (Accounted-closed i c h)

    pub Accounted-perform_calls :
        (given : Bool) (xs : List ClientCall) (c : Client)
        → Accounted none i c
        → Accounted none i (perform_calls k given xs c)
    unfolding perform_calls
    Accounted-perform_calls given [] c h = h
    Accounted-perform_calls given (x ∷ xs) c h =
        Accounted-perform_calls given xs (perform_call k given x c)
          (Accounted-perform_call given x c h)
