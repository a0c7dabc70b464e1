-- ===== src/Adapter/Fetching/Exact.antt =====
-- fetchRemaining: the windows that it asks for, and the rows that it returns.
use Prim.Native.Nat.add
use cubrid_client.Base.{
  ℕ, zero, suc, ◌+◌, ◌-◌, ◌≤◌, ◌<◌, ◌≡◌, refl, sym, ap, subst, arith, Bool, true, false, not, ◌||◌,
  List, ◌++◌, if◌then◌else◌, ℤ, pos, negsuc, length, length-append, ◌==ℤ◌, leb_ℤ, ltb_ℤ, ◌+ℤ◌,
  pos_part, drop,
}
use cubrid_client.Failure.{Result, ok, fail, error}
use cubrid_client.Errors.{Thrown, failure}
use cubrid_client.Request.{Frame, write_fetch}
use cubrid_client.Reply.Execute.{PrepareAndExecuteResult, FetchResult, parse_fetch}
use cubrid_client.Rows.{Row}
use cubrid_client.Session.World.{World}
use cubrid_client.Session.Exchange.{send_and_recv_on_session}
use cubrid_client.Adapter.{Adapter, Turned, done, threw, Turn, then_turn}
use cubrid_client.Adapter.Turns.{Platform, or_default, ◌>>=◌, lifted, on_cas, answered_or_lost}
use cubrid_client.Adapter.Asking.{RepliedOn, asked_then}
use cubrid_client.Adapter.Fetching.{
  default_fetch_size, checked_rows, fetch_window, fetch_rest, fetch_remaining,
}

-- The rows of a window that passes the checks: at least one, and no more than were promised.
data Checked (t n : ℕ) (w : FetchResult) (a : Adapter) : Turned (List Row) → Type 0 where
  checked : 0 < length w.rows → n + length w.rows ≤ t → Checked t n w a (done w.rows a)
  unchecked : (e : Thrown) → Checked t n w a (threw e a)

in_bounds :
    (t n l : ℕ) (count : ℤ)
    → leb_ℤ count (pos 0) ≡ false
    → (not (pos l ==ℤ count) || ltb_ℤ (pos t) (pos n +ℤ count)) ≡ false
    → (0 < l) × (n + l ≤ t)
in_bounds t n l (pos m) h k = ground arith
in_bounds t n l (negsuc m) h k = ground arith

checked_rows-Checked :
    (t n : ℕ) (w : FetchResult) (a : Adapter) → Checked t n w a (checked_rows (pos t) n w a)
unfolding checked_rows
checked_rows-Checked t n w a =
    go (leb_ℤ w.tuple_count (pos 0))
      (not (pos (length w.rows) ==ℤ w.tuple_count) || ltb_ℤ (pos t) (pos n +ℤ w.tuple_count)) refl
      refl
  where
    go :
        (b c : Bool)
        → leb_ℤ w.tuple_count (pos 0) ≡ b
        → (not (pos (length w.rows) ==ℤ w.tuple_count) || ltb_ℤ (pos t) (pos n +ℤ w.tuple_count))
          ≡ c
        → Checked t n w a (
            if◌then◌else◌ {A = Turn (List Row)} b
              (λ d. threw (failure error) d)
              (if c then (λ d. threw (failure error) d) else (λ d. done w.rows d))
              a)
    go true c h k = unchecked (failure error)
    go false true h k = unchecked (failure error)
    go false false h k =
        let q : (0 < length w.rows) × (n + length w.rows ≤ t) =
          in_bounds t n (length w.rows) w.tuple_count h k in
        checked q.0 q.1

-- The FETCH requests from the state `w` with the rows so far to the state `w'` with all of them: each
-- asks on the session `g` for what comes behind the rows before it, and brings at least one row.
pub data Fetched (p : Platform) (g : ℕ) (result : PrepareAndExecuteResult) (size : ℕ)
    : List Row → World → List Row → World → Type 0 where
  all_there : {rows : List Row} {w : World} → Fetched p g result size rows w rows w
  fetched :
      {rows all : List Row} {w v w' : World} (cas_info : List ℕ) (f : Frame) (body : List ℕ)
      (window : FetchResult)
      → write_fetch result.statement.query_handle (pos (length rows)) (pos size) cas_info ≡ ok f
      → RepliedOn p g f w v body
      → parse_fetch (drop 4 body) result.statement.columns ≡ ok window
      → 0 < length window.rows
      → Fetched p g result size (rows ++ window.rows) v all w'
      → Fetched p g result size rows w all w'

at_end : (n t : ℕ) → n ≤ t → ltb_ℤ (pos n) (pos t) ≡ false → n ≡ t
at_end n t h k = ground arith

-- One window that came, or a failure.
data Came (p : Platform) (g : ℕ) (result : PrepareAndExecuteResult) (size t n : ℕ) (a : Adapter)
    : Turned (List Row) → Type 0 where
  came :
      (b : Adapter) (cas_info : List ℕ) (f : Frame) (body : List ℕ) (window : FetchResult)
      → write_fetch result.statement.query_handle (pos n) (pos size) cas_info ≡ ok f
      → RepliedOn p g f a.world b.world body
      → parse_fetch (drop 4 body) result.statement.columns ≡ ok window
      → 0 < length window.rows
      → n + length window.rows ≤ t
      → Came p g result size t n a (done window.rows b)
  failed : (e : Thrown) (b : Adapter) → Came p g result size t n a (threw e b)

module _ (p : Platform) (g : ℕ) (result : PrepareAndExecuteResult) (size t : ℕ)
    (total : result.total_tuple_count ≡ pos t) where
  module _ (n : ℕ) (a : Adapter) (f : Frame)
      (written : write_fetch result.statement.query_handle (pos n) (pos size) a.world.cas.cas_info
        ≡ ok f) where
    check-Came :
        (b : Adapter) (body : List ℕ) (window : FetchResult)
        → RepliedOn p g f a.world b.world body
        → parse_fetch (drop 4 body) result.statement.columns ≡ ok window
        → (s : Turned (List Row)) → Checked t n window b s
        → Came p g result size t n a s
    check-Came b body window r e _ (checked h k) =
        came b a.world.cas.cas_info f body window written r e h k
    check-Came b body window r e _ (unchecked x) = failed x b

    parsed-Came :
        (body : List ℕ) (b : Adapter)
        → RepliedOn p g f a.world b.world body
        → (q : Result FetchResult) → parse_fetch (drop 4 body) result.statement.columns ≡ q
        → Came p g result size t n a
            (then_turn (lifted q b) (λ window. checked_rows result.total_tuple_count n window))
    parsed-Came body b r (fail x) e = failed (failure x) b
    parsed-Came body b r (ok window) e = check-Came b body window r e _ (
        subst (λ z. Checked t n window b (checked_rows z n window b)) (sym total)
          (checked_rows-Checked t n window b))

    asked-Came : Came p g result size t n a (
        then_turn (on_cas (send_and_recv_on_session p.network g f) a) (λ reply b.
          then_turn (answered_or_lost reply b) (λ payload c.
            then_turn
              (lifted (parse_fetch payload result.statement.columns) c)
              (λ window. checked_rows result.total_tuple_count n window))))
    asked-Came =
        asked_then p g f a _ (Came p g result size t n a)
          (λ body b r.
            parsed-Came body b r (parse_fetch (drop 4 body) result.statement.columns) refl)
          failed

  fetch_window-Came :
      (n : ℕ) (a : Adapter) → Came p g result size t n a (fetch_window p g result size n a)
  unfolding fetch_window
  fetch_window-Came n a =
      go (write_fetch result.statement.query_handle (pos n) (pos size) a.world.cas.cas_info) refl
    where
      go :
          (q : Result Frame)
          → write_fetch result.statement.query_handle (pos n) (pos size) a.world.cas.cas_info ≡ q
          → Came p g result size t n a (
              then_turn (lifted q a) (λ f b.
                then_turn (on_cas (send_and_recv_on_session p.network g f) b) (λ reply.
                  answered_or_lost reply >>= λ payload.
                  lifted (parse_fetch payload result.statement.columns) >>= λ window.
                  checked_rows result.total_tuple_count n window)))
      go (fail x) e = failed (failure x) a
      go (ok f) e = asked-Came n a f e

  -- The loop ends with all rows that were promised, or throws.
  pub data AllFetched (rows : List Row) (a : Adapter) : Turned (List Row) → Type 0 where
    all_fetched :
        (all : List Row) (b : Adapter)
        → length all ≡ t
        → Fetched p g result size rows a.world all b.world
        → AllFetched rows a (done all b)
    not_fetched : (e : Thrown) (b : Adapter) → AllFetched rows a (threw e b)

  fetch_more :
      (rows : List Row) (a : Adapter) (k : List Row → Turn (List Row)) (s : Turned (List Row))
      → ((window : List Row) (b : Adapter)
          → 0 < length window
          → length rows + length window ≤ t
          → AllFetched (rows ++ window) b (k (rows ++ window) b))
      → Came p g result size t (length rows) a s
      → AllFetched rows a (then_turn s (λ window. k (rows ++ window)))
  fetch_more rows a k _ h (failed e b) = not_fetched e b
  fetch_more rows a k _ h (came b cas_info f body window w r q l m) =
      go (k (rows ++ window.rows) b) (h window.rows b l m)
    where
      go : (r : Turned (List Row)) → AllFetched (rows ++ window.rows) b r → AllFetched rows a r
      go _ (all_fetched all c e x) = all_fetched all c e (fetched cas_info f body window w r q l x)
      go _ (not_fetched e c) = not_fetched e c

  fetch_rest-AllFetched :
      (fuel : ℕ) (rows : List Row) (a : Adapter)
      → length rows ≤ t
      → t - length rows < fuel
      → AllFetched rows a (fetch_rest p g result size fuel rows a)
  unfolding fetch_rest
  fetch_rest-AllFetched zero rows a h k = absurd (omega (arith, k))
  fetch_rest-AllFetched (suc fuel) rows a h k =
      go (ltb_ℤ (pos (length rows)) result.total_tuple_count) refl (λ window b l m.
        fetch_rest-AllFetched fuel (rows ++ window) b (omega (arith, m, length-append rows window))
          (omega (arith, h, k, l, m, length-append rows window)))
    where
      full : ltb_ℤ (pos (length rows)) result.total_tuple_count ≡ false → length rows ≡ t
      full e = at_end (length rows) t h (subst (λ z. ltb_ℤ (pos (length rows)) z ≡ false) total e)

      go :
          (b : Bool)
          → ltb_ℤ (pos (length rows)) result.total_tuple_count ≡ b
          → ((window : List Row) (c : Adapter)
              → 0 < length window
              → length rows + length window ≤ t
              → AllFetched (rows ++ window) c (fetch_rest p g result size fuel (rows ++ window) c))
          → AllFetched rows a (
              if b
              then (fetch_window p g result size (length rows) >>= λ window.
                    fetch_rest p g result size fuel (rows ++ window))
                  a
              else done rows a)
      go true e ih =
          fetch_more rows a (fetch_rest p g result size fuel)
            (fetch_window p g result size (length rows) a) ih (fetch_window-Came (length rows) a)
      go false e ih = all_fetched rows a (full e) all_there

  -- More fuel than rows to come changes nothing.
  pub fetch_rest-enough :
      (more fuel : ℕ) (rows : List Row) (a : Adapter)
      → length rows ≤ t
      → t - length rows < fuel
      → fetch_rest p g result size (fuel + more) rows a ≡ fetch_rest p g result size fuel rows a
  unfolding fetch_rest
  fetch_rest-enough more zero rows a h k = absurd (omega (arith, k))
  fetch_rest-enough more (suc fuel) rows a h k = rw add.suc (
      ap
        (λ (s : Turned (List Row)).
          if ltb_ℤ (pos (length rows)) result.total_tuple_count then s else done rows a)
        (go (fetch_window p g result size (length rows) a) (fetch_window-Came (length rows) a)
          (λ window b l m.
            fetch_rest-enough more fuel (rows ++ window) b
              (omega (arith, m, length-append rows window))
              (omega (arith, h, k, l, m, length-append rows window)))))
    where
      go :
          (s : Turned (List Row))
          → Came p g result size t (length rows) a s
          → ((window : List Row) (b : Adapter)
              → 0 < length window
              → length rows + length window ≤ t
              → fetch_rest p g result size (fuel + more) (rows ++ window) b
                ≡ fetch_rest p g result size fuel (rows ++ window) b)
          → then_turn s (λ window. fetch_rest p g result size (fuel + more) (rows ++ window))
            ≡ then_turn s (λ window. fetch_rest p g result size fuel (rows ++ window))
      go _ (failed e b) ih = refl
      go _ (came b cas_info f body window w r q l m) ih = ih window.rows b l m

-- For a result that promises no fewer rows than have come: fetchRemaining returns exactly as many rows
-- as it promises, and it asked for them window by window, each behind the rows before it, in requests
-- to the session on which it began, and for nothing else; or it throws.
pub fetch_remaining-AllFetched :
    (p : Platform) (result : PrepareAndExecuteResult) (rows : List Row) (t : ℕ) (a : Adapter)
    (total : result.total_tuple_count ≡ pos t)
    → length rows ≤ t
    → AllFetched p a.world.cas.generation result
        (or_default p.fetch_size default_fetch_size)
        t
        total
        rows
        a
        (fetch_remaining p result rows a)
unfolding fetch_remaining
fetch_remaining-AllFetched p result rows t a total h =
    fetch_rest-AllFetched p a.world.cas.generation result
      (or_default p.fetch_size default_fetch_size) t total
      (suc (pos_part result.total_tuple_count - length rows)) rows a h (rw total (omega (arith, h)))
