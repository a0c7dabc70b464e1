-- ===== src/Client/Held.antt =====
-- What holds of each connection of a client: it is the shared one, it is in use, or it was closed.
use cubrid_client.Base.{
  ℕ, ◌<◌, ◌+◌, ◌≡◌, refl, sym, subst, arith, Bool, true, false, ◌&&◌, ◌||◌, ◌==◌, List, [], ◌∷◌,
  Option, some, none, if◌then◌else◌,
}
use cubrid_client.Failure.{error}
use cubrid_client.Errors.{Thrown, failure, ErrorKind}
use cubrid_client.Client.{
  Method, create, close_it, set_options, ConnectionCall, Client, Connections, Did, fine, refused,
  then_did, did_of, client_of, logged, map_refusal, call, optional_call, apply_transaction_options,
  is_required,
}

unfoldable pub is_close : Method → Bool
is_close close_it = true
is_close _ = false

-- Whether connection `i` was asked to close.
unfoldable pub was_closed : ℕ → List ConnectionCall → Bool
unfolding is_close
was_closed i [] = false
was_closed i (x ∷ xs) = x.on == i && is_close x.method || was_closed i xs

unfoldable pub is_held : Option ℕ → ℕ → Bool
is_held none i = false
is_held (some n) i = n == i

-- Connection `i` is not made yet, is the one that `own` names, is shared, or was closed.
unfoldable pub Accounted : Option ℕ → ℕ → Client → Type 0
unfolding is_held was_closed
Accounted own i c =
    i < c.made_count → is_held own i || (is_held c.shared i || was_closed i c.log) ≡ true

module _ (k : Connections) (own : Option ℕ) (i : ℕ) where
  pub Accounted-logged :
      (n : ℕ) (m : Method) (c : Client) → Accounted own i c → Accounted own i (logged n m c)
  unfolding Accounted is_held was_closed is_close
  Accounted-logged n m c h below = ground (arith, h below)

  pub client_of-did_of : (o : Option Thrown) (c : Client) → client_of (did_of o c) ≡ c
  client_of-did_of none c = refl
  client_of-did_of (some e) c = refl

  pub client_of-map_refusal : (e : ErrorKind) (s : Did) → client_of (map_refusal e s) ≡ client_of s
  client_of-map_refusal e (fine c) = refl
  client_of-map_refusal e (refused t c) = refl

  pub Accounted-call :
      (n : ℕ) (m : Method) (c : Client)
      → Accounted own i c
      → Accounted own i (client_of (call k n m c))
  Accounted-call n m c h =
      subst (Accounted own i)
        (sym (client_of-did_of (k.fails c.log (record { on = n; method = m })) (logged n m c)))
        (Accounted-logged n m c h)

  pub Accounted-then :
      (s : Did) (f : Client → Did)
      → Accounted own i (client_of s)
      → ((d : Client) → Accounted own i d → Accounted own i (client_of (f d)))
      → Accounted own i (client_of (then_did s f))
  Accounted-then (fine c) f h g = g c h
  Accounted-then (refused e c) f h g = h

  pub Accounted-if :
      (b : Bool) (s t : Did)
      → Accounted own i (client_of s)
      → Accounted own i (client_of t)
      → Accounted own i (client_of (if b then s else t))
  Accounted-if true s t h g = h
  Accounted-if false s t h g = g

  pub Accounted-optional :
      (n : ℕ) (m : Method) (c : Client)
      → Accounted own i c
      → Accounted own i (client_of (optional_call k n m c))
  Accounted-optional n m c h =
      Accounted-if (k.supports m || is_required m) (call k n m c) (refused (failure error) c)
        (Accounted-call n m c h) h

  pub Accounted-apply :
      (given : Bool) (n : ℕ) (c : Client)
      → Accounted own i c
      → Accounted own i (client_of (apply_transaction_options k given n c))
  unfolding apply_transaction_options
  Accounted-apply true n c h = Accounted-optional n set_options c h
  Accounted-apply false n c h = h

-- A connection of one's own may be forgotten once it was asked to close.
pub Accounted-closing :
    (i n : ℕ) (c : Client) → Accounted (some n) i c → Accounted none i (logged n close_it c)
unfolding Accounted is_held was_closed is_close
Accounted-closing i n c h below = ground (arith, h below)

-- It becomes the shared one where there is none.
pub Accounted-sharing :
    (i n : ℕ) (c : Client)
    → c.shared ≡ none
    → Accounted (some n) i c
    → Accounted none i (record c { shared = some n })
unfolding Accounted is_held
Accounted-sharing i n c e h below = ground (arith, e, h below)

pub Accounted-made :
    (i : ℕ) (c : Client)
    → Accounted none i c
    → Accounted
        (some c.made_count)
        i
        (record (logged c.made_count create c) { made_count = c.made_count + 1 })
unfolding Accounted is_held was_closed is_close
Accounted-made i c h below = ground (arith, h)

-- The shared one is let go once it was closed.
pub Accounted-unshared :
    (i n : ℕ) (c : Client)
    → c.shared ≡ some n
    → Accounted none i c
    → Accounted none i (record (logged n close_it c) { shared = none })
unfolding Accounted is_held was_closed is_close
Accounted-unshared i n c e h below =
    go (subst (λ o. is_held o i || was_closed i c.log ≡ true) e (h below))
  where
    go :
        is_held (some n) i || was_closed i c.log ≡ true
        → was_closed i (logged n close_it c).log ≡ true
    go t = ground (arith, t)

pub Accounted-closed :
    (i : ℕ) (c : Client) → Accounted none i c → Accounted none i (record c { closed = true })
unfolding Accounted
Accounted-closed i c h below = h below
