-- ===== src/Session/Safe.antt =====
-- The invariant of a connection between the operations of its queue, and the methods that keep it.
use cubrid_client.Base.{
  ◌≡◌, refl, sym, subst, ap, ◌∙◌, Bool, true, false, not, ◌&&◌, List, if◌then◌else◌,
}
use cubrid_client.Failure.{Result, ok, fail}
use cubrid_client.Errors.{Thrown, failure}
use cubrid_client.Session.World.{
  SessionParameter, Cas, Sent, World, Step, returned, raised, Act, then_do, ◌>>=◌, give, raise,
  rescue, lift, with_cas, get_cas, retired,
}
use cubrid_client.Session.Exchange.{discard_session}
use cubrid_client.Session.Quiet.{Quiet, world_of, Descent, Descent-append}
use cubrid_client.Session.Steady.{shape_of}

-- Between operations a session that counts as connected has its socket and is not being set up;
-- and the wire shows the sessions one after the other: once a request went to a session, none goes
-- to an older one, and none goes to a session that is still to come.
pub record IsSound (w : World) : Type 0 where
  pub socket : (w.cas.connected && not w.cas.has_socket) ≡ false
  pub over : w.cas.setting_up ≡ false
  pub order : Descent 0 w.cas.generation w.sent

-- A method that keeps it.
pub record IsSafe {ℓ} {A : Type ℓ} (m : Act A) : Type ℓ where
  pub at : (w : World) → IsSound w → IsSound (world_of (m w))

pub Safe-then {ℓ κ} :
    {A : Type ℓ} {B : Type κ} (s : Step A) (f : A → Act B)
    → IsSound (world_of s)
    → ((a : A) → IsSafe (f a))
    → IsSound (world_of (then_do s f))
Safe-then (returned a w') f q h = (h a).at w' q
Safe-then (raised e w') f q h = q

pub IsSafe-bind {ℓ κ} :
    {A : Type ℓ} {B : Type κ} {m : Act A} {f : A → Act B}
    → IsSafe m
    → ((a : A) → IsSafe (f a))
    → IsSafe (m >>= f)
IsSafe-bind {m} {f} h k = record { at = λ w q. Safe-then (m w) f (h.at w q) k }

pub IsSafe-give {ℓ} : {A : Type ℓ} (a : A) → IsSafe (give a)
IsSafe-give a = record { at = λ w q. q }

pub IsSafe-raise {ℓ} : {A : Type ℓ} (e : Thrown) → IsSafe (raise {A = A} e)
IsSafe-raise e = record { at = λ w q. q }

pub IsSafe-lift {ℓ} : {A : Type ℓ} (r : Result A) → IsSafe (lift r)
IsSafe-lift (ok a) = IsSafe-give a
IsSafe-lift (fail e) = IsSafe-raise (failure e)

pub get_cas-IsSafe {ℓ} :
    {A : Type ℓ} {f : Cas → Act A} → ((c : Cas) → IsSafe (f c)) → IsSafe (get_cas >>= f)
get_cas-IsSafe h = record { at = λ w. (h w.cas).at w }

pub Safe-rescue {ℓ} :
    {A : Type ℓ} (s : Step A) (f : Thrown → Act A)
    → IsSound (world_of s)
    → ((e : Thrown) → IsSafe (f e))
    → IsSound (world_of (rescue s f))
Safe-rescue (returned a w') f q h = q
Safe-rescue (raised e w') f q h = (h e).at w' q

pub Safe-if {ℓ} :
    {A : Type ℓ} (b : Bool) (s t : Step A)
    → IsSound (world_of s)
    → IsSound (world_of t)
    → IsSound (world_of (if b then s else t))
Safe-if true s t p q = p
Safe-if false s t p q = q

-- Retiring the socket, with or without counting.
pub retired-IsSafe : IsSafe (with_cas retired)
retired-IsSafe = record { at = λ w q. record { socket = refl; over = q.over; order = q.order } }

pub discard_session-IsSafe : IsSafe discard_session
unfolding discard_session
discard_session-IsSafe = record {
  at = λ w q. record { socket = refl; over = q.over; order = q.order };
}

pub renewed-IsSafe :
    (ps : List SessionParameter) → IsSafe (with_cas (λ c. record c { session_parameters = ps }))
renewed-IsSafe ps = record {
  at = λ w q. record { socket = q.socket; over = q.over; order = q.order };
}

-- Quiet steps keep the order on the wire.
pub Sound-Quiet :
    (w w' : World)
    → IsSound w
    → Quiet w w'
    → (w'.cas.connected && not w'.cas.has_socket) ≡ false
    → w'.cas.setting_up ≡ false
    → IsSound w'
Sound-Quiet w w' q u a b = record {
  socket = a;
  over = b;
  order =
      subst (Descent 0 w'.cas.generation) (sym u.wire)
        (Descent-append 0 w.cas.generation w'.cas.generation u.requests w.sent q.order u.order);
}

pub Sound-steady : (w w' : World) → IsSound w → Quiet w w' → shape_of w' ≡ shape_of w → IsSound w'
Sound-steady w w' q u e =
    Sound-Quiet w w' q u (ap (λ x. x.connected && not x.has_socket) e ∙ q.socket)
      (ap (λ x. x.setting_up) e ∙ q.over)

pub Sound-of :
    (w : World) (c : Cas) (s : List Sent)
    → w.cas ≡ c
    → w.sent ≡ s
    → (c.connected && not c.has_socket) ≡ false
    → c.setting_up ≡ false
    → Descent 0 c.generation s
    → IsSound w
Sound-of w c s e f a b d = record {
  socket = ap (λ x. x.connected && not x.has_socket) e ∙ a;
  over = ap (λ x. x.setting_up) e ∙ b;
  order =
      subst (λ x. Descent 0 x.generation w.sent) (sym e) (subst (Descent 0 c.generation) (sym f) d);
}
