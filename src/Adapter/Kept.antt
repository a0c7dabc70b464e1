-- ===== src/Adapter/Kept.antt =====
-- What the steps of a turn leave alone: the mode, the session that the transaction is bound to, and
-- the requests sent so far.
use cubrid_client.Base.{
  ℕ, ◌≡◌, refl, ◌∙◌, Bool, true, false, ◌&&◌, if◌then◌else◌, List, Option, some, none,
}
use cubrid_client.Failure.{Result, ok, fail}
use cubrid_client.Errors.{Thrown, failure, connection_lost}
use cubrid_client.Reply.Simple.{parse_simple_response}
use cubrid_client.Session.World.{Step, returned, raised, Act}
use cubrid_client.Session.Exchange.{discard_session, is_connected}
use cubrid_client.Session.Quiet.{world_of}
use cubrid_client.Session.Growth.{
  Grows, Grows-refl, Grows-trans, IsGrowing, discard_session-IsGrowing,
}
use cubrid_client.Adapter.{
  Adapter, Turned, done, threw, Turn, then_turn, at_world, transaction_ended, session_lost,
  assert_unaborted, assert_session, drop_if_ended,
}
use cubrid_client.Adapter.Turns.{
  ◌>>=◌, ◌>>◌, give, refuse, lifted, catching, finally, the_cas, on_cas, do_if, check_reply,
  answered_or_lost,
}

pub record Kept (a b : Adapter) : Type 0 where
  pub mode : b.auto_commit ≡ a.auto_commit
  pub bound : b.transaction_generation ≡ a.transaction_generation
  pub grown : Grows a.world b.world

abbrev pub left_by {ℓ} : {A : Type ℓ} → Turned A → Adapter
left_by (done x a) = a
left_by (threw e a) = a

pub Kept-refl : (a : Adapter) → Kept a a
Kept-refl a = record { mode = refl; bound = refl; grown = Grows-refl a.world }

pub Kept-trans : {a b c : Adapter} → Kept a b → Kept b c → Kept a c
Kept-trans k l = record {
  mode = l.mode ∙ k.mode;
  bound = l.bound ∙ k.bound;
  grown = Grows-trans k.grown l.grown;
}

pub record IsKeeping {ℓ} {A : Type ℓ} (m : Turn A) : Type ℓ where
  pub at : (a : Adapter) → Kept a (left_by (m a))

pub Kept-then {ℓ κ} :
    {A : Type ℓ} {B : Type κ} {a : Adapter} (s : Turned A) (f : A → Turn B)
    → Kept a (left_by s)
    → ((x : A) → IsKeeping (f x))
    → Kept a (left_by (then_turn s f))
Kept-then (done x b) f k h = Kept-trans k ((h x).at b)
Kept-then (threw e b) f k h = k

pub Kept-if {ℓ} :
    {A : Type ℓ} {a : Adapter} (b : Bool) (s t : Turned A)
    → Kept a (left_by s)
    → Kept a (left_by t)
    → Kept a (left_by (if b then s else t))
Kept-if true s t k l = k
Kept-if false s t k l = l

pub Kept-catching {ℓ} :
    {A : Type ℓ} {a : Adapter} (s : Turned A) (f : Thrown → Turn A)
    → Kept a (left_by s)
    → ((e : Thrown) → IsKeeping (f e))
    → Kept a (left_by (catching s f))
Kept-catching (done x b) f k h = k
Kept-catching (threw e b) f k h = Kept-trans k ((h e).at b)

pub Kept-finally {ℓ} :
    {A : Type ℓ} {a : Adapter} (s : Turned A) (m : Turn (Unit {0}))
    → Kept a (left_by s)
    → IsKeeping m
    → Kept a (left_by (finally s m))
Kept-finally (done x b) m k h =
    Kept-trans k (Kept-then (m b) (λ _. give x) (h.at b) (λ _. record { at = Kept-refl }))
Kept-finally (threw e b) m k h =
    Kept-trans k (Kept-then (m b) (λ _. refuse e) (h.at b) (λ _. record { at = Kept-refl }))

pub IsKeeping-bind {ℓ κ} :
    {A : Type ℓ} {B : Type κ} {m : Turn A} {f : A → Turn B}
    → IsKeeping m
    → ((x : A) → IsKeeping (f x))
    → IsKeeping (m >>= f)
IsKeeping-bind {m} {f} h k = record { at = λ a. Kept-then (m a) f (h.at a) k }

pub IsKeeping-then {ℓ κ} :
    {A : Type ℓ} {B : Type κ} {m : Turn A} {k : Turn B}
    → IsKeeping m
    → IsKeeping k
    → IsKeeping (m >> k)
IsKeeping-then {m} {k} h j = IsKeeping-bind h (λ _. j)

pub IsKeeping-give {ℓ} : {A : Type ℓ} (x : A) → IsKeeping (give x)
IsKeeping-give x = record { at = Kept-refl }

pub IsKeeping-refuse {ℓ} : {A : Type ℓ} (e : Thrown) → IsKeeping (refuse {A = A} e)
IsKeeping-refuse e = record { at = Kept-refl }

pub IsKeeping-lifted {ℓ} : {A : Type ℓ} (r : Result A) → IsKeeping (lifted r)
IsKeeping-lifted (ok x) = IsKeeping-give x
IsKeeping-lifted (fail e) = IsKeeping-refuse (failure e)

pub the_cas-IsKeeping : IsKeeping the_cas
the_cas-IsKeeping = record { at = Kept-refl }

pub Kept-at_world {ℓ} :
    {A : Type ℓ} (a : Adapter) (s : Step A)
    → Grows a.world (world_of s)
    → Kept a (left_by (at_world a s))
Kept-at_world a (returned x w) g = record { mode = refl; bound = refl; grown = g }
Kept-at_world a (raised e w) g = record { mode = refl; bound = refl; grown = g }

pub on_cas-IsKeeping {ℓ} : {A : Type ℓ} {m : Act A} → IsGrowing m → IsKeeping (on_cas m)
on_cas-IsKeeping {m} h = record { at = λ a. Kept-at_world a (m a.world) (h.at a.world) }

pub IsKeeping-if {ℓ} :
    {A : Type ℓ} {m n : Turn A} (b : Bool)
    → IsKeeping m
    → IsKeeping n
    → IsKeeping (if b then m else n)
IsKeeping-if true h k = h
IsKeeping-if false h k = k

pub do_if-IsKeeping : {m : Turn (Unit {0})} (b : Bool) → IsKeeping m → IsKeeping (do_if b m)
do_if-IsKeeping {m} b h = record { at = λ a. Kept-if b (m a) (done tt a) (h.at a) (Kept-refl a) }

pub check_reply-IsKeeping : (r : Option (List ℕ)) → IsKeeping (check_reply r)
check_reply-IsKeeping none = IsKeeping-give tt
check_reply-IsKeeping (some payload) = IsKeeping-lifted (parse_simple_response payload)

pub answered_or_lost-IsKeeping : (r : Option (List ℕ)) → IsKeeping (answered_or_lost r)
answered_or_lost-IsKeeping none = IsKeeping-refuse connection_lost
answered_or_lost-IsKeeping (some payload) = IsKeeping-give payload

pub discard-IsKeeping : IsKeeping (on_cas discard_session)
discard-IsKeeping = on_cas-IsKeeping discard_session-IsGrowing

pub drop_if_ended-IsKeeping : IsKeeping drop_if_ended
unfolding drop_if_ended
drop_if_ended-IsKeeping = record {
  at = λ a.
      Kept-if (is_connected a.world.cas && transaction_ended a) _ (done tt a)
        (discard-IsKeeping.at a) (Kept-refl a);
}

pub assert_session-IsKeeping : IsKeeping assert_session
assert_session-IsKeeping = record { at = λ a. go a a.transaction_abort }
  where
    go : (a : Adapter) (x : Option Thrown) → Kept a (left_by (assert_unaborted x a))
    go a (some e) = Kept-refl a
    go a none =
        Kept-if (session_lost a) (threw connection_lost a) (done tt a) (Kept-refl a) (Kept-refl a)

pub ruleset keeping_rules = (
  IsKeeping-bind, IsKeeping-then, IsKeeping-give, IsKeeping-refuse, IsKeeping-lifted,
  the_cas-IsKeeping, do_if-IsKeeping, check_reply-IsKeeping, answered_or_lost-IsKeeping,
  discard-IsKeeping, drop_if_ended-IsKeeping, assert_session-IsKeeping,
)
