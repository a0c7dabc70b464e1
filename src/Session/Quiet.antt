-- ===== src/Session/Quiet.antt =====
-- What opening and verifying a session does to the wire and to the counters.
use cubrid_client.Base.{
  ℕ, ◌≤◌, ◌≡◌, refl, sym, ap, ◌∙◌, arith, List, [], ◌∷◌, ◌++◌, append_assoc, All, All-append,
  Bool-cases, inl, inr, ℤ,
}
use cubrid_client.Failure.{Result, ok, fail}
use cubrid_client.Errors.{Thrown, failure, connection_lost}
use cubrid_client.Request.{Frame, write_set_db_parameter, write_check_cas}
use cubrid_client.Session.World.{
  Cas, Sent, World, Ask, Answer, dead, broken, received, Network, Step, returned, raised, Act,
  then_do, ◌>>=◌, ◌>>◌, give, raise, rescue, lift, with_cas, tick, create_socket, heard,
  await_bytes,
}

-- A SET_DB_PARAMETER or a CHECK_CAS request.
pub data IsControl : List ℕ → Type 0 where
  setting :
      (parameter value : ℤ) (cas_info : List ℕ) (f : Frame)
      → write_set_db_parameter parameter value cas_info ≡ ok f
      → IsControl f.payload
  probing : (cas_info : List ℕ) (f : Frame) → write_check_cas cas_info ≡ ok f → IsControl f.payload

abbrev pub Controls : List Sent → Type 0
Controls requests = All (λ s. IsControl s.payload) requests

-- Requests, the last one first, on the sessions from `low` to `high`, each on the session of the one
-- before it or on a later one.
abbrev pub Descent : ℕ → ℕ → List Sent → Type 0
Descent low high [] = low ≤ high
Descent low high (s ∷ ss) = (s.on ≤ high) × Descent low s.on ss

pub Descent-append :
    (low middle high : ℕ) (r q : List Sent)
    → Descent low middle q
    → Descent middle high r
    → Descent low high (r ++ q)
Descent-append low middle high [] [] a b = omega (arith, a, b)
Descent-append low middle high [] (s ∷ q) a b = (omega (arith, a.0, b), a.1)
Descent-append low middle high (s ∷ r) q a b = (b.0, Descent-append low middle s.on r q a b.1)

pub Descent-le : (low high : ℕ) (r : List Sent) → Descent low high r → low ≤ high
Descent-le low high [] a = a
Descent-le low high (s ∷ r) a = omega (arith, a.0, Descent-le low s.on r a.1)

-- Nothing but control requests went out, and nothing was counted.
pub record Quiet (w w' : World) : Type 0 where
  pub requests : List Sent
  pub controls : Controls requests
  pub wire : w'.sent ≡ requests ++ w.sent
  pub failed : w'.cas.failed_exchanges ≡ w.cas.failed_exchanges
  pub ended : w'.cas.out_of_transaction_replies ≡ w.cas.out_of_transaction_replies
  pub parameters : w'.cas.session_parameters ≡ w.cas.session_parameters
  pub order : Descent w.cas.generation w'.cas.generation requests

abbrev pub world_of {ℓ} : {A : Type ℓ} → Step A → World
world_of (returned a w) = w
world_of (raised e w) = w

pub Quiet-refl : (w : World) → Quiet w w
Quiet-refl w = record {
  requests = [];
  controls = tt;
  wire = refl;
  failed = refl;
  ended = refl;
  parameters = refl;
  order = omega arith;
}

pub Quiet-trans : {w w' w'' : World} → Quiet w w' → Quiet w' w'' → Quiet w w''
Quiet-trans {w} {w'} {w''} q r = record {
  requests = r.requests ++ q.requests;
  controls = All-append (λ s. IsControl s.payload) r.requests q.requests r.controls q.controls;
  wire =
      r.wire ∙ ap (λ t. r.requests ++ t) q.wire ∙ sym (append_assoc r.requests q.requests w.sent);
  failed = r.failed ∙ q.failed;
  ended = r.ended ∙ q.ended;
  parameters = r.parameters ∙ q.parameters;
  order =
      Descent-append w.cas.generation w'.cas.generation w''.cas.generation r.requests q.requests
        q.order r.order;
}

-- A method that is quiet on every world.
pub record IsQuiet {ℓ} {A : Type ℓ} (m : Act A) : Type ℓ where
  pub at : (w : World) → Quiet w (world_of (m w))

-- One that changes the clock and fields that are not counted, and sends nothing.
pub silent :
    (w w' : World)
    → w'.sent ≡ w.sent
    → w'.cas.failed_exchanges ≡ w.cas.failed_exchanges
    → w'.cas.out_of_transaction_replies ≡ w.cas.out_of_transaction_replies
    → w'.cas.session_parameters ≡ w.cas.session_parameters
    → w.cas.generation ≤ w'.cas.generation
    → Quiet w w'
silent w w' a b c d e = record {
  requests = [];
  controls = tt;
  wire = a;
  failed = b;
  ended = c;
  parameters = d;
  order = e;
}

pub Quiet-then {ℓ κ} :
    {A : Type ℓ} {B : Type κ} (w : World) (s : Step A) (f : A → Act B)
    → Quiet w (world_of s)
    → ((a : A) → IsQuiet (f a))
    → Quiet w (world_of (then_do s f))
Quiet-then w (returned a w') f q h = Quiet-trans q ((h a).at w')
Quiet-then w (raised e w') f q h = q

pub IsQuiet-bind {ℓ κ} :
    {A : Type ℓ} {B : Type κ} {m : Act A} {f : A → Act B}
    → IsQuiet m
    → ((a : A) → IsQuiet (f a))
    → IsQuiet (m >>= f)
IsQuiet-bind {m} {f} h k = record { at = λ w. Quiet-then w (m w) f (h.at w) k }

pub IsQuiet-then {ℓ κ} :
    {A : Type ℓ} {B : Type κ} {m : Act A} {k : Act B} → IsQuiet m → IsQuiet k → IsQuiet (m >> k)
IsQuiet-then {m} {k} h j = IsQuiet-bind h (λ _. j)

pub IsQuiet-give {ℓ} : {A : Type ℓ} (a : A) → IsQuiet (give a)
IsQuiet-give a = record { at = Quiet-refl }

pub IsQuiet-raise {ℓ} : {A : Type ℓ} (e : Thrown) → IsQuiet (raise {A = A} e)
IsQuiet-raise e = record { at = Quiet-refl }

pub IsQuiet-lift {ℓ} : {A : Type ℓ} (r : Result A) → IsQuiet (lift r)
IsQuiet-lift (ok a) = IsQuiet-give a
IsQuiet-lift (fail e) = IsQuiet-raise (failure e)

-- A change of the state that keeps the counters, the parameters and the generation, or raises it.
pub IsQuiet-with_cas :
    (f : Cas → Cas)
    → ((c : Cas)
        → ((f c).failed_exchanges ≡ c.failed_exchanges)
          × ((f c).out_of_transaction_replies ≡ c.out_of_transaction_replies)
          × ((f c).session_parameters ≡ c.session_parameters)
          × (c.generation ≤ (f c).generation))
    → IsQuiet (with_cas f)
IsQuiet-with_cas f h = record { at = λ w. let (a, b, c, d) = h w.cas in silent w _ refl a b c d }

pub Quiet-rescue {ℓ} :
    {A : Type ℓ} (w : World) (s : Step A) (f : Thrown → Act A)
    → Quiet w (world_of s)
    → ((e : Thrown) → IsQuiet (f e))
    → Quiet w (world_of (rescue s f))
Quiet-rescue w (returned a w') f q h = q
Quiet-rescue w (raised e w') f q h = Quiet-trans q ((h e).at w')

module _ (net : Network) where
  pub create_socket-IsQuiet : IsQuiet (create_socket net)
  unfolding create_socket
  create_socket-IsQuiet = record {
    at = λ w. elim (Bool-cases (net.opens w.clock)) [
      | inl e ↦ rw e (silent w (tick w) refl refl refl refl (omega arith))
      | inr e ↦ rw e (silent w (tick w) refl refl refl refl (omega arith))
    ];
  }

  heard-IsQuiet : (a : Answer) → IsQuiet (heard net a)
  heard-IsQuiet dead = IsQuiet-raise connection_lost
  heard-IsQuiet (broken e) = IsQuiet-raise e
  heard-IsQuiet (received bytes) = IsQuiet-give bytes

  pub await_bytes-IsQuiet : (ask : Ask) → IsQuiet (await_bytes net ask)
  unfolding await_bytes
  await_bytes-IsQuiet ask = record {
    at = λ w.
        Quiet-trans (silent w (tick w) refl refl refl refl (omega arith))
          ((heard-IsQuiet (net.answers w.clock ask)).at (tick w));
  }
