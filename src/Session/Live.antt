-- ===== src/Session/Live.antt =====
-- A network that answers as it should, and the settings of a session on it.
use cubrid_client.Base.{
  ℕ, ◌+◌, ◌-◌, ◌^◌, ◌≤◌, ◌≡◌, refl, subst, arith, Bool, true, ◌&&◌, List, [], ◌∷◌, if◌then◌else◌,
  All, length, take, drop, length-append, length-drop, length-take-le, pos,
}
use cubrid_client.Failure.{Result, ok}
use cubrid_client.Errors.{Thrown}
use cubrid_client.Buffer.{Fits}
use cubrid_client.Request.{Frame, write_set_db_parameter, write_check_cas}
use cubrid_client.Request.Layout.{write_set_db_parameter-Sends, write_check_cas-Sends}
use cubrid_client.Reply.Open.{OpenDatabaseResult, parse_client_info_exchange, parse_open_database}
use cubrid_client.Reply.Simple.{parse_simple_response, parse_check_cas}
use cubrid_client.Session.World.{
  SessionParameter, World, ask_port, ask_tls, ask_database, ask_reply, Answer, received, Network,
  Step, returned, Act, then_do, ◌>>=◌, lift, rescue, tick, copied, on_wire, send_recv,
}
use cubrid_client.Session.Opening.{quiet_exchange, apply_parameter, apply_parameters, check_cas_now}

-- What a broker and a server that work answer.
pub data GoodPort : Answer → Type 0 where
  good_port :
      (bytes : List ℕ) (n : ℕ)
      → parse_client_info_exchange bytes ≡ ok (pos n)
      → GoodPort (received bytes)

pub data GoodTls : Answer → Type 0 where
  good_tls : (bytes : List ℕ) → GoodTls (received bytes)

pub data GoodDatabase : Answer → Type 0 where
  good_database :
      (body : List ℕ) (r : OpenDatabaseResult)
      → parse_open_database body ≡ ok r
      → length r.cas_info ≡ 4
      → GoodDatabase (received body)

pub data GoodReply : Answer → Type 0 where
  good_reply :
      (body : List ℕ)
      → parse_simple_response (drop 4 body) ≡ ok tt
      → parse_check_cas (drop 4 body) ≡ ok tt
      → GoodReply (received body)

-- From the tick `from` on, everything opens and is answered in that way.
pub record IsHealthy (net : Network) (from : ℕ) : Type 0 where
  pub opens : (d : ℕ) → net.opens (from + d) ≡ true
  pub port : (d : ℕ) → GoodPort (net.answers (from + d) ask_port)
  pub tls : (d : ℕ) → GoodTls (net.answers (from + d) ask_tls)
  pub database : (d : ℕ) → GoodDatabase (net.answers (from + d) ask_database)
  pub reply : (d : ℕ) (payload : List ℕ) → GoodReply (net.answers (from + d) (ask_reply payload))

-- The codes and the values that four bytes can hold.
abbrev pub Storable : List SessionParameter → Type 0
Storable ps = All (λ p. Fits (2 ^ 31) p.parameter × Fits (2 ^ 31) p.value) ps

-- A step that returns, with `Q` of the result and the world.
pub data Lands {ℓ} {A : Type ℓ} (Q : A → World → Type 0) : Step A → Type ℓ where
  lands : (a : A) (w : World) → Q a w → Lands Q (returned a w)

pub Lands-bind {ℓ κ} :
    {A : Type ℓ} {B : Type κ} {Q : A → World → Type 0} {R : B → World → Type 0} (s : Step A)
    (f : A → Act B)
    → Lands Q s
    → ((a : A) (w : World) → Q a w → Lands R (f a w))
    → Lands R (then_do s f)
Lands-bind _ f (lands a w q) h = h a w q

pub Lands-rescue {ℓ} :
    {A : Type ℓ} {Q : A → World → Type 0} (s : Step A) (f : Thrown → Act A)
    → Lands Q s
    → Lands Q (rescue s f)
Lands-rescue _ f (lands a w q) = lands a w q

-- A write that succeeds.
pub Lands-lift {ℓ κ} :
    {A : Type ℓ} {B : Type κ} {R : B → World → Type 0} (r : Result A) (a : A) (w : World)
    (f : A → Act B)
    → r ≡ ok a
    → Lands R (f a w)
    → Lands R (then_do (lift r w) f)
Lands-lift r a w f e h = rw e h

pub Lands-if {ℓ} :
    {A : Type ℓ} {Q : A → World → Type 0} (b : Bool) (s t : Step A)
    → b ≡ true
    → Lands Q s
    → Lands Q (if b then s else t)
Lands-if b s t e h = rw e h

Lands-ok {ℓ} :
    {A : Type ℓ} {Q : A → World → Type 0} (r : Result A) (a : A) (w : World)
    → r ≡ ok a
    → Q a w
    → Lands Q (lift r w)
Lands-ok r a w e q = rw e (lands a w q)

length-copied : (body old : List ℕ) → length old ≡ 4 → length (copied body old) ≡ 4
length-copied body old h = omega (
  arith,
  h,
  length-append (take 4 body) (drop (length (take 4 body)) old),
  length-drop (length (take 4 body)) old,
  length-take-le 4 body,
)

-- A session that the server can be asked on.
pub record IsOpen (from : ℕ) (w : World) : Type 0 where
  pub socket : w.cas.has_socket ≡ true
  pub connected : w.cas.connected ≡ true
  pub four : length w.cas.cas_info ≡ 4
  pub awake : from ≤ w.clock

-- A reply that the parsers accept.
pub record Accepts (from : ℕ) (payload : List ℕ) (w : World) : Type 0 where
  session : IsOpen from w
  simple : parse_simple_response payload ≡ ok tt
  check : parse_check_cas payload ≡ ok tt

module _ (net : Network) (from : ℕ) (healthy : IsHealthy net from) where
  send_recv-Lands :
      (f : Frame) (w : World)
      → IsOpen from w
      → Lands (λ body. Accepts from (drop 4 body)) (send_recv net f w)
  unfolding send_recv
  send_recv-Lands f w q =
      Lands-if (w.cas.has_socket && w.cas.connected) _ _ (rw (q.socket, q.connected) refl) (
        go (net.answers w.clock (ask_reply f.payload)) (
          subst (λ t. GoodReply (net.answers t (ask_reply f.payload))) (omega (arith, q.awake))
            (healthy.reply (w.clock - from) f.payload)))
    where
      go :
          (a : Answer)
          → GoodReply a
          → Lands (λ body. Accepts from (drop 4 body)) (on_wire net f.payload a (tick w))
      go _ (good_reply body a b) = lands body _ (record {
        session = record {
          socket = q.socket;
          connected = q.connected;
          four = q.four;
          awake = omega (arith, q.awake);
        };
        simple = a;
        check = b;
      })

  quiet_exchange-Lands :
      (f : Frame) (w : World) → IsOpen from w → Lands (Accepts from) (quiet_exchange net f w)
  unfolding quiet_exchange
  quiet_exchange-Lands f w q =
      Lands-bind (send_recv net f w) _ (send_recv-Lands f w q) (λ body w' a.
        lands (drop 4 body) _ (record {
          session = record {
            socket = a.session.socket;
            connected = a.session.connected;
            four = length-copied body w'.cas.cas_info a.session.four;
            awake = a.session.awake;
          };
          simple = a.simple;
          check = a.check;
        }))

  -- A request with a reply that `parse` passes.
  asked-Lands :
      (r : Result Frame) (f : Frame) (parse : List ℕ → Result (Unit {0})) (w : World)
      → r ≡ ok f
      → ((payload : List ℕ) (w' : World) → Accepts from payload w' → parse payload ≡ ok tt)
      → IsOpen from w
      → Lands
          (λ _. IsOpen from)
          ((lift r >>= λ g. quiet_exchange net g >>= λ payload. lift (parse payload)) w)
  asked-Lands r f parse w e h q = Lands-lift r f w _ e (
      Lands-bind (quiet_exchange net f w) _ (quiet_exchange-Lands f w q)
        (λ payload w' a. Lands-ok (parse payload) tt w' (h payload w' a) a.session))

  pub apply_parameters-Lands :
      (ps : List SessionParameter) (w : World)
      → Storable ps
      → IsOpen from w
      → Lands (λ _. IsOpen from) (apply_parameters net ps w)
  unfolding apply_parameters apply_parameter
  apply_parameters-Lands [] w h q = lands tt w q
  apply_parameters-Lands (p ∷ ps) w h q =
      let (f, e, _, _) =
        write_set_db_parameter-Sends p.parameter p.value w.cas.cas_info h.0.0 h.0.1 q.four in
      Lands-bind _ _
        (asked-Lands (write_set_db_parameter p.parameter p.value w.cas.cas_info) f
          parse_simple_response w e (λ payload w' a. a.simple) q)
        (λ _ w' o. apply_parameters-Lands ps w' h.1 o)

  pub check_cas_now-Lands :
      (w : World) → IsOpen from w → Lands (λ _. IsOpen from) (check_cas_now net w)
  unfolding check_cas_now
  check_cas_now-Lands w q =
      let (f, e, _, _) = write_check_cas-Sends w.cas.cas_info q.four in
      asked-Lands (write_check_cas w.cas.cas_info) f parse_check_cas w e (λ payload w' a. a.check) q
