-- ===== src/Adapter/Ending.antt =====
-- endStatementTransaction of src/adapters/native.ts: the END_TRAN of a statement that runs as a
-- transaction of its own.
use cubrid_client.Base.{
  ℕ, ◌-◌, ◌≡◌, refl, sym, ap, ◌∙◌, subst, arith, Bool, true, false, ◌&&◌, ◌==◌, inl, inr, List, [],
  ◌∷◌, ◌++◌, if◌then◌else◌, some, none, ℤ, pos, length, take, replicate, min, drop,
}
use cubrid_client.Buffer.{be_bytes, word, fits}
use cubrid_client.Constants.{function_code}
use cubrid_client.Failure.{Result, ok, fail}
use cubrid_client.Errors.{Thrown, failure, connection_lost}
use cubrid_client.Request.{Frame, framed, write_code, write_end_tran}
use cubrid_client.Reply.Simple.{parse_simple_response}
use cubrid_client.Session.World.{World, ask_reply, received, Network, Step, returned, then_do}
use cubrid_client.Session.Exchange.{exchange_unlocked, on_session, send_and_recv_on_session}
use cubrid_client.Session.Outcome.{entry, Exchanged, replied_to, lost, exchange_unlocked-Exchanged}
use cubrid_client.Session.Settled.{Taken}
use cubrid_client.Adapter.{Adapter, Turned, done, threw, then_turn, at_world}
use cubrid_client.Adapter.Turns.{Platform, give, lifted, catching, on_cas}
use cubrid_client.Adapter.Handle.{ended_or_lost, end_statement_transaction}
use cubrid_client.Adapter.Running.{roll_back}
use cubrid_client.Writer.{
  new_writer, grow_size, ensure_capacity, write_byte, write_int, add_byte, to_buffer, build,
  build_header,
}

-- ROLLBACK is written whatever the CAS_INFO.
abbrev rollback_frame : List ℕ → Frame
rollback_frame cas_info = record {
  header = be_bytes 4 6 ++ (take 4 cas_info ++ replicate (4 - min 4 (length cas_info)) 0);
  payload = 1 ∷ 0 ∷ 0 ∷ 0 ∷ 1 ∷ 2 ∷ [];
}

write_end_tran-rollback :
    (cas_info : List ℕ) → write_end_tran (pos 2) cas_info ≡ ok (rollback_frame cas_info)
unfolding write_end_tran framed build build_header write_code function_code write_byte add_byte
    write_int ensure_capacity grow_size new_writer to_buffer be_bytes word fits
write_end_tran-rollback cas_info = refl

-- An END_TRAN of this kind went out on the session `g`, and the server has accepted it.
pub record EndedOn (net : Network) (type : ℤ) (g : ℕ) (u u' : World) : Type 0 where
  pub cas_info : List ℕ
  pub request : Frame
  pub written : write_end_tran type cas_info ≡ ok request
  pub reply : Taken net request.payload parse_simple_response
  pub same : u.cas.generation ≡ g
  pub wire : u'.sent ≡ record { on = g; payload = request.payload } ∷ u.sent

-- Where the COMMIT of a statement ends.
pub data Finished (net : Network) (g : ℕ) (c : Adapter) : Turned (Unit {0}) → Type 0 where
  finished :
      (b : Adapter)
      → EndedOn net (pos 1) g c.world b.world
      → b.auto_commit ≡ c.auto_commit
      → Finished net g c (done tt b)
  unfinished :
      (e : Thrown) (b : Adapter) → b.auto_commit ≡ c.auto_commit → Finished net g c (threw e b)

-- What a rollback on the session `g` does: nothing if that session is gone, and else one ROLLBACK
-- goes out on it, or the session turns out to be gone and is dropped.
pub data Undone (net : Network) (g : ℕ) (u w : World) : Type 0 where
  session_gone : (u.cas.connected && u.cas.generation == g) ≡ false → w ≡ u → Undone net g u w
  rollback_sent :
      (cas_info : List ℕ) (f : Frame)
      → write_end_tran (pos 2) cas_info ≡ ok f
      → w.sent ≡ record { on = g; payload = f.payload } ∷ u.sent
      → Undone net g u w
  session_dropped : w.sent ≡ u.sent → w.cas.connected ≡ false → Undone net g u w

pub data Rolled (net : Network) (g : ℕ) (c : Adapter) : Turned (Unit {0}) → Type 0 where
  rolled :
      (b : Adapter)
      → b.auto_commit ≡ c.auto_commit
      → Undone net g c.world b.world
      → Rolled net g c (done tt b)

there :
    (w : World) (g : ℕ) → (w.cas.connected && w.cas.generation == g) ≡ true → w.cas.generation ≡ g
there w g h = ground arith

module _ (p : Platform) (g : ℕ) (c : Adapter) where
  parsed-Finished :
      (f : Frame) (w : World) (answer : List ℕ)
      → write_end_tran (pos 1) c.world.cas.cas_info ≡ ok f
      → c.world.cas.generation ≡ g
      → p.network.answers c.world.clock (ask_reply f.payload) ≡ received answer
      → w.sent ≡ entry c.world f.payload ∷ c.world.sent
      → (r : Result (Unit {0})) → parse_simple_response (drop 4 answer) ≡ r
      → Finished p.network g c (lifted r (record c { world = w }))
  parsed-Finished f w answer e h a s (fail t) q = unfinished (failure t) _ refl
  parsed-Finished f w answer e h a s (ok tt) q =
      finished _
        (record {
          cas_info = c.world.cas.cas_info;
          request = f;
          written = e;
          reply = record { at = c.world.clock; body = answer; reply = a; passes = q };
          same = h;
          wire = s ∙ ap (λ n. record { on = n; payload = f.payload } ∷ c.world.sent) h;
        })
        refl

  exchange-Finished :
      (f : Frame)
      → write_end_tran (pos 1) c.world.cas.cas_info ≡ ok f
      → c.world.cas.generation ≡ g
      → (s : Step (List ℕ)) → Exchanged p.network f true c.world s
      → Finished p.network g c (
          then_turn
            (at_world c (then_do s (λ answer w. returned (some answer) w)))
            (ended_or_lost p (pos 1)))
  exchange-Finished f e h _ (lost t w x y) = unfinished t _ refl
  exchange-Finished f e h _ (replied_to answer w a s k) =
      parsed-Finished f w answer e h a s (parse_simple_response (drop 4 answer)) refl

  written-Finished :
      (r : Result Frame)
      → write_end_tran (pos 1) c.world.cas.cas_info ≡ r
      → Finished p.network g c (
          then_turn (lifted r c) (λ f b.
            then_turn
              (on_cas (send_and_recv_on_session p.network g f) b)
              (ended_or_lost p (pos 1))))
  unfolding send_and_recv_on_session on_session
  written-Finished (fail t) e = unfinished (failure t) c refl
  written-Finished (ok f) e = go (c.world.cas.connected && c.world.cas.generation == g) refl
    where
      go :
          (b : Bool)
          → (c.world.cas.connected && c.world.cas.generation == g) ≡ b
          → Finished p.network g c (
              then_turn
                (at_world c (
                  if b
                  then then_do
                      (exchange_unlocked p.network f true c.world)
                      (λ answer w. returned (some answer) w)
                  else returned none c.world))
                (ended_or_lost p (pos 1)))
      go true h =
          exchange-Finished f e (there c.world g h) (exchange_unlocked p.network f true c.world)
            (exchange_unlocked-Exchanged p.network f true c.world)
      go false h = unfinished connection_lost _ refl

  pub end_statement_transaction-Finished :
      Finished p.network g c (end_statement_transaction p (pos 1) g c)
  unfolding end_statement_transaction
  end_statement_transaction-Finished =
      written-Finished (write_end_tran (pos 1) c.world.cas.cas_info) refl

  replied-Rolled :
      (f : Frame) (w : World)
      → write_end_tran (pos 2) c.world.cas.cas_info ≡ ok f
      → c.world.cas.generation ≡ g
      → w.sent ≡ entry c.world f.payload ∷ c.world.sent
      → (r : Result (Unit {0}))
      → Rolled p.network g c (catching (lifted r (record c { world = w })) (λ _. give tt))
  replied-Rolled f w e h s (ok tt) = rolled _ refl (
      rollback_sent c.world.cas.cas_info f e
        (s ∙ ap (λ n. record { on = n; payload = f.payload } ∷ c.world.sent) h))
  replied-Rolled f w e h s (fail t) = rolled _ refl (
      rollback_sent c.world.cas.cas_info f e
        (s ∙ ap (λ n. record { on = n; payload = f.payload } ∷ c.world.sent) h))

  exchange-Rolled :
      (f : Frame)
      → write_end_tran (pos 2) c.world.cas.cas_info ≡ ok f
      → c.world.cas.generation ≡ g
      → (s : Step (List ℕ)) → Exchanged p.network f true c.world s
      → Rolled p.network g c (
          catching
            (then_turn
              (at_world c (then_do s (λ answer w. returned (some answer) w)))
              (ended_or_lost p (pos 2)))
            (λ _. give tt))
  exchange-Rolled f e h _ (lost t w (inl x) y) =
      rolled _ refl (session_dropped x (ap (λ k. k.connected) y))
  exchange-Rolled f e h _ (lost t w (inr x) y) = rolled _ refl (
      rollback_sent c.world.cas.cas_info f e
        (x ∙ ap (λ n. record { on = n; payload = f.payload } ∷ c.world.sent) h))
  exchange-Rolled f e h _ (replied_to answer w a s k) =
      replied-Rolled f w e h s (parse_simple_response (drop 4 answer))

  framed-Rolled :
      (f : Frame)
      → write_end_tran (pos 2) c.world.cas.cas_info ≡ ok f
      → Rolled p.network g c (
          catching
            (then_turn
              (on_cas (send_and_recv_on_session p.network g f) c)
              (ended_or_lost p (pos 2)))
            (λ _. give tt))
  unfolding send_and_recv_on_session on_session
  framed-Rolled f e = go (c.world.cas.connected && c.world.cas.generation == g) refl
    where
      go :
          (b : Bool)
          → (c.world.cas.connected && c.world.cas.generation == g) ≡ b
          → Rolled p.network g c (
              catching
                (then_turn
                  (at_world c (
                    if b
                    then then_do
                        (exchange_unlocked p.network f true c.world)
                        (λ answer w. returned (some answer) w)
                    else returned none c.world))
                  (ended_or_lost p (pos 2)))
                (λ _. give tt))
      go true h =
          exchange-Rolled f e (there c.world g h) (exchange_unlocked p.network f true c.world)
            (exchange_unlocked-Exchanged p.network f true c.world)
      go false h = rolled _ refl (session_gone h refl)

  pub roll_back-Rolled : Rolled p.network g c (roll_back p g c)
  unfolding end_statement_transaction
  roll_back-Rolled =
      subst
        (λ r. Rolled p.network g c (
          catching
            (then_turn (lifted r c) (λ f b.
              then_turn (on_cas (send_and_recv_on_session p.network g f) b)
                (ended_or_lost p (pos 2))))
            (λ _. give tt)))
        (sym (write_end_tran-rollback c.world.cas.cas_info))
        (framed-Rolled (rollback_frame c.world.cas.cas_info)
          (write_end_tran-rollback c.world.cas.cas_info))
