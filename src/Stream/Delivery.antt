-- ===== src/Stream/Delivery.antt =====
-- What a stream promises to the code that iterates it.
use cubrid_client.Base.{
  ℕ, ◌≡◌, refl, subst, ap, ◌∙◌, arith, Bool, true, false, not, ◌&&◌, ◌||◌, List, [], ◌∷◌, ◌++◌,
  Option, some, none, inr,
}
use cubrid_client.Stream.{look_cancelled}
use cubrid_client.Stream.Steps.{
  Producer, ready, Consumer, asking, woken, System, past_ask, is_over, start, offers_at, after_look,
  looks_at, StreamEvent, offers, looks, take_step, take_steps,
}
use cubrid_client.Stream.Handover.{
  has, is_held, is_asking, is_woken, has_closed, Signs, signs, signalled, Coherent, start-Coherent,
}
use cubrid_client.Stream.Order.{InOrder, none_yet, IsSteady}
use cubrid_client.Stream.Takes.{take_step-Steady}

module _ {W E : Type 0} where
  take_steps-Steady :
      (es : List (StreamEvent W E)) (s : System W E) → IsSteady s → IsSteady (take_steps es s)
  unfolding take_steps
  take_steps-Steady [] s q = q
  take_steps-Steady (e ∷ es) s q = take_steps-Steady es (take_step e s) (take_step-Steady e s q)

  start-Steady : (now : ℕ) → IsSteady (start {W = W} {E = E} now)
  start-Steady now = record {
    coherent = start-Coherent;
    in_order = record { rest = []; order = refl; left = inr refl };
    fate = none_yet false;
  }

  pub reached : (now : ℕ) (es : List (StreamEvent W E)) → IsSteady (take_steps es (start now))
  reached now es = take_steps-Steady es (start now) (start-Steady now)

-- Whatever the order in which the statement, the iterating code and a cancellation act: the windows
-- that were taken are the first of the windows that were offered, in the same order and each of
-- them once; and while the stream has not been stopped, what was offered beyond them is the one
-- window that the cursor holds.
pub take_steps-InOrder :
    {W E : Type 0} (now : ℕ) (es : List (StreamEvent W E)) → InOrder (take_steps es (start now))
take_steps-InOrder now es = (reached now es).in_order

-- No side waits for a wake-up that will not come.
pub record IsAwaited {W E : Type 0} (s : System W E) : Type 0 where
  -- A consumer waits for a statement that runs and is not itself waiting.
  pub consumer : (is_asking s.consumer && (is_held s.producer || is_over s.producer)) ≡ false
  -- It waits only while there is no window, no end and no cancellation.
  pub nothing : (is_asking s.consumer && signalled (signs s.cursor)) ≡ false
  -- A statement waits for a consumer that has neither stopped nor closed the stream.
  pub producer : (is_held s.producer && (s.cursor.stopped || has_closed s.consumer)) ≡ false
  -- A consumer that is woken finds what it was woken for.
  pub woken : (is_woken s.consumer && not (signalled (signs s.cursor))) ≡ false

awaited :
    (p : Producer) (k : Consumer) (v : Signs)
    → Coherent p k v
    → ((is_asking k && (is_held p || is_over p)) ≡ false)
      × ((is_held p && (v.stopped || has_closed k)) ≡ false)
awaited p k v q = (ground arith, ground arith)

-- Whatever the order of events, a stream never hangs: the consumer waits only while the statement
-- still runs and does not wait for it in turn, the statement waits only while the stream is neither
-- stopped nor closed, and a consumer that was woken does not have to wait again.
pub take_steps-IsAwaited :
    {W E : Type 0} (now : ℕ) (es : List (StreamEvent W E)) → IsAwaited (take_steps es (start now))
take_steps-IsAwaited now es =
    let s = take_steps es (start now) in
    let c = (reached now es).coherent in
    let (a, b) = awaited s.producer s.consumer (signs s.cursor) c in
    record { consumer = a; nothing = c.nothing_yet; producer = b; woken = c.something }

no_reason {ℓ} : {A : Type ℓ} (x : Option A) → has x ≡ false → x ≡ none
no_reason none h = refl
no_reason (some a) h = absurd (cc h)

asking-Coherent :
    (p : Producer) (v : Signs)
    → Coherent p asking v
    → (v.consumer_waits ≡ true) × (v.cancelled ≡ false)
asking-Coherent p v q = (ground arith, ground arith)

module _ {W E : Type 0} where
  -- The state after an offer to a consumer that waits.
  abbrev offered_to : W → Bool → ℕ → System W E → System W E
  offered_to rows more t s = offers_at rows more t ready s

  handed :
      (rows : W) (more : Bool) (t : ℕ) (s : System W E)
      → s.consumer ≡ asking
      → IsSteady s
      → (looks_at (offered_to rows more t s).consumer (offered_to rows more t s)).delivered
        ≡ s.delivered ++ (rows ∷ [])
  handed rows more t s e q =
      let (a, b) =
        asking-Coherent s.producer (signs s.cursor)
          (subst (λ k. Coherent s.producer k (signs s.cursor)) e q.coherent) in
      let u = offered_to rows more t s in
      let k : past_ask s.cursor.resume_consumer s.consumer ≡ woken = rw a refl in
      ap (λ x. (looks_at x u).delivered) k
      ∙ ap
          (λ x.
            (after_look (look_cancelled x u.cursor).0 (look_cancelled x u.cursor).1 u).delivered)
          (no_reason s.cursor.cancellation b)

-- A consumer that waits gets the next window: in every state that a stream comes to, if the
-- consumer waits and the statement offers a window, the consumer is woken by it and takes that
-- window, and no other, in its next look.
pub take_steps-delivered :
    {W E : Type 0} (now : ℕ) (es : List (StreamEvent W E)) (rows : W) (more : Bool) (t : ℕ)
    → (take_steps es (start now)).producer ≡ ready
    → (take_steps es (start now)).consumer ≡ asking
    → (take_step looks (take_step (offers rows more t) (take_steps es (start now)))).delivered
      ≡ (take_steps es (start now)).delivered ++ (rows ∷ [])
unfolding take_step
take_steps-delivered now es rows more t p k =
    let s = take_steps es (start now) in
    ap (λ x. (looks_at (offers_at rows more t x s).consumer (offers_at rows more t x s)).delivered)
      p
    ∙ handed rows more t s k (reached now es)
