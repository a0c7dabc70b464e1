-- ===== src/Stream/Order.antt =====
-- The windows that a stream delivers, whatever the order of its events.
use cubrid_client.Base.{
  ℕ, ◌≡◌, ◌⊎◌, refl, sym, subst, ap, ◌∙◌, arith, Bool, true, false, List, [], ◌∷◌, ◌++◌,
  append_assoc, Option, some, none, Bool-cases, inl, inr,
}
use cubrid_client.Stream.Steps.{
  Producer, queued, ready, held, resumed, drained, over, Consumer, System, past_ask, is_over, told,
  begins_at, offers_at, continues_at, quits_at, finishes_at, failing, fails_at,
}
use cubrid_client.Stream.Handover.{
  has, is_held, Signs, signs, Coherent, begin-Coherent, offer-Coherent, continue-Coherent,
  quit-Coherent, over-Coherent,
}

-- The windows taken are the first of those offered, in their order; while the stream runs, what is
-- left is the window that is held.
pub record InOrder {W E : Type 0} (s : System W E) : Type 0 where
  pub rest : List W
  pub order : s.delivered ++ rest ≡ s.offered
  pub left : (s.cursor.stopped ≡ true) ⊎ (rest ≡ told s.cursor.window)

-- A failure of the statement: there is none, the cursor keeps it, or the consumer has been thrown it.
pub data Fate {E : Type 0} : Bool → Option E → List E → List E → Type 0 where
  none_yet : (finished : Bool) → Fate finished none [] []
  unseen_yet : (e : E) → Fate true (some e) [] (e ∷ [])
  seen_once : (e : E) → Fate true none (e ∷ []) (e ∷ [])

Fate-finish : {E : Type 0} {b : Bool} {x : Option E} {s f : List E} → Fate b x s f → Fate true x s f
Fate-finish (none_yet b) = none_yet true
Fate-finish (unseen_yet e) = unseen_yet e
Fate-finish (seen_once e) = seen_once e

Fate-fail :
    {E : Type 0} {x : Option E} {s f : List E} (e : E)
    → Fate false x s f
    → Fate true (some e) s (f ++ (e ∷ []))
Fate-fail e (none_yet _) = unseen_yet e

pub Fate-throw :
    {E : Type 0} {b : Bool} {s f : List E} {e : E}
    → Fate b (some e) s f
    → Fate b none (s ++ (e ∷ [])) f
Fate-throw (unseen_yet e) = seen_once e

-- The invariant of a stream.
pub record IsSteady {W E : Type 0} (s : System W E) : Type 0 where
  pub coherent : Coherent s.producer s.consumer (signs s.cursor)
  pub in_order : InOrder s
  pub fate : Fate s.cursor.finished s.cursor.failure s.seen s.failed

told_nothing {ℓ} : {A : Type ℓ} (x : Option A) → has x ≡ false → told x ≡ []
told_nothing none h = refl
told_nothing (some a) h = absurd (cc h)

ready-vacant :
    (k : Consumer) (v : Signs) → v.stopped ≡ false → Coherent ready k v → v.holding ≡ false
ready-vacant k v e q = ground arith

module _ {W E : Type 0} where
  -- The next state has the same windows, and stops the stream or keeps what is held.
  pub kept :
      (s t : System W E)
      → t.delivered ≡ s.delivered
      → t.offered ≡ s.offered
      → (t.cursor.stopped ≡ true)
        ⊎ ((t.cursor.stopped ≡ s.cursor.stopped) × (t.cursor.window ≡ s.cursor.window))
      → InOrder s
      → InOrder t
  kept s t d o (inl h) q = record {
    rest = q.rest;
    order = ap (λ x. x ++ q.rest) d ∙ q.order ∙ sym o;
    left = inl h;
  }
  kept s t d o (inr (h, w)) q = record {
    rest = q.rest;
    order = ap (λ x. x ++ q.rest) d ∙ q.order ∙ sym o;
    left = elim q.left [ inl e ↦ inl (h ∙ e) | inr e ↦ inr (e ∙ ap told (sym w)) ];
  }

  pub begins-Steady :
      (p : Producer) (s : System W E) → s.producer ≡ p → IsSteady s → IsSteady (begins_at p s)
  begins-Steady queued s e q = record {
    coherent =
        begin-Coherent s.consumer (signs s.cursor)
          (subst (λ p. Coherent p s.consumer (signs s.cursor)) e q.coherent);
    in_order = kept s _ refl refl (inr (refl, refl)) q.in_order;
    fate = q.fate;
  }
  begins-Steady ready s e q = q
  begins-Steady held s e q = q
  begins-Steady resumed s e q = q
  begins-Steady drained s e q = q
  begins-Steady over s e q = q

  -- A window that is offered while one is held comes after the stream has stopped.
  offered-InOrder :
      (rows : W) (s t : System W E)
      → Coherent ready s.consumer (signs s.cursor)
      → t.delivered ≡ s.delivered
      → t.offered ≡ s.offered ++ (rows ∷ [])
      → t.cursor.stopped ≡ s.cursor.stopped
      → t.cursor.window ≡ some rows
      → InOrder s
      → InOrder t
  offered-InOrder rows s t c d o h w q = record {
    rest = q.rest ++ (rows ∷ []);
    order =
        sym (append_assoc t.delivered q.rest (rows ∷ []))
        ∙ ap (λ x. (x ++ q.rest) ++ (rows ∷ [])) d
        ∙ ap (λ x. x ++ (rows ∷ [])) q.order
        ∙ sym o;
    left = elim q.left [
      | inl e ↦ inl (h ∙ e)
      | inr e ↦ elim (Bool-cases s.cursor.stopped) [
        | inl x ↦ inl (h ∙ x)
        | inr x ↦ inr (
            ap (λ r. r ++ (rows ∷ []))
              (e ∙ told_nothing s.cursor.window (ready-vacant s.consumer (signs s.cursor) x c))
            ∙ ap told (sym w))
      ]
    ];
  }

  pub offers-Steady :
      (rows : W) (more : Bool) (now : ℕ) (p : Producer) (s : System W E)
      → s.producer ≡ p
      → IsSteady s
      → IsSteady (offers_at rows more now p s)
  offers-Steady rows more now ready s e q =
      let c = subst (λ p. Coherent p s.consumer (signs s.cursor)) e q.coherent in
      record {
        coherent = offer-Coherent more s.consumer (signs s.cursor) c;
        in_order = offered-InOrder rows s _ c refl refl refl refl q.in_order;
        fate = q.fate;
      }
  offers-Steady rows more now queued s e q = q
  offers-Steady rows more now held s e q = q
  offers-Steady rows more now resumed s e q = q
  offers-Steady rows more now drained s e q = q
  offers-Steady rows more now over s e q = q

  pub continues-Steady :
      (p : Producer) (s : System W E) → s.producer ≡ p → IsSteady s → IsSteady (continues_at p s)
  continues-Steady resumed s e q = record {
    coherent =
        continue-Coherent s.consumer (signs s.cursor)
          (subst (λ p. Coherent p s.consumer (signs s.cursor)) e q.coherent);
    in_order = kept s _ refl refl (inr (refl, refl)) q.in_order;
    fate = q.fate;
  }
  continues-Steady queued s e q = q
  continues-Steady ready s e q = q
  continues-Steady held s e q = q
  continues-Steady drained s e q = q
  continues-Steady over s e q = q

  pub quits-Steady :
      (p : Producer) (s : System W E) → s.producer ≡ p → IsSteady s → IsSteady (quits_at p s)
  quits-Steady ready s e q = record {
    coherent =
        quit-Coherent s.consumer (signs s.cursor)
          (subst (λ p. Coherent p s.consumer (signs s.cursor)) e q.coherent);
    in_order = kept s _ refl refl (inr (refl, refl)) q.in_order;
    fate = q.fate;
  }
  quits-Steady queued s e q = q
  quits-Steady held s e q = q
  quits-Steady resumed s e q = q
  quits-Steady drained s e q = q
  quits-Steady over s e q = q

  -- The end of a statement, with a failure or without.
  ended :
      (p : Producer) (s : System W E)
      → s.producer ≡ p
      → is_over p ≡ false
      → is_held p ≡ false
      → IsSteady s
      → Coherent over
          (past_ask s.cursor.resume_consumer s.consumer)
          (record (signs s.cursor) { finished = true; consumer_waits = false })
  ended p s e a b q =
      over-Coherent s.producer s.consumer (signs s.cursor) (ap is_over e ∙ a) (ap is_held e ∙ b)
        q.coherent

  pub finishes-Steady :
      (p : Producer) (s : System W E) → s.producer ≡ p → IsSteady s → IsSteady (finishes_at p s)
  finishes-Steady drained s e q = record {
    coherent = ended drained s e refl refl q;
    in_order = kept s _ refl refl (inr (refl, refl)) q.in_order;
    fate = Fate-finish q.fate;
  }
  finishes-Steady queued s e q = q
  finishes-Steady ready s e q = q
  finishes-Steady held s e q = q
  finishes-Steady resumed s e q = q
  finishes-Steady over s e q = q

  pub failing-Steady :
      (t : E) (p : Producer) (s : System W E)
      → s.producer ≡ p
      → is_over p ≡ false
      → is_held p ≡ false
      → IsSteady s
      → IsSteady (failing t s)
  failing-Steady t p s e a b q = record {
    coherent = ended p s e a b q;
    in_order = kept s _ refl refl (inr (refl, refl)) q.in_order;
    fate = Fate-fail t (
        subst (λ b. Fate b s.cursor.failure s.seen s.failed)
          (q.coherent.finishes ∙ ap is_over e ∙ a) q.fate);
  }

  pub fails-Steady :
      (t : E) (p : Producer) (s : System W E)
      → s.producer ≡ p
      → IsSteady s
      → IsSteady (fails_at t p s)
  fails-Steady t queued s e q = failing-Steady t queued s e refl refl q
  fails-Steady t ready s e q = failing-Steady t ready s e refl refl q
  fails-Steady t drained s e q = failing-Steady t drained s e refl refl q
  fails-Steady t held s e q = q
  fails-Steady t resumed s e q = q
  fails-Steady t over s e q = q
