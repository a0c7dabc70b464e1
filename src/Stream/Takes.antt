-- ===== src/Stream/Takes.antt =====
-- What `take`, `close` and `cancel` do to the invariant of a stream.
use cubrid_client.Base.{
  ◌≡◌, refl, sym, subst, ap, ◌∙◌, arith, Bool, true, false, not, ◌&&◌, List, [], ◌∷◌, ◌++◌,
  append-nil, Option, some, none, if◌then◌else◌, inl, inr,
}
use cubrid_client.Stream.{
  Cursor, Look, wake_producer, look_finished, look_empty, look_window, look_cancelled, first_reason,
  unseen, close_error, close_done,
}
use cubrid_client.Stream.Steps.{
  Producer, Consumer, outside, asking, woken, leaving, closing, closed, System, past_hold, past_ask,
  is_over, told, after_look, looked, takes_at, looks_at, closing_now, closes_at, returns_at,
  cancelling, StreamEvent, begins, continues, quits, finishes, takes, looks, closes, returns,
  offers, fails, cancels, take_step,
}
use cubrid_client.Stream.Handover.{
  has, is_asking, Signs, signs, Coherent, cancel-Coherent, close-Coherent, return-Coherent,
  take_rejects-Coherent, take_gives-Coherent, take_ends-Coherent, take_waits-Coherent,
  woken_leaves-Coherent, woken_gives-Coherent, woken_waits-Coherent,
}
use cubrid_client.Stream.Order.{
  InOrder, Fate, none_yet, unseen_yet, seen_once, Fate-throw, IsSteady, kept, begins-Steady,
  offers-Steady, continues-Steady, quits-Steady, finishes-Steady, fails-Steady,
}

outside-stops : (p : Producer) (v : Signs) → Coherent p outside v → v.stopped ≡ v.cancelled
outside-stops p v q = ground arith

woken-stops : (p : Producer) (v : Signs) → Coherent p woken v → v.stopped ≡ v.cancelled
woken-stops p v q = ground arith

has-first_reason {ℓ} : {E : Type ℓ} (x : Option E) (e : E) → has (first_reason x e) ≡ true
has-first_reason none e = refl
has-first_reason (some r) e = refl

-- What `close` does about a failure.
Fate-close :
    {E : Type 0} {b : Bool} {y : Option E} {s f : List E} (x : Option E)
    → Fate b y s f
    → Fate b (elim x [ some reason ↦ y | none ↦ none ]) (s ++ told (unseen x y)) f
Fate-close (some r) (none_yet b) = none_yet b
Fate-close (some r) (unseen_yet e) = unseen_yet e
Fate-close (some r) (seen_once e) = seen_once e
Fate-close none (none_yet b) = none_yet b
Fate-close none (unseen_yet e) = seen_once e
Fate-close none (seen_once e) = seen_once e

module _ {W E : Type 0} where
  given-InOrder :
      (rows : W) (s t : System W E)
      → s.cursor.stopped ≡ false
      → s.cursor.window ≡ some rows
      → t.delivered ≡ s.delivered ++ (rows ∷ [])
      → t.offered ≡ s.offered
      → t.cursor.window ≡ none
      → InOrder s
      → InOrder t
  given-InOrder rows s t a b d o w q = record {
    rest = [];
    order = append-nil t.delivered ∙ d ∙ ap (λ x. s.delivered ++ x) (sym taken) ∙ q.order ∙ sym o;
    left = inr (ap told (sym w));
  }
    where
      taken : q.rest ≡ rows ∷ []
      taken = elim q.left [ inl e ↦ absurd (cc (a, e)) | inr e ↦ e ∙ ap told b ]

  -- A look, from what it may lead to.
  module _ (s : System W E) (alive : s.cursor.stopped ≡ has s.cursor.cancellation)
      (leaves : has s.cursor.cancellation ≡ true → Coherent s.producer leaving (signs s.cursor))
      (empties : Coherent s.producer outside (record (signs s.cursor) { holding = false }))
      (finishes_so : has s.cursor.window ≡ false → Coherent s.producer leaving (signs s.cursor))
      (sleeps : has s.cursor.cancellation ≡ false
        → has s.cursor.window ≡ false
        → s.cursor.finished ≡ false
        → Coherent s.producer asking (record (signs s.cursor) { consumer_waits = true }))
      (q : InOrder s) (fate : Fate s.cursor.finished s.cursor.failure s.seen s.failed) where
    after : Look W E × Cursor W E → System W E
    after r = after_look r.0 r.1 s

    finished-Steady :
        (f : Option E)
        → s.cursor.failure ≡ f
        → has s.cursor.window ≡ false
        → IsSteady (after_look (look_finished f s.cursor).0 (look_finished f s.cursor).1 s)
    finished-Steady none x w = record {
      coherent = finishes_so w;
      in_order = kept s _ refl refl (inr (refl, refl)) q;
      fate = fate;
    }
    finished-Steady (some e) x w = record {
      coherent = finishes_so w;
      in_order = kept s _ refl refl (inr (refl, refl)) q;
      fate = Fate-throw (subst (λ y. Fate s.cursor.finished y s.seen s.failed) x fate);
    }

    empty-Steady :
        (z : Bool)
        → s.cursor.finished ≡ z
        → has s.cursor.cancellation ≡ false
        → has s.cursor.window ≡ false
        → IsSteady (after_look (look_empty z s.cursor).0 (look_empty z s.cursor).1 s)
    empty-Steady true e c w = finished-Steady s.cursor.failure refl w
    empty-Steady false e c w = record {
      coherent = sleeps c w e;
      in_order = kept s _ refl refl (inr (refl, refl)) q;
      fate = fate;
    }

    window-Steady :
        (y : Option W)
        → s.cursor.window ≡ y
        → has s.cursor.cancellation ≡ false
        → IsSteady (after_look (look_window y s.cursor).0 (look_window y s.cursor).1 s)
    window-Steady (some rows) e c = record {
      coherent = empties;
      in_order = given-InOrder rows s _ (alive ∙ c) e refl refl refl q;
      fate = fate;
    }
    window-Steady none e c = empty-Steady s.cursor.finished refl c (ap has e)

    cancelled-Steady :
        (x : Option E)
        → s.cursor.cancellation ≡ x
        → IsSteady (after_look (look_cancelled x s.cursor).0 (look_cancelled x s.cursor).1 s)
    cancelled-Steady (some reason) e = record {
      coherent = leaves (ap has e);
      in_order = kept s _ refl refl (inr (refl, refl)) q;
      fate = fate;
    }
    cancelled-Steady none e = window-Steady s.cursor.window refl (ap has e)

    looked-Steady : IsSteady (looked s)
    looked-Steady = cancelled-Steady s.cursor.cancellation refl

  at_consumer :
      (k : Consumer) (s : System W E)
      → s.consumer ≡ k
      → IsSteady s
      → Coherent s.producer k (signs s.cursor)
  at_consumer k s e q = subst (λ k. Coherent s.producer k (signs s.cursor)) e q.coherent

  takes-Steady :
      (k : Consumer) (s : System W E) → s.consumer ≡ k → IsSteady s → IsSteady (takes_at k s)
  takes-Steady outside s e q =
      let c = at_consumer outside s e q in
      looked-Steady
        (record s {
          cursor = wake_producer s.cursor;
          producer = past_hold s.cursor.resume_producer s.producer;
        })
        (outside-stops s.producer (signs s.cursor) c)
        (λ x. take_rejects-Coherent s.producer (signs s.cursor) x c)
        (take_gives-Coherent s.producer (signs s.cursor) c)
        (λ x. take_ends-Coherent s.producer (signs s.cursor) x c)
        (λ x y z. take_waits-Coherent s.producer (signs s.cursor) x y z c)
        (kept s _ refl refl (inr (refl, refl)) q.in_order) q.fate
  takes-Steady asking s e q = q
  takes-Steady woken s e q = q
  takes-Steady leaving s e q = q
  takes-Steady closing s e q = q
  takes-Steady closed s e q = q

  looks-Steady :
      (k : Consumer) (s : System W E) → s.consumer ≡ k → IsSteady s → IsSteady (looks_at k s)
  looks-Steady woken s e q =
      let c = at_consumer woken s e q in
      looked-Steady s (woken-stops s.producer (signs s.cursor) c)
        (λ x. woken_leaves-Coherent s.producer (signs s.cursor) c)
        (woken_gives-Coherent s.producer (signs s.cursor) c)
        (λ x. woken_leaves-Coherent s.producer (signs s.cursor) c)
        (λ x y z. woken_waits-Coherent s.producer (signs s.cursor) x y z c) q.in_order q.fate
  looks-Steady outside s e q = q
  looks-Steady asking s e q = q
  looks-Steady leaving s e q = q
  looks-Steady closing s e q = q
  looks-Steady closed s e q = q

  closing_now-Steady :
      (k : Consumer) (s : System W E)
      → s.consumer ≡ k
      → is_asking k ≡ false
      → IsSteady s
      → IsSteady (closing_now s)
  closing_now-Steady k s e a q = record {
    coherent =
        close-Coherent s.producer s.consumer (signs s.cursor) (ap is_asking e ∙ a) q.coherent;
    in_order = kept s _ refl refl (inl refl) q.in_order;
    fate = q.fate;
  }

  closes-Steady :
      (k : Consumer) (s : System W E) → s.consumer ≡ k → IsSteady s → IsSteady (closes_at k s)
  closes-Steady outside s e q = closing_now-Steady outside s e refl q
  closes-Steady leaving s e q = closing_now-Steady leaving s e refl q
  closes-Steady asking s e q = q
  closes-Steady woken s e q = q
  closes-Steady closing s e q = q
  closes-Steady closed s e q = q

  returns-Steady :
      (k : Consumer) (s : System W E) → s.consumer ≡ k → IsSteady s → IsSteady (returns_at k s)
  returns-Steady closing s e q = go (s.cursor.running && not (is_over s.producer))
    where
      go :
          (b : Bool)
          → IsSteady (
              if b then s else record s {
                cursor = close_done s.cursor;
                consumer = closed;
                seen = s.seen ++ told (close_error s.cursor);
              })
      go true = q
      go false = record {
        coherent = return-Coherent s.producer (signs s.cursor) (at_consumer closing s e q);
        in_order = kept s _ refl refl (inr (refl, refl)) q.in_order;
        fate = Fate-close s.cursor.cancellation q.fate;
      }
  returns-Steady outside s e q = q
  returns-Steady asking s e q = q
  returns-Steady woken s e q = q
  returns-Steady leaving s e q = q
  returns-Steady closed s e q = q

  cancelling-Steady : (reason : E) (s : System W E) → IsSteady s → IsSteady (cancelling reason s)
  cancelling-Steady reason s q = record {
    coherent =
        subst
          (λ b.
            Coherent (past_hold s.cursor.resume_producer s.producer)
              (past_ask s.cursor.resume_consumer s.consumer)
              (record (signs s.cursor) {
                cancelled = b;
                stopped = true;
                producer_waits = false;
                consumer_waits = false;
              }))
          (sym (has-first_reason s.cursor.cancellation reason))
          (cancel-Coherent s.producer s.consumer (signs s.cursor) q.coherent);
    in_order = kept s _ refl refl (inl refl) q.in_order;
    fate = q.fate;
  }

  pub take_step-Steady :
      (e : StreamEvent W E) (s : System W E) → IsSteady s → IsSteady (take_step e s)
  unfolding take_step
  take_step-Steady begins s q = begins-Steady s.producer s refl q
  take_step-Steady (offers rows more now) s q = offers-Steady rows more now s.producer s refl q
  take_step-Steady continues s q = continues-Steady s.producer s refl q
  take_step-Steady quits s q = quits-Steady s.producer s refl q
  take_step-Steady finishes s q = finishes-Steady s.producer s refl q
  take_step-Steady (fails e) s q = fails-Steady e s.producer s refl q
  take_step-Steady takes s q = takes-Steady s.consumer s refl q
  take_step-Steady looks s q = looks-Steady s.consumer s refl q
  take_step-Steady closes s q = closes-Steady s.consumer s refl q
  take_step-Steady returns s q = returns-Steady s.consumer s refl q
  take_step-Steady (cancels reason) s q = cancelling-Steady reason s q
