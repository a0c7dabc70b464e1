-- ===== src/Stream/Steps.antt =====
-- The two sides of a stream, and the steps that they take in any order.
use cubrid_client.Base.{
  ℕ, Bool, true, false, not, ◌&&◌, List, [], ◌∷◌, ◌++◌, Option, some, none, if◌then◌else◌,
}
use cubrid_client.Stream.{
  Cursor, Look, gives, ends, rejects, throws, waits, new_cursor, wake_producer, begin, offer, look,
  cancel, close_now, close_error, close_done, finish_stream, fail_with,
}

-- Where the statement is: in the queue; about to offer or to end; waiting in `offer`; past that
-- wait; at its end; over.
pub data Producer : Type 0 where
  queued ready held resumed drained over : Producer

-- Where the iterating code is: outside `take`; waiting in it; past that wait; on its way out of the
-- loop; in `close`; over.
pub data Consumer : Type 0 where
  outside asking woken leaving closing closed : Consumer

pub record System (W E : Type 0) : Type 0 where
  pub cursor : Cursor W E
  pub producer : Producer
  pub consumer : Consumer
  -- The windows offered and the windows taken so far, the first one first.
  pub offered : List W
  pub delivered : List W
  -- The failures of the statement, and those that the consumer has been thrown.
  pub failed : List E
  pub seen : List E

abbrev pub past_hold : Bool → Producer → Producer
past_hold true p = resumed
past_hold false p = p

abbrev pub past_ask : Bool → Consumer → Consumer
past_ask true k = woken
past_ask false k = k

abbrev pub is_over : Producer → Bool
is_over over = true
is_over _ = false

abbrev pub after_offer : Bool → Bool → Producer
after_offer more stopped = if more then (if stopped then resumed else held) else drained

abbrev pub told {ℓ} : {E : Type ℓ} → Option E → List E
told none = []
told (some e) = e ∷ []

module _ {W E : Type 0} where
  abbrev pub start : ℕ → System W E
  start now = record {
    cursor = new_cursor now;
    producer = queued;
    consumer = outside;
    offered = [];
    delivered = [];
    failed = [];
    seen = [];
  }

  -- What follows a look at the cursor.
  abbrev pub after_look : Look W E → Cursor W E → System W E → System W E
  after_look (gives rows) c s = record s {
    cursor = c;
    consumer = outside;
    delivered = s.delivered ++ (rows ∷ []);
  }
  after_look ends c s = record s { cursor = c; consumer = leaving }
  after_look (rejects reason) c s = record s { cursor = c; consumer = leaving }
  after_look (throws e) c s = record s { cursor = c; consumer = leaving; seen = s.seen ++ (e ∷ []) }
  after_look waits c s = record s { cursor = c; consumer = asking }

  abbrev pub looked : System W E → System W E
  looked s = after_look (look s.cursor).0 (look s.cursor).1 s

  -- The statement: it comes to its turn, hands over a window, goes on after a wait, runs out of
  -- windows, ends, or fails. An event that does not fit the state changes nothing.
  abbrev pub begins_at : Producer → System W E → System W E
  begins_at queued s = record s {
    cursor = begin s.cursor;
    producer = if s.cursor.stopped then drained else ready;
  }
  begins_at _ s = s

  abbrev pub offers_at : W → Bool → ℕ → Producer → System W E → System W E
  offers_at rows more now ready s = record s {
    cursor = offer rows more now s.cursor;
    producer = after_offer more s.cursor.stopped;
    consumer = past_ask s.cursor.resume_consumer s.consumer;
    offered = s.offered ++ (rows ∷ []);
  }
  offers_at rows more now _ s = s

  abbrev pub continues_at : Producer → System W E → System W E
  continues_at resumed s = record s { producer = if s.cursor.stopped then drained else ready }
  continues_at _ s = s

  abbrev pub quits_at : Producer → System W E → System W E
  quits_at ready s = record s { producer = drained }
  quits_at _ s = s

  abbrev pub finishes_at : Producer → System W E → System W E
  finishes_at drained s = record s {
    cursor = finish_stream s.cursor;
    producer = over;
    consumer = past_ask s.cursor.resume_consumer s.consumer;
  }
  finishes_at _ s = s

  abbrev pub failing : E → System W E → System W E
  failing e s = record s {
    cursor = fail_with e s.cursor;
    producer = over;
    consumer = past_ask s.cursor.resume_consumer s.consumer;
    failed = s.failed ++ (e ∷ []);
  }

  abbrev pub fails_at : E → Producer → System W E → System W E
  fails_at e queued s = failing e s
  fails_at e ready s = failing e s
  fails_at e drained s = failing e s
  fails_at e _ s = s

  -- The iteration: it calls `take`, looks again when it is woken, calls `close`, and returns from it.
  abbrev pub takes_at : Consumer → System W E → System W E
  takes_at outside s = looked (record s {
    cursor = wake_producer s.cursor;
    producer = past_hold s.cursor.resume_producer s.producer;
  })
  takes_at _ s = s

  abbrev pub looks_at : Consumer → System W E → System W E
  looks_at woken s = looked s
  looks_at _ s = s

  abbrev pub closing_now : System W E → System W E
  closing_now s = record s {
    cursor = close_now s.cursor;
    producer = past_hold s.cursor.resume_producer s.producer;
    consumer = closing;
  }

  abbrev pub closes_at : Consumer → System W E → System W E
  closes_at outside s = closing_now s
  closes_at leaving s = closing_now s
  closes_at _ s = s

  abbrev pub returns_at : Consumer → System W E → System W E
  returns_at closing s = if s.cursor.running && not (is_over s.producer) then s else record s {
    cursor = close_done s.cursor;
    consumer = closed;
    seen = s.seen ++ told (close_error s.cursor);
  }
  returns_at _ s = s

  -- `cancel`, from outside.
  abbrev pub cancelling : E → System W E → System W E
  cancelling reason s = record s {
    cursor = cancel reason s.cursor;
    producer = past_hold s.cursor.resume_producer s.producer;
    consumer = past_ask s.cursor.resume_consumer s.consumer;
  }

pub data StreamEvent (W E : Type 0) : Type 0 where
  begins continues quits finishes takes looks closes returns : StreamEvent W E
  offers : W → Bool → ℕ → StreamEvent W E
  fails cancels : E → StreamEvent W E

module _ {W E : Type 0} where
  unfoldable pub take_step : StreamEvent W E → System W E → System W E
  take_step begins s = begins_at s.producer s
  take_step (offers rows more now) s = offers_at rows more now s.producer s
  take_step continues s = continues_at s.producer s
  take_step quits s = quits_at s.producer s
  take_step finishes s = finishes_at s.producer s
  take_step (fails e) s = fails_at e s.producer s
  take_step takes s = takes_at s.consumer s
  take_step looks s = looks_at s.consumer s
  take_step closes s = closes_at s.consumer s
  take_step returns s = returns_at s.consumer s
  take_step (cancels reason) s = cancelling reason s

  unfoldable pub take_steps : List (StreamEvent W E) → System W E → System W E
  take_steps [] s = s
  take_steps (e ∷ es) s = take_steps es (take_step e s)
