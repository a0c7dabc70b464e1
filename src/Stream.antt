-- ===== src/Stream.antt =====
-- StreamCursor (src/adapters/stream-cursor.ts): the hand-over of windows of rows between a statement
-- that holds its turn on the connection (the producer) and the code that iterates (the consumer).
pub mod Steps
pub mod Handover
pub mod Order
pub mod Takes
pub mod Delivery
pub mod Failures
use cubrid_client.Base.{ℕ, Bool, true, false, not, ◌||◌, Option, some, none, if◌then◌else◌}

-- `W` is a window of rows and `E` what can be thrown. `resume_producer` and `resume_consumer` say
-- whether the function that resolves the other side's promise is set.
pub record Cursor (W E : Type 0) : Type 0 where
  pub activity_at : ℕ
  pub window : Option W
  pub stopped : Bool
  pub cancellation : Option E
  pub running : Bool
  pub finished : Bool
  pub failure : Option E
  pub resume_producer : Bool
  pub resume_consumer : Bool

-- What one look of `take` comes to.
pub data Look (W E : Type 0) : Type 0 where
  gives : W → Look W E
  ends : Look W E
  -- The reason of a cancellation, or the failure of the statement.
  rejects : E → Look W E
  throws : E → Look W E
  waits : Look W E

abbrev pub first_reason {ℓ} : {E : Type ℓ} → Option E → E → Option E
first_reason (some reason) e = some reason
first_reason none e = some e

abbrev pub unseen {ℓ} : {E : Type ℓ} → Option E → Option E → Option E
unseen (some reason) failure = none
unseen none failure = failure

module _ {W E : Type 0} where
  abbrev pub new_cursor : ℕ → Cursor W E
  new_cursor now = record {
    activity_at = now;
    window = none;
    stopped = false;
    cancellation = none;
    running = false;
    finished = false;
    failure = none;
    resume_producer = false;
    resume_consumer = false;
  }

  -- The cursor with the promise of that side resolved; whether it was pending is read before.
  abbrev pub wake_producer : Cursor W E → Cursor W E
  wake_producer c = record c { resume_producer = false }

  abbrev pub wake_consumer : Cursor W E → Cursor W E
  wake_consumer c = record c { resume_consumer = false }

  -- `running` afterwards is the result.
  abbrev pub begin : Cursor W E → Cursor W E
  begin c = record c { running = not c.stopped }

  -- Whether the producer has to wait after it, and the cursor.
  abbrev pub offer_waits : Bool → Cursor W E → Bool
  offer_waits more c = not (not more || c.stopped)

  abbrev pub offer : W → Bool → ℕ → Cursor W E → Cursor W E
  offer rows more now c = record (wake_consumer c) {
    window = some rows;
    activity_at = now;
    resume_producer = if offer_waits more c then true else c.resume_producer;
  }

  -- One round of the loop of `take`.
  abbrev pub look_finished : Option E → Cursor W E → Look W E × Cursor W E
  look_finished (some e) c = (throws e, record c { failure = none })
  look_finished none c = (ends, c)

  abbrev pub look_empty : Bool → Cursor W E → Look W E × Cursor W E
  look_empty true c = look_finished c.failure c
  look_empty false c = (waits, record c { resume_consumer = true })

  abbrev pub look_window : Option W → Cursor W E → Look W E × Cursor W E
  look_window (some rows) c = (gives rows, record c { window = none })
  look_window none c = look_empty c.finished c

  abbrev pub look_cancelled : Option E → Cursor W E → Look W E × Cursor W E
  look_cancelled (some reason) c = (rejects reason, c)
  look_cancelled none c = look_window c.window c

  abbrev pub look : Cursor W E → Look W E × Cursor W E
  look c = look_cancelled c.cancellation c

  abbrev pub cancel : E → Cursor W E → Cursor W E
  cancel reason c = wake_consumer (
      wake_producer
        (record c { cancellation = first_reason c.cancellation reason; stopped = true }))

  -- `close` up to its wait for the producer.
  abbrev pub close_now : Cursor W E → Cursor W E
  close_now c = wake_producer (record c { stopped = true })

  -- What `close` throws after its wait for the producer.
  abbrev pub close_error : Cursor W E → Option E
  close_error c = unseen c.cancellation c.failure

  abbrev pub close_done : Cursor W E → Cursor W E
  close_done c = record c {
    failure = (elim c.cancellation [ some reason ↦ c.failure | none ↦ none ]);
  }

  abbrev pub finish_stream : Cursor W E → Cursor W E
  finish_stream c = wake_consumer (record c { finished = true })

  -- What `run` does when the statement has failed.
  abbrev pub fail_with : E → Cursor W E → Cursor W E
  fail_with e c = finish_stream (record c { failure = some e })
