-- ===== src/Stream/Handover.antt =====
-- How the cursor of a stream agrees with its two sides (src/adapters/stream-cursor.ts).
use cubrid_client.Base.{
  ◌≡◌, arith, Bool, true, false, not, ◌&&◌, ◌||◌, Option, some, none, if◌then◌else◌,
}
use cubrid_client.Stream.{Cursor}
use cubrid_client.Stream.Steps.{
  Producer, queued, ready, held, resumed, drained, over, Consumer, outside, asking, woken, leaving,
  closing, closed, past_hold, past_ask, is_over, after_offer,
}

abbrev pub has {ℓ} : {A : Type ℓ} → Option A → Bool
has none = false
has (some a) = true

abbrev pub is_held : Producer → Bool
is_held held = true
is_held _ = false

-- Where the statement may offer before the consumer asks again.
abbrev pub may_offer : Producer → Bool
may_offer queued = true
may_offer ready = true
may_offer resumed = true
may_offer _ = false

abbrev pub is_asking : Consumer → Bool
is_asking asking = true
is_asking _ = false

abbrev pub is_woken : Consumer → Bool
is_woken woken = true
is_woken _ = false

abbrev pub has_closed : Consumer → Bool
has_closed closing = true
has_closed closed = true
has_closed _ = false

-- What a cursor shows: who waits, whether a window is held, and how far the stream is.
pub record Signs : Type 0 where
  pub producer_waits : Bool
  pub consumer_waits : Bool
  pub holding : Bool
  pub cancelled : Bool
  pub finished : Bool
  pub stopped : Bool

abbrev pub signs : {W E : Type 0} → Cursor W E → Signs
signs c = record {
  producer_waits = c.resume_producer;
  consumer_waits = c.resume_consumer;
  holding = has c.window;
  cancelled = has c.cancellation;
  finished = c.finished;
  stopped = c.stopped;
}

-- What a consumer that waits is woken for.
abbrev pub signalled : Signs → Bool
signalled v = v.cancelled || (v.holding || v.finished)

-- How the cursor agrees with the two sides.
pub record Coherent (p : Producer) (k : Consumer) (v : Signs) : Type 0 where
  -- A promise is open exactly where a side waits, and never two.
  pub producer_waits : v.producer_waits ≡ is_held p
  pub consumer_waits : v.consumer_waits ≡ is_asking k
  pub not_both : (is_held p && is_asking k) ≡ false
  -- A consumer waits only if there is nothing for it, and wakes up only if there is something.
  pub nothing_yet : (is_asking k && signalled v) ≡ false
  pub something : (is_woken k && not (signalled v)) ≡ false
  -- A statement does not wait once the stream has stopped.
  pub released : (is_held p && v.stopped) ≡ false
  pub finishes : v.finished ≡ is_over p
  pub stops : v.stopped ≡ v.cancelled || has_closed k
  -- A window that is still held is not overwritten.
  pub vacant : ((may_offer p && not v.stopped) && v.holding) ≡ false

pub start-Coherent : Coherent queued outside (record {
  producer_waits = false;
  consumer_waits = false;
  holding = false;
  cancelled = false;
  finished = false;
  stopped = false;
})
start-Coherent = ground arith

pub begin-Coherent :
    (k : Consumer) (v : Signs)
    → Coherent queued k v
    → Coherent (if v.stopped then drained else ready) k v
begin-Coherent k v q = ground arith

pub offer-Coherent :
    (more : Bool) (k : Consumer) (v : Signs)
    → Coherent ready k v
    → Coherent (after_offer more v.stopped) (past_ask v.consumer_waits k) (record v {
      producer_waits = if not (not more || v.stopped) then true else v.producer_waits;
      consumer_waits = false;
      holding = true;
    })
offer-Coherent more k v q = ground arith

pub continue-Coherent :
    (k : Consumer) (v : Signs)
    → Coherent resumed k v
    → Coherent (if v.stopped then drained else ready) k v
continue-Coherent k v q = ground arith

pub quit-Coherent : (k : Consumer) (v : Signs) → Coherent ready k v → Coherent drained k v
quit-Coherent k v q = ground arith

pub over-Coherent :
    (p : Producer) (k : Consumer) (v : Signs)
    → is_over p ≡ false
    → is_held p ≡ false
    → Coherent p k v
    → Coherent over
        (past_ask v.consumer_waits k)
        (record v { finished = true; consumer_waits = false })
over-Coherent p k v a b q = ground arith

pub cancel-Coherent :
    (p : Producer) (k : Consumer) (v : Signs)
    → Coherent p k v
    → Coherent (past_hold v.producer_waits p) (past_ask v.consumer_waits k) (record v {
      cancelled = true;
      stopped = true;
      producer_waits = false;
      consumer_waits = false;
    })
cancel-Coherent p k v q = ground arith

pub close-Coherent :
    (p : Producer) (k : Consumer) (v : Signs)
    → is_asking k ≡ false
    → Coherent p k v
    → Coherent
        (past_hold v.producer_waits p)
        closing
        (record v { stopped = true; producer_waits = false })
close-Coherent p k v e q = ground arith

pub return-Coherent : (p : Producer) (v : Signs) → Coherent p closing v → Coherent p closed v
return-Coherent p v q = ground arith

-- `take`, which resolves the statement's promise and then looks: the stream is cancelled, a window is
-- held, the statement is over, or there is nothing yet.
pub take_rejects-Coherent :
    (p : Producer) (v : Signs)
    → v.cancelled ≡ true
    → Coherent p outside v
    → Coherent (past_hold v.producer_waits p) leaving (record v { producer_waits = false })
take_rejects-Coherent p v e q = ground arith

pub take_gives-Coherent :
    (p : Producer) (v : Signs)
    → Coherent p outside v
    → Coherent
        (past_hold v.producer_waits p)
        outside
        (record v { producer_waits = false; holding = false })
take_gives-Coherent p v q = ground arith

pub take_ends-Coherent :
    (p : Producer) (v : Signs)
    → v.holding ≡ false
    → Coherent p outside v
    → Coherent (past_hold v.producer_waits p) leaving (record v { producer_waits = false })
take_ends-Coherent p v e q = ground arith

pub take_waits-Coherent :
    (p : Producer) (v : Signs)
    → v.cancelled ≡ false
    → v.holding ≡ false
    → v.finished ≡ false
    → Coherent p outside v
    → Coherent
        (past_hold v.producer_waits p)
        asking
        (record v { producer_waits = false; consumer_waits = true })
take_waits-Coherent p v e f g q = ground arith

-- The same looks by a consumer that has been woken, which never has to wait again.
pub woken_leaves-Coherent : (p : Producer) (v : Signs) → Coherent p woken v → Coherent p leaving v
woken_leaves-Coherent p v q = ground arith

pub woken_gives-Coherent :
    (p : Producer) (v : Signs)
    → Coherent p woken v
    → Coherent p outside (record v { holding = false })
woken_gives-Coherent p v q = ground arith

pub woken_waits-Coherent :
    (p : Producer) (v : Signs)
    → v.cancelled ≡ false
    → v.holding ≡ false
    → v.finished ≡ false
    → Coherent p woken v
    → Coherent p asking (record v { consumer_waits = true })
woken_waits-Coherent p v e f g q = ground arith
