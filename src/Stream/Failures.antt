-- ===== src/Stream/Failures.antt =====
-- What becomes of a failure of the statement that a stream iterates.
use cubrid_client.Base.{
  ℕ, ◌≤◌, ◌≡◌, refl, ap, ◌∙◌, arith, Bool, true, false, not, ◌&&◌, List, ◌++◌, length, Option, some,
  none, if◌then◌else◌,
}
use cubrid_client.Stream.{
  Cursor, look_finished, look_empty, look_window, look_cancelled, wake_producer, close_error,
  unseen, close_done,
}
use cubrid_client.Stream.Steps.{
  outside, woken, closing, closed, System, is_over, start, after_look, looked, takes_at, looks_at,
  returns_at, past_hold, told, StreamEvent, takes, looks, returns, take_step, take_steps,
}
use cubrid_client.Stream.Order.{Fate, none_yet, unseen_yet, seen_once}
use cubrid_client.Stream.Delivery.{reached}

-- The steps of the consumer that are its last chance to see a failure: close returns, or take looks at
-- a stream that is finished and holds no window.
pub data LastLook {W E : Type 0} (s : System W E) : StreamEvent W E → Type 0 where
  close_returns :
      s.consumer ≡ closing
      → (s.cursor.running && not (is_over s.producer)) ≡ false
      → LastLook s returns
  take_ends :
      s.consumer ≡ outside → s.cursor.finished ≡ true → s.cursor.window ≡ none → LastLook s takes
  woken_ends :
      s.consumer ≡ woken → s.cursor.finished ≡ true → s.cursor.window ≡ none → LastLook s looks

module _ {E : Type 0} where
  told-failed :
      (b : Bool) (x : Option E) (seen failed : List E)
      → Fate b x seen failed
      → seen ++ told x ≡ failed
  told-failed b _ _ _ (none_yet _) = refl
  told-failed b _ _ _ (unseen_yet e) = refl
  told-failed b _ _ _ (seen_once e) = refl

  none-failed : (b : Bool) (seen failed : List E) → Fate b none seen failed → seen ≡ failed
  none-failed b _ _ (none_yet _) = refl
  none-failed b _ _ (seen_once e) = refl

  failed_once :
      (b : Bool) (x : Option E) (seen failed : List E) → Fate b x seen failed → length failed ≤ 1
  failed_once b _ _ _ (none_yet _) = omega arith
  failed_once b _ _ _ (unseen_yet e) = omega arith
  failed_once b _ _ _ (seen_once e) = omega arith

module _ {W E : Type 0} where
  finished-seen :
      (c : Cursor W E) (b : Bool) (x : Option E) (s : System W E)
      → Fate b x s.seen s.failed
      → (after_look (look_finished x c).0 (look_finished x c).1 s).seen ≡ s.failed
  finished-seen c b none s h = none-failed b s.seen s.failed h
  finished-seen c b (some e) s h = told-failed b (some e) s.seen s.failed h

  looked-seen :
      (s : System W E)
      → s.cursor.cancellation ≡ none
      → s.cursor.finished ≡ true
      → s.cursor.window ≡ none
      → Fate s.cursor.finished s.cursor.failure s.seen s.failed
      → (looked s).seen ≡ s.failed
  looked-seen s c f w h =
      ap (λ x. (after_look (look_cancelled x s.cursor).0 (look_cancelled x s.cursor).1 s).seen) c
      ∙ ap (λ x. (after_look (look_window x s.cursor).0 (look_window x s.cursor).1 s).seen) w
      ∙ ap (λ x. (after_look (look_empty x s.cursor).0 (look_empty x s.cursor).1 s).seen) f
      ∙ finished-seen s.cursor s.cursor.finished s.cursor.failure s h

  returned-seen :
      (s : System W E)
      → s.cursor.cancellation ≡ none
      → (s.cursor.running && not (is_over s.producer)) ≡ false
      → Fate s.cursor.finished s.cursor.failure s.seen s.failed
      → (returns_at closing s).seen ≡ s.failed
  returned-seen s c r h =
      ap
        (λ b.
          (if b then s else record s {
            cursor = close_done s.cursor;
            consumer = closed;
            seen = s.seen ++ told (close_error s.cursor);
          }).seen)
        r
      ∙ ap (λ x. s.seen ++ told (unseen x s.cursor.failure)) c
      ∙ told-failed s.cursor.finished s.cursor.failure s.seen s.failed h

  LastLook-seen :
      (s : System W E) (e : StreamEvent W E)
      → s.cursor.cancellation ≡ none
      → Fate s.cursor.finished s.cursor.failure s.seen s.failed
      → LastLook s e
      → (take_step e s).seen ≡ s.failed
  unfolding take_step
  LastLook-seen s _ c h (close_returns k r) =
      ap (λ x. (returns_at x s).seen) k ∙ returned-seen s c r h
  LastLook-seen s _ c h (take_ends k f w) =
      ap (λ x. (takes_at x s).seen) k
      ∙ looked-seen
          (record s {
            cursor = wake_producer s.cursor;
            producer = past_hold s.cursor.resume_producer s.producer;
          })
          c f w h
  LastLook-seen s _ c h (woken_ends k f w) = ap (λ x. (looks_at x s).seen) k ∙ looked-seen s c f w h

-- In a stream that is not cancelled, whatever the order of events before: once take has ended behind
-- the last window, or close has returned, the consumer has been thrown exactly the failures of the
-- statement so far, each of them once, and there is one at most.
pub take_steps-failed :
    {W E : Type 0} (now : ℕ) (es : List (StreamEvent W E)) (e : StreamEvent W E)
    → (take_steps es (start now)).cursor.cancellation ≡ none
    → LastLook (take_steps es (start now)) e
    → ((take_step e (take_steps es (start now))).seen ≡ (take_steps es (start now)).failed)
      × (length (take_steps es (start now)).failed ≤ 1)
take_steps-failed now es e c l =
    let s = take_steps es (start now) in
    let h = (reached now es).fate in
    (LastLook-seen s e c h l, failed_once s.cursor.finished s.cursor.failure s.seen s.failed h)
