-- ===== src/Tests/Streams.antt =====
-- A stream of two windows.
use cubrid_client.Base.{◌≤◌, length, ℕ, ◌≡◌, refl, true, false, List, [], ◌∷◌, ◌++◌}
use cubrid_client.Stream.Steps.{
  drained, over, leaving, closed, start, StreamEvent, begins, offers, continues, finishes, takes,
  looks, closes, returns, cancels, fails, take_step, take_steps,
}
use cubrid_client.Stream.Order.{InOrder}
use cubrid_client.Stream.Failures.{close_returns, take_steps-failed}
use cubrid_client.Stream.Delivery.{
  IsAwaited, take_steps-InOrder, take_steps-IsAwaited, take_steps-delivered,
}

-- The consumer asks first and is woken; the second window is the last; then the stream closes.
abbrev opening : List (StreamEvent ℕ ℕ)
opening = takes ∷ begins ∷ []

abbrev whole_stream : List (StreamEvent ℕ ℕ)
whole_stream =
    takes
    ∷ begins
    ∷ offers 10 true 1
    ∷ looks
    ∷ takes
    ∷ continues
    ∷ offers 20 false 2
    ∷ looks
    ∷ finishes
    ∷ takes
    ∷ closes
    ∷ returns
    ∷ []

all_taken : (take_steps whole_stream (start 0)).delivered ≡ 10 ∷ 20 ∷ []
unfolding take_steps take_step
all_taken = refl

all_over :
    ((take_steps whole_stream (start 0)).producer ≡ over)
    × ((take_steps whole_stream (start 0)).consumer ≡ closed)
unfolding take_steps take_step
all_over = (refl, refl)

-- A cancellation while a window is held: the window is not taken, and the statement goes on.
abbrev cut_off : List (StreamEvent ℕ ℕ)
cut_off = begins ∷ offers 10 true 1 ∷ cancels 7 ∷ takes ∷ continues ∷ []

cut_short :
    ((take_steps cut_off (start 0)).producer ≡ drained)
    × ((take_steps cut_off (start 0)).consumer ≡ leaving)
unfolding take_steps take_step
cut_short = (refl, refl)

take_steps-InOrder_example : InOrder (take_steps whole_stream (start 0))
take_steps-InOrder_example = take_steps-InOrder 0 whole_stream

take_steps-IsAwaited_example : IsAwaited (take_steps whole_stream (start 0))
take_steps-IsAwaited_example = take_steps-IsAwaited 0 whole_stream

take_steps-delivered_example :
    (take_step looks (take_step (offers 10 true 1) (take_steps opening (start 0)))).delivered
    ≡ (take_steps opening (start 0)).delivered ++ (10 ∷ [])
unfolding take_steps take_step
take_steps-delivered_example = take_steps-delivered 0 opening 10 true 1 refl refl

-- A FETCH fails while the consumer waits.
abbrev broken_off : List (StreamEvent ℕ ℕ)
broken_off =
    takes
    ∷ begins
    ∷ offers 10 true 1
    ∷ looks
    ∷ takes
    ∷ continues
    ∷ fails 9
    ∷ looks
    ∷ closes
    ∷ returns
    ∷ []

told_failure : (take_steps broken_off (start 0)).seen ≡ 9 ∷ []
unfolding take_steps take_step
told_failure = refl

-- Up to the return of close.
abbrev breaking : List (StreamEvent ℕ ℕ)
breaking = takes ∷ begins ∷ offers 10 true 1 ∷ looks ∷ closes ∷ continues ∷ fails 9 ∷ []

take_steps-failed_example :
    ((take_step returns (take_steps breaking (start 0))).seen
      ≡ (take_steps breaking (start 0)).failed)
    × (length (take_steps breaking (start 0)).failed ≤ 1)
unfolding take_steps take_step
take_steps-failed_example = take_steps-failed 0 breaking returns refl (close_returns refl refl)
