-- ===== src/Transaction/Calls.antt =====
-- The calls of the connection that go with each phase and stage of a transaction.
use cubrid_client.Base.{
  ℕ, ◌≡◌, refl, Bool, true, false, List, [], ◌∷◌, inl, inr, Bool-cases, includes,
}
use cubrid_client.Transaction.{
  Phase, open_phase, completing, committed, rolled_back, failed, Ending, commit, rollback, Call,
  statement, end_tran, Stage, idle, settling, ending, undoing, settled, Tx, new_tx, is_empty, track,
  settle, complete_with, after_queries, all_settled, answered_at, Event, track_event, settle_event,
  expire_event, complete_event, finish_event, abort_event, all_settled_event, answered_event, step,
  run,
}

abbrev pub Statements : List Call → Type 0
Statements [] = Unit
Statements (statement q ∷ cs) = Statements cs
Statements (end_tran e ∷ cs) = ⊥

-- The calls that end the transaction, the last one first, behind the statements.
pub data Ended : List Call → List Ending → Type 0 where
  none_ended : {cs : List Call} → Statements cs → Ended cs []
  one_ended :
      {cs : List Call} {es : List Ending} (e : Ending)
      → Ended cs es
      → Ended (end_tran e ∷ cs) (e ∷ es)

-- What each phase and stage has called. A transaction is in no other combination.
pub data Shape : Phase → Stage → List Call → Type 0 where
  is_idle : {cs : List Call} → Ended cs [] → Shape open_phase idle cs
  is_settling : {cs : List Call} (e : Ending) → Ended cs [] → Shape completing (settling e) cs
  is_ending : {cs : List Call} (e : Ending) → Ended cs (e ∷ []) → Shape completing (ending e) cs
  is_skipped : {cs : List Call} → Ended cs (rollback ∷ []) → Shape failed undoing cs
  is_refused : {cs : List Call} → Ended cs (rollback ∷ commit ∷ []) → Shape failed undoing cs
  has_committed : {cs : List Call} → Ended cs (commit ∷ []) → Shape committed settled cs
  has_rolled_back : {cs : List Call} → Ended cs (rollback ∷ []) → Shape rolled_back settled cs
  has_failed : {cs : List Call} → Ended cs (rollback ∷ []) → Shape failed settled cs
  has_failed_commit : {cs : List Call} → Ended cs (rollback ∷ commit ∷ []) → Shape failed settled cs

abbrev pub HasShape : Tx → Type 0
HasShape t = Shape t.phase t.stage t.calls

Ended-statement : (q : ℕ) {cs : List Call} → Ended cs [] → Ended (statement q ∷ cs) []
Ended-statement q (none_ended h) = none_ended h

-- A new state of this phase and stage, and these calls.
module _ (t : Tx) where
  track-Shape :
      (q : ℕ) {p : Phase} {s : Stage} {cs : List Call}
      → t.phase ≡ p
      → t.stage ≡ s
      → t.calls ≡ cs
      → Shape p s cs
      → HasShape (track q t)
  unfolding track
  track-Shape q a b c (is_idle h) = rw (a, b, c) (is_idle (Ended-statement q h))
  track-Shape q a b c sh = rw (a, b, c) sh

  settle-Shape : (q : ℕ) (ok : Bool) → HasShape t → HasShape (settle q ok t)
  unfolding settle
  settle-Shape q ok h = elim (Bool-cases (includes q t.running)) [ inl e ↦ rw e h | inr e ↦ rw e h ]

  complete_with-Shape :
      (e : Ending) (rejected : Bool) {p : Phase} {s : Stage} {cs : List Call}
      → t.phase ≡ p
      → t.stage ≡ s
      → t.calls ≡ cs
      → Shape p s cs
      → HasShape (complete_with e rejected t)
  unfolding complete_with
  complete_with-Shape e rejected a b c (is_idle h) = rw (a, c) (is_settling e h)
  complete_with-Shape e rejected a b c sh = rw (a, b, c) sh

  after_queries-Shape :
      {p : Phase} {s : Stage} {cs : List Call}
      → t.phase ≡ p
      → t.stage ≡ s
      → t.calls ≡ cs
      → Shape p s cs
      → HasShape (after_queries s t)
  unfolding after_queries
  after_queries-Shape a b c (is_settling commit h) = elim (Bool-cases t.any_rejected) [
    | inl e ↦ rw (e, c) (is_skipped (one_ended rollback h))
    | inr e ↦ rw (e, a, c) (is_ending commit (one_ended commit h))
  ]
  after_queries-Shape a b c (is_settling rollback h) =
      rw (a, c) (is_ending rollback (one_ended rollback h))
  after_queries-Shape a b c sh = rw (a, b, c) sh

  all_settled-Shape : HasShape t → HasShape (all_settled t)
  unfolding all_settled
  all_settled-Shape h = elim (Bool-cases (is_empty t.waiting)) [
    | inl e ↦ rw e (after_queries-Shape refl refl refl h)
    | inr e ↦ rw e h
  ]

  answered-Shape :
      (ok : Bool) {p : Phase} {s : Stage} {cs : List Call}
      → t.phase ≡ p
      → t.stage ≡ s
      → t.calls ≡ cs
      → Shape p s cs
      → HasShape (answered_at s ok t)
  unfolding answered_at
  answered-Shape true a b c (is_ending commit h) = rw c (has_committed h)
  answered-Shape false a b c (is_ending commit h) = rw c (is_refused (one_ended rollback h))
  answered-Shape true a b c (is_ending rollback h) = rw c (has_rolled_back h)
  answered-Shape false a b c (is_ending rollback h) = rw c (has_failed h)
  answered-Shape ok a b c (is_skipped h) = rw (a, c) (has_failed h)
  answered-Shape ok a b c (is_refused h) = rw (a, c) (has_failed_commit h)
  answered-Shape ok a b c sh = rw (a, b, c) sh

  step-Shape : (e : Event) → HasShape t → HasShape (step e t)
  unfolding step
  step-Shape (track_event q) h = track-Shape q refl refl refl h
  step-Shape (settle_event q ok) h = settle-Shape q ok h
  step-Shape (expire_event q) h = h
  step-Shape (complete_event e) h = complete_with-Shape e false refl refl refl h
  step-Shape finish_event h = complete_with-Shape commit _ refl refl refl h
  step-Shape abort_event h = complete_with-Shape rollback false refl refl refl h
  step-Shape all_settled_event h = all_settled-Shape h
  step-Shape (answered_event ok) h = answered-Shape ok refl refl refl h

run-Shape : (es : List Event) (t : Tx) → HasShape t → HasShape (run es t)
unfolding run
run-Shape [] t h = h
run-Shape (e ∷ es) t h = run-Shape es (step e t) (step-Shape t e h)

-- After any events from a new transaction, its phase, its stage and its calls of the connection are
-- one of the combinations of `Shape`: the statements come first, and behind them is no call, a
-- commit, a rollback, or a commit and then a rollback; `committed` is a commit alone, `rolled_back` a
-- rollback alone.
pub run_shape : (es : List Event) → HasShape (run es new_tx)
run_shape es = run-Shape es new_tx (is_idle (none_ended tt))
