-- ===== src/Transaction/Commit.antt =====
-- Transactions with a rejected query that was not awaited.
use cubrid_client.Base.{
  ℕ, ◌≡◌, refl, Bool, true, false, not, ◌&&◌, ◌||◌, List, [], ◌∷◌, inl, inr, Bool-cases, includes,
}
use cubrid_client.Transaction.{
  Phase, open_phase, completing, failed, Ending, commit, rollback, Call, statement, end_tran, Stage,
  settling, ending, undoing, settled, Tx, new_tx, is_open, is_empty, track, settle, complete_with,
  finish, after_queries, answered_at, Event, track_event, settle_event, expire_event,
  complete_event, finish_event, abort_event, all_settled_event, answered_event, step, run,
}
use cubrid_client.Transaction.Calls.{
  Statements, Ended, none_ended, Shape, HasShape, is_idle, is_settling, is_ending, is_skipped,
  is_refused, has_committed, has_rolled_back, has_failed, has_failed_commit, run_shape,
}

abbrev pub NoCommit : List Call → Type 0
NoCommit [] = Unit
NoCommit (end_tran commit ∷ cs) = ⊥
NoCommit (c ∷ cs) = NoCommit cs

-- A completion has begun, one of the queries that it awaits was rejected, and no commit was called.
pub data Doomed : Phase → Stage → Bool → List Call → Type 0 where
  at_queries : {cs : List Call} (e : Ending) → NoCommit cs → Doomed completing (settling e) true cs
  at_rollback : {cs : List Call} {b : Bool} → NoCommit cs → Doomed completing (ending rollback) b cs
  at_undoing : {cs : List Call} {b : Bool} → NoCommit cs → Doomed failed undoing b cs
  at_end :
      {cs : List Call} {b : Bool} {p : Phase}
      → is_open p ≡ false
      → NoCommit cs
      → Doomed p settled b cs

abbrev pub IsDoomed : Tx → Type 0
IsDoomed t = Doomed t.phase t.stage t.any_rejected t.calls

module _ (t : Tx) where
  track-Doomed :
      (q : ℕ) {p : Phase} {s : Stage} {b : Bool} {cs : List Call}
      → t.phase ≡ p
      → t.stage ≡ s
      → t.any_rejected ≡ b
      → t.calls ≡ cs
      → Doomed p s b cs
      → IsDoomed (track q t)
  unfolding track
  track-Doomed q a b c d (at_queries e h) = rw (a, b, c, d) (at_queries e h)
  track-Doomed q a b c d (at_rollback h) = rw (a, b, c, d) (at_rollback h)
  track-Doomed q a b c d (at_undoing h) = rw (a, b, c, d) (at_undoing h)
  track-Doomed q a b c d (at_end shut h) = rw (a, shut, b, c, d) (at_end shut h)

  complete_with-Doomed :
      (e : Ending) (rejected : Bool) {p : Phase} {s : Stage} {b : Bool} {cs : List Call}
      → t.phase ≡ p
      → t.stage ≡ s
      → t.any_rejected ≡ b
      → t.calls ≡ cs
      → Doomed p s b cs
      → IsDoomed (complete_with e rejected t)
  unfolding complete_with
  complete_with-Doomed e rejected a b c d (at_queries e' h) = rw (a, b, c, d) (at_queries e' h)
  complete_with-Doomed e rejected a b c d (at_rollback h) = rw (a, b, c, d) (at_rollback h)
  complete_with-Doomed e rejected a b c d (at_undoing h) = rw (a, b, c, d) (at_undoing h)
  complete_with-Doomed e rejected a b c d (at_end shut h) = rw (a, shut, b, c, d) (at_end shut h)

  settle-Doomed :
      (q : ℕ) (ok : Bool) {p : Phase} {s : Stage} {b : Bool} {cs : List Call}
      → t.phase ≡ p
      → t.stage ≡ s
      → t.any_rejected ≡ b
      → t.calls ≡ cs
      → Doomed p s b cs
      → IsDoomed (settle q ok t)
  unfolding settle
  settle-Doomed q ok a b c d h = elim (Bool-cases (includes q t.running)) [
    | inl e ↦ rw (e, a, b, c, d) (keep (includes q t.waiting && not ok) h)
    | inr e ↦ rw (e, a, b, c, d) h
  ]
    where
      keep :
          (x : Bool) {p : Phase} {s : Stage} {b : Bool} {cs : List Call}
          → Doomed p s b cs
          → Doomed p s (b || x) cs
      keep x (at_queries e h) = at_queries e h
      keep x (at_rollback h) = at_rollback h
      keep x (at_undoing h) = at_undoing h
      keep x (at_end shut h) = at_end shut h

  after_queries-Doomed :
      {p : Phase} {s : Stage} {b : Bool} {cs : List Call}
      → t.phase ≡ p
      → t.stage ≡ s
      → t.any_rejected ≡ b
      → t.calls ≡ cs
      → Doomed p s b cs
      → IsDoomed (after_queries s t)
  unfolding after_queries
  after_queries-Doomed a b c d (at_queries commit h) = rw (c, d) (at_undoing h)
  after_queries-Doomed a b c d (at_queries rollback h) = rw (a, d) (at_rollback h)
  after_queries-Doomed a b c d (at_rollback h) = rw (a, b, c, d) (at_rollback h)
  after_queries-Doomed a b c d (at_undoing h) = rw (a, b, c, d) (at_undoing h)
  after_queries-Doomed a b c d (at_end shut h) = rw (a, b, c, d) (at_end shut h)

  answered-Doomed :
      (ok : Bool) {p : Phase} {s : Stage} {b : Bool} {cs : List Call}
      → t.phase ≡ p
      → t.stage ≡ s
      → t.any_rejected ≡ b
      → t.calls ≡ cs
      → Doomed p s b cs
      → IsDoomed (answered_at s ok t)
  unfolding answered_at
  answered-Doomed ok a b c d (at_queries e h) = rw (a, b, c, d) (at_queries e h)
  answered-Doomed true a b c d (at_rollback h) = rw (c, d) (at_end refl h)
  answered-Doomed false a b c d (at_rollback h) = rw (c, d) (at_end refl h)
  answered-Doomed ok a b c d (at_undoing h) = rw (a, c, d) (at_end refl h)
  answered-Doomed ok a b c d (at_end shut h) = rw (a, b, c, d) (at_end shut h)

  step-Doomed : (e : Event) → IsDoomed t → IsDoomed (step e t)
  unfolding step
  step-Doomed (track_event q) h = track-Doomed q refl refl refl refl h
  step-Doomed (settle_event q ok) h = settle-Doomed q ok refl refl refl refl h
  step-Doomed (expire_event q) h = h
  step-Doomed (complete_event e) h = complete_with-Doomed e false refl refl refl refl h
  step-Doomed finish_event h = complete_with-Doomed commit _ refl refl refl refl h
  step-Doomed abort_event h = complete_with-Doomed rollback false refl refl refl refl h
  step-Doomed all_settled_event h = elim (Bool-cases (is_empty t.waiting)) [
    | inl e ↦ rw e (after_queries-Doomed refl refl refl refl h)
    | inr e ↦ rw e h
  ]
  step-Doomed (answered_event ok) h = answered-Doomed ok refl refl refl refl h

run-Doomed : (es : List Event) (t : Tx) → IsDoomed t → IsDoomed (run es t)
unfolding run
run-Doomed [] t h = h
run-Doomed (e ∷ es) t h = run-Doomed es (step e t) (step-Doomed t e h)

Doomed-NoCommit :
    {p : Phase} {s : Stage} {b : Bool} {cs : List Call} → Doomed p s b cs → NoCommit cs
Doomed-NoCommit (at_queries e h) = h
Doomed-NoCommit (at_rollback h) = h
Doomed-NoCommit (at_undoing h) = h
Doomed-NoCommit (at_end shut h) = h

Statements-NoCommit : (cs : List Call) → Statements cs → NoCommit cs
Statements-NoCommit [] h = tt
Statements-NoCommit (statement q ∷ cs) h = Statements-NoCommit cs h
Statements-NoCommit (end_tran e ∷ cs) h = absurd h

Ended-NoCommit : {cs : List Call} → Ended cs [] → NoCommit cs
Ended-NoCommit {cs} (none_ended h) = Statements-NoCommit cs h

-- While a completion awaits its queries, nothing but statements has been called.
settling-NoCommit :
    (t : Tx) (e : Ending)
    → HasShape t
    → t.stage ≡ settling e
    → (t.phase ≡ completing) × NoCommit t.calls
settling-NoCommit t e h = go refl refl refl h
  where
    go :
        {p : Phase} {s : Stage} {cs : List Call}
        → t.phase ≡ p
        → t.stage ≡ s
        → t.calls ≡ cs
        → Shape p s cs
        → t.stage ≡ settling e
        → (t.phase ≡ completing) × NoCommit t.calls
    go a b c (is_settling e' k) q = (a, rw c (Ended-NoCommit k))
    go a b c (is_idle k) q = absurd (cc)
    go a b c (is_ending e' k) q = absurd (cc)
    go a b c (is_skipped k) q = absurd (cc)
    go a b c (is_refused k) q = absurd (cc)
    go a b c (has_committed k) q = absurd (cc)
    go a b c (has_rolled_back k) q = absurd (cc)
    go a b c (has_failed k) q = absurd (cc)
    go a b c (has_failed_commit k) q = absurd (cc)

open-NoCommit : (t : Tx) → HasShape t → t.phase ≡ open_phase → NoCommit t.calls
open-NoCommit t h = go refl refl h
  where
    go :
        {p : Phase} {s : Stage} {cs : List Call}
        → t.phase ≡ p
        → t.calls ≡ cs
        → Shape p s cs
        → t.phase ≡ open_phase
        → NoCommit t.calls
    go a c (is_idle k) q = rw c (Ended-NoCommit k)
    go a c (is_settling e' k) q = absurd (cc)
    go a c (is_ending e' k) q = absurd (cc)
    go a c (is_skipped k) q = absurd (cc)
    go a c (is_refused k) q = absurd (cc)
    go a c (has_committed k) q = absurd (cc)
    go a c (has_rolled_back k) q = absurd (cc)
    go a c (has_failed k) q = absurd (cc)
    go a c (has_failed_commit k) q = absurd (cc)

or_true : (b : Bool) → (b || true) ≡ true
or_true true = refl
or_true false = refl

-- After any events from a new transaction: if a completion is awaiting the running queries and one
-- of those that it awaits is now rejected, no COMMIT is among the calls of the connection, whatever
-- events follow.
pub rejected_query-NoCommit :
    (before later : List Event) (e : Ending) (q : ℕ)
    → (run before new_tx).stage ≡ settling e
    → includes q (run before new_tx).running ≡ true
    → includes q (run before new_tx).waiting ≡ true
    → NoCommit (run later (settle q false (run before new_tx))).calls
unfolding settle
rejected_query-NoCommit before later e q stage running waiting =
    let t = run before new_tx in
    let (phase, clean) = settling-NoCommit t e (run_shape before) stage in
    Doomed-NoCommit (
      run-Doomed later (settle q false t)
        (rw (running, waiting, or_true t.any_rejected, phase, stage) (at_queries e clean)))

-- After any events from a new transaction: if it is still open, and the callback resolves while a
-- rejected query is visible as just rejected, no COMMIT is among the calls of the connection,
-- whatever events follow.
pub just_rejected-NoCommit :
    (before later : List Event)
    → (run before new_tx).phase ≡ open_phase
    → is_empty (run before new_tx).just_rejected ≡ false
    → NoCommit (run later (finish (run before new_tx))).calls
unfolding finish
just_rejected-NoCommit before later phase visible =
    let t = run before new_tx in
    Doomed-NoCommit (
      run-Doomed later (finish t)
        (rw (phase, visible) (at_queries commit (open-NoCommit t (run_shape before) phase))))
