-- ===== src/Supervised/Invariant.antt =====
-- supervised/execution.go: every interleaving of sections keeps a Supervisor in order.
use statemachine.Prelude.{true, false, some, inl, inr}
use statemachine.Keys.Defs.{Key}
use statemachine.Supervised.Machine.{Machine}
use statemachine.Supervised.Runs.{
  Run, Step, starts, issues, verifies, adjudicates, chooses, enters, abandons, prepares, awaits,
  finishes_start, finishes_choice, commits_choice, commits_verified, latches, restores, resolves,
  returns, trips, rings, callback_ends, reports, stamps, records_result, deliveries, delivered,
  Reach, here, after,
}
use statemachine.Supervised.Sound.{Sound}
use statemachine.Supervised.Settling.{stamp-Sound, finish_ready-start, finish_ready-choice}
use statemachine.Supervised.Latching.{latch_result-Sound}
use statemachine.Supervised.Closing.{
  commit-Sound, await_verification-Sound, restore_fault-Sound, resolve-Sound,
  operation_returned-Sound,
}
use statemachine.Supervised.Admitting.{
  admit_start-Sound, admit_issue-Sound, admit_verify-Sound, admit_adjudicate-Sound,
}
use statemachine.Supervised.Framing.{reporting_returned-Sound, record_result-Sound}
use statemachine.Supervised.Touching.{
  callback_returned-Sound, abandon-Sound, begin_delivery-Sound, end_delivery-Sound,
  enter_callback-Sound, prepare-Sound, choose-Sound,
}
use statemachine.Supervised.Tripping.{trip-Sound, verification_expired-Sound}

module _ {S E C T W : Type 0} ⦃ks : Key S⦄ ⦃ke : Key E⦄ (m : Machine S E C T W) (z : E) where
  pub Step-Sound :
      (r q : Run S E) → Step m z r q → Sound m r.supervisor r.call → Sound m q.supervisor q.call
  Step-Sound _ _ (starts r now) h = admit_start-Sound m r.supervisor r.call z now h
  Step-Sound _ _ (issues r event now) h =
      admit_issue-Sound m r.supervisor r.call m.events z event now h
  Step-Sound _ _ (verifies r attempt now) h =
      admit_verify-Sound m r.supervisor r.call z attempt now h
  Step-Sound _ _ (adjudicates r decision phase now) h =
      admit_adjudicate-Sound m r.supervisor r.call z decision phase now h
  Step-Sound _ _ (chooses s c id to e) h = choose-Sound m s c id to e h
  Step-Sound _ _ (enters s c phase) h = enter_callback-Sound m s c phase h
  Step-Sound _ _ (abandons s c) h = abandon-Sound m s (some c) c.id h
  Step-Sound _ _ (prepares s c now e x) h = prepare-Sound m s c now e x h
  Step-Sound _ _ (awaits s c transition base now e) h =
      await_verification-Sound m s c transition base now e h
  Step-Sound _ _ (finishes_start s c base now e) h = finish_ready-start m s c base now e h
  Step-Sound _ _ (finishes_choice s c base now e) h = finish_ready-choice m s c base now e h
  Step-Sound _ _ (commits_choice s c base now e) h =
      commit-Sound m s c base false false now (inl e) h
  Step-Sound _ _ (commits_verified s c base now e) h =
      commit-Sound m s c base true true now (inr e) h
  Step-Sound _ _ (latches s c base phase cause uncertain now l) h =
      latch_result-Sound m s c base phase cause uncertain now l h
  Step-Sound _ _ (restores s c base now target original decision e) h =
      restore_fault-Sound m s c base now target original decision e h
  Step-Sound _ _ (resolves s c base phase now target original decision e) h =
      resolve-Sound m s c base phase now target original decision e h
  Step-Sound _ _ (returns s c e) h = operation_returned-Sound m s c e h
  Step-Sound _ _ (trips r reason now) h = trip-Sound m r.supervisor r.call z reason now h
  Step-Sound _ _ (rings r attempt version now) h =
      verification_expired-Sound m r.supervisor r.call attempt version now h
  Step-Sound _ _ (callback_ends r id) h = callback_returned-Sound m r.supervisor r.call id h
  Step-Sound _ _ (reports r) h = reporting_returned-Sound m r.supervisor r.call h
  Step-Sound _ _ (stamps r now) h = stamp-Sound m r.supervisor r.call now h
  Step-Sound _ _ (records_result r kind result now) h =
      record_result-Sound m r.supervisor r.call kind result now h
  Step-Sound _ _ (deliveries r op journal) h =
      begin_delivery-Sound m r.supervisor r.call op journal h
  Step-Sound _ _ (delivered r op journal) h = end_delivery-Sound m r.supervisor r.call op journal h

  -- Whatever sections of Start, Issue, Verify, Trip, Recover and Adjudicate, of the timer, the
  -- callbacks and the adapters come in whatever order, a Supervisor in order stays so: a pending change
  -- is there only while it awaits its verification or is verified, and starts from the state and
  -- the revision that the Supervisor holds; a fault is there only while the Supervisor is faulted or
  -- adjudicates that very fault; and it executes only for one call, which still owns its
  -- operation.
  pub Reach-Sound :
      (r q : Run S E) → Reach m z r q → Sound m r.supervisor r.call → Sound m q.supervisor q.call
  Reach-Sound _ _ (here r) h = h
  Reach-Sound _ _ (after r q t path step) h = Step-Sound q t step (Reach-Sound r q path h)
