-- ===== src/Supervised/Touching.antt =====
-- supervised/execution.go, delivery.go and record.go: the sections around callbacks and adapters keep
-- a Supervisor in order.
use statemachine.Prelude.{
  ℕ, ◌+◌, ◌-◌, ◌==◌, ◌≡◌, ◌≢◌, refl, sym, subst, Bool, true, false, ◌&&◌, inl, inr, Option, none,
  some, if◌then◌else◌, Bool-cases, Option-cases, arith,
}
use statemachine.Errors.{Error, leaf, supervision, delivery_busy}
use statemachine.Keys.Defs.{Key}
use statemachine.Supervised.Types.{
  Phase, Mode, mode_stopped, mode_ready, mode_executing, mode_awaiting, mode_faulted, Operation,
  Supervisor,
}
use statemachine.Supervised.Machine.{Machine}
use statemachine.Supervised.Sections.{same_mode, owns, runs, callback_returned}
use statemachine.Supervised.Outcomes.{enter_callback, abandon, prepare}
use statemachine.Supervised.Delivery.{lease, begin_delivery, end_delivery}
use statemachine.Supervised.Runs.{
  Stage, starting, choosing, issuing, verifying, ended, failing, adjudicating, Call, External,
  choose,
}
use statemachine.Supervised.Sound.{Held, Idle, AtStage, AtMode, Runs, Sound}
use statemachine.Supervised.Settling.{works, runs-owns, prepared-Sound}
use statemachine.Supervised.Framing.{frame, frame-Sound}

executing_mode : (mode : Mode) → same_mode mode mode_executing ≡ true → mode ≡ mode_executing
executing_mode mode h = ground (arith, h)

module _ {S E C T W : Type 0} ⦃ks : Key S⦄ ⦃ke : Key E⦄ (m : Machine S E C T W) where
  -- What the callbacks of an operation change in it.
  abbrev touched : Operation S E → ℕ → Bool → Operation S E
  touched o n b = record o { callbacks = n; abandoned = b }

  abbrev with_operation : Supervisor S E → Option (Operation S E) → Supervisor S E
  with_operation s op = record s { operation = op }

  touch-AtStage :
      (s : Supervisor S E) (o : Operation S E) (n : ℕ) (b : Bool) (c : Call S E) (stage : Stage S E)
      → AtStage m (with_operation s (some o)) o c stage
      → AtStage m (with_operation s (some (touched o n b))) (touched o n b) c stage
  touch-AtStage s o n b c starting h = h
  touch-AtStage s o n b c choosing h = h
  touch-AtStage s o n b c issuing h = h
  touch-AtStage s o n b c verifying h = h
  touch-AtStage s o n b c ended h = h
  touch-AtStage s o n b c (failing true) h = h
  touch-AtStage s o n b c (failing false) h = h
  touch-AtStage s o n b c (adjudicating target original decision) h = h

  touch-AtMode :
      (s : Supervisor S E) (o : Operation S E) (n : ℕ) (b : Bool) (call : Option (Call S E))
      (mode : Mode)
      → AtMode m (with_operation s (some o)) call mode
      → AtMode m (with_operation s (some (touched o n b))) call mode
  touch-AtMode s o n b none mode_executing h = h
  touch-AtMode s o n b (some c) mode_executing (u, h) = (u, touch-AtStage s o n b c c.stage h)
  touch-AtMode s o n b none mode_stopped h = h
  touch-AtMode s o n b none mode_ready h = h
  touch-AtMode s o n b none mode_awaiting h = h
  touch-AtMode s o n b none mode_faulted h = h
  touch-AtMode s o n b (some c) mode_stopped h = h
  touch-AtMode s o n b (some c) mode_ready h = h
  touch-AtMode s o n b (some c) mode_awaiting h = h
  touch-AtMode s o n b (some c) mode_faulted h = h

  touch-Held :
      (o : Operation S E) (n : ℕ) (b : Bool) (call : Option (Call S E))
      → Held (some o) call
      → Held (some (touched o n b)) call
  touch-Held o n b none h = h
  touch-Held o n b (some c) h = h

  touch-Sound :
      (s : Supervisor S E) (o : Operation S E) (n : ℕ) (b : Bool) (call : Option (Call S E))
      → s.operation ≡ some o
      → Sound m s call
      → Sound m (with_operation s (some (touched o n b))) call
  unfolding Sound
  touch-Sound s o n b call e (inc, held, at) = (
    inc,
    touch-Held o n b call (subst (λ x. Held x call) e held),
    touch-AtMode s o n b call s.mode (subst (λ x. AtMode m (with_operation s x) call s.mode) e at),
  )

  -- The end of a callback, which lets go of an operation that returned.
  let_go :
      (s : Supervisor S E) (o : Operation S E) (call : Option (Call S E)) (mode : Mode)
      → s.operation ≡ some o
      → o.returned ≡ true
      → Held (some o) call
      → AtMode m (with_operation s (some o)) call mode
      → Held none call × AtMode m (with_operation s none) call mode
  let_go s o (some c) mode e r held at = absurd (ground (arith, held, r))
  let_go s o none mode_stopped e r held (p, f, i, idle) = (refl, (p, f, refl, refl))
  let_go s o none mode_ready e r held (p, f, i, idle) = (refl, (p, f, refl, refl))
  let_go s o none mode_awaiting e r held at = (refl, at)
  let_go s o none mode_faulted e r held at = (refl, at)
  let_go s o none mode_executing e r held at = (refl, at)

  pub callback_returned-Sound :
      (s : Supervisor S E) (call : Option (Call S E)) (id : ℕ)
      → Sound m s call
      → Sound m (callback_returned s id) call
  unfolding callback_returned Sound
  callback_returned-Sound s call id h = elim (Option-cases s.operation) [
    | inl absent ↦ rw absent (subst (λ x. Sound m (with_operation s x) call) absent h)
    | inr (o, there) ↦ elim (Bool-cases (o.id == id)) [
      | inr other ↦ rw (there, other) (subst (λ x. Sound m (with_operation s x) call) there h)
      | inl same ↦ elim (Bool-cases (o.returned && (o.callbacks - 1 == 0))) [
        | inl last ↦
            let gone =
              let_go s o call s.mode there (ground (arith, last))
                (subst (λ x. Held x call) there h.1)
                (subst (λ x. AtMode m (with_operation s x) call s.mode) there h.2) in
            rw (there, same, last) (h.0, gone.0, gone.1)
        | inr more ↦
            rw (there, same, more) (touch-Sound s o (o.callbacks - 1) o.abandoned call there h)
      ]
    ]
  ]

  pub abandon-Sound :
      (s : Supervisor S E) (call : Option (Call S E)) (id : ℕ)
      → Sound m s call
      → Sound m (abandon s id) call
  unfolding abandon
  abandon-Sound s call id h = elim (Option-cases s.operation) [
    | inl absent ↦ rw absent (subst (λ x. Sound m (with_operation s x) call) absent h)
    | inr (o, there) ↦ elim (Bool-cases (o.id == id)) [
      | inr other ↦ rw (there, other) (subst (λ x. Sound m (with_operation s x) call) there h)
      | inl same ↦ rw (there, same) (touch-Sound s o o.callbacks true call there h)
    ]
  ]

  lease-Sound :
      (s : Supervisor S E) (call : Option (Call S E)) (op : Option ℕ)
      → Sound m s call
      → Sound m (lease s op) call
  unfolding lease
  lease-Sound s call none h = h
  lease-Sound s call (some id) h = elim (Option-cases s.operation) [
    | inl absent ↦ rw absent (subst (λ x. Sound m (with_operation s x) call) absent h)
    | inr (o, there) ↦ elim (Bool-cases (o.id == id)) [
      | inr other ↦ rw (there, other) (subst (λ x. Sound m (with_operation s x) call) there h)
      | inl same ↦ rw (there, same) (touch-Sound s o (o.callbacks + 1) o.abandoned call there h)
    ]
  ]

  flags-Sound :
      (s : Supervisor S E) (call : Option (Call S E)) (recorder journal : Bool)
      → Sound m s call
      → Sound m (record s { recorder_running = recorder; journal_running = journal }) call
  flags-Sound s call recorder journal h =
      frame-Sound m s (record (frame s) { recorder_running = recorder; journal_running = journal })
        call h

  either-Sound :
      (b : Bool) (call : Option (Call S E)) (p q : Supervisor S E × Option Error)
      → Sound m p.0 call
      → Sound m q.0 call
      → Sound m (if b then p else q).0 call
  either-Sound true call p q h k = h
  either-Sound false call p q h k = k

  pub begin_delivery-Sound :
      (s : Supervisor S E) (call : Option (Call S E)) (op : Option ℕ) (journal : Bool)
      → Sound m s call
      → Sound m (begin_delivery s op journal).0 call
  unfolding begin_delivery
  begin_delivery-Sound s call op true h =
      either-Sound s.journal_running call (s, some (leaf (supervision delivery_busy)))
        (record (lease s op) { journal_running = true }, none) h
        (flags-Sound (lease s op) call (lease s op).recorder_running true (lease-Sound s call op h))
  begin_delivery-Sound s call op false h =
      either-Sound s.recorder_running call (s, some (leaf (supervision delivery_busy)))
        (record (lease s op) { recorder_running = true }, none) h
        (flags-Sound (lease s op) call true (lease s op).journal_running (lease-Sound s call op h))

  pub end_delivery-Sound :
      (s : Supervisor S E) (call : Option (Call S E)) (op : Option ℕ) (journal : Bool)
      → Sound m s call
      → Sound m (end_delivery s op journal) call
  unfolding end_delivery
  end_delivery-Sound s call none true h = flags-Sound s call s.recorder_running false h
  end_delivery-Sound s call none false h = flags-Sound s call false s.journal_running h
  end_delivery-Sound s call (some id) true h =
      flags-Sound (callback_returned s id) call (callback_returned s id).recorder_running false
        (callback_returned-Sound s call id h)
  end_delivery-Sound s call (some id) false h =
      flags-Sound (callback_returned s id) call false (callback_returned s id).journal_running
        (callback_returned-Sound s call id h)

  -- The change that a callback is called with becomes the operation's.
  enter-AtStage :
      (s : Supervisor S E) (o : Operation S E) (phase : Phase) (c : Call S E) (stage : Stage S E)
      → let o' : Operation S E = record o {
        change = c.change;
        phase = phase;
        callbacks = o.callbacks + 1;
      } in
        AtStage m s o c stage → AtStage m (with_operation s (some o')) o' c stage
  enter-AtStage s o phase c starting h = h
  enter-AtStage s o phase c choosing h = h
  enter-AtStage s o phase c issuing (p, f, d, k) = (p, f, k, k)
  enter-AtStage s o phase c verifying (p, f, i, d, k) = (p, f, i, k, k)
  enter-AtStage s o phase c ended h = h
  enter-AtStage s o phase c (failing true) (p, f, i, d, k) = (p, f, i, k, k)
  enter-AtStage s o phase c (failing false) h = h
  enter-AtStage s o phase c (adjudicating target original decision) h = h

  -- A call that runs is at its stage.
  runs-stage :
      (s : Supervisor S E) (c : Call S E)
      → runs s c.id ≡ true
      → Sound m s (some c)
      → c.stage ≢ ended
  unfolding runs owns Sound
  runs-stage s c run (inc, held, at) e = elim (Option-cases s.operation) [
    | inl absent ↦ ground (arith, run, absent)
    | inr (o, there) ↦
        let mode : s.mode ≡ mode_executing = executing_mode s.mode (ground (arith, run)) in
        let (u, stage) =
          subst (λ x. Runs m s x (some c)) there (subst (λ x. AtMode m s (some c) x) mode at) in
        ground (arith, subst (λ x. AtStage m s o c x) e stage)
  ]

  pub enter_callback-Sound :
      (s : Supervisor S E) (c : Call S E) (phase : Phase)
      → Sound m s (some c)
      → Sound m (enter_callback s c.id c.change phase).0 (some c)
  unfolding enter_callback Sound
  enter_callback-Sound s c phase h = elim (Bool-cases (runs s c.id)) [
    | inr away ↦ rw away h
    | inl run ↦
        let (o, eo, mode, same, unreturned, unrevoked, stage) =
          works m s c (runs-owns s c.id run) (runs-stage s c run h) h in
        rw (run, mode, eo)
          (h.0, (same, unreturned), (unrevoked, enter-AtStage s o phase c c.stage stage))
  ]

  pub prepare-Sound :
      (s : Supervisor S E) (c : Call S E) (now : ℕ)
      → c.stage ≡ choosing
      → External m c.change
      → Sound m s (some c)
      → Sound m (prepare s c.id c.change now).0 (some (record c { stage = issuing }))
  unfolding prepare Sound
  prepare-Sound s c now e x h = elim (Bool-cases (runs s c.id)) [
    | inr away ↦ rw away (prepared-Sound m s c e away h)
    | inl run ↦
        let (o, eo, mode, same, unreturned, unrevoked, stage) =
          works m s c (runs-owns s c.id run) (runs-stage s c run h) h in
        let ((p, f, i), k) = subst (λ x. AtStage m s o c x) e stage in
        rw (run, mode, eo) (h.0, (same, unreturned), (unrevoked, (p, f, (k, x), (k, x))))
  ]

  choose-Held :
      (op : Option (Operation S E)) (c : Call S E) (id : ℕ) (to : S)
      → Held op (some c)
      → Held op (some (choose c id to))
  choose-Held none c id to h = h
  choose-Held (some o) c id to h = h

  choose-Idle :
      (op : Option (Operation S E)) (c : Call S E) (id : ℕ) (to : S)
      → Idle op (some c)
      → Idle op (some (choose c id to))
  choose-Idle none c id to h = h
  choose-Idle (some o) c id to h = h

  choose-AtStage :
      (s : Supervisor S E) (o : Operation S E) (c : Call S E) (id : ℕ) (to : S) (stage : Stage S E)
      → stage ≡ choosing
      → AtStage m s o c stage
      → AtStage m s o (choose c id to) stage
  choose-AtStage s o c id to stage e h =
      subst (λ x. AtStage m s o (choose c id to) x) (sym e) (subst (λ x. AtStage m s o c x) e h)

  choose-AtMode :
      (s : Supervisor S E) (c : Call S E) (id : ℕ) (to : S) (mode : Mode)
      → c.stage ≡ choosing
      → AtMode m s (some c) mode
      → AtMode m s (some (choose c id to)) mode
  choose-AtMode s c id to mode_stopped e (p, f, i, idle) =
      (p, f, i, choose-Idle s.operation c id to idle)
  choose-AtMode s c id to mode_ready e (p, f, i, idle) =
      (p, f, i, choose-Idle s.operation c id to idle)
  choose-AtMode s c id to mode_awaiting e (p, f, idle) =
      (p, f, choose-Idle s.operation c id to idle)
  choose-AtMode s c id to mode_faulted e (p, b, idle) = (p, b, choose-Idle s.operation c id to idle)
  choose-AtMode s c id to mode_executing e h = elim (Option-cases s.operation) [
    | inl absent ↦ absurd (ground (arith, absent, h))
    | inr (o, there) ↦
        let (u, stage) = subst (λ x. Runs m s x (some c)) there h in
        subst (λ x. Runs m s x (some (choose c id to))) (sym there)
          (u, choose-AtStage s o c id to c.stage e stage)
  ]

  pub choose-Sound :
      (s : Supervisor S E) (c : Call S E) (id : ℕ) (to : S)
      → c.stage ≡ choosing
      → Sound m s (some c)
      → Sound m s (some (choose c id to))
  unfolding Sound
  choose-Sound s c id to e (inc, held, at) =
      (inc, choose-Held s.operation c id to held, choose-AtMode s c id to s.mode e at)
