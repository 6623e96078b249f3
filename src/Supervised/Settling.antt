-- ===== src/Supervised/Settling.antt =====
-- supervised/execution.go: the sections of the call under way keep a Supervisor in order.
use statemachine.Prelude.{
  ℕ, ◌≡◌, ◌≢◌, refl, sym, subst, true, false, ◌⊎◌, inl, inr, Option, none, some, Bool-cases,
  Option-cases, arith,
}
use statemachine.Keys.Defs.{Key}
use statemachine.Supervised.Types.{
  Mode, mode_stopped, mode_ready, mode_executing, mode_awaiting, mode_faulted, Operation,
  Supervisor, Result,
}
use statemachine.Supervised.Machine.{Machine}
use statemachine.Supervised.Sections.{stamp, owns, runs}
use statemachine.Supervised.Outcomes.{finish_ready, slipped}
use statemachine.Supervised.Runs.{starting, choosing, issuing, ended, Call, end}
use statemachine.Supervised.Sound.{Begun, Held, Idle, AtStage, AtMode, Runs, Sound}

module _ {S E : Type 0} where
  pub owns-runs : (s : Supervisor S E) (id : ℕ) → owns s id ≡ false → runs s id ≡ false
  unfolding runs
  owns-runs s id h = ground (arith, h)

  pub runs-owns : (s : Supervisor S E) (id : ℕ) → runs s id ≡ true → owns s id ≡ true
  unfolding runs
  runs-owns s id h = ground (arith, h)

  runs-true :
      (s : Supervisor S E) (c : Call S E) (o : Operation S E)
      → s.operation ≡ some o
      → s.mode ≡ mode_executing
      → o.id ≡ c.id
      → o.revoked ≡ false
      → runs s c.id ≡ true
  unfolding runs owns
  runs-true s c o e mode same unrevoked = rw (e, mode) (ground (arith, same, unrevoked))

  pub end-Held :
      (op : Option (Operation S E)) (c : Call S E) → Held op (some c) → Held op (some (end c))
  end-Held none c h = h
  end-Held (some o) c h = h

  prepared-Idle :
      (op : Option (Operation S E)) (c : Call S E)
      → c.stage ≡ choosing
      → Idle op (some c)
      → Idle op (some (record c { stage = issuing }))
  prepared-Idle none c e h = h
  prepared-Idle (some o) c e h = ground (arith, e, h)

  prepared-Held :
      (op : Option (Operation S E)) (c : Call S E)
      → Held op (some c)
      → Held op (some (record c { stage = issuing }))
  prepared-Held none c h = h
  prepared-Held (some o) c h = h

  end-Idle :
      (op : Option (Operation S E)) (c : Call S E) → Idle op (some c) → Idle op (some (end c))
  end-Idle none c h = h
  end-Idle (some o) c h = inr refl

  pub slipped-stamp :
      (s : Supervisor S E) (base : Result S E) (now : ℕ) → (slipped s base now).0 ≡ (stamp s now).0
  slipped-stamp s base now = ground arith

module _ {S E C T W : Type 0} ⦃ks : Key S⦄ ⦃ke : Key E⦄ (m : Machine S E C T W) where
  pub stamp-Sound :
      (s : Supervisor S E) (call : Option (Call S E)) (now : ℕ)
      → Sound m s call
      → Sound m (stamp s now).0 call
  unfolding Sound stamp
  stamp-Sound s call now h = ground (arith, h)

  -- The operation of a call that owns it and has not ended.
  abbrev pub Working : Supervisor S E → Call S E → Type 0
  Working s c =
      (o : Operation S E) × (s.operation ≡ some o)
      × (s.mode ≡ mode_executing)
      × (o.id ≡ c.id)
      × (o.returned ≡ false)
      × (o.revoked ≡ false)
      × AtStage m s o c c.stage

  modes :
      (s : Supervisor S E) (c : Call S E) (mode : Mode) (o : Operation S E)
      → AtMode m s (some c) mode
      → s.operation ≡ some o
      → o.revoked ≡ false
      → (mode ≡ mode_executing) ⊎ (c.stage ≡ ended)
  modes s c mode_executing o h e k = inl refl
  modes s c mode_stopped o h e k = ground (arith, h, e, k)
  modes s c mode_ready o h e k = ground (arith, h, e, k)
  modes s c mode_awaiting o h e k = ground (arith, h, e, k)
  modes s c mode_faulted o h e k = ground (arith, h, e, k)

  pub works :
      (s : Supervisor S E) (c : Call S E)
      → owns s c.id ≡ true
      → c.stage ≢ ended
      → Sound m s (some c)
      → Working s c
  unfolding owns Sound
  works s c own active (inc, held, at) = elim (Option-cases s.operation) [
    | inl none_there ↦ absurd (ground (arith, own, none_there))
    | inr (o, e) ↦
        let unrevoked : o.revoked ≡ false = ground (arith, own, e) in
        let (same, unreturned) = subst (λ x. Held x (some c)) e held in
        elim (modes s c s.mode o at e unrevoked) [
          | inr over ↦ absurd (active over)
          | inl mode ↦
              let (_, stage) =
                subst (λ x. Runs m s x (some c)) e (subst (λ x. AtMode m s (some c) x) mode at) in
              (o, e, mode, same, unreturned, unrevoked, stage)
        ]
  ]

  -- A call that lost its operation may go on as another.
  lost_modes :
      (s : Supervisor S E) (c d : Call S E) (mode : Mode)
      → (Idle s.operation (some c) → Idle s.operation (some d))
      → s.mode ≡ mode
      → runs s c.id ≡ false
      → Held s.operation (some c)
      → AtMode m s (some c) mode
      → AtMode m s (some d) mode
  unfolding owns
  lost_modes s c d mode_stopped to e k held (p, f, i, idle) = (p, f, i, to idle)
  lost_modes s c d mode_ready to e k held (p, f, i, idle) = (p, f, i, to idle)
  lost_modes s c d mode_awaiting to e k held (p, f, idle) = (p, f, to idle)
  lost_modes s c d mode_faulted to e k held (p, f, idle) = (p, f, to idle)
  lost_modes s c d mode_executing to e k held h = elim (Option-cases s.operation) [
    | inl absent ↦ absurd (ground (arith, absent, h))
    | inr (o, there) ↦
        let (same, unreturned) = subst (λ x. Held x (some c)) there held in
        let (unrevoked, stage) = subst (λ x. Runs m s x (some c)) there h in
        absurd (ground (arith, runs-true s c o there e same unrevoked, k))
  ]

  pub lost-Sound :
      (s : Supervisor S E) (c : Call S E)
      → runs s c.id ≡ false
      → Sound m s (some c)
      → Sound m s (some (end c))
  unfolding Sound
  lost-Sound s c k (inc, held, at) = (
    inc,
    end-Held s.operation c held,
    lost_modes s c (end c) s.mode (end-Idle s.operation c) refl k held at,
  )

  pub prepared-Sound :
      (s : Supervisor S E) (c : Call S E)
      → c.stage ≡ choosing
      → runs s c.id ≡ false
      → Sound m s (some c)
      → Sound m s (some (record c { stage = issuing }))
  unfolding Sound
  prepared-Sound s c e k (inc, held, at) = (
    inc,
    prepared-Held s.operation c held,
    lost_modes s c (record c { stage = issuing }) s.mode (prepared-Idle s.operation c e) refl k held
        at,
  )

  -- The section of a call that lost its operation.
  pub slipped-Sound :
      (s s' : Supervisor S E) (c : Call S E) (now : ℕ)
      → s' ≡ (stamp s now).0
      → runs s c.id ≡ false
      → Sound m s (some c)
      → Sound m s' (some (end c))
  slipped-Sound s s' c now e k h =
      subst (λ x. Sound m x (some (end c))) (sym e)
        (stamp-Sound s (some (end c)) now (lost-Sound s c k h))

  ready :
      (s : Supervisor S E) (c : Call S E)
      → runs s c.id ≡ true
      → c.stage ≢ ended
      → ((o : Operation S E) → AtStage m s o c c.stage → Begun s o)
      → Sound m s (some c)
      → Sound m (record s { mode = mode_ready }) (some (end c))
  unfolding Sound
  ready s c run active begins h =
      let (o, eo, mode, same, unreturned, unrevoked, stage) =
        works s c (runs-owns s c.id run) active h in
      let (p, f, i) = begins o stage in
      (h.0, rw eo (same, unreturned), (p, f, rw eo i, rw eo (inr refl)))

  finish_ready-Begun :
      (s : Supervisor S E) (c : Call S E) (base : Result S E) (now : ℕ)
      → c.stage ≢ ended
      → ((o : Operation S E) → AtStage m s o c c.stage → Begun s o)
      → Sound m s (some c)
      → Sound m (finish_ready s c.id base now).0 (some (end c))
  unfolding finish_ready
  finish_ready-Begun s c base now active begins h = elim (Bool-cases (runs s c.id)) [
    | inl run ↦ rw run (
        stamp-Sound (record s { mode = mode_ready }) (some (end c)) now
          (ready s c run active begins h))
    | inr away ↦
        rw away (slipped-Sound s (slipped s base now).0 c now (slipped-stamp s base now) away h)
  ]

  pub finish_ready-start :
      (s : Supervisor S E) (c : Call S E) (base : Result S E) (now : ℕ)
      → c.stage ≡ starting
      → Sound m s (some c)
      → Sound m (finish_ready s c.id base now).0 (some (end c))
  finish_ready-start s c base now e =
      finish_ready-Begun s c base now (λ x. ground (arith, x, e))
        (λ o. subst (λ x. AtStage m s o c x → Begun s o) (sym e) (λ k. k))

  pub finish_ready-choice :
      (s : Supervisor S E) (c : Call S E) (base : Result S E) (now : ℕ)
      → c.stage ≡ choosing
      → Sound m s (some c)
      → Sound m (finish_ready s c.id base now).0 (some (end c))
  finish_ready-choice s c base now e =
      finish_ready-Begun s c base now (λ x. ground (arith, x, e))
        (λ o. subst (λ x. AtStage m s o c x → Begun s o) (sym e) (λ k. k.0))
