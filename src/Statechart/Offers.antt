-- ===== src/Statechart/Offers.antt =====
-- statechart/statechart.go: what Permitted offers is what selectTransition would take.
use statemachine.Prelude.{
  ◌≡◌, refl, sym, subst, ap, ◌∙◌, true, false, inl, inr, Bool-cases, some, List, [], ◌∷◌, ◌++◌, All,
  All-append, All-map, Pairs, arith, Option-cases,
}
use statemachine.Errors.{Outcome, returned, unwound}
use statemachine.Keys.Defs.{Key, value, value_self}
use statemachine.Keys.Maps.{items, elem, elem-append}
use statemachine.Statechart.Shape.{Shape}
use statemachine.Statechart.Chart.{
  Info, Transition, Chart, Selection, chosen, declined, select_transition, handlers,
}
use statemachine.Statechart.Position.{permit_event, permit_events, permit_handlers, permitted_chart}

Pairs-append :
    {A : Type 0} (R : A → A → Type 0) (xs : List A) (y : A)
    → Pairs R xs
    → All (λ x. R x y) xs
    → Pairs R (xs ++ y ∷ [])
Pairs-append R [] y h k = (tt, tt)
Pairs-append R (x ∷ xs) y h k =
    (All-append (R x) xs (y ∷ []) h.0 (k.0, tt), Pairs-append R xs y h.1 k.1)

module _ {S E C T W : Type 0} ⦃ks : Key S⦄ ⦃ke : Key E⦄ (chart : Chart S E C T W) (c : C)
    (source : S) (d : T) (w : W) where
  -- The row that selectTransition takes for the event leads to the state.
  abbrev pub Leads : E × S → Type 0
  Leads (e, to) =
      (t : Transition S E C T W) × (i : Info S E) × (select_transition chart c source e d w
        ≡ returned (chosen t i))
      × (i.destination ≡ to)

  abbrev pub Apart : E × S → E × S → Type 0
  Apart p q = ke.beq p.0 q.0 ≡ false

  record Sound (found : List E × List (E × S)) : Type 0 where
    pub leads : All Leads found.1
    pub seen : All (λ p. elem p.0 found.0 ≡ true) found.1
    pub apart : Pairs Apart found.1

  abbrev After : Outcome (List E × List (E × S)) → Type 0
  After (returned found) = Sound found
  After (unwound u) = Unit

  -- An event that was not seen before stands apart from all that are offered.
  all_apart :
      (e : E) (seen : List E) (ps : List (E × S))
      → elem e seen ≡ false
      → All (λ p. elem p.0 seen ≡ true) ps
      → All (λ p. ke.beq p.0 e ≡ false) ps
  all_apart e seen ps new h =
      All-map (λ p. elem p.0 seen ≡ true) (λ p. ke.beq p.0 e ≡ false) ps one h
    where
      one : (p : E × S) → elem p.0 seen ≡ true → ke.beq p.0 e ≡ false
      one p k = elim (Bool-cases (ke.beq p.0 e)) [
        | inl same ↦
            let q : p.0 ≡ e = ke.beq-eq p.0 e same in
            let clash : true ≡ false = sym k ∙ ap (λ x. elem x seen) q ∙ new in
            absurd (ground (arith, clash))
        | inr differ ↦ differ
      ]

  more_seen :
      (e : E) (seen : List E) (ps : List (E × S))
      → All (λ p. elem p.0 seen ≡ true) ps
      → All (λ p. elem p.0 (seen ++ e ∷ []) ≡ true) ps
  more_seen e seen ps h =
      All-map (λ p. elem p.0 seen ≡ true) (λ p. elem p.0 (seen ++ e ∷ []) ≡ true) ps
        (λ p k. ground (arith, k, elem-append p.0 seen (e ∷ []))) h

  Sound-event :
      (e : E) (found : List E × List (E × S))
      → value e ≡ true
      → Sound found
      → After (permit_event chart c source d w e found)
  unfolding permit_event elem
  Sound-event e (seen, permits) valid s = elim (Bool-cases (elem e seen)) [
    | inl old ↦ rw (old, permit_event) s
    | inr new ↦ go new (select_transition chart c source e d w) refl
  ]
    where
      self : elem e (seen ++ e ∷ []) ≡ true
      self = ground (arith, elem-append e seen (e ∷ []), value_self e valid)

      go :
          elem e seen ≡ false
          → (o : Outcome (Selection S E C T W)) → select_transition chart c source e d w ≡ o
          → After (permit_event chart c source d w e (seen, permits))
      go new (returned (declined reasons)) k =
          rw (new, k, permit_event)
            (record { leads = s.leads; seen = more_seen e seen permits s.seen; apart = s.apart })
      go new (returned (chosen t i)) k =
          rw (new, k, permit_event)
            (record {
              leads =
                  All-append Leads permits ((e, i.destination) ∷ []) s.leads ((t, i, k, refl), tt);
              seen =
                  All-append (λ p. elem p.0 (seen ++ e ∷ []) ≡ true) permits
                    ((e, i.destination) ∷ []) (more_seen e seen permits s.seen) (self, tt);
              apart =
                  Pairs-append Apart permits (e, i.destination) s.apart
                    (all_apart e seen permits new s.seen);
            })
      go new (unwound u) k = rw (new, k, permit_event) tt

  Sound-events :
      (es : List E) (found : List E × List (E × S))
      → All (λ e. value e ≡ true) es
      → Sound found
      → After (permit_events chart c source d w es found)
  unfolding permit_events
  Sound-events [] found valid s = s
  Sound-events (e ∷ es) found valid s =
      go (permit_event chart c source d w e found) refl (Sound-event e found valid.0 s)
        (λ more. Sound-events es more valid.1)
    where
      go :
          (o : Outcome (List E × List (E × S)))
          → permit_event chart c source d w e found ≡ o
          → After o
          → ((more : List E × List (E × S))
              → Sound more
              → After (permit_events chart c source d w es more))
          → After (permit_events chart c source d w (e ∷ es) found)
      go (returned more) k t ih = rw (k, permit_events) (ih more t)
      go (unwound u) k t ih = rw (k, permit_events) tt

  Sound-handlers :
      (hs : List S) (found : List E × List (E × S))
      → ((h : S) → All (λ e. value e ≡ true) (items h chart.events))
      → Sound found
      → After (permit_handlers chart c source d w hs found)
  unfolding permit_handlers
  Sound-handlers [] found valid s = s
  Sound-handlers (h ∷ hs) found valid s =
      go (permit_events chart c source d w (items h chart.events) found) refl
        (Sound-events (items h chart.events) found (valid h) s)
        (λ more. Sound-handlers hs more valid)
    where
      go :
          (o : Outcome (List E × List (E × S)))
          → permit_events chart c source d w (items h chart.events) found ≡ o
          → After o
          → ((more : List E × List (E × S))
              → Sound more
              → After (permit_handlers chart c source d w hs more))
          → After (permit_handlers chart c source d w (h ∷ hs) found)
      go (returned more) k t ih = rw (k, permit_handlers) (ih more t)
      go (unwound u) k t ih = rw (k, permit_handlers) tt

  abbrev Offered : Outcome (List (E × S)) → Type 0
  Offered (returned offers) = All Leads offers × Pairs Apart offers
  Offered (unwound u) = Unit

  handled :
      (hs : List S)
      → ((h : S) → All (λ e. value e ≡ true) (items h chart.events))
      → After (permit_handlers chart c source d w hs ([], []))
  handled hs valid = Sound-handlers hs ([], []) valid (record { leads = tt; seen = tt; apart = tt })

  permitted_chart-Offered :
      ((h : S) → All (λ e. value e ≡ true) (items h chart.events))
      → Offered (permitted_chart chart c source d w)
  unfolding permitted_chart
  permitted_chart-Offered valid = elim (Option-cases chart.shape) [
    | inl bare ↦ rw (bare, permitted_chart) (tt, tt)
    | inr (s, shaped) ↦ elim (Option-cases (handlers s source)) [
      | inl lost ↦ rw (shaped, lost, permitted_chart) tt
      | inr (hs, found) ↦
          go s hs shaped found (permit_handlers chart c source d w hs ([], [])) refl
            (handled hs valid)
    ]
  ]
    where
      go :
          (s : Shape S) (hs : List S)
          → chart.shape ≡ some s
          → handlers s source ≡ some hs
          → (o : Outcome (List E × List (E × S)))
          → permit_handlers chart c source d w hs ([], []) ≡ o
          → After o
          → Offered (permitted_chart chart c source d w)
      go s hs shaped found (returned r) k t =
          let q : permitted_chart chart c source d w ≡ returned r.1 =
            ground (arith, shaped, found, k) in
          subst Offered (sym q) (t.leads, t.apart)
      go s hs shaped found (unwound u) k t =
          let q : permitted_chart chart c source d w ≡ unwound u =
            ground (arith, shaped, found, k) in
          subst Offered (sym q) tt

  -- Permitted on a chart whose events are valid keys: each pair it offers is an event with the
  -- destination of the row that selectTransition takes for it on the same data, and no event is
  -- offered twice.
  pub permitted_chart-select :
      (offers : List (E × S))
      → ((h : S) → All (λ e. value e ≡ true) (items h chart.events))
      → permitted_chart chart c source d w ≡ returned offers
      → All Leads offers × Pairs Apart offers
  permitted_chart-select offers valid e = subst Offered e (permitted_chart-Offered valid)
