-- ===== src/Instance/Flight.antt =====
-- Many calls of Fire on one Instance, as interleavings of the critical sections of each.
use statemachine.Prelude.{
  subst, subst₂, ℕ, ◌≡◌, refl, sym, Bool, true, false, none, some, List, [], ◌∷◌, ◌++◌, arith,
}
use statemachine.Errors.{Error}
use statemachine.Keys.Defs.{Key}
use statemachine.Instance.Defs.{Instance, begin, finish, commit}

-- What a call of Fire that passed its first section is doing: it runs the Machine from the state
-- that it captured, or it is past its commit.
pub data Call (S : Type 0) : Type 0 where
  running : ℕ → S → Call S
  committed : ℕ → Call S

-- An Instance, the calls in progress, and the state changes so far, newest first.
pub record System (S E C T W : Type 0) : Type 0 where
  pub instance_of : Instance S E C T W
  pub calls : List (Call S)
  pub changes : List (S × S)

module _ {S : Type 0} where
  -- No call, or one that captured the committed state, or one past its commit.
  abbrev pub Single : List (Call S) → Bool → S → Type 0
  Single [] flying s = flying ≡ false
  Single (running n from ∷ []) flying s = (flying ≡ true) × (from ≡ s)
  Single (committed n ∷ []) flying s = flying ≡ true
  Single (x ∷ y ∷ zs) flying s = ⊥

  -- State changes that follow one another from one state to another, newest first.
  abbrev pub Chain : S → List (S × S) → S → Type 0
  Chain a [] b = a ≡ b
  Chain a ((from, to) ∷ rest) b = (to ≡ b) × Chain a rest from

  -- A call in progress is the only one.
  alone :
      (before after : List (Call S)) (x : Call S) (flying : Bool) (s : S)
      → Single (before ++ x ∷ after) flying s
      → (before ≡ []) × (after ≡ [])
  alone [] [] x flying s h = (refl, refl)
  alone [] (y ∷ after) (running n f) flying s h = absurd h
  alone [] (y ∷ after) (committed n) flying s h = absurd h
  alone (y ∷ []) after x flying s h = absurd (no_pair y h)
    where
      no_pair : (z : Call S) → Single (z ∷ x ∷ after) flying s → ⊥
      no_pair (running m f) k = k
      no_pair (committed m) k = k
  alone (y ∷ z ∷ before) after x flying s h = absurd (no_pair y h)
    where
      no_pair : (z' : Call S) → Single (z' ∷ z ∷ before ++ x ∷ after) flying s → ⊥
      no_pair (running m f) k = k
      no_pair (committed m) k = k

module _ {S E C T W : Type 0} ⦃ks : Key S⦄ ⦃ke : Key E⦄ where
  -- One critical section of some caller. The answer of the Machine is whatever it may be, and
  -- between the sections any other caller may come.
  pub data Step (v : System S E C T W) : System S E C T W → Type 0 where
    starts :
        (n : ℕ) (i : Instance S E C T W)
        → begin v.instance_of ≡ some i
        → Step v (record v { instance_of = i; calls = running n i.state ∷ v.calls })
    refused : begin v.instance_of ≡ none → Step v v
    commits :
        (n : ℕ) (before after : List (Call S)) (from next : S)
        → v.calls ≡ before ++ running n from ∷ after
        → Step v (record v {
          instance_of = (commit v.instance_of from next none).0;
          calls = before ++ committed n ∷ after;
          changes = (from, next) ∷ v.changes;
        })
    fails :
        (n : ℕ) (before after : List (Call S)) (from next : S) (e : Error)
        → v.calls ≡ before ++ running n from ∷ after
        → Step v (record v {
          instance_of = (commit v.instance_of from next (some e)).0;
          calls = before ++ committed n ∷ after;
        })
    unwinds :
        (n : ℕ) (before after : List (Call S)) (from : S)
        → v.calls ≡ before ++ running n from ∷ after
        → Step v (record v { instance_of = finish v.instance_of; calls = before ++ after })
    ends :
        (n : ℕ) (before after : List (Call S))
        → v.calls ≡ before ++ committed n ∷ after
        → Step v (record v { instance_of = finish v.instance_of; calls = before ++ after })

  pub data Reach (v : System S E C T W) : System S E C T W → Type 0 where
    here : Reach v v
    then : {u t : System S E C T W} → Reach v u → Step u t → Reach v t

  pub record Safe (a : S) (v : System S E C T W) : Type 0 where
    pub single : Single v.calls v.instance_of.flying v.instance_of.state
    pub chain : Chain a v.changes v.instance_of.state

  Single-begin :
      (cs : List (Call S)) (n : ℕ) (i j : Instance S E C T W)
      → begin i ≡ some j
      → Single cs i.flying i.state
      → Single (running n j.state ∷ cs) j.flying j.state
  unfolding begin
  Single-begin [] n i j h s = ground arith
  Single-begin (running m f ∷ []) n i j h s = ground arith
  Single-begin (committed m ∷ []) n i j h s = ground arith
  Single-begin (x ∷ y ∷ zs) n i j h s = absurd s

  -- In a safe system a call in progress is the only one, and the list of calls is just it.
  only :
      {a : S} {v : System S E C T W} (before after : List (Call S)) (x : Call S)
      → Safe a v
      → v.calls ≡ before ++ x ∷ after
      → (before ≡ []) × (after ≡ []) × Single (x ∷ []) v.instance_of.flying v.instance_of.state
  only {a} {v} before after x s e =
      let single = subst (λ cs. Single cs v.instance_of.flying v.instance_of.state) e s.single in
      let (b, f) = alone before after x v.instance_of.flying v.instance_of.state single in
      (
        b,
        f,
        subst₂ (λ bs fs. Single (bs ++ x ∷ fs) v.instance_of.flying v.instance_of.state) b f single,
      )

  Step-Safe : (a : S) {v u : System S E C T W} → Step v u → Safe a v → Safe a u
  unfolding begin finish commit
  Step-Safe a {v} (starts n i h) s = record {
    single = Single-begin v.calls n v.instance_of i h s.single;
    chain = ground (arith, s.chain);
  }
  Step-Safe a (refused h) s = s
  Step-Safe a {v} (commits n before after from next h) s =
      let (b, f, o) = only before after (running n from) s h in
      record {
        single = rw (b, f) (ground (arith, o.0));
        chain = (ground arith, subst (λ x. Chain a v.changes x) (sym o.1) s.chain);
      }
  Step-Safe a {v} (fails n before after from next e h) s =
      let (b, f, o) = only before after (running n from) s h in
      record { single = rw (b, f) o.0; chain = s.chain }
  Step-Safe a {v} (unwinds n before after from h) s =
      let (b, f, o) = only before after (running n from) s h in
      record { single = rw (b, f) refl; chain = s.chain }
  Step-Safe a {v} (ends n before after h) s =
      let (b, f, o) = only before after (committed n) s h in
      record { single = rw (b, f) refl; chain = s.chain }

  -- At every moment of every interleaving at most one call is between its sections, the in-flight
  -- marker is set exactly while one is, that call captured the committed state, and the changes
  -- made so far lead one after another from the initial to the committed state: none is lost.
  pub flights-Safe : (a : S) {v u : System S E C T W} → Safe a v → Reach v u → Safe a u
  flights-Safe a s here = s
  flights-Safe a s (then r t) = Step-Safe a t (flights-Safe a s r)
