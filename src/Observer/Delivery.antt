-- ===== src/Observer/Delivery.antt =====
-- What a delivery calls, in which order, and what it reports.
use statemachine.Prelude.{
  ℕ, suc, ◌≡◌, refl, true, ◌⊎◌, inl, inr, none, some, List, [], ◌∷◌, ◌++◌, append_assoc, arith,
}
use statemachine.Errors.{Error, is, observer_failed, same_refl}
use statemachine.Observer.Defs.{
  Observer, Failure, failed, deliver_one, deliver, failure_error, delivery_error,
}

-- One call of a delivery: the callback's index, the callback, and the observation.
abbrev pub Call : Type 0 → Type 0 → Type 0 → Type 0 → Type 0
Call C O T W = ℕ × Observer C O T W × O × ℕ

module _ {C O T W : Type 0} where
  unfoldable pub calls_one : ℕ → List (Observer C O T W) → O → ℕ → List (Call C O T W)
  calls_one index [] o seq = []
  calls_one index (f ∷ fs) o seq = (index, f, o, seq) ∷ calls_one (suc index) fs o seq

  -- Every observation in order, and under it every callback in attachment order.
  unfoldable pub calls : List (Observer C O T W) → List (O × ℕ) → List (Call C O T W)
  calls fs [] = []
  calls fs ((o, seq) ∷ os) = calls_one 0 fs o seq ++ calls fs os

module _ {C O T W : Type 0} (c : C) (d : T) where
  -- The calls made one after another, whatever any of them does; each unwinding one is a failure.
  unfoldable pub make : List (Call C O T W) → W → List Failure × W
  make [] w = ([], w)
  make ((index, f, o, seq) ∷ rest) w =
      let (result, w') = f c o d w in
      let (more, w'') = make rest w' in (failed index seq result ++ more, w'')

  make-append :
      (xs ys : List (Call C O T W)) (w : W)
      → make (xs ++ ys) w ≡ ((make xs w).0 ++ (make ys (make xs w).1).0, (make ys (make xs w).1).1)
  unfolding make
  make-append [] ys w = refl
  make-append ((i, f, o, q) ∷ xs) ys w = ground (
    arith,
    make-append xs ys (f c o d w).1,
    append_assoc (failed i q (f c o d w).0) (make xs (f c o d w).1).0
        (make ys (make xs (f c o d w).1).1).0,
  )

  deliver_one-make :
      (i : ℕ) (fs : List (Observer C O T W)) (o : O) (q : ℕ) (w : W)
      → deliver_one i fs c o q d w ≡ make (calls_one i fs o q) w
  unfolding deliver_one make calls_one
  deliver_one-make i [] o q w = refl
  deliver_one-make i (f ∷ fs) o q w = ground (arith, deliver_one-make (suc i) fs o q (f c o d w).1)

  -- A delivery makes every call, observation by observation and in attachment order, on the world
  -- that the calls before it left, also behind calls that unwind; it reports those that did, in
  -- that order, each with its index and its observation's number.
  pub deliver-make :
      (fs : List (Observer C O T W)) (os : List (O × ℕ)) (w : W)
      → deliver fs c os d w ≡ make (calls fs os) w
  unfolding deliver make calls
  deliver-make fs [] w = refl
  deliver-make fs ((o, q) ∷ os) w = ground (
    arith,
    deliver_one-make 0 fs o q w,
    deliver-make fs os (make (calls_one 0 fs o q) w).1,
    make-append (calls_one 0 fs o q) (calls fs os) w,
  )

-- A failure is classified as an observer's, and an error that it was thrown with stays visible.
failure_error-is : (f : Failure) → is (failure_error f) observer_failed ≡ true
unfolding failure_error is
failure_error-is f = ground (arith, same_refl observer_failed)

-- The error of a delivery is nil exactly where nothing failed, and else errors.Is finds in it
-- ErrObserverFailed.
pub delivery_error-is :
    (fs : List Failure)
    → ((fs ≡ []) × (delivery_error fs ≡ none))
      ⊎ ((e : Error) × (delivery_error fs ≡ some e) × (is e observer_failed ≡ true))
unfolding is
delivery_error-is [] = inl (refl, refl)
delivery_error-is (f ∷ fs) = inr (_, refl, ground (arith, failure_error-is f))
