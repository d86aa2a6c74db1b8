-- ===== src/Common/Control.antt =====
-- How a part of a loop's body ends: at its end, by `continue`, by `return`, or by undefined
-- behaviour; in the two first cases with a state. The effects come in their order.
use mathlib.Core.List.{List, ◌++◌}

pub data Control (S E : Type 0) : Type 0 where
  go_on : S → List E → Control S E
  skip : S → List E → Control S E
  stop fault : Control S E

module _ {S E : Type 0} where
  -- Effects that come first.
  abbrev pub emit : List E → Control S E → Control S E
  emit es (go_on s fs) = go_on s (es ++ fs)
  emit es (skip s fs) = skip s (es ++ fs)
  emit es stop = stop
  emit es fault = fault

  infixl 5 ◌>>=◌
  -- The next part of the same round.
  abbrev pub ◌>>=◌ : Control S E → (S → Control S E) → Control S E
  go_on s es >>= k = emit es (k s)
  skip s es >>= k = skip s es
  stop >>= k = stop
  fault >>= k = fault

  -- The next round.
  abbrev pub then_round : Control S E → (S → Control S E) → Control S E
  then_round (go_on s es) k = emit es (k s)
  then_round (skip s es) k = emit es (k s)
  then_round stop k = stop
  then_round fault k = fault

  -- The state with which a part ends has the property, if there is one.
  abbrev pub Ensures : (S → Type 0) → Control S E → Type 0
  Ensures P (go_on s es) = P s
  Ensures P (skip s es) = P s
  Ensures P stop = Unit
  Ensures P fault = Unit

  pub Ensures-emit :
      (P : S → Type 0) (es : List E) (o : Control S E) → Ensures P o → Ensures P (emit es o)
  Ensures-emit P es (go_on s fs) h = h
  Ensures-emit P es (skip s fs) h = h
  Ensures-emit P es stop h = h
  Ensures-emit P es fault h = h

  pub Ensures-bind :
      (P : S → Type 0) (o : Control S E) (k : S → Control S E)
      → Ensures P o
      → ((s : S) → P s → Ensures P (k s))
      → Ensures P (o >>= k)
  Ensures-bind P (go_on s es) k h next = Ensures-emit P es (k s) (next s h)
  Ensures-bind P (skip s es) k h next = h
  Ensures-bind P stop k h next = h
  Ensures-bind P fault k h next = h

  pub Ensures-then_round :
      (P Q : S → Type 0) (o : Control S E) (k : S → Control S E)
      → Ensures P o
      → ((s : S) → P s → Ensures Q (k s))
      → Ensures Q (then_round o k)
  Ensures-then_round P Q (go_on s es) k h next = Ensures-emit Q es (k s) (next s h)
  Ensures-then_round P Q (skip s es) k h next = Ensures-emit Q es (k s) (next s h)
  Ensures-then_round P Q stop k h next = tt
  Ensures-then_round P Q fault k h next = tt

  -- The part ends without a fault, and where it has a state, that has the property.
  abbrev pub Succeeds : (S → Type 0) → Control S E → Type 0
  Succeeds P (go_on s es) = P s
  Succeeds P (skip s es) = P s
  Succeeds P stop = Unit
  Succeeds P fault = ⊥

  pub Succeeds-emit :
      (P : S → Type 0) (es : List E) (o : Control S E) → Succeeds P o → Succeeds P (emit es o)
  Succeeds-emit P es (go_on s fs) h = h
  Succeeds-emit P es (skip s fs) h = h
  Succeeds-emit P es stop h = h
  Succeeds-emit P es fault h = h

  pub Succeeds-bind :
      (P Q : S → Type 0) (o : Control S E) (k : S → Control S E)
      → Succeeds P o
      → ((s : S) → P s → Q s)
      → ((s : S) → P s → Succeeds Q (k s))
      → Succeeds Q (o >>= k)
  Succeeds-bind P Q (go_on s es) k h skipped next = Succeeds-emit Q es (k s) (next s h)
  Succeeds-bind P Q (skip s es) k h skipped next = skipped s h
  Succeeds-bind P Q stop k h skipped next = h
  Succeeds-bind P Q fault k h skipped next = absurd h

  pub Succeeds-then_round :
      (P Q : S → Type 0) (o : Control S E) (k : S → Control S E)
      → Succeeds P o
      → ((s : S) → P s → Succeeds Q (k s))
      → Succeeds Q (then_round o k)
  Succeeds-then_round P Q (go_on s es) k h next = Succeeds-emit Q es (k s) (next s h)
  Succeeds-then_round P Q (skip s es) k h next = Succeeds-emit Q es (k s) (next s h)
  Succeeds-then_round P Q stop k h next = h
  Succeeds-then_round P Q fault k h next = absurd h
