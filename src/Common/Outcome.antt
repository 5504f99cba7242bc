-- ===== src/Common/Outcome.antt =====
-- C code with a state: a run ends with a value and the new state, stops at a fault, or runs out of
-- the rounds that it was given.
use mathlib.Core.Bool.{Bool, true, false}
use mathlib.Core.Path.{◌≡◌}

-- `assertion` is a failed CILK_ASSERT, CILK_CHECK, CILK_COMPLAIN or Cilk_die_internal; `null_deref`
-- a read or write through NULL; `deadlock` a wait for a lock that the same worker holds.
pub data Fault : Type 0 where
  assertion null_deref deadlock : Fault

pub data Run (S A : Type 0) : Type 0 where
  ok : A → S → Run S A
  fault : Fault → Run S A
  out_of_fuel : Run S A

abbrev pub Cmd : Type 0 → Type 0 → Type 0
Cmd S A = S → Run S A

module _ {S A : Type 0} where
  abbrev pub pure : A → Cmd S A
  pure = ok

  abbrev pub fail : Fault → Cmd S A
  fail e s = fault e

  -- `Returns r P`: the run ends well, with a value and a state that satisfy `P`.
  abbrev pub Returns : Run S A → (A → S → Type 0) → Type 0
  Returns (ok a s) P = P a s
  Returns (fault e) P = ⊥
  Returns out_of_fuel P = ⊥

module _ {S A B : Type 0} where
  abbrev pub and_then : Run S A → (A → Cmd S B) → Run S B
  and_then (ok a s) k = k a s
  and_then (fault e) k = fault e
  and_then out_of_fuel k = out_of_fuel

  infixl 5 ◌>>=◌ ◌>>◌
  abbrev pub ◌>>=◌ : Cmd S A → (A → Cmd S B) → Cmd S B
  m >>= k = λ s. and_then (m s) k

  abbrev pub ◌>>◌ : Cmd S A → Cmd S B → Cmd S B
  m >> n = m >>= λ _. n

-- CILK_ASSERT
abbrev pub check : {S : Type 0} → Bool → Cmd S (Unit {0})
check true s = ok tt s
check false s = fault assertion

-- The rule of a sequence: what holds of the first part's result is what the second starts from.
pub Returns-bind :
    {S A B : Type 0} (r : Run S A) (k : A → Cmd S B) (P : A → S → Type 0) (Q : B → S → Type 0)
    → Returns r P
    → ((a : A) (s : S) → P a s → Returns (k a s) Q)
    → Returns (and_then r k) Q
Returns-bind (ok a s) k P Q p f = f a s p
Returns-bind (fault e) k P Q p f = absurd p
Returns-bind out_of_fuel k P Q p f = absurd p

pub Returns-mono :
    {S A : Type 0} (r : Run S A) (P Q : A → S → Type 0)
    → Returns r P
    → ((a : A) (s : S) → P a s → Q a s)
    → Returns r Q
Returns-mono (ok a s) P Q p f = f a s p
Returns-mono (fault e) P Q p f = absurd p
Returns-mono out_of_fuel P Q p f = absurd p

-- Where every result of the first part leads to the same run, that is the run of the whole.
pub Returns-then :
    {S A B : Type 0} (r : Run S A) (k : A → Cmd S B) (P : A → S → Type 0) (x : Run S B)
    → Returns r P
    → ((a : A) (s : S) → P a s → k a s ≡ x)
    → and_then r k ≡ x
Returns-then (ok a s) k P x p f = f a s p
Returns-then (fault e) k P x p f = absurd p
Returns-then out_of_fuel k P x p f = absurd p

-- `Safe r P`: a run that ends has a value and a state that satisfy `P`.
abbrev pub Safe : {S A : Type 0} → Run S A → (A → S → Type 0) → Type 0
Safe (ok a s) P = P a s
Safe (fault e) P = Unit
Safe out_of_fuel P = Unit

pub Safe-bind :
    {S A B : Type 0} (r : Run S A) (k : A → Cmd S B) (P : A → S → Type 0) (Q : B → S → Type 0)
    → Safe r P
    → ((a : A) (s : S) → P a s → Safe (k a s) Q)
    → Safe (and_then r k) Q
Safe-bind (ok a s) k P Q p f = f a s p
Safe-bind (fault e) k P Q p f = tt
Safe-bind out_of_fuel k P Q p f = tt
