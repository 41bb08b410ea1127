-- ===== src/Machine/Ends.antt =====
-- How a run of a command ends: with a value and a state for which `P` holds, and never with a
-- fault. `Returns` wants an end, `Allows` leaves open that the fuel runs out.

use rcx_hashtables.Base.{◌≡◌, refl}
use rcx_hashtables.Machine.{State, Run, ok, out_of_fuel, Cmd, and_then}

pub data Ends {A : Type 0} (late : Type 0) (P : A → State → Type 0) : Run A → Type 0 where
  returns : {a : A} {s : State} → P a s → Ends late P (ok a s)
  late_end : late → Ends late P out_of_fuel

abbrev pub Returns : {A : Type 0} → (A → State → Type 0) → Run A → Type 0
Returns = Ends ⊥

abbrev pub Allows : {A : Type 0} → (A → State → Type 0) → Run A → Type 0
Allows = Ends (Unit {0})

module _ {A : Type 0} {late : Type 0} {P : A → State → Type 0} where
  pub bind :
      {B : Type 0} {Q : B → State → Type 0} {r : Run A} {k : A → Cmd B}
      → Ends late P r
      → ((a : A) (s : State) → P a s → Ends late Q (k a s))
      → Ends late Q (and_then r k)
  bind (returns p) next = next _ _ p
  bind (late_end l) next = late_end l

  pub mono :
      {Q : A → State → Type 0} {r : Run A}
      → Ends late P r
      → ((a : A) (s : State) → P a s → Q a s)
      → Ends late Q r
  mono (returns p) weaken = returns (weaken _ _ p)
  mono (late_end l) weaken = late_end l

  -- A run that ends, with the equation that says with what.
  pub traced : {r : Run A} → Ends late P r → Ends late (λ a s. P a s × (r ≡ ok a s)) r
  traced (returns p) = returns (p, refl)
  traced (late_end l) = late_end l
