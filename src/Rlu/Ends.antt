-- ===== src/Rlu/Ends.antt =====
-- How a run of an RLU function ends: with a result and a state for which `P` holds. No assertion
-- fails and no pointer is bad. `Returns` wants an end, `Allows` leaves open that the fuel runs out.
use rcx_hashtables.Rlu.{State, Run, ok, out_of_fuel, Cmd, and_then}

pub data Ends {B : Type 0} (late : Type 0) (P : B → State → Type 0) : Run B → Type 0 where
  returns : {b : B} {s : State} → P b s → Ends late P (ok b s)
  late_end : late → Ends late P out_of_fuel

abbrev pub Returns : {B : Type 0} → (B → State → Type 0) → Run B → Type 0
Returns = Ends ⊥

abbrev pub Allows : {B : Type 0} → (B → State → Type 0) → Run B → Type 0
Allows = Ends (Unit {0})

module _ {B : Type 0} {late : Type 0} {P : B → State → Type 0} where
  pub bind :
      {C : Type 0} {Q : C → State → Type 0} {r : Run B} {k : B → Cmd C}
      → Ends late P r
      → ((b : B) (s : State) → P b s → Ends late Q (k b s))
      → Ends late Q (and_then r k)
  bind (returns p) next = next _ _ p
  bind (late_end l) next = late_end l

  pub mono :
      {Q : B → State → Type 0} {r : Run B}
      → Ends late P r
      → ((b : B) (s : State) → P b s → Q b s)
      → Ends late Q r
  mono (returns p) weaken = returns (weaken _ _ p)
  mono (late_end l) weaken = late_end l

-- What returns may as well be late.
pub later :
    {B : Type 0} {late : Type 0} {P : B → State → Type 0} {r : Run B} → Returns P r → Ends late P r
later (returns p) = returns p
later (late_end l) = absurd l
