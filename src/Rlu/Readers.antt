-- ===== src/Rlu/Readers.antt =====
-- What a thread relies on while the other threads are readers: they enter and leave sections, and
-- write no object, no version and nothing of this thread's data.
pub mod Cells
pub mod Walk
pub mod Section
pub mod Lock
pub mod Insert
pub mod Pair
pub mod Free
pub mod Synced
pub mod Commit
pub mod Finish
pub mod Ready
pub mod Add
pub mod Remove
use rcx_hashtables.Base.{ℕ, ◌≤◌, ◌≡◌, refl, Option, some}
use rcx_hashtables.Rlu.{Thread, State, Env, Run, ok, Cmd, and_then, tick}
use rcx_hashtables.Rlu.Ends.{Ends, returns, late_end, Returns}
use rcx_hashtables.Rlu.Others.{Respects}
use rcx_hashtables.Rlu.Settle.{Company}

-- The state with other threads' data.
abbrev pub drift : (threads : ℕ → Option Thread) → (cur_threads : ℕ) → State → State
drift t n s = record s { threads = t; cur_threads = n }

pub record OnlyRead (E : Env) : Type 0 where
  pub threads : State → ℕ → Option Thread
  pub cur_threads : State → ℕ
  pub others : (s : State) → E.others s ≡ drift (threads s) (cur_threads s) s
  pub present :
      (s : State) (th : ℕ) (u : Thread)
      → s.threads th ≡ some u
      → (v : Thread) × (threads s th ≡ some v)
  pub come : (s : State) → s.cur_threads ≤ cur_threads s

-- A result and a state, up to what readers write.
pub data Gives {B : Type 0} (b : B) (s : State) : B → State → Type 0 where
  gives : (t : ℕ → Option Thread) (n : ℕ) → Gives b s b (drift t n s)

module _ {B : Type 0} {b : B} {s : State} where
  pub bind :
      {C : Type 0} {late : Type 0} {Q : C → State → Type 0} {r : Run B} (k : B → Cmd C)
      → Returns (Gives b s) r
      → ((t : ℕ → Option Thread) (n : ℕ) → Ends late Q (k b (drift t n s)))
      → Ends late Q (and_then r k)
  bind k (returns (gives t n)) next = next t n
  bind k (late_end l) next = absurd l

  -- A start in a state that readers have changed.
  pub Gives-drift :
      {r : Run B} (t : ℕ → Option Thread) (n : ℕ)
      → Returns (Gives b (drift t n s)) r
      → Returns (Gives b s) r
  Gives-drift t n (returns (gives t' n')) = returns (gives t' n')
  Gives-drift t n (late_end l) = absurd l

module _ {E : Env} (o : OnlyRead E) where
  pub tick-Gives : (s : State) → Returns (Gives tt s) (tick E s)
  unfolding tick
  tick-Gives s = rw (o.others s) (returns (gives (o.threads s) (o.cur_threads s)))

  pub OnlyRead-Respects : Respects E
  OnlyRead-Respects = record {
    is_sync = λ s. s.self.is_sync;
    self = λ s. rw (o.others s) refl;
    locks = λ s a w at x e f. rw (o.others s) e;
  }

  pub OnlyRead-Company : Company E
  OnlyRead-Company = record {
    respects = OnlyRead-Respects;
    present = λ s th u e. let (v, f) = o.present s th u e in (v, rw (o.others s) f);
    cur_threads = λ s. rw (o.others s) (o.come s);
  }
