-- ===== src/Rcu/Contains.antt =====
-- `rcu_list_contains` under interference.
use rcx_hashtables.Base.{
  ℕ, ◌<◌, ◌≡◌, refl, Bool, true, some, arith, ◌==◌, Bool-cases, contains, ◌∙◌, ap, inl, inr,
}
use rcx_hashtables.Machine.{
  Ptr, list_val_max, Node, rcuspin, holds, State, Machine, ok, rcu_read_lock, rcu_read_unlock,
}
use rcx_hashtables.Machine.Ends
use rcx_hashtables.Machine.Ends.{Ends, returns, Returns}
use rcx_hashtables.Chain.{elements}
use rcx_hashtables.Shared.{View, known, Shared, on_chain-element}
use rcx_hashtables.Shared.Link.{neighbours-absent}
use rcx_hashtables.Shared.Tick.{Private, Fair}
use rcx_hashtables.Shared.Outcome.{Rests, Since-Rests}
use rcx_hashtables.Shared.Sections.{entered, left, Private-entered, Rests-left}
use rcx_hashtables.Rcu.{find, rcu_list_contains}
use rcx_hashtables.Rcu.Search.{find-Arrives, Arrived}
use rcx_hashtables.Rcu.{Place}

-- What the answer `r` says of the list. The search has run from the begin of the read-side critical
-- section up to its end. A lookup that holds the lock of the list is exact.
pub record Answers (mark : Bool) (M : Machine) (head : Ptr) (val : ℕ) (s : State) (w : View)
    (r : Bool) (s' : State) : Type 0 where
  pub at : Place
  pub end : State
  pub searched : find M head val (entered s) ≡ ok at end
  pub closed : s' ≡ left end
  pub rests : Rests mark head s w s'
  pub met :
      r ≡ true
      → (a : Ptr) × (n : Node) × (s'.heap a ≡ some n)
        × (n.val ≡ val)
        × (known head rests.view a ≡ true)
  pub exact : holds s.held (rcuspin head) ≡ true → contains (elements w.items) val ≡ r

module _ {mark : Bool} {head : Ptr} {M : Machine} (F : Fair mark head M) {val : ℕ}
    (small : val < list_val_max) (pos : 0 < val) where
  Arrived-exact :
      (s s1 : State) (w w1 : View) (at : Place)
      → Arrived mark head val s w at s1 w1
      → holds s.held (rcuspin head) ≡ true
      → contains (elements w.items) val ≡ (at.val == val)
  Arrived-exact s s1 w w1 at a lock =
      let (on, on', next) = a.spot.locked (rw a.since.locals.held lock) in
      let same = (a.since.frozen lock).0 in
      let now : contains (elements w1.items) val ≡ (at.val == val) =
        elim (Bool-cases (at.val == val)) [
          | inl there ↦
              let is : a.spot.to.node.val ≡ val = ground (arith, a.value) in
              let element =
                on_chain-element a.since.shared at.next a.spot.to.node on' a.spot.to.holds
                  (omega arith) (omega arith) in
              rw there (rw is at element)
          | inr other ↦ rw other (
              neighbours-absent val a.since.shared on a.spot.holds_p
                (ap s1.heap next ∙ a.spot.to.holds) a.spot.below
                (ground (arith, a.value, a.reached)) small)
        ] in
      rw same at now

  -- `rcu_list_contains` of a value between INT_MIN and INT_MAX returns whatever the others do, and
  -- changes nothing. Its search runs inside a read-side critical section, which is entered before the
  -- search and left after it. If it returns true, it has met a node with the value. If the
  -- thread holds the lock of the list, the answer is whether the value is in the list.
  pub rcu_list_contains_lem :
      (s : State) (w : View)
      → Shared mark head s.heap w
      → Private head s w
      → Returns (Answers mark M head val s w) (rcu_list_contains M head val s)
  unfolding rcu_list_contains Rests-left Since-Rests rcu_read_lock rcu_read_unlock
  rcu_list_contains_lem s w S P =
      Ends.bind (Ends.traced (find-Arrives F small (entered s) w pos S (Private-entered P)))
        λ at s1 ((w1, a), run). returns (record {
          at = at;
          end = s1;
          searched = run;
          closed = refl;
          rests = Rests-left (Since-Rests a.since);
          met = λ yes. (
            at.next,
            a.spot.to.node,
            a.spot.to.holds,
            ground (arith, a.value, yes),
            a.spot.to.is_known,
          );
          exact = Arrived-exact (entered s) s1 w w1 at a;
        })
