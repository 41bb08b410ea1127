-- ===== src/Rcu/Spin/Add.antt =====
-- `rcu_list_add` and `rcu_list_try_add` put a value into a list, and do nothing else to it.
use rcx_hashtables.Base.{
  ℕ, ◌<◌, ◌≡◌, refl, inl, inr, ◌⊎◌, Bool, true, false, arith, ◌==◌, Bool-cases,
}
use rcx_hashtables.Machine.{
  Ptr, Node, list_val_max, rcuspin, holds, State, Machine, tick, assign_next, spin_unlock,
}
use rcx_hashtables.Machine.Ends
use rcx_hashtables.Machine.Ends.{Ends, returns, Returns}
use rcx_hashtables.Shared.{View, Shared, on_chain-element}
use rcx_hashtables.Shared.Tick.{Private, Fair, Keeps, Since-Keeps, Since-tick, store-ok}
use rcx_hashtables.Shared.Outcome.{Rests, Since-Rests, Added}
use rcx_hashtables.Shared.Locks.{
  AddsOrHas, spin_lock-Acquired, holds-Acquired, AddsOrHas-unlocked, spin_trylock-Tried,
}
use rcx_hashtables.Rcu.{rcu_new_node}
use rcx_hashtables.Rcu.Search.{Spot, Spot-Keeps, Spot-Keeps-val, find-Arrives}
use rcx_hashtables.Rcu.Insert.{Owns, kmalloc-Owns, prepare-Owns, Owns-Since, fresh, link-Added}
use rcx_hashtables.Rcu.Spin.{locked_add, rcu_list_add, rcu_list_try_add}

module _ {mark : Bool} {head : Ptr} {M : Machine} (F : Fair mark head M) {val : ℕ}
    (small : val < list_val_max) (pos : 0 < val) where
  -- The assignment that makes the new node reachable, between two nodes that cannot change.
  pub assign-Added :
      (g : Node) (p q c : Ptr) (s0 s1 s : State) (w0 w1 w : View)
      → Keeps mark head s0 w0 s1 w1
      → s1.owned ≡ s0.owned
      → Owns mark head s1 w1 c (fresh g val q) s w
      → (spot : Spot head val s w p q) → val < spot.to.node.val
      → holds s.held (rcuspin head) ≡ true
      → Returns (λ _ s'. Added mark head val s0 w0 s') (assign_next M p c s)
  unfolding assign_next
  assign-Added g p q c s0 s1 s w0 w1 w before same o spot up lock =
      let step = Since-tick F o.keeps.shared o.keeps.private in
      let spot' = Spot-Keeps (Since-Keeps step) spot in
      let vals = Spot-Keeps-val (Since-Keeps step) spot in
      let (on, on', next) = spot'.locked (rw step.locals.held lock) in
      rw (store-ok M s p (λ n. record n { p_next = c }) spot'.node spot'.holds_p) (
        returns (
          link-Added small before same g (Owns-Since o step) spot' (omega (arith, vals.1, up)) on
            next (tick M s).clock))

  -- Under the lock of the list an insertion is exact: it adds the value, or the value is there.
  pub locked_add_lem :
      (s : State) (w : View)
      → Shared mark head s.heap w
      → Private head s w
      → holds s.held (rcuspin head) ≡ true
      → Returns (λ _ s'. AddsOrHas mark head val s w s') (locked_add M head val s)
  unfolding locked_add Since-Rests rcu_new_node
  locked_add_lem s w S P lock = Ends.bind (find-Arrives F small s w pos S P) λ at s1 (w1, a).
      let (on, on', next) = a.spot.locked (rw a.since.locals.held lock) in
      elim (Bool-cases (at.val == val)) [
        | inl there ↦
            let is : a.spot.to.node.val ≡ val = ground (arith, a.value) in
            let element =
              on_chain-element a.since.shared at.next a.spot.to.node on' a.spot.to.holds
                (omega arith) (omega arith) in
            rw there (returns (inr (Since-Rests a.since, rw is at element)))
        | inr other ↦ rw other (
            Ends.bind
              (kmalloc-Owns F (λ n. record n { removed = false }) s1 w1 a.since.shared
                a.since.private)
              λ c s2 o2.
                Ends.bind
                  (prepare-Owns F (record (M.garbage s1) { removed = false }) val at.next s1 s2 w1
                    w1 c refl o2)
                  λ _ s3 (w3, o3).
                    let spot = Spot-Keeps o3.keeps a.spot in
                    let vals = Spot-Keeps-val o3.keeps a.spot in
                    Ends.bind
                      (assign-Added (record (M.garbage s1) { removed = false }) at.prev at.next c s
                        s1 s3 w w1 w3 (Since-Keeps a.since) a.since.locals.owned o3 spot
                        (ground (arith, vals.1, a.value, a.reached))
                        (rw (o3.keeps.held, a.since.locals.held) lock))
                      λ _ s' added. returns (inl added))
      ]

  -- `rcu_list_add` of a value between INT_MIN and INT_MAX returns 0, whatever the others do, if kmalloc
  -- finds memory. The value is in the list when it returns: it
  -- was not and the call has inserted it, or it was already. All locks are given back.
  pub rcu_list_add_lem :
      (s : State) (w : View)
      → Shared mark head s.heap w
      → Private head s w
      → Returns (λ r s'. (r ≡ 0) × AddsOrHas mark head val s w s') (rcu_list_add M head val s)
  unfolding rcu_list_add spin_unlock
  rcu_list_add_lem s w S P = Ends.bind (spin_lock-Acquired F s w S P) λ _ s1 (w1, a).
      Ends.bind (locked_add_lem s1 w1 a.shared a.private (holds-Acquired a))
        λ _ s2 r. returns (refl, AddsOrHas-unlocked a r)

  -- `rcu_list_try_add` of a value between INT_MIN and INT_MAX returns 2 and changes nothing if the lock is taken; otherwise it returns 0
  -- and does what `rcu_list_add` does.
  pub rcu_list_try_add_lem :
      (s : State) (w : View)
      → Shared mark head s.heap w
      → Private head s w
      → Returns
          (λ r s'.
            ((r ≡ 0) × AddsOrHas mark head val s w s' × (M.spin_trylock s ≡ true))
            ⊎ ((r ≡ 2) × Rests mark head s w s' × (M.spin_trylock s ≡ false)))
          (rcu_list_try_add M head val s)
  unfolding rcu_list_try_add spin_unlock
  rcu_list_try_add_lem s w S P = Ends.bind (spin_trylock-Tried F s w S P) λ got s1 tried.
      elim tried [
        | inl (yes_, free, (w1, a)) ↦ rw yes_ (
            Ends.bind (locked_add_lem s1 w1 a.shared a.private (holds-Acquired a))
              λ _ s2 r. returns (inl (refl, AddsOrHas-unlocked a r, free)))
        | inr (no_, taken, rests) ↦ rw no_ (returns (inr (refl, rests, taken)))
      ]
