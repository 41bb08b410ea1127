-- ===== src/Rcu/Alone.antt =====
-- Reads, writes and searches of a thread while no other thread runs.
use rcx_hashtables.Base.{ℕ, ◌≡◌, refl, true, some, leb, arith, ◌∙◌, ap}
use rcx_hashtables.Machine.{Ptr, Node, Heap, write, State, Machine, tick, load, store, assign_next}
use rcx_hashtables.Machine.Ends
use rcx_hashtables.Machine.Ends.{Ends, returns, Returns}
use rcx_hashtables.Shared.Tick.{load-ok, store-ok}
use rcx_hashtables.Rcu.{find, search}

module _ (M : Machine) (alone : (s : State) → M.others s ≡ s.heap) where
  pub tick-heap : (s : State) → (tick M s).heap ≡ s.heap
  unfolding tick
  tick-heap s = alone s

  pub load-alone :
      {A : Type 0} (s : State) (p : Ptr) (f : Node → A) (n : Node)
      → s.heap p ≡ some n
      → Returns (λ a s'. (a ≡ f n) × (s'.heap ≡ s.heap)) (load M p f s)
  load-alone s p f n e =
      rw (load-ok M s p f n (ap (λ (h : Heap). h p) (tick-heap s) ∙ e))
        (returns (refl, tick-heap s))

  pub store-alone :
      (s : State) (p : Ptr) (f : Node → Node) (n : Node)
      → s.heap p ≡ some n
      → Returns (λ _ s'. s'.heap ≡ write s.heap p (some (f n))) (store M p f s)
  store-alone s p f n e =
      rw (store-ok M s p f n (ap (λ (h : Heap). h p) (tick-heap s) ∙ e))
        (returns (ap (λ (h : Heap). write h p (some (f n))) (tick-heap s)))

  pub assign-alone :
      (s : State) (p q : Ptr) (n : Node)
      → s.heap p ≡ some n
      → Returns
          (λ _ s'. s'.heap ≡ write s.heap p (some (record n { p_next = q })))
          (assign_next M p q s)
  unfolding assign_next
  assign-alone s p q n e =
      Ends.bind (store-alone s p (λ m. record m { p_next = q }) n e) λ _ s1 same. returns same

  -- A search for the value of the node behind the head stops there.
  pub find-first :
      (s : State) (head a : Ptr) (val : ℕ) (h0 na : Node)
      → s.heap head ≡ some h0
      → h0.p_next ≡ a
      → s.heap a ≡ some na
      → na.val ≡ val
      → Returns
          (λ at s'. (at ≡ record { prev = head; next = a; val = val }) × (s'.heap ≡ s.heap))
          (find M head val s)
  unfolding find search
  find-first s head a val h0 na at_head next at_a is =
      Ends.bind (load-alone s head (λ n. n.p_next) h0 at_head) λ p s1 (p_is, same).
        rw (p_is ∙ next) (
          Ends.bind (load-alone s1 a (λ n. n.val) na (ap (λ (h : Heap). h a) same ∙ at_a))
            λ v s2 (v_is, same2).
              let stop : leb val val ≡ true = ground arith in
              rw (v_is ∙ is, stop) (returns (refl, same2 ∙ same)))
