-- ===== src/Rcu/Create.antt =====
-- rcu-hash-list.c: `rcu_new_list` makes an empty list.
use rcx_hashtables.Base.{
  ◌≤◌, ◌≡◌, refl, ◌≢◌, Bool, true, false, some, none, [], ◌∷◌, arith, ◌==◌, ==-refl, ◌∙◌, ap,
  Bool-cases, inl, inr, eq_of_==,
}
use rcx_hashtables.Machine.{
  Ptr, null, list_val_max, list_val_min, Node, Heap, write, State, Machine, tick, store, kmalloc,
  kmalloc_struct,
}
use rcx_hashtables.Machine.Ends
use rcx_hashtables.Machine.Ends.{Ends, returns, Returns}
use rcx_hashtables.Chain.{nil, cons}
use rcx_hashtables.Shared.{Shared}
use rcx_hashtables.Shared.Tick.{store-ok}
use rcx_hashtables.Rcu.{rcu_new_node, rcu_new_list}
use rcx_hashtables.Rcu.Insert.{fresh}

-- The memory from `top` on is unused, and so is NULL.
pub record Fits (s : State) : Type 0 where
  pub vacant : (a : Ptr) → s.top ≤ a → s.heap a ≡ none
  pub null_free : s.heap null ≡ none

-- A machine on which no other thread runs and memory does not run out.
pub record Alone (M : Machine) : Type 0 where
  pub others : (s : State) → M.others s ≡ s.heap
  pub others_top : (s : State) → M.others_top s ≡ s.top
  pub memory : (s : State) → M.kmalloc s ≢ null
  pub unused : (s : State) → Fits s → s.heap (M.kmalloc s) ≡ none
  pub room : (s : State) → M.kmalloc_struct s ≡ true

module _ {M : Machine} (A : Alone M) where
  tick-heap : (s : State) → (tick M s).heap ≡ s.heap
  unfolding tick
  tick-heap s = A.others s

  tick-top : (s : State) → (tick M s).top ≡ s.top
  unfolding tick
  tick-top s = A.others_top s

  store-Fits :
      (s : State) (p : Ptr) (f : Node → Node) (n : Node)
      → s.heap p ≡ some n
      → Fits s
      → Returns (λ _ s'. (s'.heap ≡ write s.heap p (some (f n))) × Fits s') (store M p f s)
  unfolding write
  store-Fits s p f n e fits = rw (store-ok M s p f n (ap (λ (h : Heap). h p) (tick-heap s) ∙ e)) (
      returns (
        ap (λ (h : Heap). write h p (some (f n))) (tick-heap s),
        record {
          vacant = λ a off.
              let was : s.heap a ≡ none = fits.vacant a (rw (tick-top s) at off) in
              ground (arith, was, e, tick-heap s);
          null_free = ground (arith, fits.null_free, e, tick-heap s);
        },
      ))

  new_node-Fits :
      (s : State)
      → Fits s
      → Returns
          (λ p s'.
            (s.heap p ≡ none)
            × (s'.heap ≡ write s.heap p (some (record (M.garbage s) { removed = false })))
            × Fits s')
          (rcu_new_node M s)
  unfolding rcu_new_node kmalloc write
  new_node-Fits s fits =
      let found : (M.kmalloc s == null) ≡ false = ground (arith, A.memory s) in
      rw found (
        returns (
          A.unused s fits,
          refl,
          record {
            vacant = λ a off. ground (arith, fits.vacant a (omega (arith, off)));
            null_free = ground (arith, found, fits.null_free);
          },
        ))

  -- A new node, with what was in its memory.
  abbrev blank : State → Node
  blank s = record (M.garbage s) { removed = false }

  -- The last two assignments leave the two nodes and nothing else.
  two-Shared :
      (mark : Bool) (m n : Node) (p q : Ptr) (h : Heap)
      → h null ≡ none
      → h p ≡ some (fresh m list_val_max null)
      → h q ≡ some (fresh n list_val_min p)
      → Shared mark q h (record { items = (p, list_val_max) ∷ []; gone = [] })
  two-Shared mark m n p q h null_free at_p at_q = record {
    null_free = null_free;
    chain =
        cons
          (record {
            node = fresh n list_val_min p;
            holds = at_q;
            val_eq = refl;
            next_eq = refl;
            live = refl;
          })
          (omega arith)
          (cons
            (record {
              node = fresh m list_val_max null;
              holds = at_p;
              val_eq = refl;
              next_eq = refl;
              live = refl;
            })
            (omega arith) nil);
    last = refl;
    gone_node = λ a off. absurd (cc);
  }

  -- When no other thread runs and memory does not run out, `rcu_new_list` returns the head of a
  -- list that satisfies the invariant of a shared list and has no element.
  pub rcu_new_list_lem :
      (mark : Bool) (s : State)
      → Fits s
      → Returns
          (λ q s'.
            ((p : Ptr) × Shared mark q s'.heap
                (record { items = (p, list_val_max) ∷ []; gone = [] }))
            × Fits s')
          (rcu_new_list M s)
  unfolding rcu_new_list kmalloc_struct write
  rcu_new_list_lem mark s fits = rw (A.room s) (
      Ends.bind (new_node-Fits s fits) λ p s1 (new_p, h1, f1).
        Ends.bind
          (store-Fits s1 p (λ n. record n { val = list_val_max }) (blank s)
            (ground (arith, h1, ==-refl p)) f1)
          λ _ s2 (h2, f2).
            Ends.bind
              (store-Fits s2 p (λ n. record n { p_next = null })
                (record (blank s) { val = list_val_max }) (ground (arith, h2, ==-refl p)) f2)
              λ _ s3 (h3, f3).
                let at3 : s3.heap p ≡ some (fresh (M.garbage s) list_val_max null) =
                  ground (arith, h3, ==-refl p) in
                Ends.bind (new_node-Fits s3 f3) λ q s4 (new_q, h4, f4).
                  let ne : (p == q) ≡ false = elim (Bool-cases (p == q)) [
                    | inl same ↦ absurd (ground (arith, eq_of_== p q same, at3, new_q))
                    | inr other ↦ other
                  ] in
                  Ends.bind
                    (store-Fits s4 q (λ n. record n { val = list_val_min }) (blank s3)
                      (ground (arith, h4, ==-refl q)) f4)
                    λ _ s5 (h5, f5).
                      Ends.bind
                        (store-Fits s5 q (λ n. record n { p_next = p })
                          (record (blank s3) { val = list_val_min }) (ground (arith, h5, ==-refl q))
                          f5)
                        λ _ s6 (h6, f6). returns (
                          (
                            p,
                            two-Shared mark (M.garbage s) (M.garbage s3) p q s6.heap f6.null_free
                                (ground (arith, h6, h5, h4, ne, at3))
                                (ground (arith, h6, ==-refl q)),
                          ),
                          f6,
                        ))
