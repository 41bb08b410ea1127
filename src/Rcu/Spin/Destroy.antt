-- ===== src/Rcu/Spin/Destroy.antt =====
-- rcu-hash-list.c, rcx-hash-list.c: the end of a list.
use rcx_hashtables.Base.{
  erase, ◌+◌, ℕ, suc, ◌≡◌, refl, ◌≢◌, false, some, none, arith, ◌==◌, ==-refl, ◌∙◌, ap,
}
use rcx_hashtables.Machine.{Ptr, null, Node, Heap, write, State, Machine, fault, tick, load, kfree}
use rcx_hashtables.Shared.Tick.{load-ok}
use rcx_hashtables.Rcu.Spin.{rcu_list_destroy}
use rcx_hashtables.Rcx.{rcx_list_destroy}

load-fault :
    {A : Type 0} (M : Machine) (s : State) (p : Ptr) (f : Node → A)
    → (tick M s).heap p ≡ none
    → load M p f s ≡ fault
unfolding load
load-fault M s p f e = rw e refl

write-same : (h : Heap) (p : Ptr) → write h p none p ≡ none
unfolding write
write-same h p = rw (==-refl p) refl

module _ (M : Machine) (alone : (s : State) → M.others s ≡ s.heap) (s : State) (p : Ptr) (n : Node)
    (real : p ≢ null) (at : s.heap p ≡ some n) (fuel : ℕ) where
  there : (tick M s).heap p ≡ some n
  unfolding tick
  there = ap (λ (h : Heap). h p) (alone s) ∙ at

  after : State
  unfolding tick
  after = record (tick M s) {
    heap = write (tick M s).heap p none;
    clock = (tick M s).clock + 1;
    owned = erase p s.owned;
  }

  not_there : (tick M after).heap p ≡ none
  unfolding tick after
  not_there = ap (λ (h : Heap). h p) (alone after) ∙ write-same (tick M s).heap p

  -- `rcu_list_destroy` of a list with a first node reads that node after it has freed it, also when
  -- no other thread runs.
  pub rcu_list_destroy_lem : rcu_list_destroy M (suc fuel) p s ≡ fault
  unfolding rcu_list_destroy kfree after tick
  rcu_list_destroy_lem =
      let no : (p == null) ≡ false = ground arith in
      rw (no, load-ok M s p (λ m. m.p_next) n there, load-fault M after p (λ m. m.p_next) not_there)
        refl

  -- `rcx_list_destroy` of a list with a first node reads that node after it has freed it, also when
  -- no other thread runs.
  pub rcx_list_destroy_lem : rcx_list_destroy M (suc fuel) p s ≡ fault
  unfolding rcx_list_destroy kfree after tick
  rcx_list_destroy_lem =
      let no : (p == null) ≡ false = ground arith in
      rw (no, load-ok M s p (λ m. m.p_next) n there, load-fault M after p (λ m. m.p_next) not_there)
        refl
