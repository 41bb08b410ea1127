-- ===== src/Rlu/WriteSet/AllSets.antt =====
-- The write-back of all write sets that a thread has committed.
use rcx_hashtables.Base.{
  ℕ, zero, suc, ◌+◌, ◌≤◌, ◌<◌, ◌≡◌, refl, arith, some, Bool-cases, inl, inr, ◌==◌, eq_of_==, ◌∙◌,
}
use rcx_hashtables.Rlu.{obj, unlocked, locked, Object, Slot, State, ws_index}
use rcx_hashtables.Rlu.Ends
use rcx_hashtables.Rlu.Ends.{returns, Returns}
use rcx_hashtables.Rlu.WriteSet.{writeback_sets}
use rcx_hashtables.Rlu.WriteSet.Layout.{Heap, Row, Row-mono, Laid-frame}
use rcx_hashtables.Rlu.WriteSet.Writeback.{
  IsLaid, OnlyLocked, with_heap, rlu_writeback_write_set_lem,
}

-- Two counters less than 200 apart have different write sets.
pub ws_index-differs : (i c : ℕ) → c < i → i < c + 200 → ws_index i ≡ ws_index c → ⊥
ws_index-differs i c lt near e = omega (arith, lt, near, e)

-- The write sets of `count` counters from `c` on are laid out.
abbrev pub AllLaid : (c count : ℕ) → State → Type 0
AllLaid c count s = (i : ℕ) → c ≤ i → i < c + count → IsLaid (ws_index i) s

-- The object of a slot is unlocked and has the content of the copy.
abbrev pub Written : Heap → ℕ → Slot → ℕ → Type 0
Written g at k a =
    (k.p_obj_actual ≡ obj a) × (g a ≡ some (record { p_obj_copy = unlocked; item = k.item }))

-- The objects of these write sets are unlocked in `g` and have the content of their copies.
pub record Wrote (c count : ℕ) (s s' : State) : Type 0 where
  pub g : Heap
  pub state : s' ≡ with_heap s g
  pub changes :
      (i : ℕ)
      → c ≤ i
      → i < c + count
      → Row
          (s.self.obj_write_set (ws_index i)).buffer
          (Written g)
          (s.self.obj_write_set (ws_index i)).num_of_objs
          0
          (s.self.obj_write_set (ws_index i)).p_cur
  pub only :
      (a : ℕ)
      → ((o : Object) (w at : ℕ)
          → s.heap a ≡ some o
          → o.p_obj_copy ≡ locked s.self.uniq_id w at
          → ⊥)
      → g a ≡ s.heap a

-- The write-back of set `c` leaves the sets behind it laid out.
AllLaid-rest :
    (c count : ℕ) (s : State) (g : Heap)
    → suc count ≤ 200
    → AllLaid c (suc count) s
    → OnlyLocked s.self.uniq_id (ws_index c) 0 s.heap g
    → AllLaid (suc c) count (with_heap s g)
AllLaid-rest c count s g few laid only i le lt =
    Laid-frame g (laid i (omega (arith, le)) (omega (arith, lt))) λ a o at e f _.
      only a (λ o' at' e' f' _.
        let same : o ≡ o' = ground (arith, e, e') in
        ws_index-differs i c (omega (arith, le)) (omega (arith, lt, few))
          (ground (arith, f, f', same)))
      ∙ e

pub writeback_sets-Wrote :
    (count c : ℕ) (s : State)
    → count ≤ 200
    → AllLaid c count s
    → Returns (λ _ s'. Wrote c count s s') (writeback_sets count c s)
unfolding writeback_sets
writeback_sets-Wrote zero c s few laid = returns (record {
  g = s.heap;
  state = refl;
  changes = λ i le lt. absurd (omega (arith, le, lt));
  only = λ a f. refl;
})
writeback_sets-Wrote (suc count) c s few laid =
    Ends.bind (rlu_writeback_write_set_lem c s (laid c (omega arith) (omega arith))) λ x s1 swept.
      rw (swept.state) (
        Ends.mono
          (writeback_sets-Wrote count (suc c) (with_heap s swept.g) (omega (arith, few))
            (AllLaid-rest c count s swept.g few laid swept.only))
          λ y s2 rest. record {
            g = rest.g;
            state = rest.state;
            changes = λ i le lt. elim (Bool-cases (i == c)) [
              | inl same ↦ rw (eq_of_== i c same) (
                  Row-mono (Written rest.g) swept.changes λ at k a le (l, e).
                    (l.actual, rest.only a (λ o w at' e' f'. ground (arith, e, e', f')) ∙ e))
              | inr other ↦ rest.changes i (ground (arith, le, other)) (omega (arith, lt))
            ];
            only = λ a free.
                let kept : swept.g a ≡ s.heap a =
                  swept.only a (λ o at e f le. free o (ws_index c) at e f) in
                rest.only a (λ o w at e f. free o w at (ground (arith, kept, e)) f) ∙ kept;
          })
