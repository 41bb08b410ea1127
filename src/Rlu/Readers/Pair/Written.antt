-- ===== src/Rlu/Readers/Pair/Written.antt =====
-- The objects of an insertion after the write-back.
use rcx_hashtables.Base.{
  ℕ, ◌≡◌, false, arith, some, none, Bool-cases, inl, inr, ◌==◌, eq_of_==, ◌∙◌,
}
use rcx_hashtables.Rlu.{obj, unlocked, locked, Object, State}
use rcx_hashtables.Rlu.Objects.Lock.{write_self}
use rcx_hashtables.Rlu.WriteSet.Layout.{Heap, Row}
use rcx_hashtables.Rlu.WriteSet.AllSets.{Written}
use rcx_hashtables.Rlu.WriteSet.Flush.{IsEmpty}
use rcx_hashtables.Rlu.Readers.Cells.Insert.{Inserts}
use rcx_hashtables.Rlu.Readers.Pair.{both, full, pair_set, pair-Row}

module _ (s : State) (a b : ℕ) (o o' : Object) (apart : (a == b) ≡ false)
    (empty : IsEmpty (s.self.obj_write_set s.self.ws_cur_id)) (c val : ℕ)
    (new : (both s a b o o' apart empty).heap c ≡ none) (there : s.heap a ≡ some o)
    (there' : s.heap b ≡ some o') (free : o.p_obj_copy ≡ unlocked)
    (free' : o'.p_obj_copy ≡ unlocked) (g : Heap) {q : ℕ}
    (row : Row
      (pair_set s a b o o' apart empty (obj c)).buffer
      (Written g)
      (pair_set s a b o o' apart empty (obj c)).num_of_objs
      0
      q)
    (only : (x : ℕ)
      → ((y : Object) (w at : ℕ)
          → (full s a b o o' apart empty c val new).heap x ≡ some y
          → y.p_obj_copy ≡ locked s.self.uniq_id w at
          → ⊥)
      → g x ≡ (full s a b o o' apart empty c val new).heap x) where
  other_kept :
      (z : ℕ) (z' : Object)
      → (g b ≡ some (record { p_obj_copy = unlocked; item = o'.item }))
      → s.heap z ≡ some z'
      → z'.p_obj_copy ≡ unlocked
      → (z == a) ≡ false
      → g z ≡ some z'
  other_kept z z' e f u ne = elim (Bool-cases (z == b)) [
    | inl same ↦ ground (arith, e, f, there', free', u, eq_of_== z b same)
    | inr ne' ↦
        let kept : (both s a b o o' apart empty).heap z ≡ some z' = rw (ne', ne) f in
        let old : (z == c) ≡ false = elim (Bool-cases (z == c)) [
          | inl same ↦ absurd (ground (arith, kept, new, eq_of_== z c same))
          | inr differs ↦ differs
        ] in
        let still : (full s a b o o' apart empty c val new).heap z ≡ some z' = rw old kept in
        only z (λ y w at e f. ground (arith, e, f, still, u)) ∙ still
  ]

  pub Written-Inserts : Inserts s.heap g val a b c
  Written-Inserts =
      let (x, y, (to, e), (to', e')) = pair-Row s a b o o' apart empty (obj c) row in
      record {
        before = λ z f u. ground (arith, e, to, f, there, free, u);
        new =
            only c (λ y w at f l. ground (
              arith,
              f,
              l,
              write_self (both s a b o o' apart empty).heap c (
                  some (record {
                    p_obj_copy = unlocked;
                    item = record { val = val; p_next = obj b };
                  })),
            ))
            ∙ write_self (both s a b o o' apart empty).heap c (
                some
                  (record { p_obj_copy = unlocked; item = record { val = val; p_next = obj b } }));
        others = λ z z' f u ne. other_kept z z' (ground (arith, to', e')) f u ne;
      }
