-- ===== src/Rlu/Readers/Insert.antt =====
-- A new node between two locked ones.
use rcx_hashtables.Base.{
  ℕ, ◌≤◌, ◌≡◌, arith, Bool-cases, inl, inr, eq_of_==, refl, false, Option, some, none, ◌==◌,
  ==-refl, ap, ◌∙◌,
}
use rcx_hashtables.Rlu.{
  Ref, null, obj, copy, unlocked, id_obj_copy, Item, Object, Slot, State, Env, ok, write, with_ws,
  with_slot, get_copy, get_actual, force_actual, store_item, store_object, put_item, store_slot,
}
use rcx_hashtables.Rlu.Objects.{rlu_assign_pointer, actual_or_null}
use rcx_hashtables.Rlu.Objects.Lock.{write_self}
use rcx_hashtables.Rlu.Section.{rlu_alloc}
use rcx_hashtables.Rlu.WriteSet.Layout.{Heap}
use rcx_hashtables.Rlu.WriteSet.Writeback.{with_heap, write-write}
use rcx_hashtables.Rlu.Lists.{rlu_new_node, insert_node}

-- The state with the new node at `c`, to which the copy in slot `at` leads.
abbrev pub inserted : State → (w at : ℕ) → Slot → (b c val : ℕ) → State
inserted s w at k b c val = record s {
  heap =
      write s.heap c
        (some (record { p_obj_copy = unlocked; item = record { val = val; p_next = obj b } }));
  self = with_ws w (with_slot at (record k { item = record (k.item) { p_next = obj c } })) s.self;
}

store_item-at :
    (s : State) (a : ℕ) (f : Item → Item) (o : Object)
    → s.heap a ≡ some o
    → store_item (obj a) f s
      ≡ ok tt (with_heap s (write s.heap a (some (record o { item = f o.item }))))
unfolding store_item store_object
store_item-at s a f o e = rw e refl

-- A new object that is not in the heap.
abbrev pub Fresh : Env → State → Type 0
Fresh E s = ((E.malloc s == 0) ≡ false) × (s.heap (E.malloc s) ≡ none)

-- The objects of the heap have addresses below `n`.
abbrev pub HasRoom : ℕ → Heap → Type 0
HasRoom n h = (x : ℕ) → n ≤ x → h x ≡ none

-- The allocator gives an unused address while this is so.
abbrev pub Allocates : ℕ → Env → Type 0
Allocates n E = (s : State) → HasRoom n s.heap → Fresh E s

-- A write to an object that is in the heap.
pub HasRoom-write :
    (n : ℕ) (h : Heap) (a : ℕ) (o o' : Object)
    → h a ≡ some o
    → HasRoom n h
    → HasRoom n (write h a (some o'))
HasRoom-write n h a o o' e free = λ x le. elim (Bool-cases (x == a)) [
  | inl same ↦ absurd (ground (arith, e, free x le, eq_of_== x a same))
  | inr other ↦ rw other (free x le)
]

module _ (s : State) (w at : ℕ) (k : Slot)
    (there : (s.self.obj_write_set w).buffer at ≡ some k) where
  pub force_actual-copy :
      k.p_obj_copy ≡ id_obj_copy → force_actual (copy s.self.uniq_id w at) s ≡ ok k.p_obj_actual s
  unfolding force_actual get_copy get_actual
  force_actual-copy header =
      rw (==-refl s.self.uniq_id, there, header) (rw (==-refl s.self.uniq_id, there) refl)

  pub store_item-copy :
      (f : Item → Item)
      → store_item (copy s.self.uniq_id w at) f s
        ≡ ok tt (record s { self = with_ws w (with_slot at (record k { item = f k.item })) s.self })
  unfolding store_item put_item store_slot
  store_item-copy f = rw (==-refl s.self.uniq_id, there) refl

pub force_actual-unlocked :
    (s : State) (a : ℕ) (o : Object)
    → s.heap a ≡ some o
    → o.p_obj_copy ≡ unlocked
    → force_actual (obj a) s ≡ ok (obj a) s
unfolding force_actual get_copy
force_actual-unlocked s a o e free = rw (e, free) refl

module _ (E : Env) (s : State) (w at at' b val : ℕ) (k k' : Slot) (fresh : Fresh E s)
    (there : (s.self.obj_write_set w).buffer at ≡ some k)
    (there' : (s.self.obj_write_set w).buffer at' ≡ some k') (header' : k'.p_obj_copy ≡ id_obj_copy)
    (actual' : k'.p_obj_actual ≡ obj b) where
  abbrev c : ℕ
  c = E.malloc s

  -- The state with an object at `c`.
  abbrev made : ℕ → Ref → State
  made v q = with_heap s (
      write s.heap c
        (some (record { p_obj_copy = unlocked; item = record { val = v; p_next = q } })))

  new_node-made : rlu_new_node E s ≡ ok (obj c) (made 0 null)
  unfolding rlu_new_node rlu_alloc
  new_node-made = let (some_memory, free) = fresh in rw some_memory refl

  store-made :
      (v : ℕ) (q : Ref) (f : Item → Item)
      → store_item (obj c) f (made v q)
        ≡ ok tt (
            made
              (f (record { val = v; p_next = q })).val
              (f (record { val = v; p_next = q })).p_next)
  store-made v q f =
      let o : Object = record { p_obj_copy = unlocked; item = record { val = v; p_next = q } } in
      store_item-at (made v q) c f o (write_self s.heap c (some o))
      ∙ ap {A = ℕ → Option Object} (λ h. ok tt (with_heap s h))
          (write-write s.heap c (some o) (some (record o { item = f o.item })))

  pub insert_node-inserted :
      insert_node E
        (record { prev = copy s.self.uniq_id w at; next = copy s.self.uniq_id w at' })
        val
        s
      ≡ ok tt (inserted s w at k b (E.malloc s) val)
  unfolding insert_node rlu_assign_pointer actual_or_null
  insert_node-inserted =
      rw
        (
          new_node-made,
          store-made 0 null (λ i. record i { val = val }),
          force_actual-copy (made val null) w at' k' there' header',
          actual',
          store-made val null (λ i. record i { p_next = obj b }),
          force_actual-unlocked (made val (obj b)) c _ (write_self s.heap c (some _)) refl,
          store_item-copy (made val (obj b)) w at k there (λ i. record i { p_next = obj c }),
        )
        refl
