-- ===== src/Rlu/Readers/Pair.antt =====
-- The write set of an insertion: the copies of two neighbours, the first of which leads to a new node.
pub mod Written
pub mod Removed
use mathlib.Core.Path.{subst}
use rcx_hashtables.Base.{
  sym, ℕ, suc, ◌+◌, ◌≡◌, refl, Bool, true, false, arith, Option, some, none, Bool-cases, inl, inr,
  ◌==◌, ==-refl, eq_of_==, ap, ◌∙◌, if◌then◌else◌, [],
}
use rcx_hashtables.Rlu.{
  obj, unlocked, id_obj_copy, locked, Object, Slot, ObjList, State, write, with_slot, Ref, Thread,
  with_ws,
}
use rcx_hashtables.Rlu.Lists.{node_size}
use rcx_hashtables.Rlu.WriteSet.{align_obj_size}
use rcx_hashtables.Rlu.WriteSet.Layout.{
  headers_size, Heap, Buffer, LocksObject, Row, slot, stop, Laid,
}
use rcx_hashtables.Rlu.WriteSet.Writeback.{IsLaid}
use rcx_hashtables.Rlu.WriteSet.Flush.{IsEmpty}
use rcx_hashtables.Rlu.Readers.Lock.{add_slot, next_at, slot_for, locking}
use rcx_hashtables.Rlu.Readers.Insert.{inserted}

-- Two objects of the size of a node, from an empty buffer on.
two_slots-Laid :
    {me w : ℕ} (b : Buffer) (h : Heap) (k k' : Slot) (a a' at at' n q : ℕ)
    → at ≡ 40
    → at' ≡ 1104
    → n ≡ 2
    → q ≡ 2128
    → b at ≡ some k
    → k.obj_size ≡ 1024
    → LocksObject me w h at k a
    → b at' ≡ some k'
    → k'.obj_size ≡ 1024
    → LocksObject me w h at' k' a'
    → Laid me w b h n 0 q
two_slots-Laid {me} {w} b h k k' a a' at at' n q at-eq at'-eq n-eq q-eq e z l e' z' l' =
    let e40 : b 40 ≡ some k = rw at-eq at e in
    let l40 : LocksObject me w h 40 k a = rw at-eq at l in
    let e1104 : b 1104 ≡ some k' = rw at'-eq at e' in
    let l1104 : LocksObject me w h 1104 k' a' = rw at'-eq at l' in
    rw (n-eq, q-eq) (slot k a e40 l40 (rw z (slot k' a' e1104 l1104 (rw z' stop))))

-- The same row read back.
two_slots-Row :
    {b : Buffer} {P : ℕ → Slot → ℕ → Type 0} (k k' : Slot) {q : ℕ}
    → b 40 ≡ some k
    → k.obj_size ≡ 1024
    → b 1104 ≡ some k'
    → Row b P 2 0 q
    → (a : ℕ) × (a' : ℕ) × P 40 k a × P 1104 k' a'
two_slots-Row {b} {P} k k' e z e' (slot x a f p (slot x' a' f' p' rest)) =
    let same : x ≡ k = cc (e, f) in
    let size : x.obj_size ≡ 1024 = ap (λ y. y.obj_size) same ∙ z in
    let off : 0 + headers_size + align_obj_size x.obj_size + headers_size ≡ 1104 =
      ap (λ n. 0 + headers_size + align_obj_size n + headers_size) size in
    let here : b 1104 ≡ some x' = ap b (sym off) ∙ f' in
    let same' : x' ≡ k' = cc (e', here) in
    let there : P 1104 x' a' = subst (λ n. P n x' a') off p' in
    (a, a', subst (λ y. P 40 y a) same p, subst (λ y. P 1104 y a') same' there)

two_slots-Row_at :
    (b : Buffer) {P : ℕ → Slot → ℕ → Type 0} (k k' : Slot) (at at' n : ℕ) {q : ℕ}
    → at ≡ 40
    → at' ≡ 1104
    → n ≡ 2
    → b at ≡ some k
    → k.obj_size ≡ 1024
    → b at' ≡ some k'
    → Row b P n 0 q
    → (a : ℕ) × (a' : ℕ) × P 40 k a × P 1104 k' a'
two_slots-Row_at b k k' at at' n at-eq at'-eq n-eq e z e' row =
    two_slots-Row k k' (ap b (sym at-eq) ∙ e) z (ap b (sym at'-eq) ∙ e') (rw n-eq at row)

module _ (s : State) (a b : ℕ) (o o' : Object) (apart : (a == b) ≡ false)
    (empty : IsEmpty (s.self.obj_write_set s.self.ws_cur_id)) where
  abbrev pub first : State
  first = locking s a node_size o

  abbrev pub both : State
  both = locking first b node_size o'

  abbrev set : ObjList
  set = s.self.obj_write_set s.self.ws_cur_id

  abbrev pub k : Slot
  k = slot_for s a node_size o.item

  abbrev pub k' : Slot
  k' = slot_for first b node_size o'.item

  pub at-first : next_at s ≡ 40
  at-first = omega (arith, empty.p_cur)

  pub set-first : first.self.obj_write_set s.self.ws_cur_id ≡ add_slot (next_at s) k set
  set-first = rw (==-refl s.self.ws_cur_id) refl

  pub at-second : next_at first ≡ 1104
  at-second = omega (arith, ap (λ w. w.p_cur) set-first, empty.p_cur)

  pub set-both :
      both.self.obj_write_set s.self.ws_cur_id
      ≡ add_slot (next_at first) k' (add_slot (next_at s) k set)
  set-both = rw (==-refl s.self.ws_cur_id) refl

  pub there-first : (both.self.obj_write_set s.self.ws_cur_id).buffer (next_at s) ≡ some k
  there-first =
      let differs : (next_at s == next_at first) ≡ false = ground (arith, at-first, at-second) in
      ap (λ w. w.buffer (next_at s)) set-both ∙ rw (differs, ==-refl (next_at s)) refl

  pub there-second : (both.self.obj_write_set s.self.ws_cur_id).buffer (next_at first) ≡ some k'
  there-second = ap (λ w. w.buffer (next_at first)) set-both ∙ rw (==-refl (next_at first)) refl

  pub lock-first :
      both.heap a
      ≡ some (record o { p_obj_copy = locked s.self.uniq_id s.self.ws_cur_id (next_at s) })
  lock-first = rw (apart, ==-refl a) refl

  pub lock-second :
      both.heap b
      ≡ some (record o' { p_obj_copy = locked s.self.uniq_id s.self.ws_cur_id (next_at first) })
  lock-second = rw (==-refl b) refl

  -- The thread when the copy of the first object leads to `p`.
  module _ (p : Ref) where
    abbrev pub linked : Slot
    linked = record k { item = record (k.item) { p_next = p } }

    abbrev pub relinked : Thread
    relinked = with_ws s.self.ws_cur_id (with_slot (next_at s) linked) both.self

    abbrev pub pair_set : ObjList
    pair_set = relinked.obj_write_set s.self.ws_cur_id

    pair_set_lem :
        pair_set ≡ with_slot (next_at s) linked (both.self.obj_write_set s.self.ws_cur_id)
    pair_set_lem = rw (==-refl s.self.ws_cur_id) refl

    -- The other sets are as before.
    pub other-pair :
        (w : ℕ)
        → (w == s.self.ws_cur_id) ≡ false
        → relinked.obj_write_set w ≡ s.self.obj_write_set w
    other-pair w ne = rw ne refl

    count-pair : pair_set.num_of_objs ≡ 2
    count-pair =
        ap (λ w. w.num_of_objs) pair_set_lem
        ∙ ap (λ w. w.num_of_objs) set-both
        ∙ omega (arith, empty.num_of_objs)

    pub locks-pair : pair_set.writer_locks ≡ []
    locks-pair =
        ap (λ w. w.writer_locks) pair_set_lem
        ∙ ap (λ w. w.writer_locks) set-both
        ∙ empty.writer_locks

    linked-there : pair_set.buffer (next_at s) ≡ some linked
    linked-there = ap (λ w. w.buffer (next_at s)) pair_set_lem ∙ rw (==-refl (next_at s)) refl

    pub second-there : pair_set.buffer (next_at first) ≡ some k'
    second-there =
        let differs : (next_at first == next_at s) ≡ false = ground (arith, at-first, at-second) in
        ap (λ w. w.buffer (next_at first)) pair_set_lem ∙ rw differs there-second

    -- What a row of the set says of the two objects.
    pub pair-Row :
        {P : ℕ → Slot → ℕ → Type 0} {q : ℕ}
        → Row pair_set.buffer P pair_set.num_of_objs 0 q
        → (x : ℕ) × (y : ℕ) × P 40 linked x × P 1104 k' y
    pair-Row row =
        two_slots-Row_at pair_set.buffer linked k' (next_at s) (next_at first) pair_set.num_of_objs
          at-first at-second count-pair linked-there refl second-there row

    -- In a heap where the two objects are still locked.
    pub pair-IsLaid :
        (h : Heap)
        → h a ≡ some (record o { p_obj_copy = locked s.self.uniq_id s.self.ws_cur_id (next_at s) })
        → h b
          ≡ some (record o' { p_obj_copy = locked s.self.uniq_id s.self.ws_cur_id (next_at first) })
        → Laid s.self.uniq_id s.self.ws_cur_id pair_set.buffer h pair_set.num_of_objs 0
            pair_set.p_cur
    pair-IsLaid h e e' =
        two_slots-Laid pair_set.buffer h linked k' a b (next_at s) (next_at first)
          pair_set.num_of_objs pair_set.p_cur at-first at-second count-pair
          (ap (λ w. w.p_cur) pair_set_lem
            ∙ ap (λ w. w.p_cur) set-both
            ∙ ap (λ n. n + align_obj_size node_size) at-second)
          linked-there refl
          (record {
            o = record o { p_obj_copy = locked s.self.uniq_id s.self.ws_cur_id (next_at s) };
            header = refl;
            actual = refl;
            owner = refl;
            there = e;
            leads = refl;
          })
          second-there refl
          (record {
            o = record o' { p_obj_copy = locked s.self.uniq_id s.self.ws_cur_id (next_at first) };
            header = refl;
            actual = refl;
            owner = refl;
            there = e';
            leads = refl;
          })

  module _ (c val : ℕ) (new : both.heap c ≡ none) where
    -- The state with a new node at `c`.
    abbrev pub full : State
    full = inserted both s.self.ws_cur_id (next_at s) k b c val

    new-first : (a == c) ≡ false
    new-first = elim (Bool-cases (a == c)) [
      | inl same ↦ absurd (ground (arith, lock-first, new, eq_of_== a c same))
      | inr other ↦ other
    ]

    new-second : (b == c) ≡ false
    new-second = elim (Bool-cases (b == c)) [
      | inl same ↦ absurd (ground (arith, lock-second, new, eq_of_== b c same))
      | inr other ↦ other
    ]

    pub full-IsLaid : IsLaid s.self.ws_cur_id full
    full-IsLaid =
        pair-IsLaid (obj c) full.heap (rw new-first lock-first) (rw new-second lock-second)
