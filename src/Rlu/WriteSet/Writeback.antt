-- ===== src/Rlu/WriteSet/Writeback.antt =====
-- The write-back of a write set, and the unlocking of an abort.
use mathlib.Core.Path.{fun_ext}
use rcx_hashtables.Base.{
  ℕ, zero, suc, ◌+◌, ◌≤◌, ◌≡◌, refl, true, false, some, arith, Bool-cases, inl, inr, ◌==◌, ==-refl,
  eq_of_==, ◌∙◌,
}
use rcx_hashtables.Rlu.{
  ok, obj, unlocked, locked, Item, Object, Slot, State, write, ws_index, get_copy, get_slot,
  store_object,
}
use rcx_hashtables.Rlu.Ends
use rcx_hashtables.Rlu.Ends.{Ends, returns, Returns}
use rcx_hashtables.Rlu.WriteSet.{
  own_slot, get_thread_id, unlock, writeback_objs, rlu_writeback_write_set, unlock_objs,
  rlu_unlock_objs, align_obj_size, same_header,
}
use rcx_hashtables.Rlu.WriteSet.Layout.{
  headers_size, Heap, Buffer, LocksObject, Row, Row-mono, Laid, stop, slot, Laid-frame, Spares,
  write-Spares,
}

-- Each slot of the row has locked an object, which is `new` in `g`.
abbrev pub Changes :
    (me w : ℕ) (b : Buffer) (h g : Heap) (new : Slot → Object → Object) (count p_cur end : ℕ)
    → Type 0
Changes me w b h g new =
    Row b (λ at k a. (l : LocksObject me w h at k a) × (g a ≡ some (new k l.o)))

-- `g` differs from `h` only at objects that the thread locks by slots of `w` from `p` on.
abbrev pub OnlyLocked : (me w p : ℕ) (h g : Heap) → Type 0
OnlyLocked me w p h g =
    (a : ℕ)
    → ((o : Object) (at : ℕ)
        → h a ≡ some o
        → o.p_obj_copy ≡ locked me w at
        → p + headers_size ≤ at
        → ⊥)
    → g a ≡ h a

-- The state with another heap.
abbrev pub with_heap : State → Heap → State
with_heap s g = record s { heap = g }

pub store_object-at :
    (s : State) (a : ℕ) (f : Object → Object) (o : Object)
    → s.heap a ≡ some o
    → store_object (obj a) f s ≡ ok tt (with_heap s (write s.heap a (some (f o))))
unfolding store_object
store_object-at s a f o e = rw e refl

-- The locks of the slots behind, after the first object has become `o'`, which is unlocked.
module _ {me w a : ℕ} {h : Heap} {k : Slot} (p : ℕ) (l : LocksObject me w h (p + headers_size) k a)
    (o' : Object) (free : o'.p_obj_copy ≡ unlocked) where
  Spares-rest : (n : ℕ) → Spares me w (p + headers_size + n) h (write h a (some o'))
  Spares-rest n = write-Spares (p + headers_size + n) h (some o') l.there l.leads (λ _. omega arith)

  OnlyLocked-cons :
      {g : Heap} (n : ℕ)
      → OnlyLocked me w (p + headers_size + n) (write h a (some o')) g
      → OnlyLocked me w p h g
  OnlyLocked-cons {g} n only x not_locked =
      let ne : (x == a) ≡ false = elim (Bool-cases (x == a)) [
        | inl same ↦ absurd (
            not_locked l.o (p + headers_size) (ground (arith, eq_of_== x a same, l.there)) l.leads
              (omega arith))
        | inr other ↦ other
      ] in
      let kept : write h a (some o') x ≡ h x = rw ne refl in
      only x (λ o at e f le. not_locked o at (ground (arith, e, kept)) f (omega (arith, le))) ∙ kept

  -- `a` is as the first slot has left it.
  OnlyLocked-first :
      {g : Heap} (n : ℕ)
      → OnlyLocked me w (p + headers_size + n) (write h a (some o')) g
      → g a ≡ some o'
  OnlyLocked-first n only =
      let here : write h a (some o') a ≡ some o' = rw (==-refl a) refl in
      only a (λ o at e f le. absurd (ground (arith, e, here, f, free))) ∙ here

  Changes-rest :
      {b : Buffer} {g : Heap} (new : Slot → Object → Object) {m n q : ℕ}
      → Changes me w b (write h a (some o')) g new m n q
      → Changes me w b h g new m n q
  Changes-rest {b} {g} new row =
      Row-mono (λ at x c. (l' : LocksObject me w h at x c) × (g c ≡ some (new x l'.o))) row
        λ at x c le (l', e).
          let ne : (c == a) ≡ false = elim (Bool-cases (c == a)) [
            | inl same ↦ absurd (ground (arith, l'.there, l'.leads, free, same))
            | inr other ↦ other
          ] in
          let same : h c ≡ some l'.o = ground (arith, l'.there, ne) in
          (
            record {
              o = l'.o;
              header = l'.header;
              actual = l'.actual;
              owner = l'.owner;
              there = same;
              leads = l'.leads;
            },
            e,
          )

-- What a loop over the slots of `w` has done when it ends: it has reached the end of the row, it has
-- changed nothing but the heap, and there nothing but the objects of the row.
pub record Swept (w : ℕ) (s : State) (new : Slot → Object → Object) (n p q : ℕ) (s' : State)
    : Type 0 where
  pub g : Heap
  pub state : s' ≡ with_heap s g
  pub changes : Changes s.self.uniq_id w (s.self.obj_write_set w).buffer s.heap g new n p q
  pub only : OnlyLocked s.self.uniq_id w p s.heap g

Swept-stop : (w : ℕ) (s : State) (new : Slot → Object → Object) (p : ℕ) → Swept w s new 0 p p s
Swept-stop w s new p = record { g = s.heap; state = refl; changes = stop; only = λ a f. refl }

Swept-slot :
    {w a : ℕ} {s s' : State} (new : Slot → Object → Object) {n q : ℕ} (p : ℕ) (k : Slot)
    → (s.self.obj_write_set w).buffer (p + headers_size) ≡ some k
    → (l : LocksObject s.self.uniq_id w s.heap (p + headers_size) k a)
    → (new k l.o).p_obj_copy ≡ unlocked
    → Swept w
        (with_heap s (write s.heap a (some (new k l.o))))
        new
        n
        (p + headers_size + align_obj_size k.obj_size)
        q
        s'
    → Swept w s new (suc n) p q s'
Swept-slot {a} new p k at l free swept =
    let n' : ℕ = align_obj_size k.obj_size in
    record {
      g = swept.g;
      state = swept.state;
      changes =
          slot k a at (l, OnlyLocked-first p l (new k l.o) free n' swept.only)
            (Changes-rest p l (new k l.o) free new swept.changes);
      only = OnlyLocked-cons p l (new k l.o) free n' swept.only;
    }

abbrev pub written : Slot → Object → Object
written k o = record { p_obj_copy = unlocked; item = k.item }

abbrev pub dropped : Slot → Object → Object
dropped k o = record { p_obj_copy = unlocked; item = o.item }

pub write-write : {A : Type 0} (h : ℕ → A) (a : ℕ) (x y : A) → write (write h a x) a y ≡ write h a y
write-write h a x y =
    fun_ext λ j. elim (Bool-cases (j == a)) [ inl same ↦ rw same refl | inr other ↦ rw other refl ]

own_slot-at :
    (s : State) (w p : ℕ) (k : Slot)
    → (s.self.obj_write_set w).buffer (p + headers_size) ≡ some k
    → own_slot w p s ≡ ok k s
unfolding own_slot
own_slot-at s w p k e = rw e refl

module _ (s : State) (w at a : ℕ) (k : Slot) (e : (s.self.obj_write_set w).buffer at ≡ some k)
    (l : LocksObject s.self.uniq_id w s.heap at k a) where
  get_copy-own : get_copy (obj a) s ≡ ok (locked s.self.uniq_id w at) s
  unfolding get_copy
  get_copy-own = rw (l.there, l.leads) refl

  get_slot-own : get_slot (locked s.self.uniq_id w at) s ≡ ok k s
  unfolding get_slot
  get_slot-own = rw (==-refl s.self.uniq_id, e) refl

  get_thread_id-own : get_thread_id (obj a) s ≡ ok s.self.uniq_id s
  unfolding get_thread_id
  get_thread_id-own = rw (get_copy-own, get_slot-own, l.owner) refl

-- The lock stays while the object's content is written.
LocksObject-write :
    {me w at a : ℕ} {h : Heap} {k : Slot} (i : Item) (l : LocksObject me w h at k a)
    → LocksObject me w (write h a (some (record (l.o) { item = i }))) at k a
LocksObject-write {a} {h} i l = record {
  o = record (l.o) { item = i };
  header = l.header;
  actual = l.actual;
  owner = l.owner;
  there = rw (==-refl a) refl;
  leads = l.leads;
}

-- The loop over a laid row returns: it puts every copy into its object and unlocks the object.
writeback_objs-Swept :
    (n w p q : ℕ) (s : State)
    → Laid s.self.uniq_id w (s.self.obj_write_set w).buffer s.heap n p q
    → Returns (λ r s'. (r ≡ q) × Swept w s written n p q s') (writeback_objs n w p s)
unfolding writeback_objs unlock LocksObject-write
writeback_objs-Swept zero w p q s stop = returns (refl, Swept-stop w s written p)
writeback_objs-Swept (suc m) w p q s (slot k a at l rest) =
    let h1 : Heap = write s.heap a (some (record (l.o) { item = k.item })) in
    let l1 = LocksObject-write k.item l in
    rw
      (
        own_slot-at s w p k at,
        l.header,
        l.actual,
        store_object-at s a (λ o. record o { item = k.item }) l.o l.there,
        get_thread_id-own (with_heap s h1) w (p + headers_size) a k at l1,
        ==-refl s.self.uniq_id,
        store_object-at (with_heap s h1) a (λ o. record o { p_obj_copy = unlocked }) l1.o l1.there,
        write-write s.heap a (some l1.o) (some (written k l.o)),
      )
      (Ends.mono
        (writeback_objs-Swept m w (p + headers_size + align_obj_size k.obj_size) q
          (with_heap s (write s.heap a (some (written k l.o))))
          (Laid-frame (write s.heap a (some (written k l.o))) rest
            (Spares-rest p l (written k l.o) refl (align_obj_size k.obj_size))))
        λ r s' (e, swept). (e, Swept-slot written p k at l refl swept))

-- The objects of write set `w` of the running thread are laid out in its buffer, and locked by it.
abbrev pub IsLaid : ℕ → State → Type 0
IsLaid w s =
    Laid s.self.uniq_id w (s.self.obj_write_set w).buffer s.heap
      (s.self.obj_write_set w).num_of_objs 0 (s.self.obj_write_set w).p_cur

abbrev pub SweptSet : (w : ℕ) → State → (Slot → Object → Object) → State → Type 0
SweptSet w s new s' =
    Swept w s new (s.self.obj_write_set w).num_of_objs 0 (s.self.obj_write_set w).p_cur s'

-- The write-back of a write set whose objects are laid out and locked returns, and no assertion of
-- it fails. Every object of the set has the content of its copy and is unlocked; all other objects
-- and the rest of the state are as before.
pub rlu_writeback_write_set_lem :
    (c : ℕ) (s : State)
    → IsLaid (ws_index c) s
    → Returns (λ _ s'. SweptSet (ws_index c) s written s') (rlu_writeback_write_set c s)
unfolding rlu_writeback_write_set
rlu_writeback_write_set_lem c s laid =
    Ends.bind
      (writeback_objs-Swept (s.self.obj_write_set (ws_index c)).num_of_objs (ws_index c) 0
        (s.self.obj_write_set (ws_index c)).p_cur s laid)
      λ r s' (e, swept). rw (e, ==-refl (s.self.obj_write_set (ws_index c)).p_cur) (returns swept)

pub same_header_refl : (t w o : ℕ) → same_header (locked t w o) (locked t w o) ≡ true
same_header_refl t w o = rw (==-refl t, ==-refl w, ==-refl o) refl

unlock_objs-Swept :
    (n w p q : ℕ) (s : State)
    → Laid s.self.uniq_id w (s.self.obj_write_set w).buffer s.heap n p q
    → Returns (λ _ s'. Swept w s dropped n p q s') (unlock_objs n w p s)
unfolding unlock_objs unlock
unlock_objs-Swept zero w p q s stop = returns (Swept-stop w s dropped p)
unlock_objs-Swept (suc m) w p q s (slot k a at l rest) =
    rw
      (
        own_slot-at s w p k at,
        l.header,
        l.actual,
        get_copy-own s w (p + headers_size) a k at l,
        same_header_refl s.self.uniq_id w (p + headers_size),
        store_object-at s a (λ o. record o { p_obj_copy = unlocked }) l.o l.there,
      )
      (Ends.mono
        (unlock_objs-Swept m w (p + headers_size + align_obj_size k.obj_size) q
          (with_heap s (write s.heap a (some (dropped k l.o))))
          (Laid-frame (write s.heap a (some (dropped k l.o))) rest
            (Spares-rest p l (dropped k l.o) refl (align_obj_size k.obj_size))))
        λ r s' swept. Swept-slot dropped p k at l refl swept)

-- The same without the end: an attempt to lock that failed has left headers behind the last slot.
pub record IsHeld (w : ℕ) (s : State) : Type 0 where
  pub end : ℕ
  pub laid :
      Laid s.self.uniq_id w
        (s.self.obj_write_set w).buffer
        s.heap
        (s.self.obj_write_set w).num_of_objs
        0
        end

-- The unlocking of an abort returns, and no assertion of it fails. Every object of the write set is
-- unlocked and has the content that it had; all other objects and the rest of the state are as
-- before.
pub rlu_unlock_objs_lem :
    (c : ℕ) (s : State) (held : IsHeld (ws_index c) s)
    → Returns
        (λ _ s'.
          Swept
            (ws_index c)
            s
            dropped
            (s.self.obj_write_set (ws_index c)).num_of_objs
            0
            held.end
            s')
        (rlu_unlock_objs c s)
unfolding rlu_unlock_objs
rlu_unlock_objs_lem c s held =
    unlock_objs-Swept (s.self.obj_write_set (ws_index c)).num_of_objs (ws_index c) 0 held.end s
      held.laid
