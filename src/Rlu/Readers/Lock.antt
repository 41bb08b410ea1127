-- ===== src/Rlu/Readers/Lock.antt =====
-- A lock of an object among readers: no other thread can be first.
use rcx_hashtables.Base.{ℕ, suc, ◌+◌, ◌<◌, ◌≡◌, refl, true, some, ==-refl, ap, ◌∙◌}
use rcx_hashtables.Rlu.{
  obj, copy, unlocked, locked, Item, Object, Slot, ObjList, Thread, State, Env, tick, write,
  with_ws,
}
use rcx_hashtables.Rlu.Ends.{returns, Returns}
use rcx_hashtables.Rlu.WriteSet.{
  align_obj_size, rlu_max_write_set_buffer_size, rlu_add_ws_obj_header_to_write_set, copy_item,
}
use rcx_hashtables.Rlu.WriteSet.Layout.{headers_size, Buffer}
use rcx_hashtables.Rlu.WriteSet.Writeback.{
  with_heap, store_object-at, same_header_refl, write-write,
}
use rcx_hashtables.Rlu.Objects.{
  detect_write, copy_locked, lock_header, lock_free, try_lock_actual, rlu_try_lock,
}
use rcx_hashtables.Rlu.Objects.Lock.{write_self, get_copy-at, copied, add_obj_copy-copied}
use rcx_hashtables.Rlu.Objects.TryLock.{new_slot, headed}
use rcx_hashtables.Rlu.Readers.{drift, OnlyRead, Gives, gives, Gives-drift}

abbrev pub wrote : Thread → Thread
wrote t = record t { is_write_detected = true; is_check_locks = true }

-- The write set with one more slot.
abbrev pub add_slot : (at : ℕ) → Slot → ObjList → ObjList
add_slot at k ws = record ws {
  p_cur = at + align_obj_size k.obj_size;
  num_of_objs = suc ws.num_of_objs;
  buffer = write ws.buffer at (some k);
}

-- The offset of the next slot of the current write set.
abbrev pub next_at : State → ℕ
next_at s = (s.self.obj_write_set s.self.ws_cur_id).p_cur + headers_size

abbrev pub slot_for : State → (a obj_size : ℕ) → Item → Slot
slot_for s a obj_size i = record (new_slot s.self a obj_size) { item = i }

-- The state when the object `o` at `a` has been locked.
abbrev pub locking : State → (a obj_size : ℕ) → Object → State
locking s a obj_size o = record s {
  heap =
      write s.heap a
        (some (record o { p_obj_copy = locked s.self.uniq_id s.self.ws_cur_id (next_at s) }));
  self =
      with_ws s.self.ws_cur_id (add_slot (next_at s) (slot_for s a obj_size o.item)) (wrote s.self);
}

-- The headers and the copy in one step.
copied-headed :
    (s : State) (a obj_size : ℕ) (i : Item)
    → copied (headed s a obj_size) i obj_size ≡ record s {
      self = with_ws s.self.ws_cur_id (add_slot (next_at s) (slot_for s a obj_size i)) s.self;
    }
unfolding copy_item
copied-headed s a obj_size i =
    let m : ℕ → ObjList = s.self.obj_write_set in
    let w : ℕ = s.self.ws_cur_id in
    let at : ℕ = next_at s in
    let k : Slot = new_slot s.self a obj_size in
    let y : Buffer → ObjList =
      λ b. record (add_slot at (slot_for s a obj_size i) (m w)) { buffer = b } in
    let x : ObjList = record (m w) { p_cur = at; buffer = write (m w).buffer at (some k) } in
    rw (==-refl s.self.ws_cur_id, ==-refl (next_at s))
      (ap {A = ℕ → ObjList} {B = State}
        (λ ws. record s { self = record (s.self) { obj_write_set = ws } })
        (write-write m w x (y (write x.buffer at (some (slot_for s a obj_size i))))
          ∙ ap {A = Buffer} (λ b. write m w (y b))
              (write-write (m w).buffer at (some k) (some (slot_for s a obj_size i)))))

-- The state when the object has a new header, and when the write set has its copy, too.
abbrev marked : State → (a : ℕ) → Object → State
marked s a o = with_heap s (
    write s.heap a
      (some (record o { p_obj_copy = locked s.self.uniq_id s.self.ws_cur_id (next_at s) })))

abbrev kept_copy : State → (a obj_size : ℕ) → Object → State
kept_copy s a obj_size o = record (marked s a o) {
  self = with_ws s.self.ws_cur_id (add_slot (next_at s) (slot_for s a obj_size o.item)) s.self;
}

module _ (s : State) (a obj_size : ℕ) (o : Object) (e : s.heap a ≡ some o)
    (free : o.p_obj_copy ≡ unlocked)
    (room : next_at s + align_obj_size obj_size < rlu_max_write_set_buffer_size) where
  copy_locked-Gives :
      Returns
        (Gives (some (copy s.self.uniq_id s.self.ws_cur_id (next_at s))) (kept_copy s a obj_size o))
        (copy_locked (obj a) obj_size (headed s a obj_size).self (next_at s) (headed s a obj_size))
  unfolding copy_locked
  copy_locked-Gives =
      let o1 : Object = record o {
        p_obj_copy = locked s.self.uniq_id s.self.ws_cur_id (next_at s);
      } in
      let s1 : State = headed (marked s a o) a obj_size in
      let here : (s1.self.obj_write_set s1.self.ws_cur_id).p_cur ≡ next_at s =
        rw (==-refl s.self.ws_cur_id) refl in
      rw
        (
          store_object-at (headed s a obj_size) a
              (λ x. record x { p_obj_copy = locked s.self.uniq_id s.self.ws_cur_id (next_at s) }) o
              e,
          add_obj_copy-copied s1 a obj_size o1 (write_self s.heap a (some o1)) (rw here room),
          copied-headed (marked s a o) a obj_size o.item,
        )
        (rw
          (
            get_copy-at (kept_copy s a obj_size o) a o1 (write_self s.heap a (some o1)),
            same_header_refl s.self.uniq_id s.self.ws_cur_id (next_at s),
          )
          (returns (gives s.threads s.cur_threads)))

module _ {E : Env} (r : OnlyRead E) (s : State) (a obj_size : ℕ) (o : Object)
    (e : s.heap a ≡ some o) (free : o.p_obj_copy ≡ unlocked)
    (room : next_at s + align_obj_size obj_size < rlu_max_write_set_buffer_size) where
  lock_header-Gives :
      Returns
        (Gives (some (copy s.self.uniq_id s.self.ws_cur_id (next_at s))) (kept_copy s a obj_size o))
        (lock_header E (obj a) obj_size s)
  unfolding lock_header rlu_add_ws_obj_header_to_write_set tick
  lock_header-Gives =
      let s1 : State = headed s a obj_size in
      let t = r.threads s1 in
      let n = r.cur_threads s1 in
      rw (r.others s1, get_copy-at (drift t n s1) a o e, free)
        (Gives-drift t n (copy_locked-Gives (drift t n s) a obj_size o e free room))

module _ {E : Env} (r : OnlyRead E) (s : State) (a obj_size : ℕ) (o : Object)
    (e : s.heap a ≡ some o) (free : o.p_obj_copy ≡ unlocked)
    (room : next_at s + align_obj_size obj_size < rlu_max_write_set_buffer_size)
    (noted : detect_write s.self ≡ wrote s.self) where
  -- An attempt to lock an unlocked object succeeds.
  pub try_lock-Gives :
      Returns
        (Gives (some (copy s.self.uniq_id s.self.ws_cur_id (next_at s))) (locking s a obj_size o))
        (rlu_try_lock E (obj a) obj_size s)
  unfolding rlu_try_lock try_lock_actual lock_free tick
  try_lock-Gives =
      let t = r.threads s in
      let n = r.cur_threads s in
      rw (r.others s, get_copy-at (drift t n s) a o e, free)
        (rw noted (
          Gives-drift t n (
            lock_header-Gives r (drift t n (record s { self = wrote s.self })) a obj_size o e free
              room)))
