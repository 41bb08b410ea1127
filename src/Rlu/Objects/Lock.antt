-- ===== src/Rlu/Objects/Lock.antt =====
-- `rlu_try_lock` on an object that no thread has locked.
use rcx_hashtables.Base.{
  ℕ, suc, ◌+◌, ◌<◌, ◌≡◌, refl, true, false, Option, some, arith, Bool-cases, inl, inr, ltb, ◌==◌,
  ==-refl, eq_of_==,
}
use rcx_hashtables.Rlu.{
  obj, copy, unlocked, id_obj_copy, locked, Item, Object, Slot, State, ok, write, with_ws, get_copy,
  load_item,
}
use rcx_hashtables.Rlu.Ends.{returns, Returns}
use rcx_hashtables.Rlu.WriteSet.{
  align_obj_size, rlu_max_write_set_buffer_size, rlu_add_obj_copy_to_write_set, copy_item,
}
use rcx_hashtables.Rlu.WriteSet.Layout.{headers_size, Heap, Laid, Row-buffer, Row-snoc, Laid-frame}
use rcx_hashtables.Rlu.WriteSet.Writeback.{IsLaid, with_heap, store_object-at, same_header_refl}
use rcx_hashtables.Rlu.Objects.{copy_locked}

pub write_self : {A : Type 0} (m : ℕ → A) (i : ℕ) (v : A) → write m i v i ≡ v
write_self m i v = rw (==-refl i) refl

pub load_item-at :
    (s : State) (a : ℕ) (o : Object) → s.heap a ≡ some o → load_item (obj a) s ≡ ok o.item s
unfolding load_item
load_item-at s a o e = rw e refl

pub get_copy-at :
    (s : State) (a : ℕ) (o : Object) → s.heap a ≡ some o → get_copy (obj a) s ≡ ok o.p_obj_copy s
unfolding get_copy
get_copy-at s a o e = rw e refl

-- The row after a slot for the unlocked object `a` has been put behind it.
Laid-cons :
    {me w n q a : ℕ} {b : ℕ → Option Slot} {h : Heap} (k : Slot) (o : Object)
    → Laid me w b h n 0 q
    → k.p_obj_copy ≡ id_obj_copy
    → k.p_obj_actual ≡ obj a
    → k.thread_id ≡ me
    → h a ≡ some o
    → o.p_obj_copy ≡ unlocked
    → Laid me w
        (write b (q + headers_size) (some k))
        (write h a (some (record o { p_obj_copy = locked me w (q + headers_size) })))
        (suc n)
        0
        (q + headers_size + align_obj_size k.obj_size)
Laid-cons {me} {w} {n} {q} {a} {b} {h} k o laid header actual owner there free =
    let o1 = record o { p_obj_copy = locked me w (q + headers_size) } in
    let kept : Laid me w b (write h a (some o1)) n 0 q =
      Laid-frame (write h a (some o1)) laid λ x o' at e f le. elim (Bool-cases (x == a)) [
        | inl same ↦ absurd (ground (arith, e, there, free, f, eq_of_== x a same))
        | inr other ↦ rw other e
      ] in
    Row-snoc k a
      (Row-buffer (write b (q + headers_size) (some k)) kept
        λ at le. let ne : (at == q + headers_size) ≡ false = ground (arith, le) in rw ne refl)
      (write_self b (q + headers_size) (some k))
      (record {
        o = o1;
        header = header;
        actual = actual;
        owner = owner;
        there = write_self h a (some o1);
        leads = refl;
      })

-- The state after the copy.
abbrev pub copied : State → Item → (obj_size : ℕ) → State
copied s i obj_size = record s {
  self =
      with_ws s.self.ws_cur_id
        (λ w. record w {
          buffer = write w.buffer w.p_cur (copy_item w.p_cur i (w.buffer w.p_cur));
          p_cur = w.p_cur + align_obj_size obj_size;
          num_of_objs = suc w.num_of_objs;
        })
        s.self;
}

pub add_obj_copy-copied :
    (s : State) (a obj_size : ℕ) (o : Object)
    → s.heap a ≡ some o
    → (s.self.obj_write_set s.self.ws_cur_id).p_cur + align_obj_size obj_size
      < rlu_max_write_set_buffer_size
    → rlu_add_obj_copy_to_write_set (obj a) obj_size s ≡ ok tt (copied s o.item obj_size)
unfolding rlu_add_obj_copy_to_write_set
add_obj_copy-copied s a obj_size o e room =
    let cur = s.self.ws_cur_id in
    let fits : ltb ((s.self.obj_write_set s.self.ws_cur_id).p_cur + align_obj_size obj_size)
          rlu_max_write_set_buffer_size
        ≡ true =
      ground arith in
    rw (load_item-at s a o e, ==-refl s.self.ws_cur_id, fits) refl

-- The object `a` is locked by slot `at` of the current write set, which holds a copy of it.
pub record Got (a at : ℕ) (o : Object) (s s' : State) : Type 0 where
  pub laid : IsLaid s.self.ws_cur_id s'
  pub slot : Slot
  pub there : (s'.self.obj_write_set s.self.ws_cur_id).buffer at ≡ some slot
  pub copied : slot.item ≡ o.item
  pub lock : s'.heap a ≡ some (record o { p_obj_copy = locked s.self.uniq_id s.self.ws_cur_id at })
  pub others : (x : ℕ) → (x == a) ≡ false → s'.heap x ≡ s.heap x

module _ (s : State) (a n q : ℕ) (o : Object) (k : Slot)
    (laid : Laid s.self.uniq_id s.self.ws_cur_id
      (s.self.obj_write_set s.self.ws_cur_id).buffer
      s.heap
      n
      0
      q)
    (count : (s.self.obj_write_set s.self.ws_cur_id).num_of_objs ≡ n)
    (cur : (s.self.obj_write_set s.self.ws_cur_id).p_cur ≡ q + headers_size)
    (at_k : (s.self.obj_write_set s.self.ws_cur_id).buffer (q + headers_size) ≡ some k)
    (header : k.p_obj_copy ≡ id_obj_copy) (actual : k.p_obj_actual ≡ obj a)
    (owner : k.thread_id ≡ s.self.uniq_id) (there : s.heap a ≡ some o)
    (free : o.p_obj_copy ≡ unlocked)
    (room : q + headers_size + align_obj_size k.obj_size < rlu_max_write_set_buffer_size) where
  pub copy_locked-Got :
      Returns
        (λ r s'.
          (r ≡ some (copy s.self.uniq_id s.self.ws_cur_id (q + headers_size)))
          × Got a (q + headers_size) o s s')
        (copy_locked (obj a) k.obj_size s.self (q + headers_size) s)
  unfolding copy_locked copy_item
  copy_locked-Got =
      let o1 : Object = record o {
        p_obj_copy = locked s.self.uniq_id s.self.ws_cur_id (q + headers_size);
      } in
      let h1 : Heap = write s.heap a (some o1) in
      let s1 = with_heap s h1 in
      rw
        (
          store_object-at s a
              (λ x. record x {
                p_obj_copy = locked s.self.uniq_id s.self.ws_cur_id (q + headers_size);
              })
              o there,
          add_obj_copy-copied s1 a k.obj_size o1 (write_self s.heap a (some o1))
              (omega (arith, room, cur)),
        )
        (rw
          (
            get_copy-at (copied s1 o.item k.obj_size) a o1 (write_self s.heap a (some o1)),
            same_header_refl s.self.uniq_id s.self.ws_cur_id (q + headers_size),
          )
          (returns (
            refl,
            record {
              laid =
                  rw (==-refl s.self.ws_cur_id, cur, count, at_k)
                    (Laid-cons (record k { item = o.item }) o laid header actual owner there free);
              slot = record k { item = o.item };
              there = rw (==-refl s.self.ws_cur_id, cur, ==-refl (q + headers_size), at_k) refl;
              copied = refl;
              lock = write_self s.heap a (some o1);
              others = λ x ne. rw ne refl;
            },
          )))
