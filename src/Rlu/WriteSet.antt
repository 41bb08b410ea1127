-- ===== src/Rlu/WriteSet.antt =====
-- rlu.c: the buffer of a write set. An object of size n takes a header of 32 bytes, one of 8 bytes
-- and n bytes rounded up to a multiple of 8.
pub mod Layout
pub mod Writeback
pub mod AllSets
pub mod Flush
use rcx_hashtables.Base.{
  ℕ, zero, suc, ◌+◌, ◌-◌, ◌%◌, Bool, true, false, ◌&&◌, ltb, ◌==◌, if◌then◌else◌, Option, none,
  some, List, [], ◌∷◌,
}
use rcx_hashtables.Rlu.{
  Ref, null, obj, copy, Item, Header, unlocked, id_obj_copy, locked, Object, Slot, ObjList, Thread,
  State, Run, ok, fault, Cmd, pure, ◌>>=◌, ◌>>◌, rlu_assert, gets, modify_self, ws_index, get_copy,
  get_slot, is_copy, load_item, write, with_ws, with_slot, read, store_object,
}
use rcx_hashtables.Rlu.WriterLocks.{rlu_reset_writer_locks}

abbrev pub ws_obj_header_size : ℕ
ws_obj_header_size = 32

abbrev pub obj_header_size : ℕ
obj_header_size = 8

abbrev pub rlu_max_write_set_buffer_size : ℕ
rlu_max_write_set_buffer_size = 100000

abbrev pub align_obj_size : ℕ → ℕ
align_obj_size n = if n % 8 == 0 then n else n + (8 - n % 8)

unfoldable pub rlu_reset_write_set : ℕ → Thread → Thread
unfolding rlu_reset_writer_locks
rlu_reset_write_set ws_counter t =
    rlu_reset_writer_locks (ws_index ws_counter)
      (with_ws (ws_index ws_counter) (λ w. record w { num_of_objs = 0; p_cur = 0 }) t)

-- What the buffer holds behind new headers is arbitrary until the object is copied.
abbrev pub no_item : Item
no_item = record { val = 0; p_next = null }

-- The result is the offset of the copy.
unfoldable pub rlu_add_ws_obj_header_to_write_set : Ref → ℕ → Cmd ℕ
rlu_add_ws_obj_header_to_write_set p_obj obj_size s =
    let t = s.self in
    let at = (t.obj_write_set t.ws_cur_id).p_cur + (ws_obj_header_size + obj_header_size) in
    ok at (record s {
      self =
          with_ws t.ws_cur_id
            (λ w. record w {
              p_cur = at;
              buffer = write w.buffer at (
                  some (record {
                    p_obj_actual = p_obj;
                    obj_size = obj_size;
                    run_counter = t.run_counter;
                    thread_id = t.uniq_id;
                    p_obj_copy = id_obj_copy;
                    item = no_item;
                  }));
            })
            t;
    })

-- `memcpy` to the slot at an offset.
unfoldable pub copy_item : ℕ → Item → Option Slot → Option Slot
copy_item at i none = none
copy_item at i (some k) = some (record k { item = i })

unfoldable pub rlu_add_obj_copy_to_write_set : Ref → ℕ → Cmd (Unit {0})
unfolding copy_item
rlu_add_obj_copy_to_write_set p_obj obj_size = do
  i ← load_item p_obj
  modify_self (λ t.
      with_ws t.ws_cur_id
        (λ w. record w {
          buffer = write w.buffer w.p_cur (copy_item w.p_cur i (w.buffer w.p_cur));
          p_cur = w.p_cur + align_obj_size obj_size;
          num_of_objs = suc w.num_of_objs;
        })
        t)
  fits ← gets (λ s. ltb (s.self.obj_write_set s.self.ws_cur_id).p_cur rlu_max_write_set_buffer_size)
  rlu_assert fits

-- The slot whose headers begin at `p_cur` of a write set of the thread.
unfoldable pub own_slot : (ws_id p_cur : ℕ) → Cmd Slot
own_slot ws_id p_cur s =
    read ((s.self.obj_write_set ws_id).buffer (p_cur + (ws_obj_header_size + obj_header_size)))
      (λ k. k) s

-- UNLOCK
unfoldable pub unlock : Ref → Cmd (Unit {0})
unlock p = store_object p (λ o. record o { p_obj_copy = unlocked })

-- GET_THREAD_ID
unfoldable pub get_thread_id : Ref → Cmd ℕ
get_thread_id p = do h ← get_copy p; k ← get_slot h; pure k.thread_id

-- The loop over the objects of a write set, from `p_cur` on: the final `p_cur`.
unfoldable pub writeback_objs : (count ws_id p_cur : ℕ) → Cmd ℕ
writeback_objs zero ws_id p_cur = pure p_cur
writeback_objs (suc count) ws_id p_cur = do
  k ← own_slot ws_id p_cur
  rlu_assert (is_copy k.p_obj_copy)
  store_object k.p_obj_actual (λ o. record o { item = k.item })
  th_id ← get_thread_id k.p_obj_actual
  me ← gets (λ s. s.self.uniq_id)
  rlu_assert (th_id == me)
  unlock k.p_obj_actual
  writeback_objs count ws_id
      (p_cur + (ws_obj_header_size + obj_header_size) + align_obj_size k.obj_size)

unfoldable pub rlu_writeback_write_set : ℕ → Cmd (Unit {0})
unfolding writeback_objs
rlu_writeback_write_set ws_counter = do
  w ← gets (λ s. s.self.obj_write_set (ws_index ws_counter))
  p_cur ← writeback_objs w.num_of_objs (ws_index ws_counter) 0
  rlu_assert (p_cur == w.p_cur)

-- `rlu_reset_write_set` for `count` counters from `ws_counter` on.
unfoldable pub reset_sets : (count ws_counter : ℕ) → Thread → Thread
unfolding rlu_reset_write_set
reset_sets zero ws_counter t = t
reset_sets (suc count) ws_counter t =
    reset_sets count (suc ws_counter) (rlu_reset_write_set ws_counter t)

-- `rlu_writeback_write_set` for `count` counters from `ws_counter` on.
unfoldable pub writeback_sets : (count ws_counter : ℕ) → Cmd (Unit {0})
unfolding rlu_writeback_write_set
writeback_sets zero ws_counter = pure tt
writeback_sets (suc count) ws_counter = do
  rlu_writeback_write_set ws_counter
  writeback_sets count (suc ws_counter)

-- The result is the number of write sets that are written back.
unfoldable pub rlu_writeback_write_sets_and_unlock : Cmd ℕ
unfolding reset_sets
rlu_writeback_write_sets_and_unlock = do
  modify_self (λ t. reset_sets (t.ws_wb_counter - t.ws_head_counter) t.ws_head_counter t)
  modify_self (λ t. record t { ws_head_counter = t.ws_wb_counter })
  t ← gets (λ s. s.self)
  writeback_sets (t.ws_tail_counter - t.ws_wb_counter) t.ws_wb_counter
  modify_self (λ u. record u { ws_wb_counter = u.ws_tail_counter })
  pure (t.ws_tail_counter - t.ws_wb_counter)

abbrev pub same_header : Header → Header → Bool
same_header unlocked unlocked = true
same_header id_obj_copy id_obj_copy = true
same_header (locked t w o) (locked t' w' o') = (t == t') && ((w == w') && (o == o'))
same_header _ _ = false

-- The loop of an abort: the copies are dropped.
unfoldable pub unlock_objs : (count ws_id p_cur : ℕ) → Cmd (Unit {0})
unlock_objs zero ws_id p_cur = pure tt
unlock_objs (suc count) ws_id p_cur = do
  k ← own_slot ws_id p_cur
  rlu_assert (is_copy k.p_obj_copy)
  h ← get_copy k.p_obj_actual
  me ← gets (λ s. s.self.uniq_id)
  rlu_assert (same_header h (locked me ws_id (p_cur + (ws_obj_header_size + obj_header_size))))
  unlock k.p_obj_actual
  unlock_objs count ws_id
      (p_cur + (ws_obj_header_size + obj_header_size) + align_obj_size k.obj_size)

unfoldable pub rlu_unlock_objs : ℕ → Cmd (Unit {0})
unfolding unlock_objs
rlu_unlock_objs ws_counter = do
  w ← gets (λ s. s.self.obj_write_set (ws_index ws_counter))
  unlock_objs w.num_of_objs (ws_index ws_counter) 0
