-- ===== src/Rlu/Objects/TryLock.antt =====
-- `rlu_try_lock` on an object of the heap, with other threads at work.
use rcx_hashtables.Base.{
  ℕ, ◌+◌, ◌<◌, ◌≡◌, refl, true, false, Option, none, some, arith, Bool-cases, inl, inr, ◌==◌,
  ==-refl, ap,
}
use rcx_hashtables.Rlu.{
  Ref, obj, copy, Header, unlocked, id_obj_copy, locked, Object, Slot, ObjList, Thread, State, Env,
  write, with_ws, tick,
}
use rcx_hashtables.Rlu.Ends
use rcx_hashtables.Rlu.Ends.{returns, Returns}
use rcx_hashtables.Rlu.Sync.{is_unlocked}
use rcx_hashtables.Rlu.WriteSet.{
  align_obj_size, rlu_max_write_set_buffer_size, rlu_add_ws_obj_header_to_write_set, no_item,
}
use rcx_hashtables.Rlu.WriteSet.Layout.{headers_size, Laid, Row-buffer}
use rcx_hashtables.Rlu.WriteSet.Writeback.{IsLaid, IsHeld}
use rcx_hashtables.Rlu.Others.{
  Later, Respects, Respects-Later, uniq_id-Later, obj_write_set-Later, IsLaid-Later, Laid-Later,
}
use rcx_hashtables.Rlu.Objects.{detect_write, lock_header, lock_free, try_lock_actual, rlu_try_lock}
use rcx_hashtables.Rlu.Objects.Lock.{get_copy-at, copy_locked-Got}

-- No object goes away while the thread may use it.
abbrev pub KeepsObjects : Env → Type 0
KeepsObjects E =
    (s : State) (a : ℕ) (o : Object)
    → s.heap a ≡ some o
    → (o' : Object) × ((E.others s).heap a ≡ some o')

-- What an attempt to lock `a` leaves, with the set `ws` before it: the object is locked and copied, or the
-- object is not unlocked, and the set has the objects and the slots that it had.
pub data Tried (a me w : ℕ) (ws : ObjList) : Option Ref → State → Type 0 where
  got :
      {s' : State} (at : ℕ) (o : Object) (k : Slot)
      → IsLaid w s'
      → (s'.self.obj_write_set w).buffer at ≡ some k
      → k.item ≡ o.item
      → s'.heap a ≡ some (record o { p_obj_copy = locked me w at })
      → Tried a me w ws (some (copy me w at)) s'
  failed :
      {s' : State} (o : Object)
      → s'.heap a ≡ some o
      → is_unlocked o.p_obj_copy ≡ false
      → IsHeld w s'
      → (s'.self.obj_write_set w).num_of_objs ≡ ws.num_of_objs
      → ((at : ℕ)
          → at < ws.p_cur + headers_size
          → (s'.self.obj_write_set w).buffer at ≡ ws.buffer at)
      → Tried a me w ws none s'

Tried-same :
    {a me me' w w' : ℕ} {ws ws' : ObjList} {ret : Option Ref} {s' : State}
    → me ≡ me'
    → w ≡ w'
    → ws ≡ ws'
    → Tried a me w ws ret s'
    → Tried a me' w' ws' ret s'
Tried-same e f g t = rw (e, f, g) at t

-- The slot that an attempt adds.
abbrev pub new_slot : Thread → (a obj_size : ℕ) → Slot
new_slot t a obj_size = record {
  p_obj_actual = obj a;
  obj_size = obj_size;
  run_counter = t.run_counter;
  thread_id = t.uniq_id;
  p_obj_copy = id_obj_copy;
  item = no_item;
}

-- The state after `rlu_add_ws_obj_header_to_write_set`.
abbrev pub headed : State → (a obj_size : ℕ) → State
headed s a obj_size = record s {
  self =
      with_ws s.self.ws_cur_id
        (λ w. record w {
          p_cur = w.p_cur + headers_size;
          buffer = write w.buffer (w.p_cur + headers_size) (some (new_slot s.self a obj_size));
        })
        s.self;
}

is_unlocked_lem : (h : Header) → is_unlocked h ≡ true → h ≡ unlocked
is_unlocked_lem unlocked e = refl
is_unlocked_lem id_obj_copy e = absurd (ground (arith, e))
is_unlocked_lem (locked t w o) e = absurd (ground (arith, e))

module _ (E : Env) (r : Respects E) (keeps : KeepsObjects E) (a obj_size : ℕ) where
  lock_header-Tried :
      (s : State) (o : Object)
      → IsLaid s.self.ws_cur_id s
      → s.heap a ≡ some o
      → (s.self.obj_write_set s.self.ws_cur_id).p_cur + headers_size + align_obj_size obj_size
        < rlu_max_write_set_buffer_size
      → Returns
          (Tried a s.self.uniq_id s.self.ws_cur_id (s.self.obj_write_set s.self.ws_cur_id))
          (lock_header E (obj a) obj_size s)
  unfolding lock_header rlu_add_ws_obj_header_to_write_set tick
  lock_header-Tried s o laid e room =
      let w : ℕ = s.self.ws_cur_id in
      let q : ℕ = (s.self.obj_write_set w).p_cur in
      let n : ℕ = (s.self.obj_write_set w).num_of_objs in
      let s2 : State = headed s a obj_size in
      let s3 : State = E.others s2 in
      let l : Later s2 s3 = Respects-Later r s2 in
      let laid2 : Laid s2.self.uniq_id w (s2.self.obj_write_set w).buffer s2.heap n 0 q =
        rw (==-refl w) (
          Row-buffer
            (write (s.self.obj_write_set w).buffer (q + headers_size)
              (some (new_slot s.self a obj_size)))
            laid
            λ at le.
              let ne : (at == q + headers_size) ≡ false = ground (arith, le) in rw ne refl) in
      let laid3 : Laid s3.self.uniq_id w (s3.self.obj_write_set w).buffer s3.heap n 0 q =
        Laid-Later w n q l laid2 in
      let (o', e') = keeps s2 a o e in
      let id3 : s3.self.ws_cur_id ≡ w = ap (λ t. t.ws_cur_id) l.self.same in
      let num : (s3.self.obj_write_set w).num_of_objs ≡ n =
        rw (obj_write_set-Later l, ==-refl w) refl in
      rw (get_copy-at s3 a o' e') (elim (Bool-cases (is_unlocked o'.p_obj_copy)) [
        | inl free ↦ rw free (
            Ends.mono
              (copy_locked-Got s3 a n q o' (new_slot s.self a obj_size) (rw id3 laid3)
                (rw (id3, obj_write_set-Later l, ==-refl w) refl)
                (rw (id3, obj_write_set-Later l, ==-refl w) refl)
                (rw (id3, obj_write_set-Later l, ==-refl w, ==-refl (q + headers_size)) refl) refl
                refl (rw (uniq_id-Later l) refl) e' (is_unlocked_lem o'.p_obj_copy free) room)
              λ ret s' (f, g).
                rw (f, uniq_id-Later l, id3)
                  (got (q + headers_size) o' g.slot (rw id3 at g.laid) (rw id3 at g.there) g.copied
                    (rw (id3, uniq_id-Later l) at g.lock)))
        | inr taken ↦ rw taken (
            returns (
              failed o' e' taken (record { end = q; laid = rw num laid3 }) num
                λ at low.
                  let ne : (at == q + headers_size) ≡ false = ground (arith, low) in
                  rw (obj_write_set-Later l, ==-refl w, ne) refl))
      ])

  -- The thread has noted that it writes; nothing that counts for the write set has changed.
  detect_write-same :
      (t : Thread)
      → ((detect_write t).uniq_id ≡ t.uniq_id)
        × ((detect_write t).ws_cur_id ≡ t.ws_cur_id)
        × ((detect_write t).obj_write_set ≡ t.obj_write_set)
  detect_write-same t = elim (Bool-cases t.is_write_detected) [
    | inl d ↦ rw d (refl, refl, refl)
    | inr d ↦ rw d (refl, refl, refl)
  ]

  lock_free-Tried :
      (s : State) (o : Object)
      → IsLaid s.self.ws_cur_id s
      → s.heap a ≡ some o
      → (s.self.obj_write_set s.self.ws_cur_id).p_cur + headers_size + align_obj_size obj_size
        < rlu_max_write_set_buffer_size
      → Returns
          (Tried a s.self.uniq_id s.self.ws_cur_id (s.self.obj_write_set s.self.ws_cur_id))
          (lock_free E (obj a) obj_size s)
  unfolding lock_free
  lock_free-Tried s o laid e room =
      let (id, w, ws) = detect_write-same s.self in
      let tried =
        lock_header-Tried (record s { self = detect_write s.self }) o (rw (id, w, ws) laid) e
          (rw (w, ws) room) in
      Ends.mono tried λ ret s' t. Tried-same id w (rw (w, ws) refl) t

  -- An attempt to lock an object that is unlocked when the thread looks at it returns, whatever the
  -- other threads do meanwhile, if the write set is laid out and has room. Either the object is
  -- locked by a new slot at the end of the set, which is laid out again, the slot has a copy
  -- of the object's content, and the result is the pointer to that copy; or the object is not unlocked any
  -- more, since another thread was first, and the set has as many objects and the same slots as before. The others write no object that this
  -- thread has locked, free none, and write only `is_sync` of its data.
  pub rlu_try_lock_lem :
      (s : State) (o : Object)
      → IsLaid s.self.ws_cur_id s
      → (E.others s).heap a ≡ some o
      → o.p_obj_copy ≡ unlocked
      → (s.self.obj_write_set s.self.ws_cur_id).p_cur + headers_size + align_obj_size obj_size
        < rlu_max_write_set_buffer_size
      → Returns
          (Tried a s.self.uniq_id s.self.ws_cur_id (s.self.obj_write_set s.self.ws_cur_id))
          (rlu_try_lock E (obj a) obj_size s)
  unfolding rlu_try_lock try_lock_actual tick
  rlu_try_lock_lem s o laid e free room =
      let s1 : State = E.others s in
      let l : Later s s1 = Respects-Later r s in
      let w : s1.self.ws_cur_id ≡ s.self.ws_cur_id = ap (λ t. t.ws_cur_id) l.self.same in
      let tried =
        lock_free-Tried s1 o (rw w (IsLaid-Later s.self.ws_cur_id l laid)) e
          (rw (w, obj_write_set-Later l) room) in
      rw (get_copy-at s1 a o e, free)
        (Ends.mono tried
          λ ret s' t. Tried-same (uniq_id-Later l) w (rw (w, obj_write_set-Later l) refl) t)
