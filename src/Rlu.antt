-- ===== src/Rlu.antt =====
-- rlu.h and rlu.c: the state of read-log-update, as the running thread sees it, and the accesses to
-- objects. `self` is the data of the running thread; `threads` are those of the others. The objects
-- are the nodes of the lists, of which RLU's callers use the value and the pointer.
pub mod Ends
pub mod WriterLocks
pub mod WriteSet
pub mod Sync
pub mod Section
pub mod Objects
pub mod Others
pub mod Quiescence
pub mod Settle
pub mod Commit
pub mod Readers
pub mod Printing
pub mod Lists
use mathlib.Core.Option
use rcx_hashtables.Base.{
  ℕ, ◌+◌, ◌-◌, ◌%◌, ◌^◌, Bool, true, false, ◌&&◌, ◌==◌, not, if◌then◌else◌, Option, none, some,
  List, [],
}

-- A pointer to an object: NULL, an object of the heap, or a copy that stands in the buffer of a
-- write set of a thread, at an offset.
pub data Ref : Type 0 where
  null : Ref
  obj : ℕ → Ref
  copy : (thread_id ws_id offset : ℕ) → Ref

abbrev pub same_ref : Ref → Ref → Bool
same_ref null null = true
same_ref (obj a) (obj b) = a == b
same_ref (copy t w o) (copy t' w' o') = (t == t') && ((w == w') && (o == o'))
same_ref _ _ = false

pub record Item : Type 0 where
  pub val : ℕ
  pub p_next : Ref

-- `p_obj_copy` of a header: NULL, PTR_ID_OBJ_COPY, or the pointer to a copy.
pub data Header : Type 0 where
  unlocked : Header
  id_obj_copy : Header
  locked : (thread_id ws_id offset : ℕ) → Header

pub record Object : Type 0 where
  pub p_obj_copy : Header
  pub item : Item

-- A copy with the two headers in front of it.
pub record Slot : Type 0 where
  pub p_obj_actual : Ref
  pub obj_size : ℕ
  pub run_counter : ℕ
  pub thread_id : ℕ
  pub p_obj_copy : Header
  pub item : Item

-- `obj_list_t`. `p_cur` is an offset of the buffer, and a slot stands at the offset of its copy.
pub record ObjList : Type 0 where
  pub writer_locks : List ℕ
  pub num_of_objs : ℕ
  pub p_cur : ℕ
  pub buffer : ℕ → Option Slot

pub record WaitEntry : Type 0 where
  pub is_wait : Bool
  pub run_counter : ℕ

pub record Stats : Type 0 where
  pub n_starts : ℕ
  pub n_finish : ℕ
  pub n_writers : ℕ
  pub n_writer_writeback : ℕ
  pub n_pure_readers : ℕ
  pub n_aborts : ℕ
  pub n_steals : ℕ
  pub n_writeback_q_iters : ℕ
  pub n_sync_requests : ℕ
  pub n_sync_and_writeback : ℕ

-- `rlu_thread_data_t`
pub record Thread : Type 0 where
  pub uniq_id : ℕ
  pub is_check_locks : Bool
  pub is_write_detected : Bool
  pub is_steal : Bool
  pub type : ℕ
  pub max_write_sets : ℕ
  pub run_counter : ℕ
  pub local_version : ℕ
  pub local_commit_version : ℕ
  pub is_no_quiescence : Bool
  pub is_sync : ℕ
  pub writer_version : ℕ
  pub q_threads : ℕ → WaitEntry
  pub ws_head_counter : ℕ
  pub ws_wb_counter : ℕ
  pub ws_tail_counter : ℕ
  pub ws_cur_id : ℕ
  pub obj_write_set : ℕ → ObjList
  pub free_nodes : List Ref
  pub stats : Stats

pub record State : Type 0 where
  pub self : Thread
  pub heap : ℕ → Option Object
  pub threads : ℕ → Option Thread
  pub cur_threads : ℕ
  pub writer_locks : ℕ → ℕ
  pub writer_version : ℕ
  pub commit_version : ℕ
  pub type : ℕ
  pub max_write_sets : ℕ
  pub stats : Stats

-- What the allocator and the other threads do.
pub record Env : Type 0 where
  pub others : State → State
  pub malloc : State → ℕ
  pub malloc_struct : State → Bool

-- A failed RLU_ASSERT ends the run, and so does a bad pointer.
pub data Run (B : Type 0) : Type 0 where
  ok : B → State → Run B
  assert_failed : Run B
  fault : Run B
  out_of_fuel : Run B

abbrev pub Cmd : Type 0 → Type 0
Cmd B = State → Run B

abbrev pub pure : {B : Type 0} → B → Cmd B
pure = ok

module _ {B C : Type 0} where
  abbrev pub and_then : Run B → (B → Cmd C) → Run C
  and_then (ok b s) k = k b s
  and_then assert_failed k = assert_failed
  and_then fault k = fault
  and_then out_of_fuel k = out_of_fuel

  infixl 5 ◌>>=◌ ◌>>◌
  abbrev pub ◌>>=◌ : Cmd B → (B → Cmd C) → Cmd C
  m >>= k = λ s. and_then (m s) k

  abbrev pub ◌>>◌ : Cmd B → Cmd C → Cmd C
  m >> n = m >>= λ _. n

abbrev pub rlu_assert : Bool → Cmd (Unit {0})
rlu_assert true = pure tt
rlu_assert false = λ _. assert_failed

abbrev pub gets : {B : Type 0} → (State → B) → Cmd B
gets f s = ok (f s) s

abbrev pub modify_self : (Thread → Thread) → Cmd (Unit {0})
modify_self f s = ok tt (record s { self = f s.self })

abbrev pub modify : (State → State) → Cmd (Unit {0})
modify f s = ok tt (f s)

-- The other threads take their steps.
unfoldable pub tick : Env → Cmd (Unit {0})
tick E s = ok tt (E.others s)

abbrev pub or_fault : {B : Type 0} → Option B → Cmd B
or_fault none = λ _. fault
or_fault (some b) = pure b

-- rlu.h
abbrev pub rlu_type_fine_grained : ℕ
rlu_type_fine_grained = 1

abbrev pub rlu_type_coarse_grained : ℕ
rlu_type_coarse_grained = 2

abbrev pub rlu_max_write_sets : ℕ
rlu_max_write_sets = 200

-- MAX_VERSION: LONG_MAX - 1
abbrev pub max_version : ℕ
max_version = 2 ^ 63 - 2

abbrev pub ws_index : ℕ → ℕ
ws_index ws_counter = ws_counter % rlu_max_write_sets

abbrev pub is_odd : ℕ → Bool
is_odd n = n % 2 == 1

-- `g_rlu_threads[th_id]`
abbrev pub thread_of : State → ℕ → Option Thread
thread_of s th = if th == s.self.uniq_id then some s.self else s.threads th

abbrev pub slot_of : Option Thread → (ws_id offset : ℕ) → Option Slot
slot_of none w o = none
slot_of (some t) w o = (t.obj_write_set w).buffer o

abbrev pub read : {A B : Type 0} → Option A → (A → B) → State → Run B
read none f s = fault
read (some x) f s = ok (f x) s

-- A read through `g_rlu_threads[th_id]`.
unfoldable pub load_thread : ℕ → Cmd Thread
load_thread th s = read (thread_of s th) (λ t. t) s

-- GET_COPY
unfoldable pub get_copy : Ref → Cmd Header
get_copy null s = fault
get_copy (obj a) s = read (s.heap a) (λ o. o.p_obj_copy) s
get_copy (copy t w o) s = read (slot_of (thread_of s t) w o) (λ k. k.p_obj_copy) s

-- The slot that PTR_GET_WS_HEADER finds in front of a copy.
unfoldable pub get_slot : Header → Cmd Slot
get_slot (locked t w o) s = read (slot_of (thread_of s t) w o) (λ k. k) s
get_slot _ s = fault

-- GET_ACTUAL
unfoldable pub get_actual : Ref → Cmd Ref
get_actual (copy t w o) s = read (slot_of (thread_of s t) w o) (λ k. k.p_obj_actual) s
get_actual _ s = fault

abbrev pub is_copy : Header → Bool
is_copy id_obj_copy = true
is_copy _ = false

-- FORCE_ACTUAL
unfoldable pub force_actual : Ref → Cmd Ref
unfolding get_copy get_actual
force_actual p = do h ← get_copy p; if is_copy h then get_actual p else pure p

-- `*p_obj`
unfoldable pub load_item : Ref → Cmd Item
load_item null s = fault
load_item (obj a) s = read (s.heap a) (λ o. o.item) s
load_item (copy t w o) s = read (slot_of (thread_of s t) w o) (λ k. k.item) s

abbrev pub write : {A : Type 0} → (ℕ → A) → ℕ → A → ℕ → A
write m k v j = if j == k then v else m j

abbrev pub with_ws : ℕ → (ObjList → ObjList) → Thread → Thread
with_ws w f t = record t { obj_write_set = write t.obj_write_set w (f (t.obj_write_set w)) }

abbrev pub with_slot : ℕ → Slot → ObjList → ObjList
with_slot o k ws = record ws { buffer = write ws.buffer o (some k) }

-- The thread `t` with a new slot at `o` of its write set `w`.
store_slot : (t w o : ℕ) → Slot → State → State
store_slot t w o k s =
    if t == s.self.uniq_id then record s { self = with_ws w (with_slot o k) s.self } else record s {
      threads =
          λ j. if j == t then Option.map (with_ws w (with_slot o k)) (s.threads j) else s.threads j;
    }

put_item : (Slot → State) → (Item → Item) → Option Slot → Run (Unit {0})
put_item put f none = fault
put_item put f (some k) = ok tt (put (record k { item = f k.item }))

put_object : ℕ → (Object → Object) → State → Option Object → Run (Unit {0})
put_object a f s none = fault
put_object a f s (some o) = ok tt (record s { heap = write s.heap a (some (f o)) })

-- A write to an object of the heap, or to its header.
unfoldable pub store_object : Ref → (Object → Object) → Cmd (Unit {0})
unfolding put_object
store_object (obj a) f s = put_object a f s (s.heap a)
store_object _ f s = fault

-- `p_obj->field = ...`
unfoldable pub store_item : Ref → (Item → Item) → Cmd (Unit {0})
unfolding store_slot put_item store_object
store_item null f s = fault
store_item (obj a) f s = store_object (obj a) (λ o. record o { item = f o.item }) s
store_item (copy t w o) f s = put_item (λ k. store_slot t w o k s) f (slot_of (thread_of s t) w o)
