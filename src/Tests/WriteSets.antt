-- ===== src/Tests/WriteSets.antt =====
-- A thread of RLU that has locked one object, and the theorems about write sets at it.
use rcx_hashtables.Base.{◌≡◌, refl, ◌==◌, if◌then◌else◌, none, some, [], true}
use rcx_hashtables.Rlu.{
  fault, null, obj, id_obj_copy, locked, unlocked, Slot, ObjList, Thread, State,
  rlu_type_fine_grained, max_version,
}
use rcx_hashtables.Rlu.Ends.{Returns}
use rcx_hashtables.Rlu.Lists.Hash.{Table, rlu_hash_list_destroy}
use rcx_hashtables.Rlu.Lists.Destroy.{rlu_hash_list_destroy_lem}
use rcx_hashtables.Rlu.WriteSet.{rlu_writeback_write_set, rlu_unlock_objs}
use rcx_hashtables.Rlu.WriteSet.Layout.{stop, slot}
use rcx_hashtables.Rlu.WriteSet.Writeback.{
  IsLaid, SweptSet, Swept, written, dropped, rlu_writeback_write_set_lem, rlu_unlock_objs_lem,
}
use rcx_hashtables.Rlu.Section.{no_stats, no_thread}

-- The copy of object 1, with another value.
abbrev pub copy_of_one : Slot
copy_of_one = record {
  p_obj_actual = obj 1;
  obj_size = 1024;
  run_counter = 1;
  thread_id = 0;
  p_obj_copy = id_obj_copy;
  item = record { val = 7; p_next = obj 2 };
}

abbrev pub one_slot : ObjList
one_slot = record {
  writer_locks = [];
  num_of_objs = 1;
  p_cur = 1064;
  buffer = λ o. if o == 40 then some copy_of_one else none;
}

-- Inside a section that has locked object 1.
abbrev pub writer : Thread
writer = record no_thread {
  type = rlu_type_fine_grained;
  max_write_sets = 1;
  run_counter = 1;
  is_check_locks = true;
  is_write_detected = true;
  writer_version = max_version;
  obj_write_set = λ w. if w == 0 then one_slot else no_thread.obj_write_set w;
}

abbrev pub locked_one : State
locked_one = record {
  self = writer;
  heap = λ a.
      if a == 1
      then some (record { p_obj_copy = locked 0 0 40; item = record { val = 5; p_next = obj 2 } })
      else if a == 2
      then some (record { p_obj_copy = unlocked; item = record { val = 9; p_next = null } })
      else none;
  threads = λ _. none;
  cur_threads = 1;
  writer_locks = λ _. 0;
  writer_version = 0;
  commit_version = 0;
  type = rlu_type_fine_grained;
  max_write_sets = 1;
  stats = no_stats;
}

pub locked_one-IsLaid : IsLaid 0 locked_one
locked_one-IsLaid =
    slot copy_of_one 1 refl
      (record { o = _; header = refl; actual = refl; owner = refl; there = refl; leads = refl })
      stop

rlu_writeback_write_set_example :
    Returns (λ _ s'. SweptSet 0 locked_one written s') (rlu_writeback_write_set 0 locked_one)
rlu_writeback_write_set_example = rlu_writeback_write_set_lem 0 locked_one locked_one-IsLaid

rlu_unlock_objs_example :
    Returns (λ _ s'. Swept 0 locked_one dropped 1 0 1064 s') (rlu_unlock_objs 0 locked_one)
rlu_unlock_objs_example =
    rlu_unlock_objs_lem 0 locked_one (record { end = 1064; laid = locked_one-IsLaid })

abbrev one_bucket : Table
one_bucket = record { n_buckets = 1; buckets = λ _. obj 1 }

rlu_hash_list_destroy_example : rlu_hash_list_destroy 9 one_bucket locked_one ≡ fault
rlu_hash_list_destroy_example = rlu_hash_list_destroy_lem 8 0 1 one_bucket locked_one refl refl
