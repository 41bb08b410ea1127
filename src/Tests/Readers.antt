-- ===== src/Tests/Readers.antt =====
-- A thread of RLU that uses a list of one value while the others read.
use rcx_hashtables.Base.{◌≡◌, refl, false, arith, inl, ◌==◌, [], ◌∷◌, contains}
use rcx_hashtables.Machine.{list_val_max}
use rcx_hashtables.Rlu.{null, obj, State, Env}
use rcx_hashtables.Rlu.Ends.{Returns}
use rcx_hashtables.Rlu.Lists.{
  rlu_list_contains, rlu_list_add, rlu_list_try_add, rlu_list_remove, rlu_list_try_remove,
}
use rcx_hashtables.Rlu.Readers.{OnlyRead, Gives}
use rcx_hashtables.Rlu.Readers.Cells.{Cells, last, cell}
use rcx_hashtables.Rlu.Readers.Section.{opened, closed}
use rcx_hashtables.Rlu.Readers.Walk.{rlu_list_contains_lem}
use rcx_hashtables.Rlu.Readers.Insert.{HasRoom}
use rcx_hashtables.Rlu.Readers.Ready.{Ready}
use rcx_hashtables.Rlu.Readers.Add.{HasValue, rlu_list_add_lem}
use rcx_hashtables.Rlu.Readers.Remove.{LacksValue, rlu_list_remove_lem}
use rcx_hashtables.Rlu.Settle.{Leaving}
use rcx_hashtables.Rlu.Quiescence.Init.{counters}
use rcx_hashtables.Tests.Commits.{polite, leave_if, leave_if-present, polite-passes}
use rcx_hashtables.Tests.Searches.{one_value, first_node, five_node, last_node}
use rcx_hashtables.Rlu.Section.{no_thread}

-- The others leave their sections, and the allocator gives the address 4.
abbrev pub reading : Env
reading = record polite { malloc = λ _. 4 }

reading-OnlyRead : OnlyRead reading
reading-OnlyRead = record {
  threads = λ s j. leave_if (s.self.q_threads j).is_wait (s.threads j);
  cur_threads = λ s. s.cur_threads;
  others = λ s. refl;
  present = λ s th u e. leave_if-present (s.self.q_threads th).is_wait (s.threads th) u e;
  come = λ s. omega arith;
}

reading-Leaving : Leaving reading 2
reading-Leaving s = record {
  rank = λ th t. 0;
  passes = λ t th u e odd w.
      inl (polite-passes (counters reading s th) s.self.writer_version th t u e odd w);
  enough = λ t th. omega arith;
}

-- The list that holds 5, and a thread that gathers one write set.
abbrev idle_writer : State
idle_writer = record one_value { self = record no_thread { max_write_sets = 1 } }

idle_writer-Cells : Cells idle_writer.heap 1 (0 ∷ 5 ∷ list_val_max ∷ [])
idle_writer-Cells =
    cell (record { o = first_node; there = refl; free = refl; val = refl; next = refl })
      (omega arith)
      (cell (record { o = five_node; there = refl; free = refl; val = refl; next = refl })
        (omega arith)
        (last null (record { o = last_node; there = refl; free = refl; val = refl; next = refl })
          refl))

idle_writer-Ready : Ready idle_writer
idle_writer-Ready = record {
  even = refl;
  unasked = refl;
  calm = record {
    versions = refl;
    sets = record {
      one = refl;
      wb = refl;
      head = omega arith;
      flushed = omega arith;
      cur_id = refl;
    };
    unused = λ w out. record { num_of_objs = refl; p_cur = refl; writer_locks = refl };
    rested = λ th. refl;
    no_free = refl;
  };
}

idle_writer-HasRoom : HasRoom 4 idle_writer.heap
idle_writer-HasRoom x le =
    let one : (x == 1) ≡ false = ground (arith, le) in
    let two : (x == 2) ≡ false = ground (arith, le) in
    let three : (x == 3) ≡ false = ground (arith, le) in rw (one, two, three) refl

rlu_list_contains_example :
    Returns
      (Gives (contains (0 ∷ 5 ∷ list_val_max ∷ []) 5) (closed (opened idle_writer)))
      (rlu_list_contains reading 2 (obj 1) 5 idle_writer)
rlu_list_contains_example =
    rlu_list_contains_lem reading-OnlyRead 2 idle_writer 1 5 0 (5 ∷ list_val_max ∷ [])
      (record { even = refl; unasked = refl; versions = refl; written = refl; unlocked = refl })
      idle_writer-Cells (omega arith) (omega arith) (omega arith)

rlu_list_add_example :
    Returns
      (HasValue 1 7 (0 ∷ 5 ∷ list_val_max ∷ []))
      (rlu_list_add reading 3 (obj 1) 7 idle_writer)
    × Returns
        (HasValue 1 7 (0 ∷ 5 ∷ list_val_max ∷ []))
        (rlu_list_try_add reading 2 (obj 1) 7 idle_writer)
rlu_list_add_example =
    rlu_list_add_lem reading-OnlyRead 2 reading-Leaving 4 (λ t room. (refl, room 4 (omega arith)))
      idle_writer idle_writer-Ready idle_writer-HasRoom 1 7 0 (5 ∷ list_val_max ∷ [])
      idle_writer-Cells (omega arith) (omega arith) (omega arith)

rlu_list_remove_example :
    Returns
      (LacksValue idle_writer 1 5 (0 ∷ 5 ∷ list_val_max ∷ []))
      (rlu_list_remove reading 3 (obj 1) 5 idle_writer)
    × Returns
        (LacksValue idle_writer 1 5 (0 ∷ 5 ∷ list_val_max ∷ []))
        (rlu_list_try_remove reading 2 (obj 1) 5 idle_writer)
rlu_list_remove_example =
    rlu_list_remove_lem reading-OnlyRead 2 reading-Leaving idle_writer idle_writer-Ready 1 5 0
      (5 ∷ list_val_max ∷ []) idle_writer-Cells (omega arith) (omega arith) (omega arith)
