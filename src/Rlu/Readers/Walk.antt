-- ===== src/Rlu/Readers/Walk.antt =====
-- The search among readers, and rlu_list_contains.
use rcx_hashtables.Base.{
  ℕ, zero, suc, ◌≤◌, ◌<◌, ◌≡◌, refl, true, false, arith, leb, List, ◌∷◌, contains,
}
use rcx_hashtables.Machine.{list_val_max}
use rcx_hashtables.Rlu.{Ref, obj, State, Env, ok, ◌>>=◌, load_item, tick, is_odd}
use rcx_hashtables.Rlu.Ends.{returns, Returns}
use rcx_hashtables.Rlu.WriterLocks.{length}
use rcx_hashtables.Rlu.Objects.{rlu_deref}
use rcx_hashtables.Rlu.Section.{next_counter}
use rcx_hashtables.Rlu.Lists.{Place, deref_next, search, find, rlu_list_contains}
use rcx_hashtables.Rlu.Readers.{drift, OnlyRead, Gives, gives, bind, Gives-drift}
use rcx_hashtables.Rlu.Readers.Cells.{
  Cell, Cells, Spot, here, there, Cells-Heads, Spot-Heads, Cells-HasSpot, Spot-tells,
}
use rcx_hashtables.Rlu.Readers.Section.{
  Outside, opened, closed, reader_lock-opened, reader_unlock-closed,
}

pub load_item-Cell :
    (s : State) {p v : ℕ} {q : Ref} (c : Cell s.heap p v q) → load_item (obj p) s ≡ ok c.o.item s
unfolding load_item
load_item-Cell s c = rw (c.there) refl

abbrev pub place : (a b bv : ℕ) → Place
place a b bv = record { prev = obj a; next = obj b; val = bv }

module _ {E : Env} (r : OnlyRead E) where
  deref-Gives :
      (s : State) (p : Ref) → s.self.is_check_locks ≡ false → Returns (Gives p s) (rlu_deref E p s)
  unfolding rlu_deref tick
  deref-Gives s p plain =
      let runs : rlu_deref E p s ≡ ok p (drift (r.threads s) (r.cur_threads s) s) =
        rw (r.others s, plain) refl in
      rw runs (returns (gives (r.threads s) (r.cur_threads s)))

  pub deref_next-Gives :
      {p v : ℕ} {q : Ref} (s : State)
      → Cell s.heap p v q
      → s.self.is_check_locks ≡ false
      → Returns (Gives q s) (deref_next E (obj p) s)
  unfolding deref_next
  deref_next-Gives {p} {v} {q} s c plain = rw (load_item-Cell s c, c.next) (deref-Gives s q plain)

  walk-Gives :
      {val p a b bv : ℕ} {vs : List ℕ} (fuel : ℕ) (s : State)
      → Spot s.heap val p vs a b bv
      → length vs < suc (suc fuel)
      → s.self.is_check_locks ≡ false
      → Returns (Gives (place a b bv) s) ((deref_next E (obj p) >>= search E fuel val (obj p)) s)
  unfolding search
  walk-Gives zero s (here c up lt le rest) enough plain = absurd (omega (arith, enough))
  walk-Gives zero s (there c up lt le rest) enough plain = absurd (omega (arith, enough))
  walk-Gives {val} (suc fuel) s (here {p} {q} {v} {w} c up lt le rest) enough plain =
      let d = Cells-Heads rest in
      let stops : leb val d.cell.o.item.val ≡ true = ground (arith, le, d.cell.val) in
      bind _ (deref_next-Gives s c plain)
        λ t n. rw (load_item-Cell (drift t n s) d.cell, stops, d.cell.val) (returns (gives t n))
  walk-Gives {val} (suc fuel) s (there {p} {q} {v} {w} {a} {b} {bv} c up lt le rest) enough plain =
      let d = Spot-Heads rest in
      let goes : leb val d.cell.o.item.val ≡ false = ground (arith, le, d.cell.val) in
      bind _ (deref_next-Gives s c plain) λ t n.
        rw (load_item-Cell (drift t n s) d.cell, goes)
          (Gives-drift t n (walk-Gives fuel (drift t n s) rest (omega (arith, enough)) plain))

  pub find-Gives :
      {val p a b bv : ℕ} {vs : List ℕ} (fuel : ℕ) (s : State)
      → Spot s.heap val p vs a b bv
      → length vs < suc (suc fuel)
      → s.self.is_check_locks ≡ false
      → Returns (Gives (place a b bv) s) (find E fuel (obj p) val s)
  unfolding find
  find-Gives {val} {p} fuel s spot enough plain =
      bind _ (deref-Gives s (obj p) plain)
        λ t n. Gives-drift t n (walk-Gives fuel (drift t n s) spot enough plain)

odd_next : (n : ℕ) → is_odd n ≡ false → is_odd (next_counter n) ≡ true
odd_next n even = ground (arith, even)

module _ {E : Env} (r : OnlyRead E) where
  -- Among threads that only read, `rlu_list_contains` returns, and tells whether `val` is one of the values
  -- of the list, if the fuel is at least their number. The objects are as before, and so is everything else but
  -- for the thread's section, which has begun and ended, and what the other threads wrote of their data. The list is sorted
  -- with values up to INT_MAX, and no object of it is locked; `val` is above the first value, INT_MIN in the
  -- lists of the code, and below INT_MAX. The thread is outside a section, no commit is under way, no synchronization is asked
  -- for, and it has no writer lock and nothing to write back.
  pub rlu_list_contains_lem :
      (fuel : ℕ) (s : State) (p_head val v : ℕ) (vs : List ℕ)
      → Outside s
      → Cells s.heap p_head (v ∷ vs)
      → v < val
      → val < list_val_max
      → length vs ≤ fuel
      → Returns
          (Gives (contains (v ∷ vs) val) (closed (opened s)))
          (rlu_list_contains E fuel (obj p_head) val s)
  unfolding rlu_list_contains
  rlu_list_contains_lem fuel s p_head val v vs out cells above below enough =
      let h = Cells-HasSpot val cells above below in
      bind _ (reader_lock-opened r fuel s out) λ t n.
        bind _ (find-Gives r fuel (drift t n (opened s)) h.spot (omega (arith, enough)) refl)
          λ t' n'.
            bind _
              (reader_unlock-closed r fuel (drift t' n' (opened s))
                (odd_next s.self.run_counter out.even) refl out.unlocked out.unasked)
              λ t2 n2. rw (Spot-tells h.spot) (returns (gives t2 n2))
