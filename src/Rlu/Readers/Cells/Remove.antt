-- ===== src/Rlu/Readers/Cells/Remove.antt =====
-- What the removal of a node does to a sorted list of RLU objects.
use rcx_hashtables.Base.{ℕ, ◌<◌, ◌≡◌, true, false, arith, some, ◌==◌, List, ◌∷◌, erase}
use rcx_hashtables.Machine.{list_val_max}
use rcx_hashtables.Rlu.{Ref, obj, unlocked, Object}
use rcx_hashtables.Rlu.WriteSet.Layout.{Heap}
use rcx_hashtables.Rlu.Readers.Cells.{Cell, Cells, last, cell, Spot, here, there, Cells-Heads}
use rcx_hashtables.Rlu.Readers.Cells.Insert.{
  Spot-Before, Spot-Behind, Cells-frame, differs-at, flip,
}

-- In `g` the object `a` leads to where `b` leads in `h`, and the other unlocked objects but `b` are kept.
pub record Removes (h g : Heap) (a b : ℕ) : Type 0 where
  pub before :
      (o o' : Object)
      → h a ≡ some o
      → o.p_obj_copy ≡ unlocked
      → h b ≡ some o'
      → g a ≡ some (record o { item = record (o.item) { p_next = o'.item.p_next } })
  pub others :
      (x : ℕ) (o : Object)
      → h x ≡ some o
      → o.p_obj_copy ≡ unlocked
      → (x == a) ≡ false
      → (x == b) ≡ false
      → g x ≡ some o

-- The object with the value `bv`, and the next one.
pub record Next (h : Heap) (b bv : ℕ) : Type 0 where
  pub q : ℕ
  pub w : ℕ
  pub r : Ref
  pub cell : Cell h b bv (obj q)
  pub behind : Cell h q w r
  pub up : bv < w

Cells-Next :
    {h : Heap} {b bv : ℕ} {ws : List ℕ} → Cells h b (bv ∷ ws) → bv < list_val_max → Next h b bv
Cells-Next (last q c top) below = absurd (omega (arith, below, top))
Cells-Next (cell {p} {q} {v} {w} c up rest) below =
    let d = Cells-Heads rest in record { q = q; w = w; r = d.q; cell = c; behind = d.cell; up = up }

pub Spot-Next :
    {h : Heap} {val p a b bv : ℕ} {vs : List ℕ}
    → Spot h val p vs a b bv
    → bv < list_val_max
    → Next h b bv
Spot-Next (here c up lt le rest) below = Cells-Next rest below
Spot-Next (there c up lt le rest) below = Spot-Next rest below

module _ {h g : Heap} {val a b : ℕ} (i : Removes h g a b) (below : val < list_val_max) where
  pub Spot-remove :
      {p bv : ℕ} {vs : List ℕ}
      → Spot h val p vs a b bv
      → (bv == val) ≡ true
      → Cells g p (erase val vs)
  Spot-remove (here {p} {q} {v} {w} k up lt le (last r c top)) same =
      absurd (ground (arith, same, top, below))
  Spot-remove (here {p} {q} {v} {w} k up lt le (cell c up' rest)) same =
      let first : (val == v) ≡ false = ground (arith, lt) in
      let found : (val == w) ≡ true = ground (arith, same) in
      rw (first, found)
        (cell
          (record {
            o = record (k.o) { item = record (k.o.item) { p_next = c.o.item.p_next } };
            there = i.before k.o c.o k.there k.free c.there;
            free = k.free;
            val = k.val;
            next = c.next;
          })
          (omega (arith, up, up'))
          (Cells-frame g rest λ x o e f far.
            i.others x o e f
              (flip x a (differs-at h a x k.o o k.there e (omega (arith, far, k.val, up, up'))))
              (flip x b (differs-at h b x c.o o c.there e (omega (arith, far, c.val, up'))))))
  Spot-remove (there {p} {q} {v} {w} {a} {b} {bv} {ws} k up lt le rest) same =
      let first : (val == v) ≡ false = ground (arith, lt) in
      let second : (val == w) ≡ false = ground (arith, le) in
      let f = Spot-Before rest in
      let l = Spot-Behind rest in
      let tail : Cells g q (w ∷ erase val ws) = rw second at (Spot-remove rest same) in
      rw (first, second)
        (cell
          (record {
            o = k.o;
            there =
                i.others p k.o k.there k.free
                  (differs-at h p a k.o f.cell.o k.there f.cell.there
                    (omega (arith, k.val, f.cell.val, up, f.above)))
                  (differs-at h p b k.o l.cell.o k.there l.cell.there
                    (omega (arith, k.val, l.cell.val, lt, l.reached)));
            free = k.free;
            val = k.val;
            next = k.next;
          })
          up tail)
