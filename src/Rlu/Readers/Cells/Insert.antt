-- ===== src/Rlu/Readers/Cells/Insert.antt =====
-- What a new node does to a sorted list of RLU objects.
use rcx_hashtables.Base.{
  ℕ, ◌≤◌, ◌<◌, ◌≡◌, refl, true, false, arith, some, Bool-cases, inl, inr, ◌==◌, eq_of_==, leb,
  if◌then◌else◌, List, [], ◌∷◌,
}
use rcx_hashtables.Rlu.{Ref, obj, unlocked, Object}
use rcx_hashtables.Rlu.WriteSet.Layout.{Heap}
use rcx_hashtables.Rlu.Readers.Cells.{Cell, Cells, last, cell, Spot, here, there, Cells-Heads}

-- The sorted insertion.
abbrev pub insert : ℕ → List ℕ → List ℕ
insert val [] = val ∷ []
insert val (v ∷ vs) = if leb val v then val ∷ v ∷ vs else v ∷ insert val vs

-- A heap that keeps the objects with values from `w` on keeps the cells from there on.
pub Cells-frame :
    {h : Heap} (g : Heap) {q w : ℕ} {ws : List ℕ}
    → Cells h q (w ∷ ws)
    → ((x : ℕ) (o : Object)
        → h x ≡ some o
        → o.p_obj_copy ≡ unlocked
        → w ≤ o.item.val
        → g x ≡ some o)
    → Cells g q (w ∷ ws)
Cells-frame g (last {p} {v} r c top) keep =
    last r
      (record {
        o = c.o;
        there = keep p c.o c.there c.free (omega (arith, c.val));
        free = c.free;
        val = c.val;
        next = c.next;
      })
      top
Cells-frame g (cell {p} {q} {v} {w} c up rest) keep =
    cell
      (record {
        o = c.o;
        there = keep p c.o c.there c.free (omega (arith, c.val));
        free = c.free;
        val = c.val;
        next = c.next;
      })
      up (Cells-frame g rest λ x o e f le. keep x o e f (omega (arith, le, up)))

-- The object in front of the spot is unlocked, and its value is below `val` and not below the first value.
pub record Before (h : Heap) (val v a b : ℕ) : Type 0 where
  pub u : ℕ
  pub cell : Cell h a u (obj b)
  pub above : v ≤ u
  pub below : u < val

pub Spot-Before :
    {h : Heap} {val p v a b bv : ℕ} {vs : List ℕ}
    → Spot h val p (v ∷ vs) a b bv
    → Before h val v a b
Spot-Before (here {p} {q} {v} c up lt le rest) = record {
  u = v;
  cell = c;
  above = omega arith;
  below = lt;
}
Spot-Before (there c up lt le rest) =
    let r = Spot-Before rest in
    record { u = r.u; cell = r.cell; above = omega (arith, up, r.above); below = r.below }

-- The object behind the spot.
pub record Behind (h : Heap) (val b bv : ℕ) : Type 0 where
  pub q : Ref
  pub cell : Cell h b bv q
  pub reached : val ≤ bv

pub Spot-Behind :
    {h : Heap} {val p a b bv : ℕ} {vs : List ℕ} → Spot h val p vs a b bv → Behind h val b bv
Spot-Behind (here c up lt le rest) =
    let d = Cells-Heads rest in record { q = d.q; cell = d.cell; reached = le }
Spot-Behind (there c up lt le rest) = Spot-Behind rest

-- The heap `g` has a new node `c` with `val` between `a` and `b`, and keeps the other unlocked objects of `h`.
pub record Inserts (h g : Heap) (val a b c : ℕ) : Type 0 where
  pub before :
      (o : Object)
      → h a ≡ some o
      → o.p_obj_copy ≡ unlocked
      → g a ≡ some (record o { item = record (o.item) { p_next = obj c } })
  pub new :
      g c ≡ some (record { p_obj_copy = unlocked; item = record { val = val; p_next = obj b } })
  pub others :
      (x : ℕ) (o : Object)
      → h x ≡ some o
      → o.p_obj_copy ≡ unlocked
      → (x == a) ≡ false
      → g x ≡ some o

-- An object with another value is another object.
pub differs-at :
    (h : Heap) (x a : ℕ) (o o' : Object)
    → h x ≡ some o
    → h a ≡ some o'
    → o.item.val < o'.item.val
    → (x == a) ≡ false
differs-at h x a o o' e e' lt = elim (Bool-cases (x == a)) [
  | inl same ↦ absurd (ground (arith, e, e', lt, eq_of_== x a same))
  | inr other ↦ other
]

pub flip : (x a : ℕ) → (a == x) ≡ false → (x == a) ≡ false
flip x a ne = ground (arith, ne)

module _ {h g : Heap} {val a b c : ℕ} (i : Inserts h g val a b c) where
  pub Spot-insert :
      {p bv : ℕ} {vs : List ℕ}
      → Spot h val p vs a b bv
      → (bv == val) ≡ false
      → Cells g p (insert val vs)
  Spot-insert (here {p} {q} {v} {w} {ws} k up lt le rest) ne =
      let goes : leb val v ≡ false = ground (arith, lt) in
      let stops : leb val w ≡ true = ground (arith, le) in
      rw (goes, stops)
        (cell
          (record {
            o = record (k.o) { item = record (k.o.item) { p_next = obj c } };
            there = i.before k.o k.there k.free;
            free = k.free;
            val = k.val;
            next = refl;
          })
          lt
          (cell
            (record {
              o = record { p_obj_copy = unlocked; item = record { val = val; p_next = obj b } };
              there = i.new;
              free = refl;
              val = refl;
              next = refl;
            })
            (ground (arith, le, ne))
            (Cells-frame g rest λ x o e f far.
              i.others x o e f
                (flip x a (differs-at h a x k.o o k.there e (omega (arith, far, k.val, lt, le)))))))
  Spot-insert (there {p} {q} {v} {w} {a} {b} {bv} {ws} k up lt le rest) ne =
      let goes : leb val v ≡ false = ground (arith, lt) in
      let r = Spot-Before rest in
      let goes' : leb val w ≡ false = ground (arith, le) in
      let tail : Cells g q (w ∷ insert val ws) = rw goes' at (Spot-insert rest ne) in
      rw (goes, goes')
        (cell
          (record {
            o = k.o;
            there = i.others p k.o k.there k.free (
                differs-at h p a k.o r.cell.o k.there r.cell.there
                  (omega (arith, k.val, r.cell.val, up, r.above)));
            free = k.free;
            val = k.val;
            next = k.next;
          })
          up tail)

pub Spot-apart :
    {h : Heap} {val p v a b bv : ℕ} {vs : List ℕ} → Spot h val p (v ∷ vs) a b bv → (a == b) ≡ false
Spot-apart {h} {val} {p} {v} {a} {b} spot =
    let f = Spot-Before spot in
    let l = Spot-Behind spot in
    differs-at h a b f.cell.o l.cell.o f.cell.there l.cell.there
      (omega (arith, f.cell.val, l.cell.val, f.below, l.reached))
