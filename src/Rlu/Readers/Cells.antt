-- ===== src/Rlu/Readers/Cells.antt =====
-- A sorted list of RLU objects in a heap, the place of a value in it, and what a new node does to it.
pub mod Insert
pub mod Remove
use rcx_hashtables.Base.{
  ℕ, zero, suc, ◌≤◌, ◌<◌, ◌≡◌, refl, Bool, true, false, arith, Option, some, none, Bool-cases, inl,
  inr, ◌==◌, eq_of_==, leb, if◌then◌else◌, List, [], ◌∷◌, contains, ap, ◌∙◌,
}
use rcx_hashtables.Machine.{list_val_max}
use rcx_hashtables.Rlu.{Ref, obj, unlocked, Item, Object}
use rcx_hashtables.Rlu.WriteSet.Layout.{Heap}

-- The object `p` is unlocked and holds `v`, and behind it stands `q`.
pub record Cell (h : Heap) (p v : ℕ) (q : Ref) : Type 0 where
  pub o : Object
  pub there : h p ≡ some o
  pub free : o.p_obj_copy ≡ unlocked
  pub val : o.item.val ≡ v
  pub next : o.item.p_next ≡ q

-- The values of the objects from `p` on grow strictly, up to the largest int. No object is locked.
pub data Cells (h : Heap) : (p : ℕ) → List ℕ → Type 0 where
  last : {p v : ℕ} (q : Ref) → Cell h p v q → v ≡ list_val_max → Cells h p (v ∷ [])
  cell :
      {p q v w : ℕ} {ws : List ℕ}
      → Cell h p v (obj q)
      → v < w
      → Cells h q (w ∷ ws)
      → Cells h p (v ∷ w ∷ ws)

-- From `p` on, `val` belongs between the objects `a` and `b`; `b` holds `bv`.
pub data Spot (h : Heap) (val : ℕ) : (p : ℕ) → List ℕ → (a b bv : ℕ) → Type 0 where
  here :
      {p q v w : ℕ} {ws : List ℕ}
      → Cell h p v (obj q)
      → v < w
      → v < val
      → val ≤ w
      → Cells h q (w ∷ ws)
      → Spot h val p (v ∷ w ∷ ws) p q w
  there :
      {p q v w a b bv : ℕ} {ws : List ℕ}
      → Cell h p v (obj q)
      → v < w
      → v < val
      → w < val
      → Spot h val q (w ∷ ws) a b bv
      → Spot h val p (v ∷ w ∷ ws) a b bv

pub record HasSpot (h : Heap) (val p : ℕ) (vs : List ℕ) : Type 0 where
  pub a : ℕ
  pub b : ℕ
  pub bv : ℕ
  pub spot : Spot h val p vs a b bv

pub Cells-HasSpot :
    {h : Heap} {p v : ℕ} {vs : List ℕ} (val : ℕ)
    → Cells h p (v ∷ vs)
    → v < val
    → val < list_val_max
    → HasSpot h val p (v ∷ vs)
Cells-HasSpot val (last q c top) lt below = absurd (omega (arith, lt, below, top))
Cells-HasSpot val (cell {p} {q} {v} {w} {ws} c up rest) lt below = elim (Bool-cases (leb val w)) [
  | inl stops ↦ record { a = p; b = q; bv = w; spot = here c up lt (ground (arith, stops)) rest }
  | inr goes ↦
      let r : HasSpot _ val q (w ∷ ws) = Cells-HasSpot val rest (ground (arith, goes)) below in
      record { a = r.a; b = r.b; bv = r.bv; spot = there c up lt (ground (arith, goes)) r.spot }
]

-- No value of the cells is below the first one.
Cells-above :
    {h : Heap} {p v : ℕ} {vs : List ℕ} (val : ℕ)
    → Cells h p (v ∷ vs)
    → val < v
    → contains (v ∷ vs) val ≡ false
Cells-above val (last {p} {v} q c top) lt =
    let differs : (val == v) ≡ false = ground (arith, lt) in rw differs refl
Cells-above val (cell {v} {w} c up rest) lt =
    let differs : (val == v) ≡ false = ground (arith, lt) in
    rw differs (Cells-above val rest (omega (arith, lt, up)))

-- The value at the spot tells whether `val` is in the list.
pub Spot-tells :
    {h : Heap} {val p a b bv : ℕ} {vs : List ℕ}
    → Spot h val p vs a b bv
    → (bv == val) ≡ contains vs val
Spot-tells {val} (here {p} {q} {v} {w} {ws} c up lt le rest) =
    let differs : (val == v) ≡ false = ground (arith, lt) in
    elim (Bool-cases (w == val)) [
      | inl same ↦
          let back : (val == w) ≡ true = ground (arith, same) in rw (differs, same, back) refl
      | inr other ↦ rw (differs, other, Cells-above val rest (ground (arith, le, other))) refl
    ]
Spot-tells {val} (there {v} c up lt le rest) =
    let differs : (val == v) ≡ false = ground (arith, lt) in rw differs (Spot-tells rest)

-- The first object of the cells, and where it leads.
pub record Heads (h : Heap) (p v : ℕ) : Type 0 where
  pub q : Ref
  pub cell : Cell h p v q

pub Cells-Heads : {h : Heap} {p v : ℕ} {vs : List ℕ} → Cells h p (v ∷ vs) → Heads h p v
Cells-Heads (last q c top) = record { q = q; cell = c }
Cells-Heads (cell {p} {q} c up rest) = record { q = obj q; cell = c }

pub Spot-Heads :
    {h : Heap} {val p v a b bv : ℕ} {vs : List ℕ} → Spot h val p (v ∷ vs) a b bv → Heads h p v
Spot-Heads (here {p} {q} c up lt le rest) = record { q = obj q; cell = c }
Spot-Heads (there {p} {q} c up lt le rest) = record { q = obj q; cell = c }
