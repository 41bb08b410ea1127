-- ===== src/Rlu/WriteSet/Layout.antt =====
-- The buffer of a write set as a row of slots, each with an object of the heap that it locks.
use rcx_hashtables.Base.{
  ℕ, suc, ◌+◌, ◌≤◌, ◌<◌, ◌≡◌, Option, some, arith, Bool-cases, inl, inr, ◌==◌, eq_of_==, ◌∙◌,
}
use rcx_hashtables.Rlu.{obj, id_obj_copy, locked, Object, Slot, write}
use rcx_hashtables.Rlu.WriteSet.{ws_obj_header_size, obj_header_size, align_obj_size}

abbrev pub headers_size : ℕ
headers_size = ws_obj_header_size + obj_header_size

abbrev pub Heap : Type 0
Heap = ℕ → Option Object

abbrev pub Buffer : Type 0
Buffer = ℕ → Option Slot

-- The slot `k` at `at` of write set `w` of the thread `me` locks the object `a`.
pub record LocksObject (me w : ℕ) (h : Heap) (at : ℕ) (k : Slot) (a : ℕ) : Type 0 where
  pub o : Object
  pub header : k.p_obj_copy ≡ id_obj_copy
  pub actual : k.p_obj_actual ≡ obj a
  pub owner : k.thread_id ≡ me
  pub there : h a ≡ some o
  pub leads : o.p_obj_copy ≡ locked me w at

-- `count` slots stand in the buffer from `p_cur` on, the last one ends at `end`, and `P` holds for
-- the offset, the slot and the object of each.
pub data Row (b : Buffer) (P : (at : ℕ) → Slot → (a : ℕ) → Type 0)
    : (count p_cur end : ℕ) → Type 0 where
  stop : {p : ℕ} → Row b P 0 p p
  slot :
      {n p q : ℕ} (k : Slot) (a : ℕ)
      → b (p + headers_size) ≡ some k
      → P (p + headers_size) k a
      → Row b P n (p + headers_size + align_obj_size k.obj_size) q
      → Row b P (suc n) p q

abbrev pub Laid : (me w : ℕ) (b : Buffer) (h : Heap) (count p_cur end : ℕ) → Type 0
Laid me w b h = Row b (LocksObject me w h)

pub Row-mono :
    {b : Buffer} {P : ℕ → Slot → ℕ → Type 0} (Q : ℕ → Slot → ℕ → Type 0) {n p q : ℕ}
    → Row b P n p q
    → ((at : ℕ) (k : Slot) (a : ℕ) → p + headers_size ≤ at → P at k a → Q at k a)
    → Row b Q n p q
Row-mono Q stop f = stop
Row-mono Q (slot {p} k a e l rest) f =
    slot k a e (f (p + headers_size) k a (omega arith) l)
      (Row-mono Q rest (λ at k' a' le. f at k' a' (omega (arith, le))))

pub Row-le : {b : Buffer} {P : ℕ → Slot → ℕ → Type 0} {n p q : ℕ} → Row b P n p q → p ≤ q
Row-le stop = omega arith
Row-le (slot k a e l rest) = omega (arith, Row-le rest)

-- A write to the buffer behind the row.
pub Row-buffer :
    {b : Buffer} {P : ℕ → Slot → ℕ → Type 0} (c : Buffer) {n p q : ℕ}
    → Row b P n p q
    → ((at : ℕ) → at ≤ q → c at ≡ b at)
    → Row c P n p q
Row-buffer c stop same = stop
Row-buffer c (slot {p} k a e l rest) same =
    slot k a (same (p + headers_size) (omega (arith, Row-le rest)) ∙ e) l (Row-buffer c rest same)

-- One more slot at the end.
pub Row-snoc :
    {b : Buffer} {P : ℕ → Slot → ℕ → Type 0} {n p q : ℕ} (k : Slot) (a : ℕ)
    → Row b P n p q
    → b (q + headers_size) ≡ some k
    → P (q + headers_size) k a
    → Row b P (suc n) p (q + headers_size + align_obj_size k.obj_size)
Row-snoc k a stop e l = slot k a e l stop
Row-snoc k a (slot k' a' e' l' rest) e l = slot k' a' e' l' (Row-snoc k a rest e l)

-- The change from `h` to `g` spares what the thread locks by slots of `w` from `p` on.
abbrev pub Spares : (me w p : ℕ) (h g : Heap) → Type 0
Spares me w p h g =
    (a : ℕ) (o : Object) (at : ℕ)
    → h a ≡ some o
    → o.p_obj_copy ≡ locked me w at
    → p + headers_size ≤ at
    → g a ≡ some o

pub Laid-frame :
    {me w : ℕ} {b : Buffer} {h : Heap} (g : Heap) {n p q : ℕ}
    → Laid me w b h n p q
    → Spares me w p h g
    → Laid me w b g n p q
Laid-frame {me} {w} g row same = Row-mono (LocksObject me w g) row λ at k a le l. record {
  o = l.o;
  header = l.header;
  actual = l.actual;
  owner = l.owner;
  there = same a l.o at l.there l.leads le;
  leads = l.leads;
}

-- A change of an object that slot `at` of `w` locks spares the others.
pub write-Spares :
    {me w v at a : ℕ} (p : ℕ) (h : Heap) {o : Object} (c : Option Object)
    → h a ≡ some o
    → o.p_obj_copy ≡ locked me w at
    → (v ≡ w → at < p + headers_size)
    → Spares me v p h (write h a c)
write-Spares {w} {v} {at} {a} p h {o} c e f off a' o' at' e' f' le = elim (Bool-cases (a' == a)) [
  | inl same ↦
      let same_object : o' ≡ o = ground (arith, e, e', eq_of_== a' a same) in
      let same_ws : v ≡ w = ground (arith, f, f', same_object) in
      let same_at : at' ≡ at = ground (arith, f, f', same_object) in
      absurd (omega (arith, off same_ws, le, same_at))
  | inr other ↦ ground (arith, e', other)
]
