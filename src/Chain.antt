-- ===== src/Chain.antt =====
-- What a chain of nodes in the heap stands for: the address and the value of each node, in order.
pub mod Link
pub mod Unlink
use rcx_hashtables.Base.{
  ℕ, zero, suc, ◌≤◌, ◌<◌, ◌≡◌, refl, ◌≢◌, inl, inr, Bool, true, false, ◌||◌, none, some, List, [],
  ◌∷◌, arith, ◌∙◌, ◌==◌, Bool-cases, eq_of_==, ==-refl, contains,
}
use rcx_hashtables.Machine.{Ptr, null, list_val_max, Node, Heap}

abbrev pub Cells : Type 0
Cells = List (Ptr × ℕ)

abbrev pub has : Cells → Ptr → Bool
has [] a = false
has ((p, _) ∷ xs) a = (a == p) || has xs a

-- The values between the two sentinels of a list, from the cells behind the first one.
unfoldable pub elements : Cells → List ℕ
elements [] = []
elements (x ∷ []) = []
elements ((_, v) ∷ y ∷ xs) = v ∷ elements (y ∷ xs)

-- The last cell is the sentinel with the greatest value.
abbrev pub LastMax : Cells → Type 0
LastMax [] = ⊥
LastMax ((_, v) ∷ []) = v ≡ list_val_max
LastMax (_ ∷ y ∷ xs) = LastMax (y ∷ xs)

pub elements-cons : (x : Ptr × ℕ) (xs : Cells) → LastMax xs → elements (x ∷ xs) ≡ x.1 ∷ elements xs
unfolding elements
elements-cons x [] l = elim l [ ]
elements-cons x (y ∷ xs) l = refl

pub LastMax-cons : (x : Ptr × ℕ) (xs : Cells) → LastMax xs → LastMax (x ∷ xs)
LastMax-cons x [] l = elim l [ ]
LastMax-cons x (y ∷ xs) l = l

-- `p` holds the value `v` and the pointer `q`, and is not marked as removed.
pub record Points (h : Heap) (p : Ptr) (v : ℕ) (q : Ptr) : Type 0 where
  pub node : Node
  pub holds : h p ≡ some node
  pub val_eq : node.val ≡ v
  pub next_eq : node.p_next ≡ q
  pub live : node.removed ≡ false

-- From `p` the pointers lead through the nodes `xs` to NULL. The values grow, from `lo` on.
pub data Seg (h : Heap) : ℕ → Ptr → Cells → Type 0 where
  nil : {lo : ℕ} → Seg h lo null []
  cons :
      {lo : ℕ} {p q : Ptr} {v : ℕ} {xs : Cells}
      → Points h p v q
      → lo ≤ v
      → Seg h (suc v) q xs
      → Seg h lo p ((p, v) ∷ xs)

-- A node that some cell names.
pub record Found (h : Heap) (lo : ℕ) (a : Ptr) : Type 0 where
  pub val : ℕ
  pub next : Ptr
  pub points : Points h a val next
  pub bound : lo ≤ val

module _ {h : Heap} where
  pub Points-val : {a : Ptr} {v w : ℕ} {q r : Ptr} → Points h a v q → Points h a w r → v ≡ w
  Points-val e f = ground (arith, e.holds, f.holds, e.val_eq, f.val_eq)

  pub Points-next : {a : Ptr} {v w : ℕ} {q r : Ptr} → Points h a v q → Points h a w r → q ≡ r
  Points-next e f = ground (arith, e.holds, f.holds, e.next_eq, f.next_eq)

  pub Points-ne :
      {a b : Ptr} {v w : ℕ} {q r : Ptr} → Points h a v q → Points h b w r → v ≢ w → (b == a) ≡ false
  Points-ne {a} {b} e f ne = elim (Bool-cases (b == a)) [
    | inl same ↦ absurd (ne (Points-val e (rw (eq_of_== b a same) at f)))
    | inr other ↦ other
  ]

  pub Points-frame :
      {g : Heap} {a : Ptr} {v : ℕ} {q : Ptr} → Points h a v q → g a ≡ h a → Points g a v q
  Points-frame e same = record {
    node = e.node;
    holds = same ∙ e.holds;
    val_eq = e.val_eq;
    next_eq = e.next_eq;
    live = e.live;
  }

  -- A chain survives a change that spares its own nodes, and any smaller bound.
  pub frame :
      {g : Heap} {lo : ℕ} {p : Ptr} {xs : Cells}
      → Seg h lo p xs
      → ((a : Ptr) → has xs a ≡ true → g a ≡ h a)
      → Seg g lo p xs
  frame nil same = nil
  frame (cons {p} e b s) same =
      cons (Points-frame e (same p (ground arith))) b (frame s λ a i. same a (ground arith))

  pub rebase :
      {lo : ℕ} {p : Ptr} {v : ℕ} {q : Ptr} {xs : Cells} (k : ℕ)
      → Seg h lo p xs
      → Points h p v q
      → h null ≡ none
      → k ≤ v
      → Seg h k p xs
  rebase k nil f z b = absurd (cc (f.holds, z))
  rebase k (cons e b s) f z b' = cons e (omega (arith, Points-val e f)) s

  pub lookup :
      {lo : ℕ} {p : Ptr} {xs : Cells} (a : Ptr) → Seg h lo p xs → has xs a ≡ true → Found h lo a
  lookup a nil i = absurd (cc)
  lookup a (cons {p} {q} {v} e b s) i = elim (Bool-cases (a == p)) [
    | inl here ↦
        let at : a ≡ p = ground arith in record { val = v; next = q; points = rw at e; bound = b }
    | inr there ↦
        let open_ : Found h (suc v) a = lookup a s (ground arith) in
        record {
          val = open_.val;
          next = open_.next;
          points = open_.points;
          bound = omega (arith, open_.bound);
        }
  ]

  -- A node below the bound is not in the chain.
  pub above :
      {lo : ℕ} {p : Ptr} {xs : Cells} {a : Ptr} {v : ℕ} {q : Ptr}
      → Seg h lo p xs
      → Points h a v q
      → v < lo
      → has xs a ≡ false
  above {xs} {a} s f b = elim (Bool-cases (has xs a)) [
    | inl i ↦
        let at : Found h _ a = lookup a s i in
        absurd (omega (arith, at.bound, Points-val at.points f))
    | inr o ↦ o
  ]

  pub not-mem_of_none :
      {lo : ℕ} {p : Ptr} {xs : Cells} (a : Ptr) → Seg h lo p xs → h a ≡ none → has xs a ≡ false
  not-mem_of_none a nil unused = refl
  not-mem_of_none a (cons e b s) unused = ground (arith, e.holds, not-mem_of_none a s unused)

  -- A node below the last one is followed by a node of the chain with a greater value.
  pub successor :
      {lo : ℕ} {p : Ptr} {xs : Cells} {a : Ptr} {v : ℕ} {q : Ptr}
      → Seg h lo p xs
      → LastMax xs
      → has xs a ≡ true
      → Points h a v q
      → v < list_val_max
      → Found h (suc v) q × (has xs q ≡ true)
  successor nil l i f lt = elim l [ ]
  successor {a} (cons {p} e b nil) l i f lt =
      let at : a ≡ p = eq_of_== a p (ground arith) in
      absurd (omega (arith, Points-val (rw at at f) e))
  successor {a} (cons {p} e b (cons {p = p'} {q = q'} {v = v'} e' b' s)) l i f lt =
      elim (Bool-cases (a == p)) [
        | inl here ↦
            let g = rw (eq_of_== a p here) at f in
            let to = Points-next g e in
            (
              record {
                val = v';
                next = q';
                points = rw to e';
                bound = omega (arith, Points-val g e);
              },
              rw to (ground (arith, ==-refl p')),
            )
        | inr there ↦
            let (found, i') = successor (cons e' b' s) l (ground arith) f lt in
            (found, ground arith)
      ]

-- A chain without its first cell.
pub Seg-tail :
    {h : Heap} {lo : ℕ} {p : Ptr} {x : Ptr × ℕ} {xs : Cells}
    → Seg h lo p (x ∷ xs)
    → (q : Ptr) × Points h p x.1 q × Seg h (suc x.1) q xs
Seg-tail (cons {q} e b s) = (q, e, s)

pub Seg-element :
    {h : Heap} {a : Ptr} {v : ℕ} {q : Ptr} {lo : ℕ} {p : Ptr} {xs : Cells}
    → Points h a v q
    → Seg h lo p xs
    → LastMax xs
    → has xs a ≡ true
    → v < list_val_max
    → contains (elements xs) v ≡ true
unfolding elements
Seg-element f nil l i lt = elim l [ ]
Seg-element {a} f (cons {p} e b nil) l i lt =
    absurd (omega (arith, Points-val (rw (eq_of_== a p (ground arith)) at f) e))
Seg-element {a} {v} f (cons {p} {v = w} e b (cons e' b' s)) l i lt = elim (Bool-cases (a == p)) [
  | inl here ↦
      let same : v ≡ w = Points-val (rw (eq_of_== a p here) at f) e in ground (arith, ==-refl v)
  | inr there ↦ ground (arith, Seg-element f (cons e' b' s) l (ground arith) lt)
]
