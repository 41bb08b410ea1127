-- ===== src/Chain/Link.antt =====
-- A node put into a chain between two neighbours.
use rcx_hashtables.Base.{
  ℕ, suc, sym, ◌≤◌, ◌<◌, ◌≡◌, refl, ◌≢◌, inl, inr, true, false, ◌||◌, none, List, [], ◌∷◌, arith,
  ltb, ◌==◌, if◌then◌else◌, Bool-cases, eq_of_==, contains,
}
use rcx_hashtables.Machine.{Ptr, null, list_val_max, Heap}
use rcx_hashtables.Chain.{
  Cells, has, elements, LastMax, Points, Seg, nil, cons, Found, Points-val, Points-next,
  Points-frame, frame, rebase, lookup, above,
}

-- A new cell, in the order of the values.
unfoldable pub insert_cell : Ptr → ℕ → Cells → Cells
insert_cell c w [] = (c, w) ∷ []
insert_cell c w ((a, v) ∷ xs) =
    if ltb w v then (c, w) ∷ (a, v) ∷ xs else (a, v) ∷ insert_cell c w xs

-- The same for the values of a sorted list: what an insertion means.
unfoldable pub insert : ℕ → List ℕ → List ℕ
insert w [] = w ∷ []
insert w (v ∷ vs) = if ltb w v then w ∷ v ∷ vs else v ∷ insert w vs

pub elements-insert_cell :
    (c : Ptr) (w : ℕ) (xs : Cells)
    → LastMax xs
    → w < list_val_max
    → elements (insert_cell c w xs) ≡ insert w (elements xs)
unfolding elements insert insert_cell
elements-insert_cell c w [] l b = elim l [ ]
elements-insert_cell c w ((a, v) ∷ []) l b = ground arith
elements-insert_cell c w ((a, v) ∷ (a', v') ∷ xs) l b =
    let rest = elements-insert_cell c w ((a', v') ∷ xs) l b in
    elim (Bool-cases (ltb w v)) [
      | inl lt ↦ rw lt
      | inr ge ↦ elim (Bool-cases (ltb w v')) [ inl lt' ↦ ground arith | inr ge' ↦ ground arith ]
    ]

pub LastMax-insert_cell :
    (c : Ptr) (w : ℕ) (xs : Cells) → LastMax xs → w < list_val_max → LastMax (insert_cell c w xs)
unfolding insert_cell
LastMax-insert_cell c w [] l b = elim l [ ]
LastMax-insert_cell c w ((a, v) ∷ []) l b = ground arith
LastMax-insert_cell c w ((a, v) ∷ (a', v') ∷ xs) l b =
    ground (arith, LastMax-insert_cell c w ((a', v') ∷ xs) l b)

pub has-insert_cell :
    (c : Ptr) (w : ℕ) (xs : Cells) (a : Ptr) → has (insert_cell c w xs) a ≡ ((a == c) || has xs a)
unfolding insert_cell
has-insert_cell c w [] a = refl
has-insert_cell c w ((p, v) ∷ xs) a = ground (arith, has-insert_cell c w xs a)

-- `a` is followed by `q`; their values lie below and above `w`, which the new node `c` holds.
module _ {h g : Heap} {a c q q' : Ptr} {v w u : ℕ} (z : h null ≡ none) (f : Points h a v q)
    (after : Points h q u q') (below : v < w) (above_w : w < u) (f' : Points g a v c)
    (new : Points g c w q) (same : (x : Ptr) → x ≢ a → x ≢ c → g x ≡ h x) where
  spared :
      {lo : ℕ} {p : Ptr} {xs : Cells}
      → Seg h lo p xs
      → has xs a ≡ false
      → has xs c ≡ false
      → Seg g lo p xs
  spared {xs} s i j = frame s λ x k. same x (λ e. ground arith) (λ e. ground arith)

  -- From the successor on.
  link_here :
      {lo : ℕ} {r : Ptr} {xs : Cells}
      → Seg h lo r xs
      → r ≡ q
      → lo ≤ w
      → has xs a ≡ false
      → has xs c ≡ false
      → Seg g lo c (insert_cell c w xs)
  unfolding insert_cell
  link_here nil t b i j = absurd (cc (after.holds, z))
  link_here (cons {p = r} {v = v'} e b' s) t b i j =
      let here = rw (sym t) at after in
      let lt : (ltb w v') ≡ true = ground (arith, Points-val e here) in
      let rest : Seg g (suc w) r _ =
        spared (rebase (suc w) (cons e b' s) here z (omega arith)) i j in
      let new_r : Points g c w r = rw t new in rw lt (cons new_r b rest)

  pub link :
      {lo : ℕ} {p : Ptr} {xs : Cells}
      → Seg h lo p xs
      → has xs a ≡ true
      → has xs c ≡ false
      → Seg g lo p (insert_cell c w xs)
  unfolding insert_cell
  link nil i j = absurd (cc)
  link {xs} (cons {p} {q = r} {v = v'} {xs = ys} e b s) i j = elim (Bool-cases (a == p)) [
    | inl here ↦
        let at = eq_of_== a p here in
        let f_p = rw at at f in
        let vv : v ≡ v' = Points-val f_p e in
        let ge : (ltb w v') ≡ false = ground arith in
        let start : Points g p v' c = rw (at, vv) at f' in
        rw ge (
          cons start b (
            link_here s (Points-next e f_p) (omega arith) (above s f (omega arith)) (ground arith)))
    | inr there ↦
        let at : Found h (suc v') a = lookup a s (ground arith) in
        let ge : (ltb w v') ≡ false = ground (arith, Points-val at.points f, at.bound) in
        rw ge (
          cons (Points-frame e (same p (λ k. ground arith) (λ k. ground arith))) b
            (link s (ground arith) (ground arith)))
  ]

-- Values below the bound of a chain are not in it.
pub elements-above :
    {h : Heap} {lo : ℕ} {p : Ptr} {xs : Cells} (w : ℕ)
    → Seg h lo p xs
    → w < lo
    → contains (elements xs) w ≡ false
unfolding elements
elements-above w nil lt = refl
elements-above w (cons e b nil) lt = refl
elements-above w (cons e b (cons e' b' s)) lt =
    ground (arith, elements-above w (cons e' b' s) (omega arith))

-- No value lies between two neighbours.
pub absent :
    {h : Heap} {lo a p q q' v u : ℕ} {xs : Cells} (w : ℕ)
    → Points h a v q
    → Points h q u q'
    → v < w
    → w < u
    → Seg h lo p xs
    → has xs a ≡ true
    → contains (elements xs) w ≡ false
unfolding elements
absent w f after below above_w nil i = refl
absent w f after below above_w (cons e b nil) i = refl
absent {a} w f after below above_w
      (cons {p} {v = v'} e b (cons {p = p'} {v = v''} {xs = ys} e' b' s)) i =
    elim (Bool-cases (a == p)) [
      | inl here ↦
          let f_p = rw (eq_of_== a p here) at f in
          let to = Points-next f_p e in
          let u_eq = Points-val (rw to at after) e' in
          let rest = elements-above w (cons {lo = v''} e' (omega arith) s) (omega arith) in
          ground (arith, Points-val f_p e)
      | inr there ↦
          let rest = absent w f after below above_w (cons e' b' s) (ground arith) in
          let at : Found _ (suc v') a = lookup a (cons e' b' s) (ground arith) in
          ground (arith, Points-val at.points f, at.bound)
    ]
