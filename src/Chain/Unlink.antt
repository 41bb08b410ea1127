-- ===== src/Chain/Unlink.antt =====
-- A node taken out of a chain.
use rcx_hashtables.Base.{
  ℕ, suc, sym, ◌<◌, ◌≡◌, refl, ◌≢◌, inl, inr, true, false, none, List, [], ◌∷◌, arith, ◌∙◌, ap,
  ◌==◌, if◌then◌else◌, Bool-cases, eq_of_==, contains, ==-refl,
}
use rcx_hashtables.Machine.{Ptr, null, list_val_max, Heap}
use rcx_hashtables.Chain.{
  Cells, has, elements, elements-cons, LastMax, LastMax-cons, Points, Seg, nil, cons, Found,
  Points-val, Points-next, Points-ne, Points-frame, frame, rebase, lookup, above,
}

unfoldable pub erase_cell : Ptr → Cells → Cells
erase_cell a [] = []
erase_cell a ((p, v) ∷ xs) = if a == p then xs else (p, v) ∷ erase_cell a xs

-- The same for the values of a sorted list: what a removal means.
unfoldable pub delete : ℕ → List ℕ → List ℕ
delete w [] = []
delete w (v ∷ vs) = if w == v then vs else v ∷ delete w vs

pub has-erase_cell : (a : Ptr) (xs : Cells) (x : Ptr) → x ≢ a → has (erase_cell a xs) x ≡ has xs x
unfolding erase_cell
has-erase_cell a [] x ne = refl
has-erase_cell a ((p, v) ∷ xs) x ne = ground (arith, has-erase_cell a xs x ne)

module _ {h : Heap} {a : Ptr} {v : ℕ} {q : Ptr} (f : Points h a v q) where
  pub not-mem-erase_cell :
      {lo : ℕ} {p : Ptr} {xs : Cells} → Seg h lo p xs → has (erase_cell a xs) a ≡ false
  unfolding erase_cell
  not-mem-erase_cell nil = refl
  not-mem-erase_cell (cons {p} {xs = ys} e b s) = elim (Bool-cases (a == p)) [
    | inl here ↦
        let f_p = rw (eq_of_== a p here) at f in
        rw here (above s f (omega (arith, Points-val f_p e)))
    | inr there ↦ ground (arith, not-mem-erase_cell s)
  ]

  pub elements-erase_cell :
      {lo : ℕ} {p : Ptr} {xs : Cells}
      → Seg h lo p xs
      → LastMax xs
      → has xs a ≡ true
      → v < list_val_max
      → (elements (erase_cell a xs) ≡ delete v (elements xs))
        × (contains (elements xs) v ≡ true)
        × LastMax (erase_cell a xs)
  unfolding elements erase_cell delete
  elements-erase_cell nil l i lt = elim l [ ]
  elements-erase_cell (cons {p} {v = w} e b nil) l i lt =
      let f_p = rw (eq_of_== a p (ground arith)) at f in absurd (omega (arith, Points-val f_p e))
  elements-erase_cell (cons {p} {v = w} e b (cons {p = p'} {v = w'} {xs = ys} e' b' s)) l i lt =
      elim (Bool-cases (a == p)) [
        | inl here ↦
            let f_p = rw (eq_of_== a p here) at f in
            let same : v ≡ w = Points-val f_p e in rw (here, same, ==-refl w) (refl, refl, l)
        | inr there ↦
            let (eqn, in_, last) = elements-erase_cell (cons e' b' s) l (ground arith) lt in
            let at : Found h (suc w) a = lookup a (cons e' b' s) (ground arith) in
            let ne : (v == w) ≡ false = ground (arith, Points-val at.points f, at.bound) in
            let rest = erase_cell a ((p', w') ∷ ys) in
            rw there (
              elements-cons (p, w) rest last ∙ ap (λ (l : List ℕ). w ∷ l) eqn ∙ sym (rw ne),
              rw ne in_,
              LastMax-cons (p, w) rest last,
            )
      ]

-- `a` is followed by `b`, and `b` by `n`.
module _ {h g : Heap} {a b n n' : Ptr} {v u t : ℕ} (z : h null ≡ none) (f : Points h a v b)
    (after : Points h b u n) (after' : Points h n t n') (up : v < u) (up' : u < t)
    (f' : Points g a v n) (same : (x : Ptr) → x ≢ a → x ≢ b → g x ≡ h x) where
  -- From `b` on.
  unlink_here :
      {lo : ℕ} {r : Ptr} {xs : Cells}
      → Seg h lo r xs
      → r ≡ b
      → lo ≡ suc v
      → has xs a ≡ false
      → Seg g lo n (erase_cell b xs)
  unfolding erase_cell
  unlink_here nil k m i = absurd (cc (after.holds, z))
  unlink_here {lo} (cons {p = r} {q = r'} {v = v'} {xs} e b' s) k m i =
      let here = rw (sym k) at after in
      let to : r' ≡ n = Points-next e here in
      let s' = rebase lo s (rw (sym to) at after') z (omega (arith, Points-val e here)) in
      let hit : (b == r) ≡ true = rw k (==-refl b) in
      let apart : has xs b ≡ false = rw k at (above s here (omega (arith, Points-val e here))) in
      let clear : has xs a ≡ false = ground arith in
      let rest =
        frame s'
          (λ x j. same x (λ w. cc (clear, j, ap (has xs) w)) (λ w. cc (apart, j, ap (has xs) w))) in
      rw (hit, sym to) rest

  pub unlink :
      {lo : ℕ} {p : Ptr} {xs : Cells}
      → Seg h lo p xs
      → has xs a ≡ true
      → Seg g lo p (erase_cell b xs)
  unfolding erase_cell
  unlink nil i = absurd (cc)
  unlink (cons {p} {q = r} {v = v'} {xs = ys} e low s) i = elim (Bool-cases (a == p)) [
    | inl here ↦
        let at = eq_of_== a p here in
        let f_p = rw at at f in
        let vv : v ≡ v' = Points-val f_p e in
        let ne : (b == p) ≡ false = Points-ne e after (omega arith) in
        let start : Points g p v' n = rw (at, vv) at f' in
        rw ne (
          cons start low
            (unlink_here s (Points-next e f_p) (ap suc (sym vv)) (above s f (omega arith))))
    | inr there ↦
        let at : Found h (suc v') a = lookup a s (ground arith) in
        let ne : (b == p) ≡ false =
          Points-ne e after (omega (arith, Points-val at.points f, at.bound)) in
        rw ne (
          cons (Points-frame e (same p (λ k. ground arith) (λ k. ground arith))) low
            (unlink s (ground arith)))
  ]
