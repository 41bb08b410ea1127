-- ===== src/Shared/Unlink.antt =====
-- A thread takes a node off a list.
use rcx_hashtables.Base.{
  ℕ, suc, ◌<◌, ◌≡◌, refl, ◌≢◌, inl, inr, Bool, true, false, some, ◌∷◌, arith, ◌==◌, Bool-cases,
  eq_of_==, contains, ◌∙◌, sym,
}
use rcx_hashtables.Machine.{Ptr, null, list_val_min, list_val_max, Node, Heap}
use rcx_hashtables.Chain.{
  has, elements, LastMax-cons, Points, Points-ne, Seg, Seg-tail, successor, Found,
}
use rcx_hashtables.Chain.Unlink.{
  erase_cell, delete, has-erase_cell, not-mem-erase_cell, elements-erase_cell, unlink,
}
use rcx_hashtables.Shared.{
  View, cells, known, Gone, Shared, Later, on_chain, known-next, Leads-Later,
}
use rcx_hashtables.Shared.Link.{with_next}

-- What a removal of `val`, which the node `b` holds, does to a list.
pub record Deletes (mark : Bool) (head : Ptr) (b : Ptr) (val : ℕ) (h : Heap) (w : View) (g : Heap)
    (w' : View) : Type 0 where
  pub shared : Shared mark head g w'
  pub later : Later head h w g w'
  pub was_present : contains (elements w.items) val ≡ true
  pub elements_eq : elements w'.items ≡ delete val (elements w.items)
  pub spares : (a : Ptr) → known head w a ≡ false → (known head w' a ≡ false) × (g a ≡ h a)
  pub off : has (cells head w') b ≡ false

abbrev pub unlink_view : Ptr → View → View
unlink_view b w = record { items = erase_cell b w.items; gone = b ∷ w.gone }

module _ {mark : Bool} {head : Ptr} {h g : Heap} {w : View} (S : Shared mark head h w) {a b : Ptr}
    {n m m' : Node} (on : has (cells head w) a ≡ true) (at : h a ≡ some n) (to : n.p_next ≡ b)
    (at_b : h b ≡ some m) (small : m.val < list_val_max) (at' : g a ≡ some (with_next n m.p_next))
    (at_b' : g b ≡ some m') (same_val : m'.val ≡ m.val) (same_next : m'.p_next ≡ m.p_next)
    (marks : mark ≡ true → m'.removed ≡ true) (same : (x : Ptr) → x ≢ a → x ≢ b → g x ≡ h x)
    (up : n.val < m.val) where
  a-Points : Points h a n.val n.p_next
  a-Points = on_chain S a n on at

  b_on : has (cells head w) b ≡ true
  b_on =
      rw (sym to)
        (successor S.chain (LastMax-cons (head, list_val_min) w.items S.last) on a-Points
          (omega (arith, up, small))).1

  b-Points : Points h b m.val m.p_next
  b-Points = on_chain S b m b_on at_b

  next_on : Found h (suc m.val) m.p_next × (has (cells head w) m.p_next ≡ true)
  next_on = successor S.chain (LastMax-cons (head, list_val_min) w.items S.last) b_on b-Points small

  not_head : (b == head) ≡ false
  not_head = let (q, first, rest) = Seg-tail S.chain in Points-ne first b-Points (omega (arith, up))

  cells-unlink : erase_cell b (cells head w) ≡ cells head (unlink_view b w)
  unfolding erase_cell
  cells-unlink = rw not_head

  not_self : (b == a) ≡ false
  not_self = Points-ne a-Points b-Points (omega (arith, up))

  known-unlink : (x : Ptr) → known head (unlink_view b w) x ≡ known head w x
  known-unlink x = elim (Bool-cases (x == b)) [
    | inl here ↦ ground (arith, eq_of_== x b here, b_on)
    | inr there ↦ ground (arith, has-erase_cell b w.items x)
  ]

  unlink-Later : Later head h w g (unlink_view b w)
  unlink-Later = record {
    known_stays = λ x k. known-unlink x ∙ k;
    val_stays = λ x k known_x e. elim (Bool-cases (x == a)) [
      | inl here ↦ (with_next n m.p_next, ground arith, ground (arith, at, eq_of_== x a here))
      | inr there ↦ elim (Bool-cases (x == b)) [
        | inl here ↦ (m', ground arith, ground (arith, at_b, eq_of_== x b here))
        | inr there' ↦ (k, ground (arith, same x), refl)
      ]
    ];
  }

  unlink-chain : Seg g 0 head (cells head (unlink_view b w))
  unlink-chain =
      let start : Points g a n.val m.p_next = record {
        node = with_next n m.p_next;
        holds = at';
        val_eq = refl;
        next_eq = refl;
        live = ground (arith, at, a-Points.holds, a-Points.live);
      } in
      let a_to : Points h a n.val b = rw to at a-Points in
      rw cells-unlink at
        (unlink S.null_free a_to b-Points next_on.0.points up next_on.0.bound start same S.chain on)

  off_chain : has (cells head (unlink_view b w)) b ≡ false
  off_chain = rw cells-unlink at (not-mem-erase_cell b-Points S.chain)

  b-Gone : Gone mark head g (unlink_view b w) b
  b-Gone =
      let next = Leads-Later unlink-Later (known-next S b m (ground (arith, b_on)) at_b small) in
      record {
        node = m';
        holds = at_b';
        small = ground arith;
        next = rw (same_val, same_next) next;
        marked = marks;
        apart = off_chain;
      }

  still-Gone :
      (x : Ptr) → (x == b) ≡ false → Gone mark head h w x → Gone mark head g (unlink_view b w) x
  still-Gone x ne gone = record {
    node = gone.node;
    holds = ground (arith, same x, gone.holds, gone.apart, on);
    small = gone.small;
    next = Leads-Later unlink-Later gone.next;
    marked = gone.marked;
    apart = ground (arith, gone.apart, not_head, has-erase_cell b w.items x);
  }

  -- A node of the list with its predecessor: the predecessor takes over its pointer.
  pub Shared-unlink : Deletes mark head b m.val h w g (unlink_view b w)
  Shared-unlink =
      let (q, first, rest) = Seg-tail S.chain in
      let in_items : has w.items b ≡ true = ground (arith, b_on, not_head) in
      let (eqn, present, last) = elements-erase_cell b-Points rest S.last in_items small in
      record {
        shared = record {
          null_free = ground (arith, S.null_free, at, at_b, same null);
          chain = unlink-chain;
          last = last;
          gone_node = λ x k. elim (Bool-cases (x == b)) [
            | inl here ↦ rw (eq_of_== x b here) b-Gone
            | inr there ↦ still-Gone x there (S.gone_node x (ground arith))
          ];
        };
        later = unlink-Later;
        was_present = present;
        elements_eq = eqn;
        spares = λ x k. (known-unlink x ∙ k, ground (arith, same x, on, b_on));
        off = off_chain;
      }
