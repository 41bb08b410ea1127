-- ===== src/Shared/Link.antt =====
-- A thread links a new node into a list.
use rcx_hashtables.Base.{
  ℕ, suc, ◌<◌, ◌≡◌, refl, ◌≢◌, inl, inr, Bool, true, false, ◌||◌, some, arith, ltb, ◌==◌,
  Bool-cases, eq_of_==, contains,
}
use rcx_hashtables.Machine.{Ptr, list_val_min, list_val_max, Node, Heap, write}
use rcx_hashtables.Chain.{has, elements, elements-cons, LastMax-cons, Points, Seg, successor, Found}
use rcx_hashtables.Chain.Link.{
  insert_cell, insert, elements-insert_cell, LastMax-insert_cell, has-insert_cell, link, absent,
}
use rcx_hashtables.Shared.{View, cells, known, Shared, Later, on_chain, Leads-Later}

-- What an insertion of `val` in the node `c` does to a list.
pub record Inserts (mark : Bool) (head : Ptr) (c : Ptr) (val : ℕ) (h : Heap) (w : View) (g : Heap)
    (w' : View) : Type 0 where
  pub shared : Shared mark head g w'
  pub later : Later head h w g w'
  pub was_absent : contains (elements w.items) val ≡ false
  pub elements_eq : elements w'.items ≡ insert val (elements w.items)
  pub spares : (a : Ptr) → known head w a ≡ false → a ≢ c → (known head w' a ≡ false) × (g a ≡ h a)

abbrev pub with_next : Node → Ptr → Node
with_next n q = record n { p_next = q }

abbrev pub link_view : Ptr → ℕ → View → View
link_view c val w = record w { items = insert_cell c val w.items }

abbrev pub link_heap : Heap → Ptr → Node → Ptr → Heap
link_heap h a n c = write h a (some (with_next n c))

-- No value lies between two neighbours of a list.
pub neighbours-absent :
    {mark : Bool} {head : Ptr} {h : Heap} {w : View} {a : Ptr} {n m : Node} (val : ℕ)
    → Shared mark head h w
    → has (cells head w) a ≡ true
    → h a ≡ some n
    → h n.p_next ≡ some m
    → n.val < val
    → val < m.val
    → val < list_val_max
    → contains (elements w.items) val ≡ false
neighbours-absent {head} {w} {a} {n} {m} val S on at at_next below up small =
    let f = on_chain S a n on at in
    let (next, next_on) =
      successor S.chain (LastMax-cons (head, list_val_min) w.items S.last) on f (omega arith) in
    let g = on_chain S n.p_next m next_on at_next in
    ground
      (arith, absent val f g below up S.chain on, elements-cons (head, list_val_min) w.items S.last)

module _ {mark : Bool} {head : Ptr} {h : Heap} {w : View} (S : Shared mark head h w) {a c : Ptr}
    {n m cn : Node} {val : ℕ} (on : has (cells head w) a ≡ true) (at : h a ≡ some n)
    (at_next : h n.p_next ≡ some m) (below : n.val < val) (up : val < m.val)
    (small : val < list_val_max) (fresh : known head w c ≡ false) (at_new : h c ≡ some cn)
    (new_val : cn.val ≡ val) (new_next : cn.p_next ≡ n.p_next) (new_live : cn.removed ≡ false) where
  cells-link : insert_cell c val (cells head w) ≡ cells head (link_view c val w)
  unfolding insert_cell
  cells-link = let ge : (ltb val list_val_min) ≡ false = ground arith in rw ge

  known-link : (x : Ptr) → known head (link_view c val w) x ≡ ((x == c) || known head w x)
  known-link x = ground (arith, has-insert_cell c val w.items x)

  link-Later : Later head h w (link_heap h a n c) (link_view c val w)
  unfolding write
  link-Later = record {
    known_stays = λ x k. ground (arith, known-link x);
    val_stays = λ x k known_x e. elim (Bool-cases (x == a)) [
      | inl here ↦ (with_next n c, ground arith, ground (arith, at, eq_of_== x a here))
      | inr there ↦ (k, ground arith, refl)
    ];
  }

  a-Points : Points h a n.val n.p_next
  a-Points = on_chain S a n on at

  next_on : Found h (suc n.val) n.p_next × (has (cells head w) n.p_next ≡ true)
  next_on =
      successor S.chain (LastMax-cons (head, list_val_min) w.items S.last) on a-Points
        (omega (arith, below, small))

  next-Points : Points h n.p_next m.val m.p_next
  next-Points = on_chain S n.p_next m next_on.1 at_next

  link-chain : Seg (link_heap h a n c) 0 head (cells head (link_view c val w))
  unfolding write
  link-chain =
      let c_ne : (c == a) ≡ false = ground arith in
      let start : Points (link_heap h a n c) a n.val c = record {
        node = with_next n c;
        holds = ground arith;
        val_eq = refl;
        next_eq = refl;
        live = ground (arith, at, a-Points.holds, a-Points.live);
      } in
      let new : Points (link_heap h a n c) c val n.p_next = record {
        node = cn;
        holds = ground arith;
        val_eq = new_val;
        next_eq = new_next;
        live = new_live;
      } in
      rw cells-link at (
        link S.null_free a-Points next-Points below up start new (λ x k k'. ground arith) S.chain on
          (ground arith))

  -- A new node, linked between two neighbours of the list whose values lie around its own.
  pub Shared-link : Inserts mark head c val h w (link_heap h a n c) (link_view c val w)
  unfolding write
  Shared-link = record {
    shared = record {
      null_free = ground (arith, S.null_free);
      chain = link-chain;
      last = LastMax-insert_cell c val w.items S.last small;
      gone_node = λ x off.
          let gone = S.gone_node x off in
          record {
            node = gone.node;
            holds = ground (arith, gone.holds, gone.apart);
            small = gone.small;
            next = Leads-Later link-Later gone.next;
            marked = gone.marked;
            apart = ground (arith, gone.apart, has-insert_cell c val w.items x);
          };
    };
    later = link-Later;
    was_absent = neighbours-absent val S on at at_next below up small;
    elements_eq = elements-insert_cell c val w.items S.last small;
    spares = λ x k ne. (ground (arith, known-link x), ground arith);
  }
