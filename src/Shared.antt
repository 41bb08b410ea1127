-- ===== src/Shared.antt =====
-- The state of a list that several threads change: which nodes are on it, and which have been taken
-- off but may still be in the hands of a reader.
pub mod Link
pub mod Unlink
pub mod Tick
pub mod Outcome
pub mod Locks
pub mod Sections
use rcx_hashtables.Base.{
  ℕ, suc, ◌<◌, ◌≡◌, refl, ◌≢◌, inl, inr, Bool, true, false, ◌||◌, none, some, List, ◌∷◌, arith,
  ◌==◌, Bool-cases, contains, ◌∙◌,
}
use rcx_hashtables.Machine.{Ptr, null, list_val_min, list_val_max, Node, Heap}
use rcx_hashtables.Chain.{
  Cells, has, elements, LastMax, LastMax-cons, Points, Seg, Found, Points-val, lookup, successor,
  frame, Seg-tail, Points-ne, Seg-element,
}

-- `items` are the cells behind the first sentinel, `gone` the nodes that were unlinked.
pub record View : Type 0 where
  pub items : Cells
  pub gone : List Ptr

abbrev pub cells : Ptr → View → Cells
cells head w = (head, list_val_min) ∷ w.items

-- The nodes that a reader may stand at.
abbrev pub known : Ptr → View → Ptr → Bool
known head w a = has (cells head w) a || contains w.gone a

-- `a` is such a node, with a value above `v`.
pub record Leads (h : Heap) (head : Ptr) (w : View) (v : ℕ) (a : Ptr) : Type 0 where
  pub node : Node
  pub holds : h a ≡ some node
  pub bound : v < node.val
  pub is_known : known head w a ≡ true

pub record Gone (mark : Bool) (head : Ptr) (h : Heap) (w : View) (a : Ptr) : Type 0 where
  pub node : Node
  pub holds : h a ≡ some node
  pub small : node.val < list_val_max
  pub next : Leads h head w node.val node.p_next
  pub marked : mark ≡ true → node.removed ≡ true
  pub apart : has (cells head w) a ≡ false

-- The invariant. With `mark`, whoever unlinks a node also marks it.
pub record Shared (mark : Bool) (head : Ptr) (h : Heap) (w : View) : Type 0 where
  pub null_free : h null ≡ none
  pub chain : Seg h 0 head (cells head w)
  pub last : LastMax w.items
  pub gone_node : (a : Ptr) → contains w.gone a ≡ true → Gone mark head h w a

-- What a reader can rely on: nodes stay and keep their values.
pub record Later (head : Ptr) (h : Heap) (w : View) (g : Heap) (w' : View) : Type 0 where
  pub known_stays : (a : Ptr) → known head w a ≡ true → known head w' a ≡ true
  pub val_stays :
      (a : Ptr) (n : Node)
      → known head w a ≡ true
      → h a ≡ some n
      → (m : Node) × (g a ≡ some m) × (m.val ≡ n.val)

module _ {head : Ptr} where
  pub Later-refl : {h : Heap} {w : View} → Later head h w h w
  Later-refl = record { known_stays = λ a k. k; val_stays = λ a n k e. (n, e, refl) }

  pub Later-trans :
      {h g f : Heap} {u v w : View} → Later head h u g v → Later head g v f w → Later head h u f w
  Later-trans p q = record {
    known_stays = λ a k. q.known_stays a (p.known_stays a k);
    val_stays = λ a n k e.
        let (m, e', same) = p.val_stays a n k e in
        let (m', e'', same') = q.val_stays a m (p.known_stays a k) e' in (m', e'', ground arith);
  }

module _ {mark : Bool} {head : Ptr} {h : Heap} {w : View} (S : Shared mark head h w) where
  pub known-node : (a : Ptr) → known head w a ≡ true → (n : Node) × (h a ≡ some n)
  known-node a k = elim (Bool-cases (contains w.gone a)) [
    | inl off ↦ let gone = S.gone_node a off in (gone.node, gone.holds)
    | inr on ↦
        let at : Found h 0 a = lookup a S.chain (ground arith) in (at.points.node, at.points.holds)
  ]

  -- A known node that is not the last one leads to a known node with a greater value.
  pub known-next :
      (a : Ptr) (n : Node)
      → known head w a ≡ true
      → h a ≡ some n
      → n.val < list_val_max
      → Leads h head w n.val n.p_next
  known-next a n k e lt = elim (Bool-cases (contains w.gone a)) [
    | inl off ↦
        let gone = S.gone_node a off in
        let same : gone.node ≡ n = ground (arith, gone.holds) in rw same at gone.next
    | inr on ↦
        let at : Found h 0 a = lookup a S.chain (ground arith) in
        let same : at.points.node ≡ n = ground (arith, at.points.holds) in
        let on' : has (cells head w) a ≡ true = ground arith in
        let small : at.val < list_val_max = ground (arith, at.points.val_eq) in
        let (to, in_) =
          successor S.chain (LastMax-cons (head, list_val_min) w.items S.last) on' at.points
            small in
        let here : n.p_next ≡ at.next = ground (arith, at.points.next_eq) in
        rw here (record {
          node = to.points.node;
          holds = to.points.holds;
          bound = ground (arith, to.points.val_eq, at.points.val_eq, to.bound);
          is_known = ground arith;
        })
  ]

  pub on_chain :
      (a : Ptr) (n : Node) → has (cells head w) a ≡ true → h a ≡ some n → Points h a n.val n.p_next
  on_chain a n i e =
      let at : Found h 0 a = lookup a S.chain i in
      let same : at.points.node ≡ n = ground (arith, at.points.holds) in
      let live : n.removed ≡ false = ground (arith, at.points.live) in
      record { node = n; holds = e; val_eq = refl; next_eq = refl; live = live }

-- Where unlinked nodes are marked, a known node without the mark is on the list.
pub live-on_chain :
    {head : Ptr} {h : Heap} {w : View}
    → Shared true head h w
    → (a : Ptr) (n : Node) → known head w a ≡ true
    → h a ≡ some n
    → n.removed ≡ false
    → has (cells head w) a ≡ true
live-on_chain {w} S a n k e live = elim (Bool-cases (contains w.gone a)) [
  | inl off ↦ let gone = S.gone_node a off in absurd (ground (arith, gone.holds, gone.marked refl))
  | inr on ↦ ground arith
]

pub Leads-Later :
    {head : Ptr} {h g : Heap} {w w' : View} {v : ℕ} {a : Ptr}
    → Later head h w g w'
    → Leads h head w v a
    → Leads g head w' v a
Leads-Later {a} later to =
    let (m, e, same) = later.val_stays a to.node to.is_known to.holds in
    record {
      node = m;
      holds = e;
      bound = ground (arith, to.bound);
      is_known = later.known_stays a to.is_known;
    }

-- A change to nodes that no reader can reach.
module _ {mark : Bool} {head : Ptr} {h g : Heap} {w : View} (S : Shared mark head h w)
    (same : (a : Ptr) → known head w a ≡ true → g a ≡ h a) where
  pub Later-agree : Later head h w g w
  Later-agree = record { known_stays = λ a k. k; val_stays = λ a n k e. (n, same a k ∙ e, refl) }

  pub Shared-agree : g null ≡ none → Shared mark head g w
  Shared-agree z = record {
    null_free = z;
    chain = frame S.chain (λ a i. same a (ground arith));
    last = S.last;
    gone_node = λ a off.
        let gone = S.gone_node a off in
        record {
          node = gone.node;
          holds = same a (ground arith) ∙ gone.holds;
          small = gone.small;
          next = Leads-Later Later-agree gone.next;
          marked = gone.marked;
          apart = gone.apart;
        };
  }

-- The value of a node behind the first sentinel and before the last is an element of the list.
pub on_chain-element :
    {mark : Bool} {head : Ptr} {h : Heap} {w : View}
    → Shared mark head h w
    → (a : Ptr) (n : Node) → has (cells head w) a ≡ true
    → h a ≡ some n
    → list_val_min < n.val
    → n.val < list_val_max
    → contains (elements w.items) n.val ≡ true
on_chain-element {head} {w} S a n i e pos small =
    let at = on_chain S a n i e in
    let (q, first, rest) = Seg-tail S.chain in
    let ne : (a == head) ≡ false = Points-ne first at (omega (arith, pos)) in
    Seg-element at rest S.last (ground arith) small
