-- ===== src/Rcu/Insert.antt =====
-- A new node, made ready by its thread and linked in.
use rcx_hashtables.Base.{
  ℕ, suc, ◌+◌, ◌≤◌, ◌<◌, ◌≡◌, refl, ◌≢◌, inl, inr, ◌⊎◌, Bool, true, false, none, some, List, ◌∷◌,
  arith, leb, ◌==◌, Bool-cases, ◌∙◌, sym, ap, ==-refl, eq_of_==, contains, erase,
}
use rcx_hashtables.Machine.{
  Ptr, null, list_val_max, Node, State, Machine, tick, store, kmalloc, write,
}
use rcx_hashtables.Machine.Ends
use rcx_hashtables.Machine.Ends.{Ends, returns, Returns}
use rcx_hashtables.Chain.{has}
use rcx_hashtables.Shared.{
  View, cells, known, Shared, Later-trans, Later-agree, Shared-agree, known-node,
}
use rcx_hashtables.Shared.Link.{Inserts, with_next, link_view, Shared-link}
use rcx_hashtables.Shared.Outcome.{Added, Rests}
use rcx_hashtables.Shared.Tick.{
  Private, Fair, Since, Keeps, Keeps-trans, Since-Keeps, Since-tick, store-ok,
}
use rcx_hashtables.Rcu.{prepare}
use rcx_hashtables.Rcu.Search.{Spot}

-- A new node that has got its value and its successor. The bytes that nobody set are those of `n`.
abbrev pub fresh : (n : Node) → ℕ → Ptr → Node
fresh n val q = record n { val = val; p_next = q; removed = false }

-- The thread owns one more node, `c`, and the machine is otherwise as it left it.
pub record Owns (mark : Bool) (head : Ptr) (s : State) (w : View) (c : Ptr) (n : Node) (s' : State)
    (w' : View) : Type 0 where
  pub keeps : Keeps mark head s w s' w'
  pub owned : s'.owned ≡ c ∷ s.owned
  pub new : contains s.owned c ≡ false
  pub holds_c : s'.heap c ≡ some n

-- An address in use lies below the end of the memory.
pub room :
    {head : Ptr} {s : State} {w : View} {c : Ptr} {n : Node}
    → Private head s w
    → s.heap c ≡ some n
    → c < s.top
room {s} {c} P e = elim (Bool-cases (leb s.top c)) [
  | inl out ↦ absurd (cc (P.vacant c (ground arith)))
  | inr in_ ↦ ground arith
]

module _ {mark : Bool} {head : Ptr} {s : State} {w : View} (S : Shared mark head s.heap w)
    (P : Private head s w) {c : Ptr} (m : Node) (unseen : known head w c ≡ false)
    (ne : c ≢ null) where
  agrees : (a : Ptr) → known head w a ≡ true → write s.heap c (some m) a ≡ s.heap a
  unfolding write
  agrees a k = ground arith

  own_write-Shared : Shared mark head (write s.heap c (some m)) w
  own_write-Shared = Shared-agree S agrees (unfold write in ground (arith, S.null_free))

  -- A write to a node that the others have not seen.
  pub write-Keeps :
      (clock top : ℕ) (owned : List Ptr)
      → ((a : Ptr) → contains owned a ≡ true → (a ≡ c) ⊎ (contains s.owned a ≡ true))
      → s.top ≤ top
      → c < top
      → Keeps mark head s w
          (record s { heap = write s.heap c (some m); clock = clock; top = top; owned = owned })
          w
  unfolding write
  write-Keeps clock top owned old more room = record {
    shared = own_write-Shared;
    private = record {
      unseen = λ a k. elim (old a k) [ inl e ↦ rw e unseen | inr k' ↦ P.unseen a k' ];
      backed = λ a k. elim (Bool-cases (a == c)) [
        | inl here ↦ (m, ground arith)
        | inr there ↦ elim (old a k) [
          | inl e ↦ absurd (ground arith)
          | inr k' ↦ let (n, e) = P.backed a k' in (n, ground arith)
        ]
      ];
      vacant = λ a k. ground (arith, P.vacant a);
    };
    later = Later-agree S agrees;
    held = refl;
    read_locks = refl;
    read_unlocks = refl;
    deferred = refl;
    aborts = refl;
    frozen = λ l. (refl, agrees);
  }

module _ {mark : Bool} {head : Ptr} {M : Machine} (F : Fair mark head M) where
  -- `kmalloc` returns a node that no list and no thread has.
  pub kmalloc-Owns :
      (init : Node → Node) (s : State) (w : View)
      → Shared mark head s.heap w
      → Private head s w
      → Returns (λ c s'. Owns mark head s w c (init (M.garbage s)) s' w) (kmalloc M init s)
  unfolding kmalloc
  kmalloc-Owns init s w S P =
      let c = M.kmalloc s in
      let free = F.unused s P.vacant in
      let ne : (c == null) ≡ false = ground (arith, F.memory s) in
      let unused : known head w c ≡ false = elim (Bool-cases (known head w c)) [
        | inl k ↦ let (m, e) = known-node S c k in absurd (cc)
        | inr k ↦ k
      ] in
      let new : contains s.owned c ≡ false = elim (Bool-cases (contains s.owned c)) [
        | inl k ↦ let (m, e) = P.backed c k in absurd (cc)
        | inr k ↦ k
      ] in
      rw ne (
        returns (record {
          keeps =
              write-Keeps S P (init (M.garbage s)) unused (F.memory s) (s.clock + 1)
                (suc (s.top + c)) (c ∷ s.owned) (λ a k. ground arith) (omega arith) (omega arith);
          owned = refl;
          new = new;
          holds_c = unfold write in ground arith;
        }))

  -- A write to an own node.
  pub store-Owns :
      (f : Node → Node) (c : Ptr) (n : Node) (s0 s : State) (w0 w : View)
      → Owns mark head s0 w0 c n s w
      → Returns (λ _ s'. (w' : View) × Owns mark head s0 w0 c (f n) s' w') (store M c f s)
  store-Owns f c n s0 s w0 w o =
      let step = Since-tick F o.keeps.shared o.keeps.private in
      let mine : contains s.owned c ≡ true = ground (arith, o.owned, ==-refl c) in
      let mine' : contains (tick M s).owned c ≡ true = ground (arith, step.locals.owned) in
      let e : (tick M s).heap c ≡ some n = step.own c mine ∙ o.holds_c in
      let ne : c ≢ null = λ z. ground (arith, step.shared.null_free, ap (tick M s).heap z) in
      rw (store-ok M s c f n e) (
        returns (
          F.view s w,
          record {
            keeps = Keeps-trans (Keeps-trans o.keeps (Since-Keeps step)) (
                write-Keeps step.shared step.private (f n) (step.private.unseen c mine') ne
                  (tick M s).clock (tick M s).top (tick M s).owned (λ a k. inr k) (omega arith)
                  (room step.private e));
            owned = step.locals.owned ∙ o.owned;
            new = o.new;
            holds_c = unfold write in ground arith;
          },
        ))

  -- The two writes that follow `rcu_new_node` or `rcx_new_node`.
  pub prepare-Owns :
      (n : Node) (val : ℕ) (q : Ptr) (s0 s : State) (w0 w : View) (c : Ptr)
      → n.removed ≡ false
      → Owns mark head s0 w0 c n s w
      → Returns
          (λ _ s'. (w' : View) × Owns mark head s0 w0 c (fresh n val q) s' w')
          (prepare M c val q s)
  unfolding prepare
  prepare-Owns n val q s0 s w0 w c live o =
      Ends.bind (store-Owns (λ n. record n { val = val }) c n s0 s w0 w o) λ _ s1 (w1, o1).
        Ends.mono
          (store-Owns (λ n. record n { p_next = q }) c (record n { val = val }) s0 s1 w0 w1 o1)
          λ _ s2 (w2, o2). (w2, rw live at o2)

-- The state in which the new node has been linked in behind `p`.
module _ {mark : Bool} {head : Ptr} {val : ℕ} {s0 s : State} {w0 w : View} {c p : Ptr} {cn : Node}
    (n : Node) (o : Owns mark head s0 w0 c cn s w)
    (change : Inserts mark head c val s.heap w (write s.heap p (some n)) (link_view c val w))
    (on : known head w p ≡ true) (at : p < s.top) where
  pub linked-Private :
      (clock : ℕ)
      → Private head
          (record s { heap = write s.heap p (some n); clock = clock; owned = erase c s.owned })
          (link_view c val w)
  unfolding write
  linked-Private clock =
      let left : erase c s.owned ≡ s0.owned = ground (arith, o.owned, ==-refl c) in
      let mine = λ (a : Ptr) (k : contains s0.owned a ≡ true).
        let still : contains s.owned a ≡ true = rw o.owned (ground arith) in still in
      record {
        unseen = λ a k.
            let k' : contains s0.owned a ≡ true = rw left at k in
            (change.spares a (o.keeps.private.unseen a (mine a k'))
              (λ e. ground (arith, o.new, ap (contains s0.owned) e))).0;
        backed = λ a k.
            let k' : contains s0.owned a ≡ true = rw left at k in
            elim (Bool-cases (a == p)) [
              | inl here ↦ (n, ground arith)
              | inr there ↦ let (m, e) = o.keeps.private.backed a (mine a k') in (m, ground arith)
            ];
        vacant = λ a k. ground (arith, o.keeps.private.vacant a k);
      }

module _ {mark : Bool} {head : Ptr} {s0 s s' : State} {w0 w w' : View} {c : Ptr} {n : Node} where
  pub Owns-Since :
      Owns mark head s0 w0 c n s w → Since mark head s w s' w' → Owns mark head s0 w0 c n s' w'
  Owns-Since o step =
      let mine : contains s.owned c ≡ true = ground (arith, o.owned, ==-refl c) in
      record {
        keeps = Keeps-trans o.keeps (Since-Keeps step);
        owned = step.locals.owned ∙ o.owned;
        new = o.new;
        holds_c = step.own c mine ∙ o.holds_c;
      }

module _ {mark : Bool} {head : Ptr} {val : ℕ} (small : val < list_val_max) {s0 s1 s : State}
    {w0 w1 w : View} {p q c : Ptr} (before : Keeps mark head s0 w0 s1 w1)
    (same : s1.owned ≡ s0.owned) (g : Node) (o : Owns mark head s1 w1 c (fresh g val q) s w)
    (spot : Spot head val s w p q) (up : val < spot.to.node.val) (on : has (cells head w) p ≡ true)
    (next : spot.node.p_next ≡ q) where
  link-Inserts :
      Inserts mark head c val s.heap w
        (write s.heap p (some (with_next spot.node c)))
        (link_view c val w)
  link-Inserts =
      let mine : contains s.owned c ≡ true = ground (arith, o.owned, ==-refl c) in
      Shared-link o.keeps.shared on spot.holds_p (ap s.heap next ∙ spot.to.holds) spot.below up
        small (o.keeps.private.unseen c mine) o.holds_c refl (sym next) refl

  -- The thread links its node in between two neighbours of the list.
  pub link-Added :
      (clock : ℕ)
      → Added mark head val s0 w0 (record s {
        heap = write s.heap p (some (with_next spot.node c));
        clock = clock;
        owned = erase c s.owned;
      })
  link-Added clock = record {
    node = c;
    heap = s.heap;
    view = w;
    view' = link_view c val w;
    before = Later-trans before.later o.keeps.later;
    change = link-Inserts;
    private =
        linked-Private (with_next spot.node c) o link-Inserts (ground arith)
          (room o.keeps.private spot.holds_p) clock;
    balanced = record {
      owned = ground (arith, o.owned, ==-refl c);
      held = o.keeps.held ∙ before.held;
      nesting =
          omega (
            arith, o.keeps.read_locks, o.keeps.read_unlocks, before.read_locks, before.read_unlocks,
          );
    };
    deferred = o.keeps.deferred ∙ before.deferred;
  }

-- A thread gives up its new node, which no other thread has seen.
module _ {mark : Bool} {head : Ptr} {s0 s1 s : State} {w0 w1 w : View} {c : Ptr} {n : Node} where
  pub freed-Rests :
      (clock : ℕ) (aborts : List ℕ)
      → Keeps mark head s0 w0 s1 w1
      → s1.owned ≡ s0.owned
      → Owns mark head s1 w1 c n s w
      → Rests mark head s0 w0 (record s {
        heap = write s.heap c none;
        clock = clock;
        owned = erase c s.owned;
        aborts = aborts;
      })
  unfolding write
  freed-Rests clock aborts before same o =
      let mine : contains s.owned c ≡ true = ground (arith, o.owned, ==-refl c) in
      let unseen = o.keeps.private.unseen c mine in
      let left : erase c s.owned ≡ s1.owned = ground (arith, o.owned, ==-refl c) in
      let still = λ (a : Ptr) (k : contains (erase c s.owned) a ≡ true).
        let k' : contains s1.owned a ≡ true = rw left at k in
        let in_ : contains s.owned a ≡ true = rw o.owned (ground arith) in in_ in
      let other = λ (a : Ptr) (k : contains (erase c s.owned) a ≡ true).
        let k' : contains s1.owned a ≡ true = rw left at k in
        let ne : (a == c) ≡ false = ground (arith, o.new, eq_of_== a c, ap (contains s1.owned)) in
        ne in
      let agree : (a : Ptr) → known head w a ≡ true → write s.heap c none a ≡ s.heap a =
        λ a k. ground arith in
      record {
        view = w;
        shared = Shared-agree o.keeps.shared agree (ground (arith, o.keeps.shared.null_free));
        private = record {
          unseen = λ a k. o.keeps.private.unseen a (still a k);
          backed = λ a k.
              let (m, e) = o.keeps.private.backed a (still a k) in (m, ground (arith, other a k));
          vacant = λ a k. ground (arith, o.keeps.private.vacant a k);
        };
        later =
            Later-trans before.later (Later-trans o.keeps.later (Later-agree o.keeps.shared agree));
        balanced = record {
          owned = left ∙ same;
          held = o.keeps.held ∙ before.held;
          nesting = omega (
            arith, o.keeps.read_locks, o.keeps.read_unlocks, before.read_locks, before.read_unlocks,
          );
        };
        deferred = o.keeps.deferred ∙ before.deferred;
      }
