-- ===== src/Rcu/Search.antt =====
-- The search, while other threads change the list: it ends, and it stops at two nodes around the value,
-- of which the first has pointed to the second.
use rcx_hashtables.Base.{
  ℕ, zero, suc, ◌+◌, ◌≤◌, ◌<◌, ◌≡◌, refl, inl, inr, Bool, true, some, arith, leb, Bool-cases, ◌∙◌,
  sym, ap, ==-refl,
}
use rcx_hashtables.Machine.{
  Ptr, Heap, list_val_min, list_val_max, Node, rcuspin, holds, State, Machine, load, tick,
}
use rcx_hashtables.Machine.Ends
use rcx_hashtables.Machine.Ends.{Ends, returns, Returns}
use rcx_hashtables.Chain.{has, LastMax-cons, Seg-tail, successor}
use rcx_hashtables.Shared.{
  View, cells, known, Leads, Shared, known-next, on_chain, Leads-Later, Later, Later-refl,
  Later-trans,
}
use rcx_hashtables.Shared.Tick.{
  Private, Fair, Since, Since-Keeps, Keeps, Since-trans, Since-tick, load-ok,
}
use rcx_hashtables.Rcu.{Place, search, find}

-- A thread that looks for `val` has come to `p` and read `q` there. Under the lock of the list the
-- two are neighbours on it.
pub record Spot (head : Ptr) (val : ℕ) (s : State) (w : View) (p q : Ptr) : Type 0 where
  pub node : Node
  pub holds_p : s.heap p ≡ some node
  pub p_known : known head w p ≡ true
  pub below : node.val < val
  pub to : Leads s.heap head w node.val q
  pub locked :
      holds s.held (rcuspin head) ≡ true
      → (has (cells head w) p ≡ true) × (has (cells head w) q ≡ true) × (node.p_next ≡ q)

module _ {mark : Bool} {head : Ptr} {val : ℕ} where
  pub Spot-Keeps :
      {s s' : State} {w w' : View} {p q : Ptr}
      → Keeps mark head s w s' w'
      → Spot head val s w p q
      → Spot head val s' w' p q
  Spot-Keeps {s} {s'} {w} {w'} {p} {q} keeps spot =
      let (m, e, same) = keeps.later.val_stays p spot.node spot.p_known spot.holds_p in
      let to : Leads s'.heap head w' m.val q = rw same (Leads-Later keeps.later spot.to) in
      record {
        node = m;
        holds_p = e;
        p_known = keeps.later.known_stays p spot.p_known;
        below = ground (arith, spot.below);
        to = to;
        locked = λ l.
            let l' = rw keeps.held at l in
            let (on, on', eqn) = spot.locked l' in
            let (view, keep) = keeps.frozen l' in
            let m_eq : m ≡ spot.node = ground (arith, keep p spot.p_known, spot.holds_p) in
            (rw view on, rw view on', rw m_eq eqn);
      }

  -- The two values stay.
  pub Spot-Keeps-val :
      {s s' : State} {w w' : View} {p q : Ptr} (keeps : Keeps mark head s w s' w')
      → (spot : Spot head val s w p q)
      → ((Spot-Keeps keeps spot).node.val ≡ spot.node.val)
        × ((Spot-Keeps keeps spot).to.node.val ≡ spot.to.node.val)
  unfolding Spot-Keeps
  Spot-Keeps-val {s' = s'} {p} {q} keeps spot =
      let (m, e, same) = keeps.later.val_stays p spot.node spot.p_known spot.holds_p in
      let (m', e', same') = keeps.later.val_stays q spot.to.node spot.to.is_known spot.to.holds in
      let to_eq : (Spot-Keeps keeps spot).to.node ≡ m' =
        ground (arith, (Spot-Keeps keeps spot).to.holds) in
      (same, ap (λ (x : Node). x.val) to_eq ∙ same')

-- At a moment between two heaps, the node `p` was known and pointed to `q`.
pub record Joined (head : Ptr) (h : Heap) (w : View) (p q : Ptr) (g : Heap) (w' : View)
    : Type 0 where
  pub heap : Heap
  pub view : View
  pub node : Node
  pub before : Later head h w heap view
  pub after : Later head heap view g w'
  pub is_known : known head view p ≡ true
  pub holds : heap p ≡ some node
  pub next : node.p_next ≡ q

Joined-Later :
    {head : Ptr} {h g f : Heap} {w w' w'' : View} {p q : Ptr}
    → Joined head h w p q g w'
    → Later head g w' f w''
    → Joined head h w p q f w''
Joined-Later j later = record {
  heap = j.heap;
  view = j.view;
  node = j.node;
  before = j.before;
  after = Later-trans j.after later;
  is_known = j.is_known;
  holds = j.holds;
  next = j.next;
}

-- Where a search that began at `s` has stopped. The first of the two nodes has pointed to the second
-- one at a moment of the search.
pub record Arrived (mark : Bool) (head : Ptr) (val : ℕ) (s : State) (w : View) (at : Place)
    (s' : State) (w' : View) : Type 0 where
  pub since : Since mark head s w s' w'
  pub spot : Spot head val s' w' at.prev at.next
  pub joined : Joined head s.heap w at.prev at.next s'.heap w'
  pub value : spot.to.node.val ≡ at.val
  pub reached : val ≤ at.val

-- A read of `q` through `f`, by a thread that has come to `p` and `q`.
record Looked {A : Type 0} (mark : Bool) (head : Ptr) (val : ℕ) (s : State) (w : View)
    (f : Node → A) (p q : Ptr) (p_old q_old : ℕ) (a : A) (s' : State) (w' : View) : Type 0 where
  since : Since mark head s w s' w'
  joined : Joined head s.heap w p q s'.heap w'
  spot : Spot head val s' w' p q
  result : a ≡ f spot.to.node
  p_val : spot.node.val ≡ p_old
  q_val : spot.to.node.val ≡ q_old

abbrev pub Arrives :
    (mark : Bool) (head : Ptr) (val : ℕ) (s : State) (w : View) → Place → State → Type 0
Arrives mark head val s w at s' = (w' : View) × Arrived mark head val s w at s' w'

module _ {mark : Bool} {head : Ptr} {val : ℕ} {M : Machine} (F : Fair mark head M)
    (small : val < list_val_max) where
  -- One step along the list.
  advance :
      {s : State} {w : View} {p q : Ptr} {n : Node}
      → Shared mark head s.heap w
      → Spot head val s w p q
      → s.heap q ≡ some n
      → n.val < val
      → Spot head val s w q n.p_next
  advance {s} {w} {p} {q} {n} S spot e lt = record {
    node = n;
    holds_p = e;
    p_known = spot.to.is_known;
    below = lt;
    to = known-next S q n spot.to.is_known e (omega (arith, small));
    locked = λ l.
        let (on, on', eqn) = spot.locked l in
        let (found, on'') =
          successor S.chain (LastMax-cons (head, list_val_min) w.items S.last) on'
            (on_chain S q n on' e) (omega (arith, small)) in
        (on', on'', refl);
  }

  -- A read of the node that the thread looks at.
  look :
      {A : Type 0} (f : Node → A) (p q : Ptr) {s0 s : State} {w0 w : View}
      → Since mark head s0 w0 s w
      → Joined head s0.heap w0 p q s.heap w
      → (spot : Spot head val s w p q)
      → Returns
          (λ a s'.
            (w' : View) × Looked mark head val s0 w0 f p q spot.node.val spot.to.node.val a s' w')
          (load M q f s)
  look f p q {s} {w} since joined spot =
      let step = Since-tick F since.shared since.private in
      let spot1 = Spot-Keeps (Since-Keeps step) spot in
      let vals = Spot-Keeps-val (Since-Keeps step) spot in
      rw (load-ok M s q f spot1.to.node spot1.to.holds) (
        returns (
          F.view s w,
          record {
            since = Since-trans since step;
            joined = Joined-Later joined step.later;
            spot = spot1;
            result = refl;
            p_val = vals.0;
            q_val = vals.1;
          },
        ))

  pub search-Arrives :
      (fuel : ℕ) (p q : Ptr) {s0 s : State} {w0 w : View}
      → Since mark head s0 w0 s w
      → Joined head s0.heap w0 p q s.heap w
      → (spot : Spot head val s w p q) → val ≤ spot.node.val + fuel
      → Returns (Arrives mark head val s0 w0) (search M fuel val p q s)
  unfolding search advance
  search-Arrives zero p q since joined spot enough = absurd (omega (arith, spot.below))
  search-Arrives (suc fuel) p q {s} {w} since joined spot enough =
      Ends.bind (look (λ n. n.val) p q since joined spot) λ v s1 (w1, l).
        elim (Bool-cases (leb val v)) [
          | inl stop ↦ rw stop (
              returns (
                w1,
                record {
                  since = l.since;
                  joined = l.joined;
                  spot = l.spot;
                  value = sym l.result;
                  reached = ground arith;
                },
              ))
          | inr go_on ↦ rw go_on (
              Ends.bind (look (λ n. n.p_next) p q l.since l.joined l.spot) λ r s2 (w2, l').
                let lt : l'.spot.to.node.val < val = ground (arith, l'.q_val, l.result) in
                rw l'.result (
                  search-Arrives fuel q l'.spot.to.node.p_next l'.since
                    (record {
                      heap = s2.heap;
                      view = w2;
                      node = l'.spot.to.node;
                      before = l'.since.later;
                      after = Later-refl;
                      is_known = l'.spot.to.is_known;
                      holds = l'.spot.to.holds;
                      next = refl;
                    })
                    (advance l'.since.shared l'.spot l'.spot.to.holds lt)
                    (omega (arith, enough, l'.p_val, l.p_val, l'.spot.to.bound))))
        ]

  pub find-Arrives :
      (s : State) (w : View)
      → 0 < val
      → Shared mark head s.heap w
      → Private head s w
      → Returns (Arrives mark head val s w) (find M head val s)
  unfolding find
  find-Arrives s w pos S P =
      let step = Since-tick F S P in
      let (q, first, rest) = Seg-tail step.shared.chain in
      let zero_val : first.node.val ≡ 0 = first.val_eq in
      let on : has (cells head (F.view s w)) head ≡ true = ground (arith, ==-refl head) in
      let (to, q_on) =
        successor step.shared.chain
          (LastMax-cons (head, list_val_min) (F.view s w).items step.shared.last) on first
          (omega arith) in
      rw (load-ok M s head (λ n. n.p_next) first.node first.holds) (
        search-Arrives (suc val) head first.node.p_next step
          (record {
            heap = (tick M s).heap;
            view = F.view s w;
            node = first.node;
            before = step.later;
            after = Later-refl;
            is_known = ground arith;
            holds = first.holds;
            next = refl;
          })
          (record {
            node = first.node;
            holds_p = first.holds;
            p_known = ground arith;
            below = omega arith;
            to = known-next step.shared head first.node (ground arith) first.holds (omega arith);
            locked = λ l. (on, rw first.next_eq q_on, refl);
          })
          (omega arith))
