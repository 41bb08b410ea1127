-- ===== src/Rlu/Lists/Search.antt =====
-- The search of a reader that has no locks to check: it walks the objects themselves.
use rcx_hashtables.Base.{
  ℕ, zero, suc, ◌≤◌, ◌<◌, ◌≡◌, refl, true, false, arith, some, Bool-cases, inl, inr, ◌==◌, leb,
  List, [], ◌∷◌, contains, ap, ◌∙◌, ◌⊎◌,
}
use rcx_hashtables.Machine.{list_val_max}
use rcx_hashtables.Rlu.{Ref, obj, Item, Object, State, Env, ok, load_item, tick}
use rcx_hashtables.Rlu.Ends
use rcx_hashtables.Rlu.Ends.{returns, Returns}
use rcx_hashtables.Rlu.WriteSet.Layout.{Heap}
use rcx_hashtables.Rlu.WriterLocks.{length}
use rcx_hashtables.Rlu.Objects.{rlu_deref}
use rcx_hashtables.Rlu.Lists.{Place, deref_next, search, find}
use rcx_hashtables.Rlu.Others.{Respects}

-- Sorted nodes from `p` on, with the values `xs`, all above `lo`, up to the node of the largest int.
pub data Nodes (h : Heap) : (p : Ref) → (lo : ℕ) → List ℕ → Type 0 where
  end :
      {a lo : ℕ} (o : Object) (i : Item)
      → h a ≡ some o
      → o.item ≡ i
      → i.val ≡ list_val_max
      → Nodes h (obj a) lo []
  node :
      {a lo : ℕ} {xs : List ℕ} (o : Object) (i : Item)
      → h a ≡ some o
      → o.item ≡ i
      → lo < i.val
      → Nodes h i.p_next i.val xs
      → Nodes h (obj a) lo (i.val ∷ xs)

-- While the reader runs, no other thread writes the content of an object: the writers wait for it.
abbrev pub Frozen : Env → Type 0
Frozen E =
    (s : State) (a : ℕ) (o : Object)
    → s.heap a ≡ some o
    → (o' : Object) × ((E.others s).heap a ≡ some o') × (o'.item ≡ o.item)

module _ (E : Env) (frozen : Frozen E) (r : Respects E) where
  Nodes-others :
      (s : State) (p : Ref) (lo : ℕ) (xs : List ℕ)
      → Nodes s.heap p lo xs
      → Nodes (E.others s).heap p lo xs
  Nodes-others s _ _ _ (end {a} o i e same top) =
      let (o', e', same') = frozen s a o e in end o' i e' (same' ∙ same) top
  Nodes-others s _ _ _ (node {a} {lo} {xs} o i e same lt rest) =
      let (o', e', same') = frozen s a o e in
      node o' i e' (same' ∙ same) lt (Nodes-others s i.p_next i.val xs rest)

  deref-plain :
      (s : State) (p : Ref) → s.self.is_check_locks ≡ false → rlu_deref E p s ≡ ok p (E.others s)
  unfolding rlu_deref tick
  deref-plain s p plain =
      let check : (E.others s).self.is_check_locks ≡ false =
        ap (λ t. t.is_check_locks) (r.self s) ∙ plain in
      rw check refl

-- A value that is not above the bound is not in the nodes.
Nodes-above :
    {h : Heap} {p : Ref} {lo : ℕ} {xs : List ℕ} (val : ℕ)
    → Nodes h p lo xs
    → val ≤ lo
    → contains xs val ≡ false
Nodes-above val (end o i e same top) le = refl
Nodes-above val (node o i e same lt rest) le =
    let differs : (val == i.val) ≡ false = ground (arith, lt, le) in
    rw differs (Nodes-above val rest (omega (arith, lt, le)))

-- Where a search for `val` from `head` stops: at an object `next` of the list whose value it
-- reports, and at the object in front of it, which points to it, and is the head or has a smaller
-- value. The value at `next` tells whether `val` is one of `xs`.
pub record Finds (head val : ℕ) (xs : List ℕ) (h : Heap) (at : Place) : Type 0 where
  pub prev : ℕ
  pub prev_object : Object
  pub prev_is : at.prev ≡ obj prev
  pub prev_holds : h prev ≡ some prev_object
  pub below : (prev ≡ head) ⊎ (prev_object.item.val < val)
  pub link : prev_object.item.p_next ≡ at.next
  pub next : ℕ
  pub next_object : Object
  pub next_is : at.next ≡ obj next
  pub next_holds : h next ≡ some next_object
  pub value : next_object.item.val ≡ at.val
  pub reached : val ≤ at.val
  pub tells : (at.val == val) ≡ contains xs val

Finds-cons :
    {head val v : ℕ} {xs : List ℕ} {h : Heap} {at : Place}
    → (val == v) ≡ false
    → Finds head val xs h at
    → Finds head val (v ∷ xs) h at
Finds-cons differs f = record {
  prev = f.prev;
  prev_object = f.prev_object;
  prev_is = f.prev_is;
  prev_holds = f.prev_holds;
  below = f.below;
  link = f.link;
  next = f.next;
  next_object = f.next_object;
  next_is = f.next_is;
  next_holds = f.next_holds;
  value = f.value;
  reached = f.reached;
  tells = rw differs (f.tells);
}

load_item-at :
    (s : State) (a : ℕ) (o : Object) (i : Item)
    → s.heap a ≡ some o
    → o.item ≡ i
    → load_item (obj a) s ≡ ok i s
unfolding load_item
load_item-at s a o i e same = rw (e, same) refl

-- A stop at the node with value `v`, behind which are `xs`.
stop-tells :
    {h : Heap} {p : Ref} (v val : ℕ) {xs : List ℕ}
    → Nodes h p v xs
    → val ≤ v
    → (v == val) ≡ contains (v ∷ xs) val
stop-tells v val rest le = elim (Bool-cases (v == val)) [
  | inl same ↦ let back : (val == v) ≡ true = ground (arith, same) in rw (same, back) refl
  | inr differs ↦
      let back : (val == v) ≡ false = ground (arith, differs) in
      rw (differs, back, Nodes-above val rest le) refl
]

module _ (E : Env) (frozen : Frozen E) (r : Respects E) (val : ℕ) (below : val < list_val_max) where
  deref_next-at :
      (s : State) (a : ℕ) (o : Object) (i : Item)
      → s.heap a ≡ some o
      → o.item ≡ i
      → s.self.is_check_locks ≡ false
      → deref_next E (obj a) s ≡ ok i.p_next (E.others s)
  unfolding deref_next
  deref_next-at s a o i e same plain =
      rw (load_item-at s a o i e same, deref-plain E frozen r s i.p_next plain) refl

  search-Finds :
      (fuel head c : ℕ) (oc : Object) (s : State) (p : Ref) (lo : ℕ) (xs : List ℕ)
      → s.heap c ≡ some oc
      → (c ≡ head) ⊎ (oc.item.val < val)
      → oc.item.p_next ≡ p
      → Nodes s.heap p lo xs
      → length xs < fuel
      → s.self.is_check_locks ≡ false
      → Returns (λ at s'. Finds head val xs s'.heap at) (search E fuel val (obj c) p s)
  unfolding search
  search-Finds zero head c oc s p lo xs ec low link nodes enough plain =
      absurd (omega (arith, enough))
  search-Finds (suc fuel) head c oc s _ _ _ ec low link (end {a} o i e same top) enough plain =
      let stops : leb val i.val ≡ true = ground (arith, top, below) in
      rw (load_item-at s a o i e same, stops)
        (returns (record {
          prev = c;
          prev_object = oc;
          prev_is = refl;
          prev_holds = ec;
          below = low;
          link = link;
          next = a;
          next_object = o;
          next_is = refl;
          next_holds = e;
          value = ap (λ x. x.val) same;
          reached = omega (arith, top, below);
          tells = ground (arith, top, below);
        }))
  search-Finds (suc fuel) head c oc s _ _ _ ec low link (node {a} {lo} {xs} o i e same lt rest)
        enough plain =
      elim (Bool-cases (leb val i.val)) [
        | inl stops ↦
            rw (load_item-at s a o i e same, stops)
              (returns (record {
                prev = c;
                prev_object = oc;
                prev_is = refl;
                prev_holds = ec;
                below = low;
                link = link;
                next = a;
                next_object = o;
                next_is = refl;
                next_holds = e;
                value = ap (λ x. x.val) same;
                reached = ground (arith, stops);
                tells = stop-tells i.val val rest (ground (arith, stops));
              }))
        | inr goes ↦
            let plain' : (E.others s).self.is_check_locks ≡ false =
              ap (λ t. t.is_check_locks) (r.self s) ∙ plain in
            let differs : (val == i.val) ≡ false = ground (arith, goes) in
            let (o', e', same') = frozen s a o e in
            let small : o'.item.val < val =
              rw (ap (λ x. x.val) (same' ∙ same)) (ground (arith, goes)) in
            rw (load_item-at s a o i e same, goes, deref_next-at s a o i e same plain)
              (Ends.mono
                (search-Finds fuel head a o' (E.others s) i.p_next i.val xs e' (inr small)
                  (ap (λ x. x.p_next) (same' ∙ same))
                  (Nodes-others E frozen r s i.p_next i.val xs rest) (omega (arith, enough)) plain')
                λ at s' f. Finds-cons differs f)
      ]

  -- A search from the head of a sorted list, in a section with no locks to check, returns if the fuel
  -- is larger than the number of values. It stops at an object whose value is not below `val`, and that
  -- value is `val` if and only if `val` is in the list. The object that it returns as the one in front
  -- points to it, and is the head or has a value below `val`. `val` is below INT_MAX, and the others
  -- write no content of objects and of this thread's data only `is_sync`.
  pub find-Finds :
      (fuel : ℕ) (s : State) (a lo : ℕ) (o : Object) (xs : List ℕ)
      → s.heap a ≡ some o
      → Nodes s.heap o.item.p_next lo xs
      → length xs < fuel
      → s.self.is_check_locks ≡ false
      → Returns (λ at s'. Finds a val xs s'.heap at) (find E fuel (obj a) val s)
  unfolding find
  find-Finds fuel s a lo o xs e nodes enough plain =
      let s1 : State = E.others s in
      let plain1 : s1.self.is_check_locks ≡ false = ap (λ t. t.is_check_locks) (r.self s) ∙ plain in
      let plain2 : (E.others s1).self.is_check_locks ≡ false =
        ap (λ t. t.is_check_locks) (r.self s1) ∙ plain1 in
      let (o1, e1, same1) = frozen s a o e in
      let (o2, e2, same2) = frozen s1 a o1 e1 in
      rw (deref-plain E frozen r s (obj a) plain, deref_next-at s1 a o1 o.item e1 same1 plain1)
        (search-Finds fuel a a o2 (E.others s1) o.item.p_next lo xs e2 (inl refl)
          (ap (λ x. x.p_next) (same2 ∙ same1))
          (Nodes-others E frozen r s1 o.item.p_next lo xs
            (Nodes-others E frozen r s o.item.p_next lo xs nodes))
          enough plain2)
