-- ===== src/Rcx/Bytes/Exclusion.antt =====
-- rcx-hash-list.c: the transactions that take lock bytes take all of them or none.
use rcx_hashtables.Base.{
  ℕ, ◌≡◌, refl, inl, inr, ◌⊎◌, true, false, Option, none, some, List, [], ◌∷◌, arith, ◌==◌,
  contains, Bool-cases, eq_of_==, ==-refl, ◌∙◌,
}
use rcx_hashtables.Machine.{Ptr, Node, Heap, write, State, Machine, Tx, xend, xabort, exception}
use rcx_hashtables.Rcx.{abort_conflict}
use rcx_hashtables.Rcx.Bytes.{Byte, htm, pnode, byte_of, with_byte, tx_set, tx_test, tx_lock}

-- How a transaction ends, and what holds in each case.
pub data TxEnds (commit : Heap → Type 0) (abort : ℕ → Type 0) (fails : Type 0)
    : Tx (Unit {0}) → Type 0 where
  commits : {h : Heap} → commit h → TxEnds commit abort fails (xend tt h)
  aborts : {code : ℕ} → abort code → TxEnds commit abort fails (xabort code)
  raises : fails → TxEnds commit abort fails exception

-- The byte of the node is 1.
pub record IsLocked (b : Byte) (i : ℕ) (h : Heap) (a : Ptr) : Type 0 where
  pub node : Node
  pub at : h a ≡ some node
  pub set : byte_of b i node ≡ 1

-- The byte of the node is not 1.
pub record IsFree (b : Byte) (i : ℕ) (h : Heap) (a : Ptr) : Type 0 where
  pub node : Node
  pub at : h a ≡ some node
  pub clear : (byte_of b i node == 1) ≡ false

-- The bytes of `ps` are 1 in `g`, and the other nodes are as in `h`.
pub record Locks (b : Byte) (i : ℕ) (ps : List Ptr) (h g : Heap) : Type 0 where
  pub taken : (a : Ptr) → contains ps a ≡ true → IsLocked b i g a
  pub others : (a : Ptr) → contains ps a ≡ false → g a ≡ h a

-- One of the pointers leads nowhere.
abbrev pub Dangling : List Ptr → Heap → Type 0
Dangling ps h = (a : Ptr) × (contains ps a ≡ true) × (h a ≡ none)

Option-cases : {A : Type 0} (o : Option A) → (o ≡ none) ⊎ ((x : A) × (o ≡ some x))
Option-cases none = inl refl
Option-cases (some x) = inr (x, refl)

byte_of-with_byte : (b : Byte) (i v : ℕ) (n : Node) → byte_of b i (with_byte b i v n) ≡ v
unfolding byte_of with_byte
byte_of-with_byte htm i v n = refl
byte_of-with_byte pnode i v n = rw (==-refl i) refl

write-at : (h : Heap) (p : Ptr) (c : Option Node) → write h p c p ≡ c
unfolding write
write-at h p c = rw (==-refl p) refl

write-off :
    (h : Heap) (p : Ptr) (c : Option Node) (a : Ptr) → (a == p) ≡ false → write h p c a ≡ h a
unfolding write
write-off h p c a ne = rw ne refl

Dangling-cons :
    (p : Ptr) (ps : List Ptr) (c : Node) (h : Heap)
    → Dangling ps (write h p (some c))
    → Dangling (p ∷ ps) h
Dangling-cons p ps c h (a, on, nowhere) = elim (Bool-cases (a == p)) [
  | inl same ↦
      let e : a ≡ p = eq_of_== a p same in
      absurd (ground (arith, rw e at nowhere, write-at h p (some c)))
  | inr ne ↦ (a, ground arith, ground (arith, write-off h p (some c) a ne, nowhere))
]

TxEnds-mono :
    {P P' : Heap → Type 0} {Q Q' : ℕ → Type 0} {E E' : Type 0} {t : Tx (Unit {0})}
    → TxEnds P Q E t
    → ((h : Heap) → P h → P' h)
    → ((code : ℕ) → Q code → Q' code)
    → (E → E')
    → TxEnds P' Q' E' t
TxEnds-mono (commits p) f g k = commits (f _ p)
TxEnds-mono (aborts q) f g k = aborts (g _ q)
TxEnds-mono (raises e) f g k = raises (k e)

module _ {b : Byte} {i : ℕ} where
  Locks-cons :
      (p : Ptr) (ps : List Ptr) (n : Node) (h g : Heap)
      → Locks b i ps (write h p (some (with_byte b i 1 n))) g
      → Locks b i (p ∷ ps) h g
  Locks-cons p ps n h g l = record {
    taken = λ a on. elim (Bool-cases (contains ps a)) [
      | inl later ↦ l.taken a later
      | inr not_later ↦
          let same : a ≡ p = ground arith in
          rw same (record {
            node = with_byte b i 1 n;
            at = l.others p (rw same at not_later) ∙ write-at h p (some (with_byte b i 1 n));
            set = byte_of-with_byte b i 1 n;
          })
    ];
    others = λ a off.
        l.others a (ground arith) ∙ write-off h p (some (with_byte b i 1 n)) a (ground arith);
  }

  tx_set-Locks :
      (ps : List Ptr) (h : Heap)
      → TxEnds (Locks b i ps h) (λ _. ⊥) (Dangling ps h) (tx_set b i ps h)
  unfolding tx_set
  tx_set-Locks [] h = commits (record { taken = λ a on. absurd (cc); others = λ a off. refl })
  tx_set-Locks (p ∷ ps) h = elim (Option-cases (h p)) [
    | inl nowhere ↦ rw (tx_set, nowhere) (raises (p, ground (arith, ==-refl p), nowhere))
    | inr (n, at) ↦
        rw (tx_set, at)
          (TxEnds-mono (tx_set-Locks ps (write h p (some (with_byte b i 1 n))))
            (Locks-cons p ps n h) (λ _ e. e) (Dangling-cons p ps (with_byte b i 1 n) h))
  ]

  -- The bytes of `ps` are free, then those of `all` are taken.
  tx_test-ends :
      (ps all : List Ptr) (h : Heap)
      → TxEnds
          (λ g. ((a : Ptr) → contains ps a ≡ true → IsFree b i h a) × Locks b i all h g)
          (λ code. (code ≡ abort_conflict) × (a : Ptr) × (contains ps a ≡ true) × IsLocked b i h a)
          (Dangling ps h ⊎ Dangling all h)
          (tx_test b i ps all h)
  unfolding tx_test
  tx_test-ends [] all h =
      TxEnds-mono (tx_set-Locks all h) (λ g l. (λ a on. absurd (cc), l)) (λ _ e. absurd e) inr
  tx_test-ends (p ∷ ps) all h = elim (Option-cases (h p)) [
    | inl nowhere ↦ rw (tx_test, nowhere) (raises (inl (p, ground (arith, ==-refl p), nowhere)))
    | inr (n, at) ↦ elim (Bool-cases (byte_of b i n == 1)) [
      | inl set_ ↦
          rw (tx_test, at, set_)
            (aborts (
              refl,
              p,
              ground (arith, ==-refl p),
              record { node = n; at = at; set = eq_of_== _ 1 set_ },
            ))
      | inr clear_ ↦
          rw (tx_test, at, clear_)
            (TxEnds-mono (tx_test-ends ps all h)
              (λ g (free, l). (
                λ a on. elim (Bool-cases (contains ps a)) [
                  | inl later ↦ free a later
                  | inr not_later ↦
                      let same : a ≡ p = ground arith in
                      rw same (record { node = n; at = at; clear = clear_ })
                ],
                l,
              ))
              (λ code (e, a, on, l). (e, a, ground arith, l))
              (λ lost. elim lost [
                | inl (a, on, nowhere) ↦ inl (a, ground arith, nowhere)
                | inr lost' ↦ inr lost'
              ]))
    ]
  ]

-- The transaction that takes the lock bytes of some nodes takes all of them or none. If it commits,
-- every byte was free, every byte is set now, and no other node has changed; if it calls `_xabort`,
-- the code is ABORT_CONFLICT and one of the bytes was set; otherwise a pointer led nowhere.
pub tx_lock-all_or_none :
    (M : Machine) (b : Byte) (ps : List Ptr) (s : State)
    → TxEnds
        (λ g.
          ((a : Ptr) → contains ps a ≡ true → IsFree b (M.numa_node_id s) s.heap a)
          × Locks b (M.numa_node_id s) ps s.heap g)
        (λ code.
          (code ≡ abort_conflict)
          × (a : Ptr) × (contains ps a ≡ true)
          × IsLocked b (M.numa_node_id s) s.heap a)
        (Dangling ps s.heap)
        (tx_lock M b ps s)
unfolding tx_lock
tx_lock-all_or_none M b ps s =
    TxEnds-mono (tx_test-ends ps ps s.heap) (λ g both. both) (λ code found. found)
      λ lost. elim lost [ inl d ↦ d | inr d ↦ d ]
