-- ===== src/Hash.antt =====
-- hash-list.h: the hash list, and what rcu-hash-list.c and rcx-hash-list.c do to its buckets in
-- the same words. A bucket is the first node of its list. The global `g_hash_list` is a parameter
-- of the functions that read it.
use rcx_hashtables.Base.{
  ℕ, zero, suc, ◌+◌, ◌-◌, ◌%◌, ◌<◌, ◌≤◌, ◌≡◌, refl, true, false, ltb, leb, ◌==◌, not, if◌then◌else◌,
  Option, none, some, Bool-cases, arith, inl, inr, ◌⊎◌, ◌∙◌, sym, ap, ◌*◌, ◌/◌,
}
use rcx_hashtables.Machine.{
  Ptr, null, int_zero, Machine, State, ok, fault, Cmd, pure, ◌>>=◌, ◌>>◌, kmalloc_struct, and_then,
}
use rcx_hashtables.Machine.Ends.{Ends}
use native.Mathlib.Nat.{mod-lt, div-add-mod'}

-- The results of the functions: an `int`, `negsuc n` for -(n + 1).
pub data ℤ : Type 0 where
  pos : ℕ → ℤ
  negsuc : ℕ → ℤ

-- -ENOENT, which is -2.
abbrev pub no_entry : ℤ
no_entry = negsuc 1

abbrev pub max_buckets : ℕ
max_buckets = 1000

pub record HashList : Type 0 where
  pub n_buckets : ℕ
  pub buckets : ℕ → Ptr

-- -n
abbrev pub neg : ℕ → ℤ
neg zero = pos 0
neg (suc n) = negsuc n

-- HASH_VALUE. The remainder in C has the sign of `val`, and a division by 0 has no result.
unfoldable pub hash_value : HashList → ℕ → Option ℤ
hash_value g val =
    if g.n_buckets == 0
    then none
    else (if leb int_zero val
        then some (pos ((val - int_zero) % g.n_buckets))
        else some (neg ((int_zero - val) % g.n_buckets)))

-- The access of the array with an index.
bucket_at : HashList → Option ℤ → Cmd Ptr
bucket_at g none = λ _. fault
bucket_at g (some (pos i)) = if ltb i max_buckets then pure (g.buckets i) else (λ _. fault)
bucket_at g (some (negsuc i)) = λ _. fault

-- `g_hash_list->buckets[hash]`
unfoldable pub bucket : HashList → ℕ → Cmd Ptr
unfolding hash_value bucket_at
bucket g val = bucket_at g (hash_value g val)

-- `buckets[i] = new_list()` for `count` buckets from `i` on.
unfoldable pub fill_buckets : Cmd Ptr → (count i : ℕ) → (ℕ → Ptr) → Cmd (ℕ → Ptr)
fill_buckets new_list zero i b = pure b
fill_buckets new_list (suc count) i b =
    if ltb i max_buckets
    then (do p ← new_list; fill_buckets new_list count (suc i) (λ j. if j == i then p else b j))
    else (λ _. fault)

-- `none` is NULL.
unfoldable pub new_hash_list : Machine → Cmd Ptr → ℕ → Cmd (Option HashList)
unfolding fill_buckets
new_hash_list M new_list n_buckets = do
  found ← kmalloc_struct M
  if not found then pure none else (do
    b ← fill_buckets new_list n_buckets 0 (λ _. null)
    pure (some (record { n_buckets = n_buckets; buckets = b })))

-- The sum of `size` over `count` buckets from `i` on.
unfoldable pub sum_sizes : (Ptr → Cmd ℕ) → HashList → (count i size : ℕ) → Cmd ℕ
sum_sizes list_size g zero i size = pure size
sum_sizes list_size g (suc count) i size = do
  k ← list_size (g.buckets i)
  sum_sizes list_size g count (suc i) (size + k)

-- The lists of `count` buckets from `i` on.
unfoldable pub destroy_buckets : (Ptr → Cmd Ptr) → HashList → (count i : ℕ) → Cmd (Unit {0})
destroy_buckets destroy g zero i = pure tt
destroy_buckets destroy g (suc count) i = do
  destroy (g.buckets i)
  destroy_buckets destroy g count (suc i)

module _ (g : HashList) (val : ℕ) (some_ : 0 < g.n_buckets) (most : g.n_buckets ≤ max_buckets) where
  pub bucket-pos :
      int_zero ≤ val
      → (s : State) → bucket g val s ≡ ok (g.buckets ((val - int_zero) % g.n_buckets)) s
  unfolding bucket hash_value bucket_at
  bucket-pos positive s =
      let no : (g.n_buckets == 0) ≡ false = ground arith in
      let yes : leb int_zero val ≡ true = ground arith in
      let lt : (val - int_zero) % g.n_buckets < g.n_buckets = mod-lt (val - int_zero) some_ in
      let fits : ltb ((val - int_zero) % g.n_buckets) max_buckets ≡ true = ground arith in
      rw (no, yes, fits) refl

  bucket-neg :
      (r : ℕ)
      → val < int_zero
      → (int_zero - val) % g.n_buckets ≡ r
      → (s : State) → bucket g val s ≡ (elim r [ zero ↦ ok (g.buckets 0) s | suc k ↦ fault ])
  unfolding bucket hash_value bucket_at
  bucket-neg zero negative rest s =
      let no : (g.n_buckets == 0) ≡ false = ground arith in
      let below : leb int_zero val ≡ false = ground arith in rw (no, below, rest) refl
  bucket-neg (suc k) negative rest s =
      let no : (g.n_buckets == 0) ≡ false = ground arith in
      let below : leb int_zero val ≡ false = ground arith in rw (no, below, rest) refl

  -- What the operations do with a value: they go to the bucket `i`, if the value is congruent to an
  -- index `i`, counted from a value that is not negative, or from a negative one if `i` is 0;
  -- otherwise the value lies below a multiple of the number of buckets and they read outside the array.
  abbrev pub Access : State → Type 0
  Access s =
      ((i : ℕ) × (q : ℕ) × (i < g.n_buckets)
        × ((val ≡ int_zero + (q * g.n_buckets + i))
            ⊎ ((i ≡ 0) × (int_zero ≡ val + q * g.n_buckets)))
        × (bucket g val s ≡ ok (g.buckets i) s))
      ⊎ ((i : ℕ) × (q : ℕ) × (0 < i)
          × (i < g.n_buckets)
          × (int_zero ≡ val + (q * g.n_buckets + i))
          × (bucket g val s ≡ fault))

  below :
      (r q : ℕ)
      → val < int_zero
      → (int_zero - val) % g.n_buckets ≡ r
      → int_zero ≡ val + (q * g.n_buckets + r)
      → (s : State) → Access s
  below zero q negative rest split s =
      inl (0, q, some_, inr (refl, omega (arith, split)), bucket-neg 0 negative rest s)
  below (suc k) q negative rest split s = inr (
    suc k,
    q,
    omega arith,
    rw rest at (mod-lt (int_zero - val) some_),
    split,
    bucket-neg (suc k) negative rest s,
  )

  -- In a hash list of 1 to MAX_BUCKETS buckets, the operations on a value that is not negative go to the
  -- bucket `i` below the number of buckets for which the value is a multiple of that number plus `i`.
  -- On a negative value they go to the first bucket if the value is a multiple of the number, and
  -- otherwise they read outside the array.
  pub bucket_lem : (s : State) → Access s
  bucket_lem s = elim (Bool-cases (leb int_zero val)) [
    | inl positive ↦ inl (
      (val - int_zero) % g.n_buckets,
      (val - int_zero) / g.n_buckets,
      mod-lt (val - int_zero) some_,
      inl (
          let parts = div-add-mod' (val - int_zero) g.n_buckets in
          let back : int_zero + (val - int_zero) ≡ val = ground arith in sym (rw parts back)),
      bucket-pos (ground arith) s,
    )
    | inr negative ↦
        let parts = div-add-mod' (int_zero - val) g.n_buckets in
        let back : int_zero ≡ val + (int_zero - val) = ground arith in
        below ((int_zero - val) % g.n_buckets) ((int_zero - val) / g.n_buckets) (ground arith) refl
          (back ∙ ap (λ d. val + d) (sym parts)) s
  ]

-- An operation that goes to a bucket.
pub bucket-Ends :
    {late : Type 0} {A : Type 0} {P : A → State → Type 0} (g : HashList) (val : ℕ) (p : Ptr)
    (s : State) (operation : Ptr → Cmd A)
    → bucket g val s ≡ ok p s
    → Ends late P (operation p s)
    → Ends late P (and_then (bucket g val s) operation)
bucket-Ends g val p s operation e ends = rw e ends
