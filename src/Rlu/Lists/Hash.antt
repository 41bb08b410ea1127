-- ===== src/Rlu/Lists/Hash.antt =====
-- rlu-hash-list.c: the operations on the hash list.
use rcx_hashtables.Base.{ℕ, zero, suc, ◌+◌, ltb, ◌==◌, not, if◌then◌else◌, Option, none, some}
use rcx_hashtables.Hash.{ℤ, pos, negsuc, ℤ, pos, no_entry, max_buckets, hash_value}
use rcx_hashtables.Rlu.{Ref, null, Env, fault, Cmd, pure, ◌>>=◌, ◌>>◌, gets}
use rcx_hashtables.Rlu.Lists.{
  rlu_new_list, list_size, rlu_list_contains, rlu_list_add, rlu_list_try_add, rlu_list_remove,
  rlu_list_try_remove, destroy_nodes,
}

pub record Table : Type 0 where
  pub n_buckets : ℕ
  pub buckets : ℕ → Ref

bucket_at : Table → Option ℤ → Cmd Ref
bucket_at g none = λ _. fault
bucket_at g (some (pos i)) = if ltb i max_buckets then pure (g.buckets i) else (λ _. fault)
bucket_at g (some (negsuc i)) = λ _. fault

-- HASH_VALUE reads only the number of buckets.
unfoldable pub bucket : Table → ℕ → Cmd Ref
unfolding bucket_at
bucket g val = bucket_at g (hash_value (record { n_buckets = g.n_buckets; buckets = λ _. 0 }) val)

module _ (E : Env) where
  unfoldable pub fill_buckets : (count i : ℕ) → (ℕ → Ref) → Cmd (ℕ → Ref)
  fill_buckets zero i b = pure b
  fill_buckets (suc count) i b =
      if ltb i max_buckets
      then (do p ← rlu_new_list E; fill_buckets count (suc i) (λ j. if j == i then p else b j))
      else (λ _. fault)

  -- The code only reports that there is no memory, and writes through NULL then.
  unfoldable pub rlu_new_hash_list : ℕ → Cmd Table
  unfolding fill_buckets
  rlu_new_hash_list n_buckets = do
    found ← gets E.malloc_struct
    if not found then (λ _. fault) else (do
      b ← fill_buckets n_buckets 0 (λ _. null)
      pure (record { n_buckets = n_buckets; buckets = b }))

  -- The result, and the new value of `g_hash_list`.
  unfoldable pub rlu_hash_list_init : ℕ → Cmd (ℕ × Table)
  unfolding rlu_new_hash_list
  rlu_hash_list_init nr_buckets = do g ← rlu_new_hash_list nr_buckets; pure (0, g)

  unfoldable pub sum_sizes : ℕ → Table → (count i size : ℕ) → Cmd ℕ
  sum_sizes fuel g zero i size = pure size
  sum_sizes fuel g (suc count) i size = do
    k ← list_size E fuel (g.buckets i)
    sum_sizes fuel g count (suc i) (size + k)

  unfoldable pub hash_list_size : ℕ → Table → Cmd ℕ
  unfolding sum_sizes
  hash_list_size fuel g = sum_sizes fuel g g.n_buckets 0 0

  unfoldable pub rlu_hash_list_contains : ℕ → Table → ℕ → Cmd ℤ
  rlu_hash_list_contains fuel g val = do
    p ← bucket g val
    ret ← rlu_list_contains E fuel p val
    pure (if ret then pos 0 else no_entry)

  unfoldable pub rlu_hash_list_add : ℕ → Table → ℕ → Cmd ℕ
  rlu_hash_list_add fuel g val = do p ← bucket g val; rlu_list_add E fuel p val

  unfoldable pub rlu_hash_list_try_add : ℕ → Table → ℕ → Cmd ℕ
  rlu_hash_list_try_add fuel g val = do p ← bucket g val; rlu_list_try_add E fuel p val

  unfoldable pub rlu_hash_list_remove : ℕ → Table → ℕ → Cmd ℕ
  rlu_hash_list_remove fuel g val = do p ← bucket g val; rlu_list_remove E fuel p val

  unfoldable pub rlu_hash_list_try_remove : ℕ → Table → ℕ → Cmd ℕ
  rlu_hash_list_try_remove fuel g val = do p ← bucket g val; rlu_list_try_remove E fuel p val

-- The lists of `count` buckets from `i` on.
unfoldable pub destroy_buckets : ℕ → Table → (count i : ℕ) → Cmd (Unit {0})
destroy_buckets fuel g zero i = pure tt
destroy_buckets fuel g (suc count) i = do
  destroy_nodes fuel (g.buckets i)
  destroy_buckets fuel g count (suc i)

unfoldable pub rlu_hash_list_destroy : ℕ → Table → Cmd (Unit {0})
unfolding destroy_buckets
rlu_hash_list_destroy fuel g = destroy_buckets fuel g g.n_buckets 0
