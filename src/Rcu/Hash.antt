-- ===== src/Rcu/Hash.antt =====
-- rcu-hash-list.c: the operations on the hash list.
pub mod Update
use rcx_hashtables.Base.{ℕ, if◌then◌else◌, Option}
use rcx_hashtables.Machine.{Machine, Cmd, pure, ◌>>=◌}
use rcx_hashtables.Hash.{
  ℤ, pos, no_entry, HashList, bucket, new_hash_list, sum_sizes, destroy_buckets,
}
use rcx_hashtables.Rcu.{rcu_new_list, list_size, rcu_list_contains}
use rcx_hashtables.Rcu.Spin.{
  rcu_list_add, rcu_list_try_add, rcu_list_remove, rcu_list_try_remove, rcu_list_destroy,
}
use rcx_hashtables.Rcu.Fine.{
  rcu_list_fg_add, rcu_list_numa_add, rcu_list_fg_remove, rcu_list_numa_remove,
}

module _ (M : Machine) where
  unfoldable pub rcu_new_hash_list : ℕ → Cmd (Option HashList)
  rcu_new_hash_list n_buckets = new_hash_list M (rcu_new_list M) n_buckets

  -- The result, and the new value of `g_hash_list`.
  unfoldable pub rcu_hash_list_init : ℕ → Cmd (ℕ × Option HashList)
  unfolding rcu_new_hash_list
  rcu_hash_list_init nr_buckets = do g ← rcu_new_hash_list nr_buckets; pure (0, g)

  unfoldable pub hash_list_size : ℕ → HashList → Cmd ℕ
  hash_list_size fuel g = sum_sizes (list_size M fuel) g g.n_buckets 0 0

  unfoldable pub rcu_hash_list_contains : HashList → ℕ → Cmd ℤ
  rcu_hash_list_contains g val = do
    p ← bucket g val
    found ← rcu_list_contains M p val
    pure (if found then pos 0 else no_entry)

  unfoldable pub rcu_hash_list_add : HashList → ℕ → Cmd ℕ
  rcu_hash_list_add g val = do p ← bucket g val; rcu_list_add M p val

  unfoldable pub rcu_hash_list_try_add : HashList → ℕ → Cmd ℕ
  rcu_hash_list_try_add g val = do p ← bucket g val; rcu_list_try_add M p val

  unfoldable pub rcu_hash_list_fg_add : ℕ → HashList → ℕ → Cmd ℕ
  rcu_hash_list_fg_add fuel g val = do p ← bucket g val; rcu_list_fg_add M fuel p val

  unfoldable pub rcu_hash_list_numa_add : ℕ → HashList → ℕ → Cmd ℕ
  rcu_hash_list_numa_add fuel g val = do p ← bucket g val; rcu_list_numa_add M fuel p val

  unfoldable pub rcu_hash_list_remove : HashList → ℕ → Cmd ℕ
  rcu_hash_list_remove g val = do p ← bucket g val; rcu_list_remove M p val

  unfoldable pub rcu_hash_list_try_remove : HashList → ℕ → Cmd ℕ
  rcu_hash_list_try_remove g val = do p ← bucket g val; rcu_list_try_remove M p val

  unfoldable pub rcu_hash_list_fg_remove : ℕ → HashList → ℕ → Cmd ℕ
  rcu_hash_list_fg_remove fuel g val = do p ← bucket g val; rcu_list_fg_remove M fuel p val

  unfoldable pub rcu_hash_list_numa_remove : ℕ → HashList → ℕ → Cmd ℕ
  rcu_hash_list_numa_remove fuel g val = do p ← bucket g val; rcu_list_numa_remove M fuel p val

  unfoldable pub rcu_hash_list_destroy : ℕ → HashList → Cmd (Unit {0})
  rcu_hash_list_destroy fuel g = destroy_buckets (rcu_list_destroy M fuel) g g.n_buckets 0
