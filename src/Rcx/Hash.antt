-- ===== src/Rcx/Hash.antt =====
-- rcx-hash-list.c: the operations on the hash list.
pub mod Update
use rcx_hashtables.Base.{ℕ, zero, suc, ◌==◌, not, if◌then◌else◌, Option}
use rcx_hashtables.Machine.{Ptr, Machine, out_of_fuel, Cmd, pure, ◌>>=◌, ◌>>◌, benchmark_endtime}
use rcx_hashtables.Hash.{
  ℤ, pos, negsuc, no_entry, HashList, bucket, new_hash_list, sum_sizes, destroy_buckets,
}
use rcx_hashtables.Rcx.{rcx_new_list, list_size, rcx_list_contains, rcx_list_destroy}
use rcx_hashtables.Rcx.Htm.{rcx_list_add, rcx_list_remove}
use rcx_hashtables.Rcx.Fallback.{
  rcx_list_lf_add, rcx_list_fb1_add, rcx_list_lf_remove, rcx_list_fb1_remove,
}
use rcx_hashtables.Rcx.Bytes.Htmlock.{rcx_list_htmlock_add, rcx_list_htmlock_remove}
use rcx_hashtables.Rcx.Bytes.Hhtmlock.{rcx_list_hhtmlock_add, rcx_list_hhtmlock_remove}
use rcx_hashtables.Rcx.Bytes.Numa.{rcx_list_numa_add, rcx_list_numa_remove}

-- `result == 2`: the transaction aborted.
unfoldable pub or_abort : ℕ → ℤ
or_abort result = if result == 2 then negsuc 0 else pos 0

module _ (M : Machine) where
  unfoldable pub rcx_new_hash_list : ℕ → Cmd (Option HashList)
  rcx_new_hash_list n_buckets = new_hash_list M (rcx_new_list M) n_buckets

  -- The result, and the new value of `g_hash_list`.
  unfoldable pub rcx_hash_list_init : ℕ → Cmd (ℕ × Option HashList)
  unfolding rcx_new_hash_list
  rcx_hash_list_init nr_buckets = do g ← rcx_new_hash_list nr_buckets; pure (0, g)

  unfoldable pub rcx_hash_list_destroy : ℕ → HashList → Cmd (Unit {0})
  rcx_hash_list_destroy fuel g = destroy_buckets (rcx_list_destroy M fuel) g g.n_buckets 0

  unfoldable pub hash_list_size : ℕ → HashList → Cmd ℕ
  hash_list_size fuel g = sum_sizes (list_size M fuel) g g.n_buckets 0 0

  unfoldable pub rcx_hash_list_contains : HashList → ℕ → Cmd ℤ
  rcx_hash_list_contains g val = do
    p ← bucket g val
    found ← rcx_list_contains M p val
    pure (if found then pos 0 else no_entry)

  unfoldable pub rcx_hash_list_add : HashList → ℕ → Cmd ℤ
  unfolding or_abort
  rcx_hash_list_add g val = do
    p ← bucket g val
    result ← rcx_list_add M p val
    pure (or_abort result)

  unfoldable pub rcx_hash_list_try_add : HashList → ℕ → Cmd ℤ
  unfolding or_abort
  rcx_hash_list_try_add g val = do
    p ← bucket g val
    result ← rcx_list_add M p val
    pure (or_abort result)

  -- The loop of the two functions that retry: until no abort, or the end of the benchmark.
  unfoldable pub retry_loop : ℕ → Cmd ℕ → Cmd ℤ
  retry_loop zero operation = λ _. out_of_fuel
  retry_loop (suc fuel) operation = do
    result ← operation
    if not (result == 2) then pure (pos 0) else (do
      end ← benchmark_endtime M
      if end == 1 then pure (negsuc 0) else retry_loop fuel operation)

  unfoldable pub rcx_hash_list_retry_add : ℕ → HashList → ℕ → Cmd ℤ
  unfolding retry_loop
  rcx_hash_list_retry_add fuel g val = do p ← bucket g val; retry_loop fuel (rcx_list_add M p val)

  -- These wait for the end of the operation and return 0.
  unfoldable pub zero_only : (Ptr → Cmd ℕ) → HashList → ℕ → Cmd ℤ
  zero_only operation g val = do p ← bucket g val; operation p; pure (pos 0)

  unfoldable pub rcx_hash_list_lf_add : ℕ → HashList → ℕ → Cmd ℤ
  unfolding zero_only
  rcx_hash_list_lf_add fuel g val = zero_only (λ p. rcx_list_lf_add M fuel p val) g val

  unfoldable pub rcx_hash_list_fb1_add : ℕ → HashList → ℕ → Cmd ℤ
  unfolding zero_only
  rcx_hash_list_fb1_add fuel g val = zero_only (λ p. rcx_list_fb1_add M fuel p val) g val

  unfoldable pub rcx_hash_list_remove : HashList → ℕ → Cmd ℤ
  unfolding or_abort
  rcx_hash_list_remove g val = do
    p ← bucket g val
    result ← rcx_list_remove M p val
    pure (or_abort result)

  unfoldable pub rcx_hash_list_try_remove : HashList → ℕ → Cmd ℤ
  unfolding or_abort
  rcx_hash_list_try_remove g val = do
    p ← bucket g val
    result ← rcx_list_remove M p val
    pure (or_abort result)

  unfoldable pub rcx_hash_list_retry_remove : ℕ → HashList → ℕ → Cmd ℤ
  unfolding retry_loop
  rcx_hash_list_retry_remove fuel g val = do
    p ← bucket g val
    retry_loop fuel (rcx_list_remove M p val)

  unfoldable pub rcx_hash_list_lf_remove : ℕ → HashList → ℕ → Cmd ℤ
  unfolding zero_only
  rcx_hash_list_lf_remove fuel g val = zero_only (λ p. rcx_list_lf_remove M fuel p val) g val

  unfoldable pub rcx_hash_list_fb1_remove : ℕ → HashList → ℕ → Cmd ℤ
  unfolding zero_only
  rcx_hash_list_fb1_remove fuel g val = zero_only (λ p. rcx_list_fb1_remove M fuel p val) g val

  unfoldable pub rcx_hash_list_htmlock_add : ℕ → HashList → ℕ → Cmd ℤ
  unfolding zero_only
  rcx_hash_list_htmlock_add fuel g val = zero_only (λ p. rcx_list_htmlock_add M fuel p val) g val

  unfoldable pub rcx_hash_list_hhtmlock_add : ℕ → HashList → ℕ → Cmd ℤ
  unfolding zero_only
  rcx_hash_list_hhtmlock_add fuel g val = zero_only (λ p. rcx_list_hhtmlock_add M fuel p val) g val

  unfoldable pub rcx_hash_list_numa_add : ℕ → HashList → ℕ → Cmd ℤ
  unfolding zero_only
  rcx_hash_list_numa_add fuel g val = zero_only (λ p. rcx_list_numa_add M fuel p val) g val

  unfoldable pub rcx_hash_list_htmlock_remove : ℕ → HashList → ℕ → Cmd ℤ
  unfolding zero_only
  rcx_hash_list_htmlock_remove fuel g val =
      zero_only (λ p. rcx_list_htmlock_remove M fuel p val) g val

  unfoldable pub rcx_hash_list_hhtmlock_remove : ℕ → HashList → ℕ → Cmd ℤ
  unfolding zero_only
  rcx_hash_list_hhtmlock_remove fuel g val =
      zero_only (λ p. rcx_list_hhtmlock_remove M fuel p val) g val

  unfoldable pub rcx_hash_list_numa_remove : ℕ → HashList → ℕ → Cmd ℤ
  unfolding zero_only
  rcx_hash_list_numa_remove fuel g val = zero_only (λ p. rcx_list_numa_remove M fuel p val) g val
