-- ===== src/Rcx/Hash/Update.antt =====
-- rcx-hash-list.c: `rcx_hash_list_add` and `rcx_hash_list_remove` work on the bucket of the value.
use rcx_hashtables.Base.{ℕ, ◌≡◌, ◌≢◌, ◌⊎◌}
use rcx_hashtables.Machine.{Machine}
use rcx_hashtables.Machine.Ends
use rcx_hashtables.Machine.Ends.{Ends}
use rcx_hashtables.Shared.{Shared}
use rcx_hashtables.Hash.{ℤ, pos, negsuc}
use rcx_hashtables.Rcx.Htm.Add
use rcx_hashtables.Rcx.Htm.Remove

-- The result `r` of the operation on the hash list, after the result `k` of that on the bucket: -1 (which is
-- `negsuc 0`) if that is 2, and 0 otherwise.
pub Reports : (k : ℕ) (r : ℤ) → Type 0
Reports k r = ((k ≡ 2) × (r ≡ negsuc 0)) ⊎ ((k ≢ 2) × (r ≡ pos 0))
