-- ===== src/Rlu/Lists/Destroy.antt =====
-- `rlu_hash_list_destroy` reads nodes that it has freed.
use rcx_hashtables.Base.{Option, none, some, ℕ, suc, ◌≡◌, refl, ==-refl}
use rcx_hashtables.Rlu.{obj, Object, State, fault, load_item}
use rcx_hashtables.Rlu.Section.{free_now}
use rcx_hashtables.Rlu.Sync.{free_object}
use rcx_hashtables.Rlu.Lists.{destroy_nodes}
use rcx_hashtables.Rlu.Lists.Hash.{Table, destroy_buckets, rlu_hash_list_destroy}

destroy_nodes-at :
    (fuel a : ℕ) (s : State) (c : Option Object)
    → s.heap a ≡ c
    → destroy_nodes (suc fuel) (obj a) s ≡ fault
unfolding destroy_nodes free_now free_object load_item
destroy_nodes-at fuel a s none e = rw (destroy_nodes, free_now, free_object, e) refl
destroy_nodes-at fuel a s (some o) e = rw (destroy_nodes, free_now, free_object, e, ==-refl a) refl

destroy_nodes-fault : (fuel a : ℕ) (s : State) → destroy_nodes (suc fuel) (obj a) s ≡ fault
destroy_nodes-fault fuel a s = destroy_nodes-at fuel a s (s.heap a) refl

-- The destruction of a hash list with at least one bucket, whose list has a first node, reads that
-- node after it has been freed.
pub rlu_hash_list_destroy_lem :
    (fuel n a : ℕ) (g : Table) (s : State)
    → g.n_buckets ≡ suc n
    → g.buckets 0 ≡ obj a
    → rlu_hash_list_destroy (suc fuel) g s ≡ fault
unfolding rlu_hash_list_destroy destroy_buckets
rlu_hash_list_destroy_lem fuel n a g s count head =
    rw (count, head, destroy_nodes-fault fuel a s) refl
