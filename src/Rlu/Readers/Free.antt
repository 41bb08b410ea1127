-- ===== src/Rlu/Readers/Free.antt =====
-- The objects that a synchronization frees: none, or one.
use rcx_hashtables.Base.{ℕ, ◌≡◌, refl, Option, some, none, List, [], ◌∷◌}
use rcx_hashtables.Rlu.{Ref, obj, unlocked, Object, State, ok, write, get_copy}
use rcx_hashtables.Rlu.Sync.{rlu_process_free, free_all, free_object}
use rcx_hashtables.Rlu.WriteSet.Layout.{Heap}

abbrev pub free_list : Option ℕ → List Ref
free_list none = []
free_list (some b) = obj b ∷ []

abbrev pub after_free : Option ℕ → Heap → Heap
after_free none h = h
after_free (some b) h = write h b none

-- The object is there and unlocked.
abbrev pub IsFree : Heap → Option ℕ → Type 0
IsFree h none = Unit {0}
IsFree h (some b) = (o : Object) × (h b ≡ some o) × (o.p_obj_copy ≡ unlocked)

pub process_free-after_free :
    (freed : Option ℕ) (s : State)
    → s.self.free_nodes ≡ free_list freed
    → IsFree s.heap freed
    → rlu_process_free s
      ≡ ok tt
          (record s { heap = after_free freed s.heap; self = record (s.self) { free_nodes = [] } })
unfolding rlu_process_free free_all free_object get_copy
process_free-after_free none s e f = rw e refl
process_free-after_free (some b) s e (o, there, free) = rw (e, there, free, there) refl
