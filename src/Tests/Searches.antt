-- ===== src/Tests/Searches.antt =====
-- A section of RLU and a search in a list of one value.
use rcx_hashtables.Base.{◌==◌, if◌then◌else◌, some, none, refl, arith, [], ◌∷◌}
use rcx_hashtables.Machine.{list_val_max}
use rcx_hashtables.Rlu.{null, obj, unlocked, Object, State}
use rcx_hashtables.Rlu.Ends.{Returns}
use rcx_hashtables.Rlu.Section.{no_thread, rlu_reader_lock}
use rcx_hashtables.Rlu.Section.Begin.{Begun, rlu_reader_lock_lem}
use rcx_hashtables.Rlu.Lists.{find}
use rcx_hashtables.Rlu.Lists.Search.{Nodes, end, node, Frozen, Finds, find-Finds}
use rcx_hashtables.Tests.WriteSets.{locked_one}
use rcx_hashtables.Tests.Objects.{asking, asking-Respects}

abbrev pub first_node : Object
first_node = record { p_obj_copy = unlocked; item = record { val = 0; p_next = obj 2 } }

abbrev pub five_node : Object
five_node = record { p_obj_copy = unlocked; item = record { val = 5; p_next = obj 3 } }

abbrev pub last_node : Object
last_node = record { p_obj_copy = unlocked; item = record { val = list_val_max; p_next = null } }

abbrev pub one_value : State
one_value = record locked_one {
  self = no_thread;
  heap = λ a.
      if a == 1
      then some first_node
      else if a == 2
      then some five_node
      else if a == 3
      then some last_node
      else none;
}

asking-Frozen : Frozen asking
asking-Frozen s a o e = (o, e, refl)

one_value-Nodes : Nodes one_value.heap (obj 2) 0 (5 ∷ [])
one_value-Nodes =
    node five_node five_node.item refl refl (omega arith)
      (end last_node last_node.item refl refl refl)

find-Finds_example :
    Returns (λ at s'. Finds 1 5 (5 ∷ []) s'.heap at) (find asking 3 (obj 1) 5 one_value)
find-Finds_example =
    find-Finds asking asking-Frozen asking-Respects 5 (omega arith) 3 one_value 1 0 first_node
      (5 ∷ []) refl one_value-Nodes (omega arith) refl

rlu_reader_lock_example :
    Returns (λ _ s'. Begun asking one_value s'.self) (rlu_reader_lock asking 0 one_value)
rlu_reader_lock_example = rlu_reader_lock_lem asking asking-Respects 0 one_value refl refl
