-- ===== src/Rcu/Spin/Remove.antt =====
-- `rcu_list_remove` and `rcu_list_try_remove` take a value out of a list, and do nothing else to it.
use rcx_hashtables.Machine.{Machine}
use rcx_hashtables.Machine.Ends
use rcx_hashtables.Machine.Ends.{Ends}
use rcx_hashtables.Shared.{Shared}
