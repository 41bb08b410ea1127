-- ===== src/Tests/Crossing.antt =====
-- Two threads at a barrier for two.
use rcx_hashtables.Base.{◌≤◌, [], ◌∷◌}
use rcx_hashtables.Barrier.{
  barrier_init, run, step_barrier, step_phases, cross_barrier, cross_phase, arrived, all_outside,
  here, barrier_cross-arrived,
}

barrier_cross-arrived_example :
    2
    ≤ arrived
        (run
          (0 ∷ 1 ∷ 0 ∷ 1 ∷ 0 ∷ 0 ∷ [])
          (record { barrier = barrier_init 2; phases = all_outside 2 })).phases
unfolding run step_barrier step_phases cross_barrier cross_phase
barrier_cross-arrived_example = barrier_cross-arrived 2 2 (0 ∷ 1 ∷ 0 ∷ 1 ∷ 0 ∷ 0 ∷ []) here
