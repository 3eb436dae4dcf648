-- ===== src/Memory/Tests.antt =====
-- Runs of the memory manager, and its theorems at concrete inputs.
use pointsub.Base.{◌+◌, ◌≡◌, refl, true, false, ◌&&◌, List, [], ◌∷◌, ltb, if◌then◌else◌}
use pointsub.Memory.{
  MemoryManagerConfig, MemoryManager, Outcome, done, blocked, panics, lock, unlock,
  new_memory_manager, preallocation, start, stop, record_allocation, record_release,
  count_allocation, count_release, over_limit, check_memory_pressure, level_of, change_level,
  handle_memory_pressure, release_emergency_memory, perform_full_cleanup, add_listener,
}
use pointsub.Memory.Keeping.{IsAccounted}
use pointsub.Memory.Limits.{record_allocation-limit, stop-restart}
use pointsub.Memory.Runs.{
  Operation, starting, allocation, release, check, adding, perform, run, run-IsAccounted,
}

abbrev limited : MemoryManagerConfig
limited = record {
  enable_memory_pressure_monitoring = true;
  medium_memory_pressure_threshold = 70;
  high_memory_pressure_threshold = 85;
  gc_trigger_threshold = 85;
  memory_usage_limit = 1000;
  enable_preallocation = true;
  preallocation_size = 100;
  has_buffer_manager = true;
}

abbrev day : List Operation
day = starting ∷ adding 1 ∷ allocation 700 ∷ check 90 ∷ release 300 ∷ allocation 500 ∷ []

result_of : MemoryManager → Outcome → MemoryManager
result_of m (done m') = m'
result_of m blocked = m
result_of m panics = m

evening : MemoryManager
unfolding result_of
evening = result_of (new_memory_manager limited) (run day (new_memory_manager limited))

evening_lem : run day (new_memory_manager limited) ≡ done evening
unfolding evening run perform start add_listener record_allocation record_release
    check_memory_pressure lock unlock count_allocation count_release over_limit level_of
    change_level handle_memory_pressure release_emergency_memory perform_full_cleanup
    new_memory_manager preallocation
evening_lem = refl

run-IsAccounted_example : IsAccounted evening
run-IsAccounted_example = run-IsAccounted limited day evening evening_lem

fresh_free : (new_memory_manager limited).locked ≡ false
unfolding new_memory_manager
fresh_free = refl

record_allocation-limit_example : record_allocation 1001 (new_memory_manager limited) ≡ (
    if ltb 0 (new_memory_manager limited).config.memory_usage_limit
      && ltb
          (new_memory_manager limited).config.memory_usage_limit
          ((new_memory_manager limited).stats.allocated_memory + 1001)
    then blocked
    else done (count_allocation 1001 (new_memory_manager limited)))
record_allocation-limit_example =
    record_allocation-limit 1001 (new_memory_manager limited) fresh_free

-- One byte above the limit is never recorded.
above_limit : record_allocation 1001 (new_memory_manager limited) ≡ blocked
unfolding new_memory_manager
above_limit = record_allocation-limit 1001 (new_memory_manager limited) fresh_free

never_stopped : (new_memory_manager limited).stop_closed ≡ false
unfolding new_memory_manager
never_stopped = refl

not_running : (new_memory_manager limited).running ≡ false
unfolding new_memory_manager
not_running = refl

stop-restart_example :
    (m_1 m_2 m_3 : MemoryManager) × (start (new_memory_manager limited) ≡ done m_1)
    × (m_1.running ≡ true)
    × (stop m_1 ≡ done m_2)
    × (m_2.running ≡ false)
    × (start m_2 ≡ done m_3)
    × (m_3.running ≡ true)
    × (stop m_3 ≡ panics)
stop-restart_example = stop-restart (new_memory_manager limited) not_running never_stopped
