-- ===== src/Memory/Limits.antt =====
-- memory_manager.go: what RecordAllocation does at the limit, a check does to the emergency memory,
-- and a second Stop does.
use pointsub.Base.{
  ℕ, ◌+◌, ◌≡◌, refl, sym, ap, ◌∙◌, Bool, true, false, ◌&&◌, ltb, if◌then◌else◌, inl, inr,
  Bool-cases,
}
use pointsub.Memory.Accounting.{limit-blocks}
use pointsub.Memory.{
  MemoryManager, Outcome, done, blocked, panics, when, lock, unlock, start, stop,
  handle_memory_limit, count_allocation, over_limit, record_allocation,
}

-- The manager with its mutex free; with the mutex as an argument, it is matched.
abbrev free_of : MemoryManager → MemoryManager
free_of m = record m { locked = false }

-- What follows the test of the limit in RecordAllocation.
abbrev unlocking : Outcome → Outcome
unlocking o = elim o [ done m ↦ unlock m | blocked ↦ blocked | panics ↦ panics ]

under-done :
    (m : MemoryManager) → over_limit m ≡ false → when over_limit handle_memory_limit m ≡ done m
under-done m under = rw (under, if◌then◌else◌) refl

record_allocation-free :
    (size : ℕ) (m : MemoryManager)
    → record_allocation size (free_of m) ≡ (
        if over_limit (count_allocation size m)
        then blocked
        else done (count_allocation size (free_of m)))
unfolding record_allocation lock unlock count_allocation over_limit
record_allocation-free size m =
    let counted = count_allocation size (record m { locked = true }) in
    elim (Bool-cases (over_limit counted)) [
      | inl over ↦
          ap unlocking (limit-blocks counted refl over)
          ∙ ap (λ b. if b then blocked else done (count_allocation size (free_of m))) (sym over)
      | inr under ↦
          ap unlocking (under-done counted under)
          ∙ ap (λ b. if b then blocked else done (count_allocation size (free_of m))) (sym under)
    ]

-- RecordAllocation on a free mutex counts the allocation and ends if the memory in use stays within
-- the limit, or there is no limit; otherwise it waits for ever.
pub record_allocation-limit :
    (size : ℕ) (m : MemoryManager)
    → m.locked ≡ false
    → record_allocation size m ≡ (
        if ltb 0 m.config.memory_usage_limit
          && ltb m.config.memory_usage_limit (m.stats.allocated_memory + size)
        then blocked
        else done (count_allocation size m))
unfolding count_allocation over_limit
record_allocation-limit size m free =
    let same : m ≡ free_of m = (λ i. record m { locked = free i }) in
    ap (record_allocation size) same
    ∙ record_allocation-free size m
    ∙ ap
        (λ n.
          if over_limit (count_allocation size m) then blocked else done (count_allocation size n))
        (sym same)

-- The manager before its first start, with the switch for the monitoring.
abbrev stopped : Bool → MemoryManager → MemoryManager
stopped monitoring m = record m {
  running = false;
  stop_closed = false;
  config = record m.config { enable_memory_pressure_monitoring = monitoring };
}

stopped-restarts :
    (monitoring : Bool) (m : MemoryManager)
    → (m_1 m_2 m_3 : MemoryManager) × (start (stopped monitoring m) ≡ done m_1)
      × (m_1.running ≡ true)
      × (stop m_1 ≡ done m_2)
      × (m_2.running ≡ false)
      × (start m_2 ≡ done m_3)
      × (m_3.running ≡ true)
      × (stop m_3 ≡ panics)
unfolding start stop
stopped-restarts true m = (_, _, _, refl, refl, refl, refl, refl, refl, refl)
stopped-restarts false m = (_, _, _, refl, refl, refl, refl, refl, refl, refl)

-- A manager that is not running and was never stopped can be started, stopped and started again,
-- each time without an error, and runs then; stopping it once more panics.
pub stop-restart :
    (m : MemoryManager)
    → m.running ≡ false
    → m.stop_closed ≡ false
    → (m_1 m_2 m_3 : MemoryManager) × (start m ≡ done m_1)
      × (m_1.running ≡ true)
      × (stop m_1 ≡ done m_2)
      × (m_2.running ≡ false)
      × (start m_2 ≡ done m_3)
      × (m_3.running ≡ true)
      × (stop m_3 ≡ panics)
stop-restart m idle open' =
    let same : m ≡ stopped m.config.enable_memory_pressure_monitoring m =
      (λ i. record m { running = idle i; stop_closed = open' i }) in
    let (m_1, m_2, m_3, first, runs, second, ended, third, again, over) =
      stopped-restarts m.config.enable_memory_pressure_monitoring m in
    (m_1, m_2, m_3, ap start same ∙ first, runs, second, ended, third, again, over)
