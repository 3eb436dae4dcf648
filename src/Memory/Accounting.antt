-- ===== src/Memory/Accounting.antt =====
-- memory_manager.go: each operation keeps the accounts of the manager.
use pointsub.Base.{
  ℕ, ◌≤◌, ◌≡◌, refl, true, false, none, some, ltb, leb, ◌==◌, if◌then◌else◌, arith, sym, subst, inl,
  inr, Bool-cases, Option-cases,
}
use pointsub.Memory.{
  MemoryManagerConfig, MemoryManager, done, blocked, when, emit, change, gc, adjust_buffers,
  reset_buffers, start_monitoring, lock, unlock, preallocation, start, stop, add_listener,
  remove_listener, release_emergency_memory, reallocate_emergency_memory, perform_partial_cleanup,
  perform_full_cleanup, handle_memory_limit, count_allocation, count_release, over_limit,
  record_allocation, record_release, level_of, handle_memory_pressure, change_level,
  check_memory_pressure,
}
use pointsub.Memory.Keeping.{
  IsAccounted, Fine, Keeps, then_on, Keeps-then, Keeps-if, Keeps-when, Keeps-done, Keeps-lock,
  Keeps-unlock, Keeps-emit, Keeps-aside, Keeps-locked,
}

pub release_emergency_memory-Keeps : Keeps release_emergency_memory
unfolding release_emergency_memory
release_emergency_memory-Keeps =
    Keeps-then _ unlock
      (Keeps-then _ (emit gc)
        (Keeps-then lock _ Keeps-lock
          (Keeps-aside (λ m. record m { emergency_memory = none }) (λ m. (refl, refl))))
        (Keeps-emit gc))
      Keeps-unlock

reallocate : MemoryManager → MemoryManager
reallocate m = elim m.emergency_memory [
  | some n ↦ m
  | none ↦ record m { emergency_memory = preallocation m.config }
]

reallocate-same :
    (m : MemoryManager) → ((reallocate m).stats ≡ m.stats) × ((reallocate m).config ≡ m.config)
unfolding reallocate
reallocate-same m = elim (Option-cases m.emergency_memory) [
  | inl e ↦ (rw (e, reallocate) refl, rw (e, reallocate) refl)
  | inr (n, e) ↦ (rw (e, reallocate) refl, rw (e, reallocate) refl)
]

pub reallocate_emergency_memory-Keeps : Keeps reallocate_emergency_memory
unfolding reallocate_emergency_memory reallocate
reallocate_emergency_memory-Keeps = Keeps-locked _ (Keeps-aside reallocate reallocate-same)

pub perform_partial_cleanup-Keeps : Keeps perform_partial_cleanup
unfolding perform_partial_cleanup
perform_partial_cleanup-Keeps =
    Keeps-then (emit gc) (when (λ m. m.config.has_buffer_manager) (emit adjust_buffers))
      (Keeps-emit gc)
      (Keeps-when (λ m. m.config.has_buffer_manager) (emit adjust_buffers)
        (Keeps-emit adjust_buffers))

pub perform_full_cleanup-Keeps : Keeps perform_full_cleanup
unfolding perform_full_cleanup
perform_full_cleanup-Keeps =
    Keeps-then (emit gc) (when (λ m. m.config.has_buffer_manager) (emit reset_buffers))
      (Keeps-emit gc)
      (Keeps-when (λ m. m.config.has_buffer_manager) (emit reset_buffers)
        (Keeps-emit reset_buffers))

pub handle_memory_pressure-Keeps : (o n : ℕ) → Keeps (handle_memory_pressure o n)
unfolding handle_memory_pressure
handle_memory_pressure-Keeps o n =
    Keeps-if (ltb o n) _ _
      (Keeps-if (n == 1) perform_partial_cleanup _ perform_partial_cleanup-Keeps (
        Keeps-if (n == 2) _ done
          (Keeps-then release_emergency_memory perform_full_cleanup release_emergency_memory-Keeps
            perform_full_cleanup-Keeps)
          Keeps-done))
      (Keeps-if (ltb n o) _ done
        (Keeps-when _ reallocate_emergency_memory reallocate_emergency_memory-Keeps) Keeps-done)

pub change_level-Keeps : (o n : ℕ) → n ≤ 2 → Keeps (change_level o n)
unfolding change_level
change_level-Keeps o n le =
    Keeps-then _ (handle_memory_pressure o n)
      (Keeps-then _ (change _)
        (Keeps-locked (change _) (λ m a. record { peak = a.peak; limit = a.limit; level = le }))
        (Keeps-aside _ (λ m. (refl, refl))))
      (handle_memory_pressure-Keeps o n)

pub level_of-le : (c : MemoryManagerConfig) (used : ℕ) → level_of c used ≤ 2
unfolding level_of
level_of-le c used = ground arith

pub check_memory_pressure-Keeps : (used : ℕ) → Keeps (check_memory_pressure used)
unfolding check_memory_pressure
check_memory_pressure-Keeps used m a =
    Keeps-then _ _
      (Keeps-then _ _ (Keeps-then lock unlock Keeps-lock Keeps-unlock)
        (Keeps-when (λ n. leb n.config.gc_trigger_threshold used) (emit gc) (Keeps-emit gc)))
      (Keeps-if (m.stats.memory_pressure_level == level_of m.config used) done
        (change_level m.stats.memory_pressure_level (level_of m.config used)) Keeps-done
        (change_level-Keeps m.stats.memory_pressure_level (level_of m.config used)
          (level_of-le m.config used)))
      m a

pub record_release-Keeps : (size : ℕ) → Keeps (record_release size)
unfolding record_release count_release
record_release-Keeps size =
    Keeps-locked (change (count_release size))
      (λ m a. record { peak = omega (arith, a.peak); limit = a.limit; level = a.level })

pub add_listener-Keeps : (l : ℕ) → Keeps (add_listener l)
unfolding add_listener
add_listener-Keeps l = Keeps-locked _ (Keeps-aside _ (λ m. (refl, refl)))

pub remove_listener-Keeps : (l : ℕ) → Keeps (remove_listener l)
unfolding remove_listener
remove_listener-Keeps l = Keeps-locked _ (Keeps-aside _ (λ m. (refl, refl)))

pub start-Keeps : Keeps start
unfolding start
start-Keeps m a = elim (Bool-cases m.running) [
  | inl e ↦ rw (e, if◌then◌else◌) (record { peak = a.peak; limit = a.limit; level = a.level })
  | inr e ↦
      rw (e, if◌then◌else◌)
        (Keeps-when (λ n. n.config.enable_memory_pressure_monitoring) (emit start_monitoring)
          (Keeps-emit start_monitoring) (record m { running = true })
          (record { peak = a.peak; limit = a.limit; level = a.level }))
]

pub stop-Keeps : Keeps stop
unfolding stop
stop-Keeps m a = elim (Bool-cases m.running) [
  | inl e ↦ elim (Bool-cases m.stop_closed) [
    | inl closed ↦ rw (e, closed, if◌then◌else◌) tt
    | inr still ↦
        rw (e, still, if◌then◌else◌) (record { peak = a.peak; limit = a.limit; level = a.level })
  ]
  | inr e ↦ rw (e, if◌then◌else◌) (record { peak = a.peak; limit = a.limit; level = a.level })
]

-- Above the limit, the mutex that RecordAllocation holds is locked once more.
pub limit-blocks :
    (m : MemoryManager)
    → m.locked ≡ true
    → over_limit m ≡ true
    → when over_limit handle_memory_limit m ≡ blocked
unfolding handle_memory_limit release_emergency_memory lock
limit-blocks m locked over = rw (over, locked, if◌then◌else◌) refl

pub count_allocation-IsAccounted :
    (size : ℕ) (m : MemoryManager)
    → IsAccounted m
    → over_limit (count_allocation size m) ≡ false
    → IsAccounted (count_allocation size m)
unfolding count_allocation over_limit
count_allocation-IsAccounted size m a under = record {
  peak = ground arith;
  limit = ground arith;
  level = a.level;
}

locking : MemoryManager → MemoryManager
locking m = record m { locked = true }

limited-Fine :
    (size : ℕ) (m : MemoryManager)
    → IsAccounted m
    → Fine (when over_limit handle_memory_limit (count_allocation size (locking m)))
unfolding locking count_allocation
limited-Fine size m a = elim (Bool-cases (over_limit (count_allocation size (locking m)))) [
  | inl over ↦ subst Fine (sym (limit-blocks (count_allocation size (locking m)) refl over)) tt
  | inr under ↦
      rw (under, if◌then◌else◌)
        (count_allocation-IsAccounted size (locking m)
          (record { peak = a.peak; limit = a.limit; level = a.level }) under)
]

pub record_allocation-Keeps : (size : ℕ) → Keeps (record_allocation size)
unfolding record_allocation lock locking
record_allocation-Keeps size m a = elim (Bool-cases m.locked) [
  | inl e ↦ rw (e, if◌then◌else◌) tt
  | inr e ↦
      rw (e, if◌then◌else◌)
        (then_on (when over_limit handle_memory_limit (count_allocation size (locking m))) unlock
          Keeps-unlock (limited-Fine size m a))
]
