-- ===== src/Memory.antt =====
-- memory_manager.go: MemoryManager. Its mutex is part of the state, since it is not reentrant: an
-- operation that locks it while it holds it waits for ever. The operations run one after the
-- other. Sizes are not negative and their sums fit an int64; percentages are in one unit of the
-- caller's choice. The runs of the garbage collector and what is done to the buffers of the buffer
-- manager and to the listeners stand in a trace.
pub mod Keeping
pub mod Accounting
pub mod Runs
pub mod Limits
mod Tests
use pointsub.Base.{
  ℕ, ◌+◌, ◌-◌, Bool, true, false, ◌&&◌, not, Option, none, some, List, [], ◌∷◌, ◌++◌, map, ltb, leb,
  ◌==◌, if◌then◌else◌,
}

pub record MemoryManagerConfig : Type 0 where
  pub enable_memory_pressure_monitoring : Bool
  pub medium_memory_pressure_threshold : ℕ
  pub high_memory_pressure_threshold : ℕ
  pub gc_trigger_threshold : ℕ
  pub memory_usage_limit : ℕ
  pub enable_preallocation : Bool
  pub preallocation_size : ℕ
  pub has_buffer_manager : Bool

pub record MemoryStats : Type 0 where
  pub allocated_memory : ℕ
  pub peak_memory_usage : ℕ
  pub buffer_allocations_count : ℕ
  pub buffer_releases_count : ℕ
  pub memory_pressure_level : ℕ

-- What an operation does outside the manager.
pub data Event : Type 0 where
  gc adjust_buffers reset_buffers start_monitoring : Event
  pressure_changed : ℕ → ℕ → ℕ → Event  -- the listener, the old and the new level

-- `MemoryManager`; the emergency memory by its size.
pub record MemoryManager : Type 0 where
  pub config : MemoryManagerConfig
  pub stats : MemoryStats
  pub listeners : List ℕ
  pub emergency_memory : Option ℕ
  pub running : Bool
  pub stop_closed : Bool
  pub locked : Bool
  pub trace : List Event

-- An operation ends, waits for ever for a lock that it holds itself, or panics.
pub data Outcome : Type 0 where
  done : MemoryManager → Outcome
  blocked panics : Outcome

infixl 5 ◌>>◌
abbrev pub ◌>>◌ : (MemoryManager → Outcome) → (MemoryManager → Outcome) → MemoryManager → Outcome
◌>>◌ first next m = elim (first m) [ done m' ↦ next m' | blocked ↦ blocked | panics ↦ panics ]

abbrev pub change : (MemoryManager → MemoryManager) → MemoryManager → Outcome
change f m = done (f m)

abbrev pub when : (MemoryManager → Bool) → (MemoryManager → Outcome) → MemoryManager → Outcome
when test action m = if test m then action m else done m

-- `mm.mu.Lock()` and `mm.mu.Unlock()`.
unfoldable pub lock : MemoryManager → Outcome
lock m = if m.locked then blocked else done (record m { locked = true })

unfoldable pub unlock : MemoryManager → Outcome
unlock m = done (record m { locked = false })

abbrev pub emit : Event → MemoryManager → Outcome
emit e m = done (record m { trace = m.trace ++ e ∷ [] })

-- The memory that a manager sets aside.
unfoldable pub preallocation : MemoryManagerConfig → Option ℕ
preallocation c =
    if c.enable_preallocation && ltb 0 c.preallocation_size then some c.preallocation_size else none

-- `NewMemoryManager`.
unfoldable pub new_memory_manager : MemoryManagerConfig → MemoryManager
unfolding preallocation
new_memory_manager c = record {
  config = c;
  stats = record {
    allocated_memory = 0;
    peak_memory_usage = 0;
    buffer_allocations_count = 0;
    buffer_releases_count = 0;
    memory_pressure_level = 0;
  };
  listeners = [];
  emergency_memory = preallocation c;
  running = false;
  stop_closed = false;
  locked = false;
  trace = [];
}

-- `Start`.
unfoldable pub start : MemoryManager → Outcome
start m =
    if m.running
    then done m
    else when (λ n. n.config.enable_memory_pressure_monitoring) (emit start_monitoring)
        (record m { running = true })

-- `Stop`: a channel that is closed already cannot be closed.
unfoldable pub stop : MemoryManager → Outcome
stop m =
    if m.running
    then (if m.stop_closed then panics else done (record m { running = false; stop_closed = true }))
    else done m

-- `AddListener` and `RemoveListener`, of the first occurrence.
unfoldable pub add_listener : ℕ → MemoryManager → Outcome
unfolding lock unlock
add_listener listener =
    lock >> change (λ m. record m { listeners = m.listeners ++ listener ∷ [] }) >> unlock

unfoldable pub without_listener : ℕ → List ℕ → List ℕ
without_listener listener [] = []
without_listener listener (l ∷ ls) =
    let rest = without_listener listener ls in if l == listener then ls else l ∷ rest

unfoldable pub remove_listener : ℕ → MemoryManager → Outcome
unfolding lock unlock
remove_listener listener =
    lock >> change (λ m. record m { listeners = without_listener listener m.listeners }) >> unlock

-- `ReleaseEmergencyMemory`.
unfoldable pub release_emergency_memory : MemoryManager → Outcome
unfolding lock unlock
release_emergency_memory =
    lock >> change (λ m. record m { emergency_memory = none }) >> emit gc >> unlock

-- `ReallocateEmergencyMemory`.
unfoldable pub reallocate_emergency_memory : MemoryManager → Outcome
unfolding lock unlock preallocation
reallocate_emergency_memory =
    lock
    >> change (λ m. elim m.emergency_memory [
      | some n ↦ m
      | none ↦ record m { emergency_memory = preallocation m.config }
    ])
    >> unlock

-- `performPartialCleanup` and `performFullCleanup`.
unfoldable pub perform_partial_cleanup : MemoryManager → Outcome
perform_partial_cleanup = emit gc >> when (λ m. m.config.has_buffer_manager) (emit adjust_buffers)

unfoldable pub perform_full_cleanup : MemoryManager → Outcome
perform_full_cleanup = emit gc >> when (λ m. m.config.has_buffer_manager) (emit reset_buffers)

-- `handleMemoryLimit`.
unfoldable pub handle_memory_limit : MemoryManager → Outcome
unfolding release_emergency_memory perform_full_cleanup
handle_memory_limit = release_emergency_memory >> emit gc >> perform_full_cleanup

-- The counts of RecordAllocation and RecordRelease.
unfoldable pub count_allocation : ℕ → MemoryManager → MemoryManager
count_allocation size m =
    let allocated = m.stats.allocated_memory + size in
    record m {
      stats = record m.stats {
        allocated_memory = allocated;
        buffer_allocations_count = m.stats.buffer_allocations_count + 1;
        peak_memory_usage =
            if ltb m.stats.peak_memory_usage allocated
            then allocated
            else m.stats.peak_memory_usage;
      };
    }

unfoldable pub count_release : ℕ → MemoryManager → MemoryManager
count_release size m = record m {
  stats = record m.stats {
    allocated_memory = m.stats.allocated_memory - size;
    buffer_releases_count = m.stats.buffer_releases_count + 1;
  };
}

unfoldable pub over_limit : MemoryManager → Bool
over_limit m =
    ltb 0 m.config.memory_usage_limit && ltb m.config.memory_usage_limit m.stats.allocated_memory

-- `RecordAllocation`.
unfoldable pub record_allocation : ℕ → MemoryManager → Outcome
unfolding lock unlock count_allocation over_limit handle_memory_limit
record_allocation size =
    lock >> change (count_allocation size) >> when over_limit handle_memory_limit >> unlock

-- `RecordRelease`.
unfoldable pub record_release : ℕ → MemoryManager → Outcome
unfolding lock unlock count_release
record_release size = lock >> change (count_release size) >> unlock

-- The level of `detectMemoryPressure` for a share of memory in use.
unfoldable pub level_of : MemoryManagerConfig → ℕ → ℕ
level_of c used =
    if leb c.high_memory_pressure_threshold used
    then 2
    else if leb c.medium_memory_pressure_threshold used
    then 1
    else 0

-- `handleMemoryPressure`.
unfoldable pub handle_memory_pressure : ℕ → ℕ → MemoryManager → Outcome
unfolding release_emergency_memory reallocate_emergency_memory perform_partial_cleanup
    perform_full_cleanup
handle_memory_pressure old_level new_level =
    if ltb old_level new_level
    then (if new_level == 1
        then perform_partial_cleanup
        else if new_level == 2
        then release_emergency_memory >> perform_full_cleanup
        else done)
    else if ltb new_level old_level
    then when (λ m. new_level == 0 && elim m.emergency_memory [ none ↦ true | some n ↦ false ])
        reallocate_emergency_memory
    else done

-- A change of the level: it is set, the listeners are told, and it is handled.
unfoldable pub change_level : ℕ → ℕ → MemoryManager → Outcome
unfolding lock unlock handle_memory_pressure
change_level old_level new_level =
    lock
    >> change (λ m. record m { stats = record m.stats { memory_pressure_level = new_level } })
    >> unlock
    >> change (λ m. record m {
      trace = m.trace ++ map (λ l. pressure_changed l old_level new_level) m.listeners;
    })
    >> handle_memory_pressure old_level new_level

-- `checkMemoryPressure` when the share `used` of the memory is in use; a share above the threshold
-- runs the collector.
unfoldable pub check_memory_pressure : ℕ → MemoryManager → Outcome
unfolding lock unlock level_of change_level
check_memory_pressure used m =
    let old_level = m.stats.memory_pressure_level in
    let new_level = level_of m.config used in
    (lock
        >> unlock
        >> when (λ n. leb n.config.gc_trigger_threshold used) (emit gc)
        >> (if old_level == new_level then done else change_level old_level new_level))
      m
