-- ===== src/Memory/Runs.antt =====
-- memory_manager.go: the accounts after every sequence of operations.
use pointsub.Base.{ℕ, ◌≡◌, List, [], ◌∷◌, arith, subst}
use pointsub.Memory.{
  MemoryManagerConfig, MemoryManager, Outcome, done, ◌>>◌, new_memory_manager, start, stop,
  add_listener, remove_listener, release_emergency_memory, reallocate_emergency_memory,
  record_allocation, record_release, check_memory_pressure,
}
use pointsub.Memory.Keeping.{IsAccounted, Fine, Keeps, Keeps-then, Keeps-done}
use pointsub.Memory.Accounting.{
  release_emergency_memory-Keeps, reallocate_emergency_memory-Keeps, check_memory_pressure-Keeps,
  record_release-Keeps, add_listener-Keeps, remove_listener-Keeps, start-Keeps, stop-Keeps,
  record_allocation-Keeps,
}

-- The operations of the manager that change it; `check` is a tick of monitorMemoryPressure at some
-- share of memory in use.
pub data Operation : Type 0 where
  starting stopping releasing_emergency reallocating_emergency : Operation
  allocation release check adding removing : ℕ → Operation

unfoldable pub perform : Operation → MemoryManager → Outcome
perform starting = start
perform stopping = stop
perform releasing_emergency = release_emergency_memory
perform reallocating_emergency = reallocate_emergency_memory
perform (allocation size) = record_allocation size
perform (release size) = record_release size
perform (check used) = check_memory_pressure used
perform (adding listener) = add_listener listener
perform (removing listener) = remove_listener listener

unfoldable pub run : List Operation → MemoryManager → Outcome
run [] m = done m
run (o ∷ os) m = (perform o >> run os) m

perform-Keeps : (o : Operation) → Keeps (perform o)
unfolding perform
perform-Keeps starting = start-Keeps
perform-Keeps stopping = stop-Keeps
perform-Keeps releasing_emergency = release_emergency_memory-Keeps
perform-Keeps reallocating_emergency = reallocate_emergency_memory-Keeps
perform-Keeps (allocation size) = record_allocation-Keeps size
perform-Keeps (release size) = record_release-Keeps size
perform-Keeps (check used) = check_memory_pressure-Keeps used
perform-Keeps (adding listener) = add_listener-Keeps listener
perform-Keeps (removing listener) = remove_listener-Keeps listener

run-Keeps : (os : List Operation) → Keeps (run os)
unfolding run
run-Keeps [] = Keeps-done
run-Keeps (o ∷ os) = Keeps-then (perform o) (run os) (perform-Keeps o) (run-Keeps os)

new_memory_manager-IsAccounted : (c : MemoryManagerConfig) → IsAccounted (new_memory_manager c)
unfolding new_memory_manager
new_memory_manager-IsAccounted c = record {
  peak = omega arith;
  limit = ground arith;
  level = omega arith;
}

-- After every sequence of operations on a new manager that ends, the memory in use is within its
-- peak, and the peak is within the limit, if there is one.
pub run-IsAccounted :
    (c : MemoryManagerConfig) (os : List Operation) (m : MemoryManager)
    → run os (new_memory_manager c) ≡ done m
    → IsAccounted m
run-IsAccounted c os m ended =
    subst Fine ended (run-Keeps os (new_memory_manager c) (new_memory_manager-IsAccounted c))
