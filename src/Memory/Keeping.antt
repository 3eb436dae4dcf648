-- ===== src/Memory/Keeping.antt =====
-- memory_manager.go: what an operation of the manager keeps true, and rules for it.
use pointsub.Base.{◌≤◌, ◌≡◌, Bool, true, false, if◌then◌else◌, ◌⊎◌, inl, inr, Bool-cases}
use pointsub.Memory.{
  MemoryManager, Outcome, done, blocked, panics, ◌>>◌, when, emit, change, Event, lock, unlock,
}

-- The memory in use is within its peak, the peak is within the limit if there is one, and the
-- level is one of the three.
pub record IsAccounted (m : MemoryManager) : Type 0 where
  pub peak : m.stats.allocated_memory ≤ m.stats.peak_memory_usage
  pub limit :
      (m.config.memory_usage_limit ≡ 0) ⊎ (m.stats.peak_memory_usage ≤ m.config.memory_usage_limit)
  pub level : m.stats.memory_pressure_level ≤ 2

-- Where an operation ends, the accounts are kept.
abbrev pub Fine : Outcome → Type 0
Fine (done m) = IsAccounted m
Fine blocked = Unit {0}
Fine panics = Unit {0}

-- An operation that keeps the accounts.
abbrev pub Keeps : (MemoryManager → Outcome) → Type 0
Keeps f = (m : MemoryManager) → IsAccounted m → Fine (f m)

pub then_on :
    (o : Outcome) (g : MemoryManager → Outcome)
    → Keeps g
    → Fine o
    → Fine (elim o [ done m ↦ g m | blocked ↦ blocked | panics ↦ panics ])
then_on (done m) g keeps a = keeps m a
then_on blocked g keeps a = tt
then_on panics g keeps a = tt

pub Keeps-then : (f g : MemoryManager → Outcome) → Keeps f → Keeps g → Keeps (f >> g)
Keeps-then f g kf kg m a = then_on (f m) g kg (kf m a)

pub Keeps-if :
    (b : Bool) (f g : MemoryManager → Outcome) → Keeps f → Keeps g → Keeps (if b then f else g)
Keeps-if true f g kf kg = kf
Keeps-if false f g kf kg = kg

pub Keeps-when :
    (test : MemoryManager → Bool) (f : MemoryManager → Outcome) → Keeps f → Keeps (when test f)
Keeps-when test f keeps m a = elim (Bool-cases (test m)) [
  | inl e ↦ rw (e, if◌then◌else◌) (keeps m a)
  | inr e ↦ rw (e, if◌then◌else◌) a
]

pub Keeps-done : Keeps done
Keeps-done m a = a

pub Keeps-lock : Keeps lock
unfolding lock
Keeps-lock m a = elim (Bool-cases m.locked) [
  | inl e ↦ rw (e, if◌then◌else◌) tt
  | inr e ↦ rw (e, if◌then◌else◌) (record { peak = a.peak; limit = a.limit; level = a.level })
]

pub Keeps-unlock : Keeps unlock
unfolding unlock
Keeps-unlock m a = record { peak = a.peak; limit = a.limit; level = a.level }

pub Keeps-emit : (e : Event) → Keeps (emit e)
Keeps-emit e m a = record { peak = a.peak; limit = a.limit; level = a.level }

-- A change that leaves the statistics and the configuration alone.
pub Keeps-aside :
    (f : MemoryManager → MemoryManager)
    → ((m : MemoryManager) → ((f m).stats ≡ m.stats) × ((f m).config ≡ m.config))
    → Keeps (change f)
Keeps-aside f same m a =
    let (stats, config) = same m in
    record { peak = rw stats a.peak; limit = rw (stats, config) a.limit; level = rw stats a.level }

-- Between `lock` and `unlock`.
pub Keeps-locked : (f : MemoryManager → Outcome) → Keeps f → Keeps (lock >> f >> unlock)
Keeps-locked f keeps =
    Keeps-then (lock >> f) unlock (Keeps-then lock f Keeps-lock keeps) Keeps-unlock
