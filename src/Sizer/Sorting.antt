-- ===== src/Sizer/Sorting.antt =====
-- message_sizer.go: the order in which RegisterStrategy leaves the strategies.
use mathlib.Core.List.{Perm}
use text.Mathlib.Text.{◌==◌ as str_eq}
use pointsub.Base.{
  ℕ, ◌≤◌, ◌≡◌, refl, true, false, none, some, List, [], ◌∷◌, ◌++◌, if◌then◌else◌, length, arith,
}
use pointsub.Base.ExchangeSort.{Leads, IsOrdered, sort_from-IsOrdered, sort_from-Perm}
use pointsub.Sizer.{Strategy, follows, replace, register_strategy}

follows_asym : (s t : Strategy) → follows s t ≡ true → follows t s ≡ false
unfolding follows
follows_asym s t e = ground arith

follows_trans : (s t u : Strategy) → follows s t ≡ false → follows t u ≡ false → follows s u ≡ false
unfolding follows
follows_trans s t u e f = ground arith

-- No strategy of the list has a lower bound below `n`.
unfoldable pub AllFrom : ℕ → List Strategy → Type 0
AllFrom n [] = Unit {0}
AllFrom n (t ∷ ts) = (n ≤ t.low) × AllFrom n ts

-- The lower bounds do not fall.
unfoldable pub IsSorted : List Strategy → Type 0
IsSorted [] = Unit {0}
IsSorted (s ∷ ss) = AllFrom s.low ss × IsSorted ss

not_follows-le : (s t : Strategy) → follows s t ≡ false → s.low ≤ t.low
unfolding follows
not_follows-le s t e = ground arith

Leads-AllFrom : (s : Strategy) (ts : List Strategy) → Leads follows s ts → AllFrom s.low ts
unfolding Leads AllFrom
Leads-AllFrom s [] _ = tt
Leads-AllFrom s (t ∷ ts) (e, leads) = (not_follows-le s t e, Leads-AllFrom s ts leads)

IsOrdered-IsSorted :
    (strategies : List Strategy) → IsOrdered follows strategies → IsSorted strategies
unfolding IsOrdered IsSorted
IsOrdered-IsSorted [] _ = tt
IsOrdered-IsSorted (s ∷ ss) (leads, ordered) =
    (Leads-AllFrom s ss leads, IsOrdered-IsSorted ss ordered)

-- Registering a strategy whose name is new adds it and loses none, and leaves the strategies in the
-- order of their lower bounds.
pub register_strategy-IsSorted :
    (strategies : List Strategy) (s : Strategy)
    → replace s strategies ≡ none
    → IsSorted (register_strategy strategies s)
      × Perm (strategies ++ s ∷ []) (register_strategy strategies s)
unfolding register_strategy
register_strategy-IsSorted strategies s new =
    rw (new, register_strategy)
      (
        IsOrdered-IsSorted _ (
            sort_from-IsOrdered follows follows_asym follows_trans (length (strategies ++ s ∷ []))
              (strategies ++ s ∷ []) (omega arith)),
        sort_from-Perm follows (length (strategies ++ s ∷ [])) (strategies ++ s ∷ []),
      )

replace-append :
    (before after : List Strategy) (old s : Strategy)
    → replace s before ≡ none
    → str_eq old.name s.name ≡ true
    → replace s (before ++ old ∷ after) ≡ some (before ++ s ∷ after)
unfolding replace
replace-append [] after old s _ same = rw (same, if◌then◌else◌) refl
replace-append (t ∷ ts) after old s missing same =
    ground (arith, replace-append ts after old s _ same)

-- Registering a strategy under a name that is there replaces the first one of that name, in its
-- place, whatever the size ranges are.
pub register_strategy-replace :
    (before after : List Strategy) (old s : Strategy)
    → replace s before ≡ none
    → str_eq old.name s.name ≡ true
    → register_strategy (before ++ old ∷ after) s ≡ before ++ s ∷ after
unfolding register_strategy
register_strategy-replace before after old s missing same =
    rw (replace-append before after old s missing same, register_strategy) refl
