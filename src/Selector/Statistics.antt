-- ===== src/Selector/Statistics.antt =====
-- strategy_selector.go: the statistics of SelectBestStrategy, and how its cache grows.
use Prim.Native.String.{String}
use pointsub.Base.{
  ℕ, ◌+◌, ◌≤◌, ◌≡◌, refl, sym, ap, ◌∙◌, none, some, List, [], ◌∷◌, length, arith, inl, inr,
  Option-cases,
}
use pointsub.Base.Dict.{Dict, lookup, insert}
use pointsub.Base.Table.{find, length-store}
use pointsub.Base.ExchangeSort.{sort_from}
use pointsub.Sizer.{Strategy}
use pointsub.Selector.{
  TransportAttributes, StrategySelection, StrategyScore, SelectorStats, Selector, register_strategy,
}
use pointsub.Selector.Choosing.{
  Clock, cache_key, select_ranked, select_fresh, select_best_strategy, remember, limit_cache,
  cleanup_cache, count_hit, count_selection, count_usage, usage_of, scores_of, worse, choose_ranked,
}

unfoldable pub total_usage : Dict ℕ → ℕ
total_usage [] = 0
total_usage ((name, n) ∷ usage) = n + total_usage usage

total_usage-insert :
    (name : String) (k : ℕ) (usage : Dict ℕ)
    → total_usage (insert name k usage) + usage_of name usage ≡ total_usage usage + k
unfolding total_usage usage_of insert lookup
total_usage-insert name k [] = omega arith
total_usage-insert name k ((there, n) ∷ usage) = ground (arith, total_usage-insert name k usage)

total_usage-count_usage :
    (name : String) (usage : Dict ℕ) → total_usage (count_usage name usage) ≡ total_usage usage + 1
unfolding count_usage
total_usage-count_usage name usage =
    omega (arith, total_usage-insert name (usage_of name usage + 1) usage)

-- The counts by strategy add up to the selections, of which the cache hits are some.
abbrev pub IsCounted : SelectorStats → Type 0
IsCounted stats =
    (total_usage stats.strategy_usage ≡ stats.total_selections)
    × (stats.cache_hits ≤ stats.total_selections)

count_hit-IsCounted :
    (clock : Clock) (name : String) (stats : SelectorStats)
    → IsCounted stats
    → IsCounted (count_hit clock name stats)
      × ((count_hit clock name stats).total_selections ≡ stats.total_selections + 1)
unfolding count_hit
count_hit-IsCounted clock name stats counted =
    omega (arith, total_usage-count_usage name stats.strategy_usage)

count_selection-IsCounted :
    (clock : Clock) (name : String) (stats : SelectorStats)
    → IsCounted stats
    → IsCounted (count_selection clock name stats)
      × ((count_selection clock name stats).total_selections ≡ stats.total_selections + 1)
unfolding count_selection
count_selection-IsCounted clock name stats counted =
    omega (arith, total_usage-count_usage name stats.strategy_usage)

limit_cache-stats : (clock : Clock) (s : Selector) → (limit_cache clock s).stats ≡ s.stats
unfolding limit_cache cleanup_cache
limit_cache-stats clock s = ground arith

-- A computed selection counts once, whichever way it is made.
select_ranked-stats :
    (clock : Clock) (attrs : TransportAttributes) (ranked : List StrategyScore) (s : Selector)
    → (select_ranked clock attrs ranked s).1.stats
      ≡ count_selection clock (select_ranked clock attrs ranked s).0.strategy.name s.stats
unfolding select_ranked remember
select_ranked-stats clock attrs [] s = refl
select_ranked-stats clock attrs (best ∷ others) s = limit_cache-stats clock _

module _ (clock : Clock) (attrs : TransportAttributes) (s s' : Selector)
    (selection : StrategySelection) where
  select_fresh-stats :
      select_fresh clock attrs s ≡ some (selection, s')
      → s'.stats ≡ count_selection clock selection.strategy.name s.stats
  unfolding select_fresh
  select_fresh-stats result = elim (Option-cases (scores_of s.scorers s.strategies attrs)) [
    | inl panics ↦ absurd (ground arith)
    | inr (scores, computed) ↦
        let ranked = sort_from worse (length scores) scores in
        let p : select_ranked clock attrs ranked s ≡ (selection, s') = ground arith in
        ap (λ r. r.1.stats) (sym p)
        ∙ select_ranked-stats clock attrs ranked s
        ∙ ap (λ r. count_selection clock r.0.strategy.name s.stats) p
  ]

  -- Each selection is counted once in the total and once under its strategy, so the counts by
  -- strategy keep adding up to the total, and the cache hits stay within it.
  pub select_best_strategy-IsCounted :
      IsCounted s.stats
      → select_best_strategy clock attrs s ≡ some (selection, s')
      → IsCounted s'.stats × (s'.stats.total_selections ≡ s.stats.total_selections + 1)
  unfolding select_best_strategy
  select_best_strategy-IsCounted counted result =
      elim (Option-cases (find (cache_key attrs) s.selection_cache)) [
        | inl missing ↦
            let made = select_fresh-stats (ground arith) in
            rw made (count_selection-IsCounted clock selection.strategy.name s.stats counted)
        | inr (found, hit) ↦
            let same : found ≡ selection = ground arith in
            let made : s'.stats ≡ count_hit clock selection.strategy.name s.stats = ground arith in
            rw made (count_hit-IsCounted clock selection.strategy.name s.stats counted)
      ]

  choose-grows :
      (ranked : List StrategyScore)
      → find (cache_key attrs) s.selection_cache ≡ none
      → clock.cleaned ≤ clock.selected + s.cache_ttl
      → select_ranked clock attrs ranked s ≡ (selection, s')
      → length s'.selection_cache ≡ length s.selection_cache + 1
  unfolding select_ranked remember limit_cache cleanup_cache count_selection
  choose-grows [] missing soon result =
      ap (λ r. length r.1.selection_cache) (sym result)
      ∙ length-store (cache_key attrs) _ s.selection_cache missing
  choose-grows (best ∷ others) missing soon result =
      ap (λ r. length r.1.selection_cache) (sym result)
      ∙ ground (arith)
      ∙ length-store (cache_key attrs) (choose_ranked attrs best others) s.selection_cache missing

  -- A selection that the cache lacks makes the cache one entry longer, whatever its length, unless
  -- more than the lifetime of the cache passes between two readings of the clock in the one call.
  pub select_best_strategy-grows :
      find (cache_key attrs) s.selection_cache ≡ none
      → clock.cleaned ≤ clock.selected + s.cache_ttl
      → select_best_strategy clock attrs s ≡ some (selection, s')
      → length s'.selection_cache ≡ length s.selection_cache + 1
  unfolding select_best_strategy select_fresh
  select_best_strategy-grows missing soon result =
      elim (Option-cases (scores_of s.scorers s.strategies attrs)) [
        | inl panics ↦ absurd (ground arith)
        | inr (scores, computed) ↦
            choose-grows (sort_from worse (length scores) scores) missing soon (ground arith)
      ]

-- A selection from the cache is the same after a strategy has been registered, the very strategy it
-- names included.
pub select_best_strategy-register_strategy :
    (clock : Clock) (attrs : TransportAttributes) (s : Selector) (selection : StrategySelection)
    (t : Strategy)
    → find (cache_key attrs) s.selection_cache ≡ some selection
    → (s' : Selector) × (select_best_strategy clock attrs (register_strategy t s)
        ≡ some (selection, s'))
unfolding select_best_strategy register_strategy
select_best_strategy-register_strategy clock attrs s selection t hit = (
  record (register_strategy t s) { stats = count_hit clock selection.strategy.name s.stats },
  rw (hit, select_best_strategy) refl,
)
