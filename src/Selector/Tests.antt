-- ===== src/Selector/Tests.antt =====
-- Runs of the strategy selector, and its theorems at concrete inputs.
use mathlib.Core.List.{Mem, mem-cons}
use mathlib.Core.Logic.Or
use pointsub.Base.{
  ℕ, ◌+◌, ◌≤◌, ◌≡◌, ◌≢◌, refl, true, false, Option, none, some, [], ◌∷◌, length, arith, inl,
}
use pointsub.Base.Table.{find, store, same_text}
use pointsub.Base.ExchangeSort.{sort_from, pass, exchange}
use pointsub.Sizer.{
  tiny_message_strategy, small_message_strategy, medium_message_strategy, large_message_strategy,
  huge_message_strategy, optimize_params,
}
use pointsub.Selector.{
  TransportAttributes, StrategySelection, Selector, new_strategy_selector, size_score,
  reliability_score, realtime_score, network_score, weigh, average, evaluate_strategy,
  position_score, distance_score, by_name,
}
use pointsub.Selector.Choosing.{
  Clock, rune, cache_key, scores_of, adjust_params, select_best_strategy, select_fresh,
  select_ranked, choose_ranked, choose_by_size, remember, limit_cache,
}
use pointsub.Selector.Ranking.{select_best_strategy-greatest}
use pointsub.Selector.Caching.{IsFresh, select_best_strategy-IsFresh}
use pointsub.Selector.Statistics.{IsCounted, total_usage, select_best_strategy-grows}
use pointsub.Selector.Scores.{evaluate_strategy-bounds}
use pointsub.Selector.Mismatch.{select_best_strategy-never_tiny}

abbrev five : Selector
five = record new_strategy_selector {
  strategies =
      tiny_message_strategy ∷ small_message_strategy ∷ medium_message_strategy
      ∷ large_message_strategy ∷ huge_message_strategy ∷ [];
}

abbrev plain : TransportAttributes
plain = record {
  size = 100;
  require_reliability = true;
  require_realtime = false;
  require_efficiency = false;
  priority = 5;
  can_delay = false;
  network_condition = 5;
  enable_flow_control = false;
  enable_compression = false;
  mode = "stream";
}

abbrev clock : Clock
clock = record { start = 10; selected = 12; scored = 13; cleaned = 14 }

or_else {ℓ} : {A : Type ℓ} → A → Option A → A
or_else a none = a
or_else a (some b) = b

-- The huge strategy is selected for 100 bytes on a good network.
chosen : StrategySelection × Selector
unfolding or_else
chosen = or_else (choose_by_size [] plain, five) (select_best_strategy clock plain five)

small_goes_huge : chosen.0.strategy ≡ huge_message_strategy
unfolding chosen select_best_strategy select_fresh find new_strategy_selector scores_of
    evaluate_strategy weigh average size_score reliability_score realtime_score network_score
    position_score distance_score by_name sort_from pass exchange select_ranked choose_ranked
small_goes_huge = refl

chosen_lem : select_best_strategy clock plain five ≡ some chosen
unfolding chosen select_best_strategy select_fresh find new_strategy_selector scores_of
    evaluate_strategy weigh average size_score reliability_score realtime_score network_score
    position_score distance_score by_name sort_from pass exchange
chosen_lem = refl

no_selection : find (cache_key plain) five.selection_cache ≡ none
unfolding find new_strategy_selector
no_selection = refl

huge_there : Mem huge_message_strategy five.strategies
huge_there = mem-cons.1 (
    Or.inr
      (mem-cons.1 (Or.inr (mem-cons.1 (Or.inr (mem-cons.1 (Or.inr (mem-cons.1 (Or.inl refl)))))))))

huge_score : evaluate_strategy five.scorers huge_message_strategy plain ≡ some 81
unfolding new_strategy_selector evaluate_strategy weigh average size_score reliability_score
    realtime_score network_score position_score distance_score by_name
huge_score = refl

select_best_strategy-greatest_example :
    Mem chosen.0.strategy five.strategies
    × (evaluate_strategy five.scorers chosen.0.strategy plain ≡ some chosen.0.score)
    × (81 ≤ chosen.0.score)
select_best_strategy-greatest_example =
    select_best_strategy-greatest clock plain five chosen.1 chosen.0 huge_message_strategy 81
      no_selection chosen_lem huge_there huge_score

nothing_cached : IsFresh five.selection_cache
unfolding IsFresh new_strategy_selector
nothing_cached = tt

select_best_strategy-IsFresh_example :
    (chosen.0.params ≡ adjust_params plain (optimize_params plain.size))
    × IsFresh chosen.1.selection_cache
select_best_strategy-IsFresh_example =
    select_best_strategy-IsFresh clock plain five chosen.1 chosen.0 tiny_message_strategy
      (small_message_strategy ∷ medium_message_strategy ∷ large_message_strategy
        ∷ huge_message_strategy ∷ [])
      (omega arith) nothing_cached refl chosen_lem

none-IsCounted : IsCounted five.stats
unfolding total_usage new_strategy_selector
none-IsCounted = (refl, omega arith)

in_time : clock.cleaned ≤ clock.selected + five.cache_ttl
unfolding new_strategy_selector
in_time = omega arith

select_best_strategy-grows_example :
    length chosen.1.selection_cache ≡ length five.selection_cache + 1
select_best_strategy-grows_example =
    select_best_strategy-grows clock plain five chosen.1 chosen.0 no_selection in_time chosen_lem

chosen_cached : find (cache_key plain) chosen.1.selection_cache ≡ some chosen.0
unfolding chosen select_best_strategy select_fresh find new_strategy_selector scores_of
    evaluate_strategy weigh average size_score reliability_score realtime_score network_score
    position_score distance_score by_name sort_from pass exchange select_ranked choose_ranked
    remember limit_cache store same_text cache_key rune
chosen_cached = refl

evaluate_strategy-bounds_example :
    (n : ℕ) × (evaluate_strategy new_strategy_selector.scorers small_message_strategy plain
      ≡ some n)
    × (n ≤ 100)
evaluate_strategy-bounds_example =
    evaluate_strategy-bounds small_message_strategy plain (inl (omega arith, omega arith))

select_best_strategy-never_tiny_example : chosen.0.strategy ≢ tiny_message_strategy
select_best_strategy-never_tiny_example =
    select_best_strategy-never_tiny clock plain five chosen.1 chosen.0 (omega arith) refl refl refl
      huge_there no_selection chosen_lem
