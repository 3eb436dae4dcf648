-- ===== src/Selector/Mismatch.antt =====
-- strategy_selector.go: the strategies that small messages get on a good network.
use mathlib.Core.List.{Mem}
use pointsub.Base.{
  ℕ, ◌+◌, ◌-◌, ◌*◌, ◌/◌, ◌≤◌, ◌<◌, ◌≡◌, ◌≢◌, refl, sym, ap, ◌∙◌, false, Option, none, some, arith,
}
use pointsub.Base.Table.{find}
use pointsub.Sizer.{tiny_message_strategy, huge_message_strategy}
use pointsub.Selector.{
  TransportAttributes, StrategySelection, StrategyScore, Selector, position_score, distance_score,
  size_score, reliability_score, realtime_score, network_score, by_name, evaluate_strategy,
  new_strategy_selector,
}
use pointsub.Selector.Choosing.{Clock, cache_key, select_best_strategy}
use pointsub.Selector.Ranking.{select_best_strategy-greatest}
use pointsub.Selector.Scores.{evaluate_strategy-default}

-- A scorer that answers with a score between two bounds.
abbrev Between : ℕ → ℕ → Option StrategyScore → Type 0
Between lo hi given =
    (score : StrategyScore) × (given ≡ some score) × (lo ≤ score.score) × (score.score ≤ hi)

module _ (attrs : TransportAttributes) (small : attrs.size < 460) where
  size_score-tiny : Between 0 98 (size_score tiny_message_strategy attrs)
  unfolding size_score position_score
  size_score-tiny = (
    record {
      strategy = tiny_message_strategy;
      score = position_score 0 1024 attrs.size;
      reason = "大小在策略范围内";
    },
    ground arith,
    omega arith,
    ground arith,
  )

  size_score-huge : Between 79 80 (size_score huge_message_strategy attrs)
  unfolding size_score distance_score
  size_score-huge = (
    record {
      strategy = huge_message_strategy;
      score = 40 + (1048576 - attrs.size) * 40 / 1048575;
      reason = "大小超出策略范围";
    },
    ground arith,
    omega arith,
    omega arith,
  )

module _ (attrs : TransportAttributes) where
  reliability_score-tiny : Between 40 60 (reliability_score tiny_message_strategy attrs)
  unfolding reliability_score by_name
  reliability_score-tiny = (_, refl, ground arith, ground arith)

  reliability_score-huge : Between 95 100 (reliability_score huge_message_strategy attrs)
  unfolding reliability_score by_name
  reliability_score-huge = (_, refl, ground arith, ground arith)

  network_score-tiny :
      attrs.network_condition ≡ 5 → Between 60 60 (network_score tiny_message_strategy attrs)
  unfolding network_score by_name
  network_score-tiny good = (_, refl, ground arith, ground arith)

  network_score-huge :
      attrs.network_condition ≡ 5 → Between 95 95 (network_score huge_message_strategy attrs)
  unfolding network_score by_name
  network_score-huge good = (_, refl, ground arith, ground arith)

  -- A tolerated delay raises the score of the slow strategy by 10, that of the quick one by 5.
  realtime_score-tiny_huge :
      attrs.require_realtime ≡ false
      → (x : StrategyScore) × (y : StrategyScore) × (realtime_score tiny_message_strategy attrs
          ≡ some x)
        × (realtime_score huge_message_strategy attrs ≡ some y)
        × (x.score ≤ y.score + 45)
  unfolding realtime_score by_name
  realtime_score-tiny_huge calm = (_, _, refl, refl, ground arith)

  -- On the best network, and unless realtime is demanded, the strategy for the largest messages is
  -- evaluated higher than the one for the smallest at every size below 460.
  pub evaluate_strategy-tiny_huge :
      attrs.size < 460
      → attrs.network_condition ≡ 5
      → attrs.require_realtime ≡ false
      → (m : ℕ) × (n : ℕ) × (evaluate_strategy new_strategy_selector.scorers tiny_message_strategy
            attrs
          ≡ some m)
        × (evaluate_strategy new_strategy_selector.scorers huge_message_strategy attrs ≡ some n)
        × (m < n)
  evaluate_strategy-tiny_huge small good calm =
      let (a, ea, _, la) = size_score-tiny attrs small in
      let (a', ea', ga, _) = size_score-huge attrs small in
      let (b, eb, _, lb) = reliability_score-tiny in
      let (b', eb', gb, _) = reliability_score-huge in
      let (c, c', ec, ec', lc) = realtime_score-tiny_huge calm in
      let (d, ed, _, ld) = network_score-tiny good in
      let (d', ed', gd, _) = network_score-huge good in
      (
        _,
        _,
        evaluate_strategy-default tiny_message_strategy attrs a b c d ea eb ec ed,
        evaluate_strategy-default huge_message_strategy attrs a' b' c' d' ea' eb' ec' ed',
        omega arith,
      )

-- A selector with the default scorers that has the strategy for the largest messages never takes
-- the one for the smallest for a size below 460 on the best network, unless realtime is demanded or
-- the cache has a selection.
pub select_best_strategy-never_tiny :
    (clock : Clock) (attrs : TransportAttributes) (s s' : Selector) (selection : StrategySelection)
    → attrs.size < 460
    → attrs.network_condition ≡ 5
    → attrs.require_realtime ≡ false
    → s.scorers ≡ new_strategy_selector.scorers
    → Mem huge_message_strategy s.strategies
    → find (cache_key attrs) s.selection_cache ≡ none
    → select_best_strategy clock attrs s ≡ some (selection, s')
    → selection.strategy ≢ tiny_message_strategy
select_best_strategy-never_tiny clock attrs s s' selection small good calm scorers there missing
      result is_tiny =
    let (m, n, tiny, huge, lt) = evaluate_strategy-tiny_huge attrs small good calm in
    let (_, value, le) =
      select_best_strategy-greatest clock attrs s s' selection huge_message_strategy n missing
        result there (ap (λ l. evaluate_strategy l huge_message_strategy attrs) scorers ∙ huge) in
    let same : some selection.score ≡ some m =
      (sym value
        ∙ ap (λ l. evaluate_strategy l selection.strategy attrs) scorers
        ∙ ap (λ t. evaluate_strategy new_strategy_selector.scorers t attrs) is_tiny
        ∙ tiny) in
    ground arith
