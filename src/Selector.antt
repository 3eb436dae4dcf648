-- ===== src/Selector.antt =====
-- strategy_selector.go: the four scorers, and defaultStrategySelector, which ranks the registered
-- strategies by their weighted scores and remembers what it chose. Sizes, priorities, conditions
-- and weights are not negative and `size * 40` fits an int; times are milliseconds.
pub mod Choosing
pub mod Ranking
pub mod Caching
pub mod Statistics
pub mod Scores
pub mod Mismatch
mod Tests
use Prim.Native.String.{String}
use text.Mathlib.Text.{◌==◌ as str_eq}
use pointsub.Base.{
  ℕ, zero, suc, ◌+◌, ◌-◌, ◌*◌, ◌/◌, Bool, true, false, ◌&&◌, ◌||◌, not, Option, none, some, List,
  [], ◌∷◌, ◌++◌, ltb, leb, ◌==◌, if◌then◌else◌, length, take, map,
}
use pointsub.Base.Text.{Text, codes}
use pointsub.Base.Dict.{Dict, lookup, insert}
use pointsub.Base.Table.{Table, find, store, same_text}
use pointsub.Sizer.{
  Strategy, TransportParams, select_strategy, optimize_params, new_default_message_sizer,
}

-- `TransportAttributes`, but for the Metadata that nothing reads.
pub record TransportAttributes : Type 0 where
  pub size : ℕ
  pub require_reliability : Bool
  pub require_realtime : Bool
  pub require_efficiency : Bool
  pub priority : ℕ
  pub can_delay : Bool
  pub network_condition : ℕ
  pub enable_flow_control : Bool
  pub enable_compression : Bool
  pub mode : String

pub record StrategySelection : Type 0 where
  pub strategy : Strategy
  pub params : TransportParams
  pub reason : String
  pub score : ℕ
  pub alternatives : List Strategy

pub record StrategyScore : Type 0 where
  pub strategy : Strategy
  pub score : ℕ
  pub reason : String

-- A `StrategyScorer`: its Name, Weight and ScoreStrategy, `none` where ScoreStrategy panics.
pub record StrategyScorer : Type 0 where
  pub name : String
  pub weight : ℕ
  pub score_strategy : Strategy → TransportAttributes → Option StrategyScore

-- `absInt (a - b)`.
abbrev distance : ℕ → ℕ → ℕ
distance a b = if ltb a b then b - a else a - b

-- The score of a size inside the range.
unfoldable pub position_score : ℕ → ℕ → ℕ → ℕ
position_score low high size =
    if high == 0
    then (if leb (low * 2) size then 100 else 80 + (size - low) * 20 / low)
    else let range_size = high - low in
      if range_size == 0
      then 100
      else let score = 100 - distance size (low + range_size / 2) * 40 / range_size in
        if ltb score 60 then 60 else score

-- `40 - (distance * 40 / (max - min + 1))` with the floor of 0: the divisor is a signed int, a
-- negative one makes the quotient negative, and a zero one panics.
unfoldable pub distance_score : ℕ → ℕ → ℕ → Option ℕ
distance_score low high away =
    if ltb low (high + 1)
    then some (40 - away * 40 / (high + 1 - low))
    else if low == high + 1
    then none
    else some (40 + away * 40 / (low - high - 1))

abbrev pub in_range : Strategy → ℕ → Bool
in_range s size = leb s.low size && (s.high == 0 || ltb size s.high)

-- `sizeBasedScorer.ScoreStrategy`.
unfoldable pub size_score : Strategy → TransportAttributes → Option StrategyScore
unfolding position_score distance_score
size_score s attrs =
    if in_range s attrs.size
    then some (record {
      strategy = s;
      score = position_score s.low s.high attrs.size;
      reason = "大小在策略范围内";
    })
    else elim (distance_score s.low s.high
        (if ltb attrs.size s.low then s.low - attrs.size else attrs.size - s.high)) [
          | none ↦ none
          | some score ↦ some (record { strategy = s; score = score; reason = "大小超出策略范围" })
        ]

-- The switches on the strategy's name.
unfoldable pub by_name : ℕ → ℕ → ℕ → ℕ → ℕ → ℕ → String → ℕ
by_name tiny small medium large huge other name =
    if str_eq name "TinyMessageStrategy"
    then tiny
    else if str_eq name "SmallMessageStrategy"
    then small
    else if str_eq name "MediumMessageStrategy"
    then medium
    else if str_eq name "LargeMessageStrategy"
    then large
    else if str_eq name "HugeMessageStrategy"
    then huge
    else other

-- A demanded quality lowers the scores below 80 by 20 and raises the others by 10, up to 100.
abbrev demand : Bool → ℕ → ℕ
demand wanted score =
    if wanted
    then (if ltb score 80 then score - 20 else if ltb 100 (score + 10) then 100 else score + 10)
    else score

-- `reliabilityScorer.ScoreStrategy`.
unfoldable pub reliability_score : Strategy → TransportAttributes → Option StrategyScore
unfolding by_name
reliability_score s attrs = some (record {
  strategy = s;
  score = demand attrs.require_reliability (by_name 60 70 85 90 95 75 s.name);
  reason = "可靠性评分";
})

-- `realtimeScorer.ScoreStrategy`.
unfoldable pub realtime_score : Strategy → TransportAttributes → Option StrategyScore
unfolding by_name
realtime_score s attrs =
    let score = demand attrs.require_realtime (by_name 95 90 80 70 50 75 s.name) in
    some (record {
      strategy = s;
      score = if attrs.can_delay then (if ltb 100 (score + 10) then 100 else score + 10) else score;
      reason = "实时性评分";
    })

-- `networkConditionScorer.ScoreStrategy`.
unfoldable pub network_score : Strategy → TransportAttributes → Option StrategyScore
unfolding by_name
network_score s attrs = some (record {
  strategy = s;
  score =
      if leb attrs.network_condition 1
      then by_name 90 90 70 40 40 75 s.name
      else if leb attrs.network_condition 3
      then by_name 70 85 85 75 60 75 s.name
      else if leb attrs.network_condition 5
      then by_name 60 70 85 95 95 75 s.name
      else 75;
  reason = "网络条件评分";
})

abbrev pub size_based_scorer : StrategyScorer
size_based_scorer = record { name = "SizeBasedScorer"; weight = 5; score_strategy = size_score }

abbrev pub reliability_scorer : StrategyScorer
reliability_scorer = record {
  name = "ReliabilityScorer";
  weight = 3;
  score_strategy = reliability_score;
}

abbrev pub realtime_scorer : StrategyScorer
realtime_scorer = record { name = "RealtimeScorer"; weight = 3; score_strategy = realtime_score }

abbrev pub network_condition_scorer : StrategyScorer
network_condition_scorer = record {
  name = "NetworkConditionScorer";
  weight = 4;
  score_strategy = network_score;
}

-- `stats`.
pub record SelectorStats : Type 0 where
  pub total_selections : ℕ
  pub cache_hits : ℕ
  pub strategy_usage : Dict ℕ
  pub last_selection_at : ℕ
  pub average_score_time : ℕ

-- `defaultStrategySelector`; its lock is held through each operation.
pub record Selector : Type 0 where
  pub strategies : List Strategy
  pub scorers : List StrategyScorer
  pub sizer : List Strategy
  pub selection_cache : Table StrategySelection
  pub stats : SelectorStats
  pub cache_ttl : ℕ

abbrev pub default_cache_ttl : ℕ
default_cache_ttl = 300000

abbrev pub default_cache_size : ℕ
default_cache_size = 100

abbrev pub default_strategy_select_limit : ℕ
default_strategy_select_limit = 3

-- The loop of RegisterScorer.
unfoldable pub put_scorer : StrategyScorer → List StrategyScorer → List StrategyScorer
put_scorer scorer [] = scorer ∷ []
put_scorer scorer (there ∷ rest) =
    let after = put_scorer scorer rest in
    if str_eq there.name scorer.name then scorer ∷ rest else there ∷ after

-- `RegisterScorer`.
unfoldable pub register_scorer : StrategyScorer → Selector → Selector
register_scorer scorer s = record s { scorers = put_scorer scorer s.scorers }

-- The loop of RegisterStrategy.
unfoldable pub put_strategy : Strategy → List Strategy → List Strategy
put_strategy strategy [] = strategy ∷ []
put_strategy strategy (there ∷ rest) =
    let after = put_strategy strategy rest in
    if str_eq there.name strategy.name then strategy ∷ rest else there ∷ after

-- `RegisterStrategy`.
unfoldable pub register_strategy : Strategy → Selector → Selector
register_strategy strategy s = record s { strategies = put_strategy strategy s.strategies }

-- `NewStrategySelector`.
unfoldable pub new_strategy_selector : Selector
unfolding register_scorer put_scorer
new_strategy_selector = register_scorer network_condition_scorer (
    register_scorer realtime_scorer (
      register_scorer reliability_scorer (
        register_scorer size_based_scorer (record {
          strategies = [];
          scorers = [];
          sizer = new_default_message_sizer;
          selection_cache = [];
          stats = record {
            total_selections = 0;
            cache_hits = 0;
            strategy_usage = [];
            last_selection_at = 0;
            average_score_time = 0;
          };
          cache_ttl = default_cache_ttl;
        }))))

-- The loop of EvaluateStrategy over the scorers: the total score and the total weight.
unfoldable pub weigh : List StrategyScorer → Strategy → TransportAttributes → Option (ℕ × ℕ)
weigh [] strategy attrs = some (0, 0)
weigh (scorer ∷ scorers) strategy attrs = elim (scorer.score_strategy strategy attrs) [
  | none ↦ none
  | some given ↦ elim (weigh scorers strategy attrs) [
    | none ↦ none
    | some (score, weight) ↦ some (given.score * scorer.weight + score, scorer.weight + weight)
  ]
]

-- What EvaluateStrategy makes of the totals.
unfoldable pub average : Strategy → ℕ → ℕ × ℕ → ℕ
average strategy size (score, weight) =
    if weight == 0 then (if in_range strategy size then 80 else 30) else score / weight

-- `EvaluateStrategy` of a strategy that is not nil.
unfoldable pub evaluate_strategy : List StrategyScorer → Strategy → TransportAttributes → Option ℕ
evaluate_strategy scorers strategy attrs = elim (weigh scorers strategy attrs) [
  | none ↦ none
  | some totals ↦ some (average strategy attrs.size totals)
]
