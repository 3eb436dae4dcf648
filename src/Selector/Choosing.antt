-- ===== src/Selector/Choosing.antt =====
-- strategy_selector.go: cacheKey, SelectBestStrategy and cleanupCache.
use Prim.Native.String.{String}
use text.Mathlib.Text.{◌==◌ as str_eq}
use pointsub.Base.{
  ℕ, ◌+◌, ◌-◌, ◌/◌, ◌%◌, Bool, true, Option, none, some, List, [], ◌∷◌, ltb, if◌then◌else◌, length,
  take, map,
}
use pointsub.Base.Text.{Text, codes}
use pointsub.Base.Dict.{Dict, lookup, insert}
use pointsub.Base.Table.{find, store}
use pointsub.Base.ExchangeSort.{sort_from}
use pointsub.Sizer.{Strategy, TransportParams, select_strategy, optimize_params}
use pointsub.Selector.{
  TransportAttributes, StrategySelection, StrategyScore, StrategyScorer, SelectorStats, Selector,
  evaluate_strategy, default_cache_size, default_strategy_select_limit,
}

-- The code point of `string(rune(n))`: an int32, and U+FFFD where that is no code point.
unfoldable pub rune : ℕ → ℕ
rune n =
    let r = n % 4294967296 in
    if ltb r 55296 then r else if ltb r 57344 then 65533 else if ltb r 1114112 then r else 65533

abbrev pub digit : Bool → ℕ
digit b = if b then b'1' else b'0'

-- `cacheKey`.
unfoldable pub cache_key : TransportAttributes → Text
cache_key attrs =
    b's'
    ∷ b':'
    ∷ rune (attrs.size / 1024)
    ∷ b'_'
    ∷ b'r'
    ∷ b':'
    ∷ digit attrs.require_reliability
    ∷ b'_'
    ∷ b't'
    ∷ b':'
    ∷ digit attrs.require_realtime
    ∷ b'_'
    ∷ b'e'
    ∷ b':'
    ∷ digit attrs.require_efficiency
    ∷ b'_'
    ∷ b'p'
    ∷ b':'
    ∷ rune (attrs.priority / 2)
    ∷ b'_'
    ∷ b'n'
    ∷ b':'
    ∷ rune attrs.network_condition
    ∷ b'_'
    ∷ b'c'
    ∷ b':'
    ∷ digit attrs.enable_compression
    ∷ b'_'
    ∷ b'f'
    ∷ b':'
    ∷ digit attrs.enable_flow_control
    ∷ b'_'
    ∷ b'm'
    ∷ b':'
    ∷ codes attrs.mode

-- The readings of `time.Now` in one call: at its start, where the statistics are written, where
-- the duration is taken, and in cleanupCache.
pub record Clock : Type 0 where
  pub start : ℕ
  pub selected : ℕ
  pub scored : ℕ
  pub cleaned : ℕ

-- The scores of the registered strategies, in their order.
unfoldable pub scores_of :
    List StrategyScorer → List Strategy → TransportAttributes → Option (List StrategyScore)
scores_of scorers [] attrs = some []
scores_of scorers (strategy ∷ rest) attrs = elim (evaluate_strategy scorers strategy attrs) [
  | none ↦ none
  | some score ↦ elim (scores_of scorers rest attrs) [
    | none ↦ none
    | some others ↦ some (record { strategy = strategy; score = score; reason = "综合评分" } ∷ others)
  ]
]

abbrev pub worse : StrategyScore → StrategyScore → Bool
worse a b = ltb a.score b.score

-- The adjustments of the parameters to the attributes.
unfoldable pub adjust_params : TransportAttributes → TransportParams → TransportParams
adjust_params attrs p =
    let reliable =
      if attrs.require_reliability
      then record p { enable_checksum = true; max_retries = 5 }
      else p in
    let realtime =
      if attrs.require_realtime
      then record reliable { no_block_delay = true; read_timeout = 10000; write_timeout = 10000 }
      else reliable in
    if str_eq attrs.mode "stream" then record realtime { use_chunking = true } else realtime

unfoldable pub usage_of : String → Dict ℕ → ℕ
usage_of name usage = elim (lookup name usage) [ none ↦ 0 | some n ↦ n ]

-- `strategyUsage[name]++`.
unfoldable pub count_usage : String → Dict ℕ → Dict ℕ
unfolding usage_of
count_usage name usage = insert name (usage_of name usage + 1) usage

-- The statistics of a selection from the cache.
unfoldable pub count_hit : Clock → String → SelectorStats → SelectorStats
count_hit clock name stats = record stats {
  total_selections = stats.total_selections + 1;
  cache_hits = stats.cache_hits + 1;
  last_selection_at = clock.selected;
  strategy_usage = count_usage name stats.strategy_usage;
}

-- The statistics of a selection that was computed.
unfoldable pub count_selection : Clock → String → SelectorStats → SelectorStats
count_selection clock name stats = record stats {
  total_selections = stats.total_selections + 1;
  last_selection_at = clock.selected;
  strategy_usage = count_usage name stats.strategy_usage;
  average_score_time = clock.scored - clock.start;
}

-- `cleanupCache`: the loop deletes each key by one and the same test.
unfoldable pub cleanup_cache : Clock → Selector → Selector
cleanup_cache clock s =
    if ltb s.cache_ttl (clock.cleaned - s.stats.last_selection_at)
    then record s { selection_cache = [] }
    else s

-- The selection from the ranked scores.
unfoldable pub choose_ranked :
    TransportAttributes → StrategyScore → List StrategyScore → StrategySelection
choose_ranked attrs best others = record {
  strategy = best.strategy;
  params = adjust_params attrs (optimize_params attrs.size);
  reason = "综合评分最高";
  score = best.score;
  alternatives = map (λ s. s.strategy) (take (default_strategy_select_limit - 1) others);
}

-- The selection where no strategy is registered.
unfoldable pub choose_by_size : List Strategy → TransportAttributes → StrategySelection
choose_by_size sizer attrs = record {
  strategy = select_strategy sizer attrs.size;
  params = optimize_params attrs.size;
  reason = "基于消息大小自动选择";
  score = 75;
  alternatives = [];
}

-- The selection is counted and stored under its key.
unfoldable pub remember : Clock → Text → StrategySelection → Selector → Selector
remember clock key selection s = record s {
  stats = count_selection clock selection.strategy.name s.stats;
  selection_cache = store key selection s.selection_cache;
}

unfoldable pub limit_cache : Clock → Selector → Selector
limit_cache clock s =
    if ltb default_cache_size (length s.selection_cache) then cleanup_cache clock s else s

-- What follows the scoring; with no scores the sizer chooses and the cache is not limited.
unfoldable pub select_ranked :
    Clock → TransportAttributes → List StrategyScore → Selector → StrategySelection × Selector
select_ranked clock attrs [] s =
    let selection = choose_by_size s.sizer attrs in
    (selection, remember clock (cache_key attrs) selection s)
select_ranked clock attrs (best ∷ others) s =
    let selection = choose_ranked attrs best others in
    (selection, limit_cache clock (remember clock (cache_key attrs) selection s))

-- The selection of a key that the cache lacks; `none` where a scorer panics.
unfoldable pub select_fresh :
    Clock → TransportAttributes → Selector → Option (StrategySelection × Selector)
select_fresh clock attrs s = elim (scores_of s.scorers s.strategies attrs) [
  | none ↦ none
  | some scores ↦ some (select_ranked clock attrs (sort_from worse (length scores) scores) s)
]

-- `SelectBestStrategy`.
unfoldable pub select_best_strategy :
    Clock → TransportAttributes → Selector → Option (StrategySelection × Selector)
select_best_strategy clock attrs s = elim (find (cache_key attrs) s.selection_cache) [
  | some selection ↦
      some (selection, record s { stats = count_hit clock selection.strategy.name s.stats })
  | none ↦ select_fresh clock attrs s
]
