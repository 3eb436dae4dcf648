-- ===== src/Selector/Scores.antt =====
-- strategy_selector.go: the range of the scores, and the scores of the default strategies.
use Prim.Native.String.{String}
use pointsub.Base.{
  ℕ, ◌+◌, ◌-◌, ◌*◌, ◌/◌, ◌≤◌, ◌<◌, ◌≡◌, refl, true, false, Option, some, List, [], ◌∷◌, ltb,
  if◌then◌else◌, arith, ◌⊎◌, inl, inr, sym, subst, Bool-cases,
}
use pointsub.Sizer.{Strategy}
use pointsub.Selector.{
  TransportAttributes, in_range, StrategyScorer, StrategyScore, position_score, distance_score,
  size_score, reliability_score, realtime_score, network_score, by_name, weigh, average,
  evaluate_strategy, size_based_scorer, reliability_scorer, realtime_scorer,
  network_condition_scorer, new_strategy_selector,
}

by_name-le :
    (b t s m l h o : ℕ) (name : String)
    → t ≤ b
    → s ≤ b
    → m ≤ b
    → l ≤ b
    → h ≤ b
    → o ≤ b
    → by_name t s m l h o name ≤ b
unfolding by_name
by_name-le b t s m l h o name pt ps pm pl ph po = ground arith

-- A scorer that answers, with a score of at most 100.
abbrev pub Answers : Option StrategyScore → Type 0
Answers given = (score : StrategyScore) × (given ≡ some score) × (score.score ≤ 100)

reliability_score-Answers :
    (s : Strategy) (attrs : TransportAttributes) → Answers (reliability_score s attrs)
unfolding reliability_score
reliability_score-Answers s attrs =
    (_, refl, ground (arith, by_name-le 95 60 70 85 90 95 75 s.name))

realtime_score-Answers :
    (s : Strategy) (attrs : TransportAttributes) → Answers (realtime_score s attrs)
unfolding realtime_score
realtime_score-Answers s attrs = (_, refl, ground (arith, by_name-le 95 95 90 80 70 50 75 s.name))

network_score-Answers :
    (s : Strategy) (attrs : TransportAttributes) → Answers (network_score s attrs)
unfolding network_score
network_score-Answers s attrs = (
  _,
  refl,
  ground (
    arith,
    by_name-le 95 90 90 70 40 40 75 s.name,
    by_name-le 95 70 85 85 75 60 75 s.name,
    by_name-le 95 60 70 85 95 95 75 s.name,
  ),
)

-- The range of a strategy has an upper limit that is not below the lower one, or none and a lower
-- limit of 0, which no size is below, or of 3 and more, which keeps the score of the distance
-- within 100.
abbrev pub IsRanged : Strategy → Type 0
IsRanged s = ((0 < s.high) × (s.low ≤ s.high)) ⊎ ((s.high ≡ 0) × ((s.low ≡ 0) ⊎ (3 ≤ s.low)))

quotient-le : (n d b : ℕ) → 0 < d → n ≤ b * d → n / d ≤ b
quotient-le n d b pos le = grind arith

position_score-le : (low high size : ℕ) → position_score low high size ≤ 100
unfolding position_score
position_score-le low high size = ground (arith, quotient-le ((size - low) * 20) low 20)

-- Outside a range that ends, the score is at most 40; below one that does not, at most 100.
distance_score-ended :
    (low high away : ℕ) → low ≤ high → (n : ℕ) × (distance_score low high away ≡ some n) × (n ≤ 100)
unfolding distance_score
distance_score-ended low high away le =
    (40 - away * 40 / (high + 1 - low), ground arith, omega arith)

distance_score-open :
    (low away : ℕ)
    → 3 ≤ low
    → away ≤ low
    → (n : ℕ) × (distance_score low 0 away ≡ some n) × (n ≤ 100)
unfolding distance_score
distance_score-open low away le short = (
  40 + away * 40 / (low - 0 - 1),
  ground arith,
  omega (arith, quotient-le (away * 40) (low - 0 - 1) 60 (omega arith) (omega arith)),
)

away : Strategy → ℕ → ℕ
away s size = if ltb size s.low then s.low - size else size - s.high

size_score-outside :
    (s : Strategy) (attrs : TransportAttributes) (n : ℕ)
    → in_range s attrs.size ≡ false
    → distance_score s.low s.high (away s attrs.size) ≡ some n
    → n ≤ 100
    → Answers (size_score s attrs)
unfolding size_score away
size_score-outside s attrs n outside value le =
    (record { strategy = s; score = n; reason = "大小超出策略范围" }, ground arith, le)

size_score-inside :
    (s : Strategy) (attrs : TransportAttributes)
    → in_range s attrs.size ≡ true
    → Answers (size_score s attrs)
unfolding size_score
size_score-inside s attrs inside = (
  record { strategy = s; score = position_score s.low s.high attrs.size; reason = "大小在策略范围内" },
  ground arith,
  position_score-le s.low s.high attrs.size,
)

size_score-Answers :
    (s : Strategy) (attrs : TransportAttributes) → IsRanged s → Answers (size_score s attrs)
unfolding away
size_score-Answers s attrs ranged = elim (Bool-cases (in_range s attrs.size)) [
  | inl inside ↦ size_score-inside s attrs inside
  | inr outside ↦ elim ranged [
    | inl (pos, le) ↦
        let (n, value, bound) = distance_score-ended s.low s.high (away s attrs.size) le in
        size_score-outside s attrs n outside value bound
    | inr (zero_high, inl zero_low) ↦ absurd (ground arith)
    | inr (zero_high, inr three) ↦
        let (n, value, bound) =
          distance_score-open s.low (away s attrs.size) three (ground arith) in
        size_score-outside s attrs n outside
          (subst (λ h. distance_score s.low h (away s attrs.size) ≡ some n) (sym zero_high) value)
          bound
  ]
]

module _ (s : Strategy) (attrs : TransportAttributes) where
  weigh-cons :
      (scorer : StrategyScorer) (rest : List StrategyScorer) (x : StrategyScore) (t w : ℕ)
      → scorer.score_strategy s attrs ≡ some x
      → weigh rest s attrs ≡ some (t, w)
      → weigh (scorer ∷ rest) s attrs ≡ some (x.score * scorer.weight + t, scorer.weight + w)
  unfolding weigh
  weigh-cons scorer rest x t w ex er = ground arith

  -- The four default scorers together.
  pub evaluate_strategy-default :
      (a b c d : StrategyScore)
      → size_score s attrs ≡ some a
      → reliability_score s attrs ≡ some b
      → realtime_score s attrs ≡ some c
      → network_score s attrs ≡ some d
      → evaluate_strategy new_strategy_selector.scorers s attrs
        ≡ some ((a.score * 5 + (b.score * 3 + (c.score * 3 + (d.score * 4 + 0)))) / 15)
  unfolding evaluate_strategy average new_strategy_selector weigh
  evaluate_strategy-default a b c d ea eb ec ed =
      let totals =
        weigh-cons size_based_scorer
          (reliability_scorer ∷ realtime_scorer ∷ network_condition_scorer ∷ []) a _ _ ea
          (weigh-cons reliability_scorer (realtime_scorer ∷ network_condition_scorer ∷ []) b _ _ eb
            (weigh-cons realtime_scorer (network_condition_scorer ∷ []) c _ _ ec
              (weigh-cons network_condition_scorer [] d 0 0 ed refl))) in
      rw (totals, evaluate_strategy) refl

-- Under the scorers of a new selector a strategy is evaluated without a panic, and to 100 at most,
-- if its upper limit is positive and not below the lower one, or it has no upper limit and a lower
-- one of 0 or of 3 and more.
pub evaluate_strategy-bounds :
    (s : Strategy) (attrs : TransportAttributes)
    → IsRanged s
    → (n : ℕ) × (evaluate_strategy new_strategy_selector.scorers s attrs ≡ some n) × (n ≤ 100)
evaluate_strategy-bounds s attrs ranged =
    let (a, ea, ba) = size_score-Answers s attrs ranged in
    let (b, eb, bb) = reliability_score-Answers s attrs in
    let (c, ec, bc) = realtime_score-Answers s attrs in
    let (d, ed, bd) = network_score-Answers s attrs in
    (
      (a.score * 5 + (b.score * 3 + (c.score * 3 + (d.score * 4 + 0)))) / 15,
      evaluate_strategy-default s attrs a b c d ea eb ec ed,
      omega arith,
    )
