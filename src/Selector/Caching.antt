-- ===== src/Selector/Caching.antt =====
-- strategy_selector.go: what the cache of SelectBestStrategy keeps, and its statistics.
use Prim.Native.String.{String}
use text.Mathlib.TextEquality.{Char-path}
use pointsub.Base.{
  ℕ, ◌/◌, ◌<◌, ◌≡◌, refl, sym, ap, subst, ◌∙◌, Bool, some, List, [], ◌∷◌, length, arith, inl, inr,
  get_or, drop, if◌then◌else◌, Bool-cases, Option-cases,
}
use pointsub.Base.Text.{Text, codes}
use pointsub.Base.Table.{Table, find, store, same_text, same_text-true}
use pointsub.Base.ExchangeSort.{sort_from}
use pointsub.Selector.Ranking.{scored, scores_of-cons, ranking}
use pointsub.Sizer.{Strategy, optimize_params}
use pointsub.Selector.{TransportAttributes, StrategySelection, StrategyScore, Selector}
use pointsub.Selector.Choosing.{
  Clock, rune, digit, cache_key, adjust_params, select_ranked, select_fresh, select_best_strategy,
  choose_ranked, remember, limit_cache, cleanup_cache, scores_of,
}

-- Sizes below 54 MiB, whose kibibytes are code points.
rune-same : (m n : ℕ) → m < 55296 → n < 55296 → rune m ≡ rune n → m ≡ n
unfolding rune
rune-same m n hm hn e = ground arith

digit-same : (a b : Bool) → digit a ≡ digit b → a ≡ b
digit-same a b e = ground arith

codes-same : (s t : String) → codes s ≡ codes t → s ≡ t
codes-same (String.◌∷◌ c s) (String.◌∷◌ d t) e =
    rw (Char-path c d (ap (λ k. get_or k 0 0) e), codes-same s t (ap (drop 1) e)) refl
codes-same (String.◌∷◌ c s) String.[] e = absurd (omega (arith, ap (length {A = ℕ}) e))
codes-same String.[] (String.◌∷◌ d t) e = absurd (omega (arith, ap (length {A = ℕ}) e))
codes-same String.[] String.[] e = refl

-- What a key says of the attributes.
cache_key-same :
    (a b : TransportAttributes)
    → cache_key a ≡ cache_key b
    → (rune (a.size / 1024) ≡ rune (b.size / 1024))
      × (a.require_reliability ≡ b.require_reliability)
      × (a.require_realtime ≡ b.require_realtime)
      × (a.mode ≡ b.mode)
unfolding cache_key
cache_key-same a b e = (
  ap (λ k. get_or k 2 0) e,
  digit-same a.require_reliability b.require_reliability (ap (λ k. get_or k 6 0) e),
  digit-same a.require_realtime b.require_realtime (ap (λ k. get_or k 10 0) e),
  codes-same a.mode b.mode (ap (drop 34) e),
)

-- The parameters depend on the size by its kibibytes.
optimize_params-kib : (m n : ℕ) → m / 1024 ≡ n / 1024 → optimize_params m ≡ optimize_params n
unfolding optimize_params
optimize_params-kib m n e = ground arith

-- Attributes with one key, of sizes below 54 MiB, have the same parameters.
params-same :
    (a b : TransportAttributes)
    → a.size < 56623104
    → b.size < 56623104
    → cache_key a ≡ cache_key b
    → adjust_params a (optimize_params a.size) ≡ adjust_params b (optimize_params b.size)
unfolding adjust_params
params-same a b ha hb e =
    let (size, reliable, realtime, mode) = cache_key-same a b e in
    rw
      (
        reliable,
        realtime,
        mode,
        optimize_params-kib a.size b.size
            (rune-same (a.size / 1024) (b.size / 1024) (omega arith) (omega arith) size),
      )
      refl

-- The selection was made for some attributes of that key, with the parameters for them.
abbrev pub IsFreshEntry : Text → StrategySelection → Type 0
IsFreshEntry key selection =
    (attrs : TransportAttributes) × (cache_key attrs ≡ key)
    × (attrs.size < 56623104)
    × (selection.params ≡ adjust_params attrs (optimize_params attrs.size))

unfoldable pub IsFresh : Table StrategySelection → Type 0
IsFresh [] = Unit {0}
IsFresh ((key, selection) ∷ entries) = IsFreshEntry key selection × IsFresh entries

find-IsFresh :
    (key : Text) (m : Table StrategySelection) (selection : StrategySelection)
    → IsFresh m
    → find key m ≡ some selection
    → IsFreshEntry key selection
unfolding find IsFresh
find-IsFresh key [] selection _ e = ground arith
find-IsFresh key ((there, v) ∷ m) selection (fresh, rest) e =
    elim (Bool-cases (same_text there key)) [
      | inl same ↦
          subst (λ k. IsFreshEntry k selection) (same_text-true there key same)
            (subst (λ w. IsFreshEntry there w) (let p : v ≡ selection = ground arith in p) fresh)
      | inr differ ↦ find-IsFresh key m selection rest (ground arith)
    ]

store-IsFresh :
    (key : Text) (m : Table StrategySelection) (selection : StrategySelection)
    → IsFreshEntry key selection
    → IsFresh m
    → IsFresh (store key selection m)
unfolding store IsFresh
store-IsFresh key [] selection new _ = (new, tt)
store-IsFresh key ((there, v) ∷ m) selection new (fresh, rest) =
    elim (Bool-cases (same_text there key)) [
      | inl same ↦
          rw (same, if◌then◌else◌)
            (subst (λ k. IsFreshEntry k selection) (sym (same_text-true there key same)) new, rest)
      | inr differ ↦ rw (differ, if◌then◌else◌) (fresh, store-IsFresh key m selection new rest)
    ]

limit_cache-IsFresh :
    (clock : Clock) (s : Selector)
    → IsFresh s.selection_cache
    → IsFresh (limit_cache clock s).selection_cache
unfolding limit_cache cleanup_cache IsFresh
limit_cache-IsFresh clock s fresh = ground arith

module _ (clock : Clock) (attrs : TransportAttributes) (s s' : Selector)
    (selection : StrategySelection) where
  -- What a selection gives that keeps the cache fresh.
  abbrev Serves : Type 0
  Serves =
      (selection.params ≡ adjust_params attrs (optimize_params attrs.size))
      × IsFresh s'.selection_cache

  chosen-Serves :
      (best : StrategyScore) (others : List StrategyScore)
      → attrs.size < 56623104
      → IsFresh s.selection_cache
      → select_ranked clock attrs (best ∷ others) s ≡ (selection, s')
      → Serves
  unfolding select_ranked choose_ranked remember
  chosen-Serves best others small fresh result =
      let chosen = choose_ranked attrs best others in
      let entry : IsFreshEntry (cache_key attrs) chosen = (attrs, refl, small, refl) in
      let kept =
        limit_cache-IsFresh clock (remember clock (cache_key attrs) chosen s)
          (store-IsFresh (cache_key attrs) s.selection_cache chosen entry fresh) in
      (
        ap (λ r. r.0.params) (sym result),
        subst (λ (r : StrategySelection × Selector). IsFresh r.1.selection_cache) result kept,
      )

  ranking-Serves :
      (x : StrategyScore) (rest : List StrategyScore)
      → attrs.size < 56623104
      → IsFresh s.selection_cache
      → select_ranked clock attrs (ranking (x ∷ rest)) s ≡ (selection, s')
      → Serves
  unfolding sort_from
  ranking-Serves x rest small fresh result = chosen-Serves _ _ small fresh result

  -- With some strategy registered, a selection that is computed has the parameters for its
  -- attributes.
  select_fresh-Serves :
      (t : Strategy) (ts : List Strategy)
      → attrs.size < 56623104
      → IsFresh s.selection_cache
      → s.strategies ≡ t ∷ ts
      → select_fresh clock attrs s ≡ some (selection, s')
      → Serves
  unfolding select_fresh
  select_fresh-Serves t ts small fresh registered result =
      elim (Option-cases (scores_of s.scorers s.strategies attrs)) [
        | inl panics ↦ absurd (ground arith)
        | inr (scores, computed) ↦
            let (n, rest, _, _, whole) =
              scores_of-cons s.scorers attrs t ts scores
                (ap (λ ss. scores_of s.scorers ss attrs) (sym registered) ∙ computed) in
            ranking-Serves (scored s.scorers attrs t n) rest small fresh (
              let p : select_ranked clock attrs (ranking scores) s ≡ (selection, s') =
                ground arith in
              subst (λ l. select_ranked clock attrs (ranking l) s ≡ (selection, s')) whole p)
      ]

  -- With some strategy registered and sizes below 54 MiB, a cache whose entries were made with the
  -- parameters for attributes of their keys stays one, and a selection has the parameters for the
  -- attributes asked, be it computed or from the cache.
  pub select_best_strategy-IsFresh :
      (t : Strategy) (ts : List Strategy)
      → attrs.size < 56623104
      → IsFresh s.selection_cache
      → s.strategies ≡ t ∷ ts
      → select_best_strategy clock attrs s ≡ some (selection, s')
      → (selection.params ≡ adjust_params attrs (optimize_params attrs.size))
        × IsFresh s'.selection_cache
  unfolding select_best_strategy
  select_best_strategy-IsFresh t ts small fresh registered result =
      elim (Option-cases (find (cache_key attrs) s.selection_cache)) [
        | inl missing ↦ select_fresh-Serves t ts small fresh registered (ground arith)
        | inr (found, hit) ↦
            let (asked, key, size, params) =
              find-IsFresh (cache_key attrs) s.selection_cache found fresh hit in
            let same : found ≡ selection = ground arith in
            let kept : s.selection_cache ≡ s'.selection_cache = ground arith in
            (
              ap (λ r. r.params) (sym same) ∙ params ∙ params-same asked attrs size small key,
              subst IsFresh kept fresh,
            )
      ]
