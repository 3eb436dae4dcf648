-- ===== src/Selector/Ranking.antt =====
-- strategy_selector.go: which strategy SelectBestStrategy takes when the cache has none.
use mathlib.Core.Logic.Or
use mathlib.Core.List.{Mem, Perm, mem-cons, not-mem-nil, Mem-prop}
use mathlib.Core.List.Perm
use native.Mathlib.Bridge.{le_prop}
use native.Mathlib.Decide.{ℕ_discrete}
use pointsub.Base.{
  ℕ, ◌≤◌, ◌≡◌, refl, sym, true, false, none, some, List, [], ◌∷◌, length, arith, inl, inr, subst,
  Option-cases, ltb-false,
}
use pointsub.Base.Table.{find}
use pointsub.Base.ExchangeSort.{sort_from, sort_from-Perm, sort_from-IsOrdered, Leads, IsOrdered}
use pointsub.Sizer.{Strategy}
use pointsub.Selector.{
  TransportAttributes, StrategySelection, StrategyScore, StrategyScorer, Selector,
  evaluate_strategy,
}
use pointsub.Selector.Choosing.{
  Clock, cache_key, scores_of, worse, select_ranked, select_fresh, select_best_strategy,
  choose_ranked,
}

worse_asym : (a b : StrategyScore) → worse a b ≡ true → worse b a ≡ false
worse_asym a b e = ground arith

worse_trans : (a b c : StrategyScore) → worse a b ≡ false → worse b c ≡ false → worse a c ≡ false
worse_trans a b c e f = ground arith

-- The ranking that SelectBestStrategy makes of the scores.
abbrev pub ranking : List StrategyScore → List StrategyScore
ranking scores = sort_from worse (length scores) scores

ranking-IsOrdered : (scores : List StrategyScore) → IsOrdered worse (ranking scores)
ranking-IsOrdered scores =
    sort_from-IsOrdered worse worse_asym worse_trans (length scores) scores (omega arith)

Leads-le :
    (best : StrategyScore) (others : List StrategyScore) (x : StrategyScore)
    → Leads worse best others
    → Mem x others
    → x.score ≤ best.score
unfolding Leads
Leads-le best [] x all m = absurd (not-mem-nil m)
Leads-le best (y ∷ others) x (e, all) m =
    Or.elim le_prop (mem-cons.0 m) (λ (p : x ≡ y). rw p (ltb-false best.score y.score e))
      (Leads-le best others x all)

first-le :
    (best : StrategyScore) (others : List StrategyScore) (x : StrategyScore)
    → IsOrdered worse (best ∷ others)
    → Mem x (best ∷ others)
    → x.score ≤ best.score
unfolding IsOrdered
first-le best others x (leads, _) m =
    Or.elim le_prop (mem-cons.0 m) (λ (p : x ≡ best). rw p (omega arith))
      (Leads-le best others x leads)

module _ (scorers : List StrategyScorer) (attrs : TransportAttributes) where
  -- What a score of the list says.
  abbrev IsScore : List Strategy → StrategyScore → Type 0
  IsScore ss x = Mem x.strategy ss × (evaluate_strategy scorers x.strategy attrs ≡ some x.score)

  pub scored : Strategy → ℕ → StrategyScore
  scored strategy n = record { strategy = strategy; score = n; reason = "综合评分" }

  scored_eq :
      (t u : Strategy) (n k : ℕ)
      → t ≡ u
      → evaluate_strategy scorers t attrs ≡ some n
      → evaluate_strategy scorers u attrs ≡ some k
      → scored t n ≡ scored u k
  scored_eq t u n k same et eu = cc

  -- The head of the strategies has a score, and so have the others.
  pub scores_of-cons :
      (t : Strategy) (ss : List Strategy) (scores : List StrategyScore)
      → scores_of scorers (t ∷ ss) attrs ≡ some scores
      → (n : ℕ) × (rest : List StrategyScore) × (evaluate_strategy scorers t attrs ≡ some n)
        × (scores_of scorers ss attrs ≡ some rest)
        × (scores ≡ scored t n ∷ rest)
  unfolding scores_of scored
  scores_of-cons t ss scores e = elim (Option-cases (evaluate_strategy scorers t attrs)) [
    | inl no_score ↦ absurd (ground arith)
    | inr (n, ev) ↦ elim (Option-cases (scores_of scorers ss attrs)) [
      | inl no_rest ↦ absurd (ground arith)
      | inr (rest, er) ↦ (n, rest, ev, er, ground arith)
    ]
  ]

  IsScore-prop : (ss : List Strategy) (x : StrategyScore) → IsProp (IsScore ss x)
  IsScore-prop ss x = hlevel (ℕ_discrete)

  IsScore-cons :
      (t : Strategy) (ss : List Strategy) (x : StrategyScore) → IsScore ss x → IsScore (t ∷ ss) x
  IsScore-cons t ss x (there, e) = (mem-cons.1 (Or.inr there), e)

  -- Each score of the list is one of a registered strategy.
  scores_of_sound :
      (ss : List Strategy) (scores : List StrategyScore) (x : StrategyScore)
      → scores_of scorers ss attrs ≡ some scores
      → Mem x scores
      → IsScore ss x
  unfolding scores_of scored
  scores_of_sound [] scores x e m = absurd (not-mem-nil (subst (λ l. Mem x l) (ground arith) m))
  scores_of_sound (t ∷ ss) scores x e m =
      let (n, rest, ev, er, whole) = scores_of-cons t ss scores e in
      Or.elim (IsScore-prop (t ∷ ss) x) (mem-cons.0 (subst (λ l. Mem x l) whole m))
        (λ (p : x ≡ scored t n). subst (IsScore (t ∷ ss)) (sym p) (mem-cons.1 (Or.inl refl), ev))
        (λ (later : Mem x rest). IsScore-cons t ss x (scores_of_sound ss rest x er later))

  -- The score of each registered strategy stands in the list.
  scores_of-complete :
      (ss : List Strategy) (scores : List StrategyScore) (t : Strategy) (n : ℕ)
      → scores_of scorers ss attrs ≡ some scores
      → Mem t ss
      → evaluate_strategy scorers t attrs ≡ some n
      → Mem (scored t n) scores
  unfolding scores_of
  scores_of-complete [] scores t n e m _ = absurd (not-mem-nil m)
  scores_of-complete (u ∷ ss) scores t n e m score =
      let (k, rest, ev, er, whole) = scores_of-cons u ss scores e in
      subst (λ l. Mem (scored t n) l) (sym whole)
        (Or.elim Mem-prop (mem-cons.0 m)
          (λ (p : t ≡ u). mem-cons.1 (Or.inl (scored_eq t u n k p score ev)))
          (λ (later : Mem t ss).
            mem-cons.1 (Or.inr (scores_of-complete ss rest t n er later score))))

-- The result of a selection that the cache lacks, with its first place and the rest of the ranking.
selected :
    (clock : Clock) (attrs : TransportAttributes) (s s' : Selector) (selection : StrategySelection)
    (scores : List StrategyScore)
    → find (cache_key attrs) s.selection_cache ≡ none
    → scores_of s.scorers s.strategies attrs ≡ some scores
    → select_best_strategy clock attrs s ≡ some (selection, s')
    → select_ranked clock attrs (ranking scores) s ≡ (selection, s')
unfolding select_best_strategy select_fresh
selected clock attrs s s' selection scores missing computed result = ground arith

select_ranked-chosen :
    (clock : Clock) (attrs : TransportAttributes) (s s' : Selector) (selection : StrategySelection)
    (best : StrategyScore) (others ranked : List StrategyScore)
    → ranked ≡ best ∷ others
    → select_ranked clock attrs ranked s ≡ (selection, s')
    → selection ≡ choose_ranked attrs best others
unfolding select_ranked
select_ranked-chosen clock attrs s s' selection best others ranked shape result = cc

select_fresh-scores :
    (clock : Clock) (attrs : TransportAttributes) (s s' : Selector) (selection : StrategySelection)
    → find (cache_key attrs) s.selection_cache ≡ none
    → select_best_strategy clock attrs s ≡ some (selection, s')
    → (scores : List StrategyScore) × (scores_of s.scorers s.strategies attrs ≡ some scores)
unfolding select_best_strategy select_fresh
select_fresh-scores clock attrs s s' selection missing result =
    elim (Option-cases (scores_of s.scorers s.strategies attrs)) [
      | inl panics ↦ absurd (ground arith)
      | inr found ↦ found
    ]

-- Where the ranking is not empty, its first score is what the selection is made of.
chosen_first :
    (attrs : TransportAttributes) (best : StrategyScore) (others : List StrategyScore)
    (selection : StrategySelection) (x : StrategyScore)
    → selection ≡ choose_ranked attrs best others
    → IsOrdered worse (best ∷ others)
    → Mem x (best ∷ others)
    → (selection.strategy ≡ best.strategy)
      × (selection.score ≡ best.score)
      × (x.score ≤ selection.score)
unfolding choose_ranked
chosen_first attrs best others selection x made ordered m =
    ground (arith, first-le best others x ordered m)

module _ (clock : Clock) (attrs : TransportAttributes) (s s' : Selector)
    (selection : StrategySelection) where
  -- The first of a ranking of all the scores is the greatest.
  first_of :
      (scores ranked : List StrategyScore) (t : Strategy) (n : ℕ)
      → scores_of s.scorers s.strategies attrs ≡ some scores
      → Perm scores ranked
      → IsOrdered worse ranked
      → select_ranked clock attrs ranked s ≡ (selection, s')
      → Mem (scored s.scorers attrs t n) ranked
      → Mem selection.strategy s.strategies
        × (evaluate_strategy s.scorers selection.strategy attrs ≡ some selection.score)
        × (n ≤ selection.score)
  unfolding scored
  first_of scores [] t n computed perm ordered result m = absurd (not-mem-nil m)
  first_of scores (best ∷ others) t n computed perm ordered result m =
      let (strategy, score, le) =
        chosen_first attrs best others selection _
          (select_ranked-chosen clock attrs s s' selection best others _ refl result) ordered m in
      let (there, value) =
        scores_of_sound s.scorers attrs s.strategies scores best computed
          ((Perm.mem_iff perm).1 (mem-cons.1 (Or.inl refl))) in
      (subst (λ u. Mem u s.strategies) (sym strategy) there, cc, le)

  -- When the cache has no selection for the attributes and some strategy is registered, the
  -- strategy selected is a registered one, its score is its evaluation, and no registered strategy
  -- has a higher evaluation.
  pub select_best_strategy-greatest :
      (t : Strategy) (n : ℕ)
      → find (cache_key attrs) s.selection_cache ≡ none
      → select_best_strategy clock attrs s ≡ some (selection, s')
      → Mem t s.strategies
      → evaluate_strategy s.scorers t attrs ≡ some n
      → Mem selection.strategy s.strategies
        × (evaluate_strategy s.scorers selection.strategy attrs ≡ some selection.score)
        × (n ≤ selection.score)
  select_best_strategy-greatest t n missing result there value =
      let (scores, computed) = select_fresh-scores clock attrs s s' selection missing result in
      let perm = sort_from-Perm worse (length scores) scores in
      first_of scores (ranking scores) t n computed perm (ranking-IsOrdered scores)
        (selected clock attrs s s' selection scores missing computed result)
        ((Perm.mem_iff perm).0
          (scores_of-complete s.scorers attrs s.strategies scores t n computed there value))
