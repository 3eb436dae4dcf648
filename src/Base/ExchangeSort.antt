-- ===== src/Base/ExchangeSort.antt =====
-- The sorting loops that the code writes out: for each place, every later element that is out of
-- order with the one there changes places with it.
use mathlib.Core.List.{Perm}
use mathlib.Core.List.Perm
use pointsub.Base.{
  ℕ, zero, suc, ◌≤◌, ◌≡◌, refl, Bool, true, false, List, [], ◌∷◌, if◌then◌else◌, length, inl, inr,
  arith, Bool-cases,
}

module _ {ℓ} {A : Type ℓ} (swaps : A → A → Bool) where
  -- The body of the inner loop: what stands at i afterwards, and what at j.
  unfoldable pub exchange : A → A → A × A
  exchange a b = if swaps a b then (b, a) else (a, b)

  -- The inner loop: the element that is put at i, and those after it.
  unfoldable pub pass : A → List A → A × List A
  pass a [] = (a, [])
  pass a (b ∷ bs) =
      let (first, other) = exchange a b in
      let (first', others) = pass first bs in (first', other ∷ others)

  -- The outer loop, of as many rounds as there are elements.
  unfoldable pub sort_from : ℕ → List A → List A
  sort_from zero as' = as'
  sort_from (suc n) [] = []
  sort_from (suc n) (a ∷ as') = let (first, others) = pass a as' in first ∷ sort_from n others

  -- No element of the list is to change places with `a`.
  unfoldable pub Leads : A → List A → Type 0
  Leads a [] = Unit {0}
  Leads a (b ∷ bs) = (swaps a b ≡ false) × Leads a bs

  unfoldable pub IsOrdered : List A → Type 0
  IsOrdered [] = Unit {0}
  IsOrdered (a ∷ as') = Leads a as' × IsOrdered as'

  exchange-Perm :
      (a b : A) (rest : List A) → Perm (a ∷ b ∷ rest) ((exchange a b).1 ∷ (exchange a b).0 ∷ rest)
  unfolding exchange
  exchange-Perm a b rest = elim (Bool-cases (swaps a b)) [
    | inl e ↦ rw (e, if◌then◌else◌) (Perm.refl _)
    | inr e ↦ rw (e, if◌then◌else◌) (Perm.swap b a rest)
  ]

  pass-Perm : (a : A) (bs : List A) → Perm (a ∷ bs) ((pass a bs).0 ∷ (pass a bs).1)
  unfolding pass
  pass-Perm a [] = Perm.refl _
  pass-Perm a (b ∷ bs) =
      let (first, others) = pass (exchange a b).0 bs in
      Perm.trans (exchange-Perm a b bs) (
        Perm.trans (Perm.cons (exchange a b).1 (pass-Perm (exchange a b).0 bs))
          (Perm.swap first (exchange a b).1 others))

  -- Sorting loses and adds nothing.
  pub sort_from-Perm : (n : ℕ) (xs : List A) → Perm xs (sort_from n xs)
  unfolding sort_from
  sort_from-Perm zero xs = Perm.refl xs
  sort_from-Perm (suc n) [] = Perm.refl []
  sort_from-Perm (suc n) (a ∷ xs) =
      Perm.trans (pass-Perm a xs) (Perm.cons (pass a xs).0 (sort_from-Perm n (pass a xs).1))

  pass-length : (a : A) (bs : List A) → length (pass a bs).1 ≡ length bs
  unfolding pass
  pass-length a [] = refl
  pass-length a (b ∷ bs) = omega (arith, pass-length (exchange a b).0 bs)

  -- The test is the strict part of a total order.
  module _ (asym : (a b : A) → swaps a b ≡ true → swaps b a ≡ false)
      (trans : (a b c : A) → swaps a b ≡ false → swaps b c ≡ false → swaps a c ≡ false) where
    irrefl : (a : A) → swaps a a ≡ false
    irrefl a = elim (Bool-cases (swaps a a)) [ inl e ↦ asym a a e | inr e ↦ e ]

    exchange-first :
        (a b : A)
        → (swaps (exchange a b).0 a ≡ false) × (swaps (exchange a b).0 (exchange a b).1 ≡ false)
    unfolding exchange
    exchange-first a b = elim (Bool-cases (swaps a b)) [
      | inl e ↦ rw (e, if◌then◌else◌) (asym a b e, asym a b e)
      | inr e ↦ rw (e, if◌then◌else◌) (irrefl a, e)
    ]

    exchange-bound :
        (c a b : A)
        → swaps c a ≡ false
        → swaps c b ≡ false
        → (swaps c (exchange a b).0 ≡ false) × (swaps c (exchange a b).1 ≡ false)
    unfolding exchange
    exchange-bound c a b ea eb = elim (Bool-cases (swaps a b)) [
      | inl e ↦ rw (e, if◌then◌else◌) (eb, ea)
      | inr e ↦ rw (e, if◌then◌else◌) (ea, eb)
    ]

    pass-Leads_bound :
        (c a : A) (bs : List A)
        → swaps c a ≡ false
        → Leads c bs
        → (swaps c (pass a bs).0 ≡ false) × Leads c (pass a bs).1
    unfolding pass Leads
    pass-Leads_bound c a [] e _ = (e, tt)
    pass-Leads_bound c a (b ∷ bs) e (eb, rest) =
        let (e0, e1) = exchange-bound c a b e eb in
        let (first, others) = pass-Leads_bound c (exchange a b).0 bs e0 rest in
        (first, (e1, others))

    pass-Leads :
        (a : A) (bs : List A) → (swaps (pass a bs).0 a ≡ false) × Leads (pass a bs).0 (pass a bs).1
    unfolding pass Leads
    pass-Leads a [] = (irrefl a, tt)
    pass-Leads a (b ∷ bs) =
        let (e0, e1) = exchange-first a b in
        let (first, others) = pass-Leads (exchange a b).0 bs in
        (
          trans _ (exchange a b).0 a first e0,
          (trans _ (exchange a b).0 (exchange a b).1 first e1, others),
        )

    sort_from-Leads : (n : ℕ) (c : A) (xs : List A) → Leads c xs → Leads c (sort_from n xs)
    unfolding sort_from Leads
    sort_from-Leads zero c xs all = all
    sort_from-Leads (suc n) c [] all = tt
    sort_from-Leads (suc n) c (a ∷ xs) (e, rest) =
        let (first, others) = pass-Leads_bound c a xs e rest in
        (first, sort_from-Leads n c (pass a xs).1 others)

    -- As many rounds as elements put the list in order.
    pub sort_from-IsOrdered : (n : ℕ) (xs : List A) → length xs ≤ n → IsOrdered (sort_from n xs)
    unfolding sort_from IsOrdered
    sort_from-IsOrdered zero [] _ = tt
    sort_from-IsOrdered zero (a ∷ xs) enough = absurd (omega arith)
    sort_from-IsOrdered (suc n) [] _ = tt
    sort_from-IsOrdered (suc n) (a ∷ xs) enough = (
      sort_from-Leads n _ (pass a xs).1 (pass-Leads a xs).1,
      sort_from-IsOrdered n (pass a xs).1 (omega (arith, pass-length a xs)),
    )
