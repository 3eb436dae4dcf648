-- ===== src/Base/Dict.antt =====
-- Go maps with string keys as association lists, the newest key last.
use Prim.Native.String.{String}
use text.Mathlib.Text.{◌==◌ as str_eq}
use text.Mathlib.TextEquality.{eq_iff}
use pointsub.Base.{
  ◌≡◌, refl, Bool, false, Option, none, some, List, [], ◌∷◌, arith, if◌then◌else◌, Bool-cases, ◌⊎◌,
  inl, inr,
}

abbrev pub Dict {ℓ} : Type ℓ → Type ℓ
Dict V = List (String × V)

module _ {ℓ} {V : Type ℓ} where
  -- The entries that a loop with `delete` leaves.
  unfoldable pub keep : (V → Bool) → Dict V → Dict V
  keep p [] = []
  keep p ((key, value) ∷ entries) =
      let rest = keep p entries in if p value then (key, value) ∷ rest else rest

  -- `m[k] = v`.
  unfoldable pub insert : String → V → Dict V → Dict V
  insert key value [] = (key, value) ∷ []
  insert key value ((there, old) ∷ entries) =
      let rest = insert key value entries in
      if str_eq there key then (there, value) ∷ entries else (there, old) ∷ rest

  -- `m[k]`, with the presence that `v, ok := m[k]` gives.
  unfoldable pub lookup : String → Dict V → Option V
  lookup key [] = none
  lookup key ((there, value) ∷ entries) =
      let later = lookup key entries in if str_eq there key then some value else later

  pub lookup-insert :
      (k j : String) (v : V) (entries : Dict V)
      → lookup j (insert k v entries) ≡ (if str_eq k j then some v else lookup j entries)
  unfolding insert lookup
  lookup-insert k j v [] = refl
  lookup-insert k j v ((there, old) ∷ entries) =
      ground (arith, lookup-insert k j v entries, eq_iff there k, eq_iff there j, eq_iff k j)

  pub lookup-insert_self : (k : String) (v : V) (m : Dict V) → lookup k (insert k v m) ≡ some v
  lookup-insert_self k v m = rw (lookup-insert k k v m, (eq_iff k k).1 refl) refl

  pub lookup-insert_ne :
      (k j : String) (v : V) (m : Dict V)
      → str_eq k j ≡ false
      → lookup j (insert k v m) ≡ lookup j m
  lookup-insert_ne k j v m e = rw (lookup-insert k j v m, e) refl

  pub lookup-insert_cases :
      (k j : String) (v w : V) (m : Dict V)
      → lookup j (insert k v m) ≡ some w
      → (v ≡ w) ⊎ (lookup j m ≡ some w)
  lookup-insert_cases k j v w m found = ground (arith, lookup-insert k j v m)

  pub lookup-empty : (k : String) (m : Dict V) → m ≡ [] → lookup k m ≡ none
  unfolding lookup
  lookup-empty k m e = rw (e, lookup) refl

  -- No key stands twice.
  unfoldable pub Distinct : Dict V → Type ℓ
  Distinct [] = Unit
  Distinct ((k, v) ∷ m) = (lookup k m ≡ none) × Distinct m

  pub insert-Distinct : (k : String) (v : V) (m : Dict V) → Distinct m → Distinct (insert k v m)
  unfolding Distinct insert lookup
  insert-Distinct k v [] _ = (refl, tt)
  insert-Distinct k v ((j, w) ∷ m) (alone, rest) = elim (Bool-cases (str_eq j k)) [
    | inl e ↦ rw (e, if◌then◌else◌) (alone, rest)
    | inr e ↦
        rw (e, if◌then◌else◌)
          (
            ground (arith, eq_iff j k, eq_iff k j, lookup-insert k j v m),
            insert-Distinct k v m rest,
          )
  ]

  lookup-keep-none :
      (p : V → Bool) (k : String) (m : Dict V) → lookup k m ≡ none → lookup k (keep p m) ≡ none
  unfolding keep lookup
  lookup-keep-none p k [] _ = refl
  lookup-keep-none p k ((j, w) ∷ m) missing = ground (arith, lookup-keep-none p k m)

  -- What `keep` leaves is found where it was.
  pub lookup-keep :
      (p : V → Bool) (k : String) (m : Dict V)
      → Distinct m
      → lookup k (keep p m)
        ≡ elim (lookup k m) [ none ↦ none | some v ↦ if p v then some v else none ]
  unfolding Distinct keep lookup
  lookup-keep p k [] _ = refl
  lookup-keep p k ((j, w) ∷ m) (alone, rest) =
      ground (arith, eq_iff j k, lookup-keep p k m rest, lookup-keep-none p k m)
