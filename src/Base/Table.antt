-- ===== src/Base/Table.antt =====
-- Go maps whose keys are computed texts, given by their code points: association lists with the
-- newest key last.
use pointsub.Base.{
  ◌+◌, ◌≡◌, refl, Bool, true, false, ◌&&◌, Option, none, some, List, [], ◌∷◌, ◌==◌, if◌then◌else◌,
  length, arith,
}
use pointsub.Base.Text.{Text}

unfoldable pub same_text : Text → Text → Bool
same_text [] [] = true
same_text [] (d ∷ t) = false
same_text (c ∷ s) [] = false
same_text (c ∷ s) (d ∷ t) = c == d && same_text s t

abbrev pub Table {ℓ} : Type ℓ → Type ℓ
Table V = List (Text × V)

module _ {ℓ} {V : Type ℓ} where
  -- `m[k]`, with the presence that `v, ok := m[k]` gives.
  unfoldable pub find : Text → Table V → Option V
  find key [] = none
  find key ((there, value) ∷ entries) =
      let later = find key entries in if same_text there key then some value else later

  -- `m[k] = v`.
  unfoldable pub store : Text → V → Table V → Table V
  store key value [] = (key, value) ∷ []
  store key value ((there, old) ∷ entries) =
      let rest = store key value entries in
      if same_text there key then (there, value) ∷ entries else (there, old) ∷ rest

  -- A new key makes the table one entry longer.
  pub length-store :
      (k : Text) (v : V) (entries : Table V)
      → find k entries ≡ none
      → length (store k v entries) ≡ length entries + 1
  unfolding store find
  length-store k v [] _ = refl
  length-store k v ((there, old) ∷ entries) missing = ground (arith, length-store k v entries)

pub same_text_refl : (s : Text) → same_text s s ≡ true
unfolding same_text
same_text_refl [] = refl
same_text_refl (c ∷ s) = ground (arith, same_text_refl s)

pub same_text-true : (s t : Text) → same_text s t ≡ true → s ≡ t
unfolding same_text
same_text-true [] [] _ = refl
same_text-true [] (d ∷ t) e = ground arith
same_text-true (c ∷ s) [] e = ground arith
same_text-true (c ∷ s) (d ∷ t) e = ground (arith, same_text-true s t)

module _ {ℓ} {V : Type ℓ} where
  pub find-store_self : (k : Text) (v : V) (m : Table V) → find k (store k v m) ≡ some v
  unfolding find store
  find-store_self k v [] = ground (arith, same_text_refl k)
  find-store_self k v ((there, old) ∷ m) = ground (arith, find-store_self k v m)
