-- ===== src/Base/Text.antt =====
-- Texts as lists of code points, with the searches of Go's `strings` that the code calls.
-- `to_lower` is `strings.ToLower` on ASCII letters; other letters are left alone.
use Prim.Native.Char.{code}
use Prim.Native.String.{String}
use pointsub.Base.{
  ℕ, ◌+◌, ◌≡◌, refl, Bool, true, false, ◌&&◌, ◌||◌, List, [], ◌∷◌, leb, ◌==◌, if◌then◌else◌, map,
}

abbrev pub Text : Type 0
Text = List ℕ

abbrev pub codes : String → Text
codes (String.◌∷◌ letter text) = code letter ∷ codes text
codes String.[] = []

-- `strings.HasPrefix(s, sub)`.
unfoldable pub has_prefix : Text → Text → Bool
has_prefix [] s = true
has_prefix (c ∷ sub) [] = false
has_prefix (c ∷ sub) (d ∷ s) = c == d && has_prefix sub s

-- `strings.Contains(s, sub)`.
unfoldable pub contains : Text → Text → Bool
unfolding has_prefix
contains sub [] = has_prefix sub []
contains sub (d ∷ s) = has_prefix sub (d ∷ s) || contains sub s

unfoldable pub to_lower : Text → Text
to_lower = map λ c. if leb b'A' c && leb c b'Z' then c + 32 else c

contains_inside : contains (codes "pipe") (codes "write: broken pipe!") ≡ true
unfolding contains
contains_inside = refl

contains_absent : contains (codes "pipes") (codes "write: broken pipe!") ≡ false
unfolding contains
contains_absent = refl
