-- ===== src/Prelude/Text.antt =====
-- Texts as lists of character codes, for the string methods that the sources use, and maps whose
-- keys are such texts.
use Prim.Native.Char.{code}
use Prim.Native.String.{String}
use Prim.Native.Nat.{ℕ}
use mathlib.Core.Path.{◌≡◌, refl}
use mathlib.Core.Bool.{Bool, true, false, ◌&&◌, ◌||◌}
use mathlib.Core.Option.{Option, none, some}
use mathlib.Core.List.{List, [], ◌∷◌}
use native.Mathlib.Omega.{arith}
use sotama.Prelude.Tests.{◌==◌, if◌then◌else◌, ==_iff}

-- The code points of a text: its bytes, if it is ASCII.
abbrev pub codes : String → List ℕ
codes String.[] = []
codes (String.◌∷◌ c s) = code c ∷ codes s

abbrev pub has_prefix : List ℕ → List ℕ → Bool
has_prefix [] s = true
has_prefix (c ∷ p) [] = false
has_prefix (c ∷ p) (d ∷ s) = c == d && has_prefix p s

-- `s.includes(p)`
abbrev pub has_infix : List ℕ → List ℕ → Bool
has_infix p [] = has_prefix p []
has_infix p (c ∷ s) = has_prefix p (c ∷ s) || has_infix p s

abbrev pub same_text : List ℕ → List ℕ → Bool
same_text [] [] = true
same_text (c ∷ s) (d ∷ t) = c == d && same_text s t
same_text _ _ = false

pub same_text→≡ : (s t : List ℕ) → same_text s t ≡ true → s ≡ t
same_text→≡ [] [] h = refl
same_text→≡ [] (d ∷ t) h = ground arith
same_text→≡ (c ∷ s) [] h = ground arith
same_text→≡ (c ∷ s) (d ∷ t) h = ground (arith, same_text→≡ s t, ==_iff c d)

pub same_text_refl : (s : List ℕ) → same_text s s ≡ true
same_text_refl [] = refl
same_text_refl (c ∷ s) = ground (arith, same_text_refl s)

-- JavaScript's `Map` with text keys: entries in the order of their insertion.
abbrev pub Dict {ℓ} : Type ℓ → Type ℓ
Dict V = List (List ℕ × V)

module _ {ℓ} {V : Type ℓ} where
  abbrev pub get : List ℕ → Dict V → Option V
  get k [] = none
  get k ((j, v) ∷ rest) = if same_text k j then some v else get k rest

  -- a key that is there keeps its place
  abbrev pub set : List ℕ → V → Dict V → Dict V
  set k v [] = (k, v) ∷ []
  set k v ((j, w) ∷ rest) = if same_text k j then (j, v) ∷ rest else (j, w) ∷ set k v rest

  abbrev pub delete_if : (List ℕ → Bool) → Dict V → Dict V
  delete_if p [] = []
  delete_if p ((j, w) ∷ rest) = if p j then delete_if p rest else (j, w) ∷ delete_if p rest

  pub get-set_same : (k : List ℕ) (v : V) (d : Dict V) → get k (set k v d) ≡ some v
  get-set_same k v [] = ground (arith, same_text_refl k)
  get-set_same k v ((j, w) ∷ rest) = ground (arith, get-set_same k v rest, same_text→≡ k j)

  pub get-set_other :
      (i k : List ℕ) (v : V) (d : Dict V) → same_text i k ≡ false → get i (set k v d) ≡ get i d
  get-set_other i k v [] h = ground arith
  get-set_other i k v ((j, w) ∷ rest) h =
      ground (arith, get-set_other i k v rest h, same_text→≡ k j)
