-- ===== src/Base/Text.antt =====
-- C strings: the bytes before the terminating NUL, and the string functions that the code calls.
use Prim.Native.Char.{code}
use Prim.Native.String.{String}
use Prim.Native.Nat.{ℕ}
use mathlib.Core.Path.{◌≡◌, refl}
use mathlib.Core.Logic.{◌↔◌, ◌≢◌}
use mathlib.Core.Bool.{Bool, true, false, ◌&&◌}
use mathlib.Core.Option.{Option, none, some}
use mathlib.Core.List.{List, [], ◌∷◌, ◌++◌}
use native.Mathlib.Omega.{arith}
use ps4_hen_plugins.Base.Tests.{◌==◌, if◌then◌else◌}

abbrev pub Bytes : Type 0
Bytes = List ℕ

-- The code points of a text, its bytes if it is ASCII.
abbrev pub codes : String → Bytes
codes String.[] = []
codes (String.◌∷◌ c s) = code c ∷ codes s

-- `strcmp(a, b) == 0`
unfoldable pub matches : Bytes → Bytes → Bool
matches [] [] = true
matches (c ∷ s) (d ∷ t) = c == d && matches s t
matches _ _ = false

pub matches_iff : (s t : Bytes) → (matches s t ≡ true) ↔ (s ≡ t)
unfolding matches
matches_iff [] t = ground arith
matches_iff (c ∷ s) [] = ground arith
matches_iff (c ∷ s) (d ∷ t) = ground (arith, matches_iff s t)

pub matches_refl : (a : Bytes) → matches a a ≡ true
matches_refl a = (matches_iff a a).1 refl

-- `strchr(s, c)` for a byte other than NUL: what stands before the byte and what stands after it.
unfoldable pub strchr : ℕ → Bytes → Option (Bytes × Bytes)
strchr c [] = none
strchr c (x ∷ xs) =
    if x == c
    then some ([], xs)
    else elim (strchr c xs) [ none ↦ none | some (before, after) ↦ some (x ∷ before, after) ]

-- No byte of the string is the given one.
abbrev pub Lacks : ℕ → Bytes → Type 0
Lacks c [] = Unit
Lacks c (x ∷ xs) = (x ≢ c) × Lacks c xs

pub strchr-append : (c : ℕ) (s rest : Bytes) → Lacks c s → strchr c (s ++ c ∷ rest) ≡ some (s, rest)
unfolding strchr
strchr-append c [] rest h = ground arith
strchr-append c (x ∷ s) rest h = ground (arith, strchr-append c s rest h.1)

pub strchr-Lacks : (c : ℕ) (s : Bytes) → Lacks c s → strchr c s ≡ none
unfolding strchr
strchr-Lacks c [] h = refl
strchr-Lacks c (x ∷ s) h = ground (arith, strchr-Lacks c s h.1)

pub Lacks-append : (c : ℕ) (s t : Bytes) → Lacks c s → Lacks c t → Lacks c (s ++ t)
Lacks-append c [] t h k = k
Lacks-append c (x ∷ s) t h k = (h.0, Lacks-append c s t h.1 k)
