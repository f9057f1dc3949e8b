-- ===== src/Base/Text.antt =====
-- Texts as their code points, with what the program uses of `str`.
use Prim.Native.Char.{code}
use Prim.Native.Nat.{ℕ, ◌+◌}
use Prim.Native.String.{String}
use mathlib.Core.Path.{◌≡◌, refl}
use mathlib.Core.Bool.{Bool, true, false, ◌&&◌}
use mathlib.Core.List.{List, [], ◌∷◌, ◌++◌, reverse}
use native.Mathlib.Omega.{arith}
use account_pool.Base.Tests.{leb, ◌==◌, if◌then◌else◌}

-- `String` has its own `[]` and `∷`.
abbrev pub codes : String → List ℕ
codes String.[] = []
codes (String.◌∷◌ c s) = code c ∷ codes s

abbrev pub codes_eq : List ℕ → List ℕ → Bool
codes_eq [] [] = true
codes_eq [] (y ∷ ys) = false
codes_eq (x ∷ xs) [] = false
codes_eq (x ∷ xs) (y ∷ ys) = x == y && codes_eq xs ys

-- `str.startswith`
abbrev pub has_prefix : List ℕ → List ℕ → Bool
has_prefix [] ys = true
has_prefix (x ∷ xs) [] = false
has_prefix (x ∷ xs) (y ∷ ys) = x == y && has_prefix xs ys

-- `str.endswith`
abbrev pub has_suffix : List ℕ → List ℕ → Bool
has_suffix xs ys = has_prefix (reverse xs) (reverse ys)

-- `str.lower`, as far as it gives letters of ASCII: U+212A, the sign of the kelvin, becomes a k, and
-- U+0130 an i and a dot above.
unfoldable pub to_lower : ℕ → ℕ
to_lower c = if leb b'A' c && leb c b'Z' then c + 32 else if c == 8490 then b'k' else c

unfoldable pub lower : List ℕ → List ℕ
unfolding to_lower
lower [] = []
lower (c ∷ cs) = let rest = lower cs in if c == 304 then b'i' ∷ 775 ∷ rest else to_lower c ∷ rest

pub codes_eq_refl : (xs : List ℕ) → codes_eq xs xs ≡ true
codes_eq_refl [] = refl
codes_eq_refl (x ∷ xs) = ground (arith, codes_eq_refl xs)

pub has_prefix-append : (xs ys : List ℕ) → has_prefix xs (xs ++ ys) ≡ true
has_prefix-append [] ys = refl
has_prefix-append (x ∷ xs) ys = ground (arith, has_prefix-append xs ys)
