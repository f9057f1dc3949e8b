-- ===== src/Base/Runs.antt =====
-- Texts as runs of characters in a class, for the matchers of the adapters.
use Prim.Native.Char.{Char, code}
use account_pool.Base.{ℕ, ◌≡◌, refl, Bool, true, false, List, [], ◌∷◌, ◌++◌, ap}
use account_pool.Base.Chars.{span}

-- Every character of a text is in a class.
abbrev pub AllIn : (ℕ → Bool) → List Char → Type 0
AllIn p [] = Unit {0}
AllIn p (c ∷ s) = (p (code c) ≡ true) × AllIn p s

-- A text does not begin in a class.
abbrev pub Stops : (ℕ → Bool) → List Char → Type 0
Stops p [] = Unit {0}
Stops p (c ∷ s) = p (code c) ≡ false

pub span-append :
    (p : ℕ → Bool) (s t : List Char) → AllIn p s → Stops p t → span p (s ++ t) ≡ (s, t)
unfolding span
span-append p [] [] h k = refl
span-append p [] (c ∷ t) h k = rw k
span-append p (c ∷ s) t h k =
    rw h.0 (ap (λ (m : List Char × List Char). (c ∷ m.0, m.1)) (span-append p s t h.1 k))
