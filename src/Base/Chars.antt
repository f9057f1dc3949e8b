-- ===== src/Base/Chars.antt =====
-- Texts as lists of characters, with the methods of `str` and the classes of `re` that the adapters
-- use. The tables are those of Python 3.11 (Unicode 14).
use Prim.Native.Char.{Char, code}
use Prim.Native.Nat.{ℕ, zero, suc, ◌+◌, ◌-◌}
use Prim.Native.String.{String}
use mathlib.Core.Path.{◌≡◌, refl}
use mathlib.Core.Bool.{Bool, true, false, ◌&&◌, ◌||◌}
use mathlib.Core.List.{List, [], ◌∷◌}
use native.Mathlib.Omega.{arith}
use account_pool.Base.Tests.{leb, ltb, ◌==◌, if◌then◌else◌}
use account_pool.Base.Lists.{any}

-- `String` has its own `[]` and `∷`.
abbrev pub chars : String → List Char
chars String.[] = []
chars (String.◌∷◌ c s) = c ∷ chars s

abbrev pub of_chars : List Char → String
of_chars [] = String.[]
of_chars (c ∷ s) = String.◌∷◌ c (of_chars s)

pub chars-of_chars : (s : List Char) → chars (of_chars s) ≡ s
chars-of_chars [] = refl
chars-of_chars (c ∷ s) = ground (arith, chars-of_chars s)

pub of_chars-chars : (s : String) → of_chars (chars s) ≡ s
of_chars-chars String.[] = refl
of_chars-chars (String.◌∷◌ c s) = ground (arith, of_chars-chars s)

abbrev pub is_empty {ℓ} : {A : Type ℓ} → List A → Bool
is_empty [] = true
is_empty (x ∷ xs) = false

-- `str.isspace` of a character, which is also `\s`
unfoldable pub is_space : ℕ → Bool
is_space c =
    (leb 9 c && leb c 13)
    || (leb 28 c && leb c 32)
    || c == 0x85
    || c == 0xa0
    || c == 0x1680
    || (leb 0x2000 c && leb c 0x200a)
    || c == 0x2028
    || c == 0x2029
    || c == 0x202f
    || c == 0x205f
    || c == 0x3000

-- The zeros of the runs of ten decimal digits.
abbrev digit_zeros : List ℕ
digit_zeros =
    48 ∷ 1632 ∷ 1776 ∷ 1984 ∷ 2406 ∷ 2534 ∷ 2662 ∷ 2790 ∷ 2918 ∷ 3046 ∷ 3174 ∷ 3302 ∷ 3430 ∷ 3558
    ∷ 3664 ∷ 3792 ∷ 3872 ∷ 4160 ∷ 4240 ∷ 6112 ∷ 6160 ∷ 6470 ∷ 6608 ∷ 6784 ∷ 6800 ∷ 6992 ∷ 7088
    ∷ 7232 ∷ 7248 ∷ 42528 ∷ 43216 ∷ 43264 ∷ 43472 ∷ 43504 ∷ 43600 ∷ 44016 ∷ 65296 ∷ 66720 ∷ 68912
    ∷ 69734 ∷ 69872 ∷ 69942 ∷ 70096 ∷ 70384 ∷ 70736 ∷ 70864 ∷ 71248 ∷ 71360 ∷ 71472 ∷ 71904 ∷ 72016
    ∷ 72784 ∷ 73040 ∷ 73120 ∷ 92768 ∷ 92864 ∷ 93008 ∷ 120782 ∷ 120792 ∷ 120802 ∷ 120812 ∷ 120822
    ∷ 123200 ∷ 123632 ∷ 125264 ∷ 130032 ∷ []

-- `\d`
unfoldable pub is_digit : ℕ → Bool
is_digit c = any (λ z. leb z c && ltb c (z + 10)) digit_zeros

-- What `re.IGNORECASE` compares by, as far as the letters a to z have other cases.
unfoldable pub fold_case : ℕ → ℕ
fold_case c =
    if leb b'A' c && leb c b'Z'
    then c + 32
    else if c == 0x130 || c == 0x131
    then b'i'
    else if c == 0x17f
    then b's'
    else if c == 0x212a
    then b'k'
    else c

abbrev between : ℕ → ℕ → ℕ → Bool
between a b c = leb a c && leb c b

-- `[a-z0-9]`, `[A-Za-z0-9_]` and `[A-Za-z0-9_-]` under `re.IGNORECASE`
unfoldable pub is_alnum : ℕ → Bool
unfolding fold_case
is_alnum c = between b'a' b'z' (fold_case c) || between b'0' b'9' c

unfoldable pub is_word : ℕ → Bool
unfolding is_alnum
is_word c = is_alnum c || c == b'_'

unfoldable pub is_user : ℕ → Bool
unfolding is_word
is_user c = is_word c || c == b'-'

-- The longest beginning in a class of characters, and the rest.
unfoldable pub span : (ℕ → Bool) → List Char → List Char × List Char
span p [] = ([], [])
span p (c ∷ s) = let (run, rest) = span p s in if p (code c) then (c ∷ run, rest) else ([], c ∷ s)

-- `str.lstrip`
unfoldable pub lstrip : List Char → List Char
lstrip [] = []
lstrip (c ∷ s) = if is_space (code c) then lstrip s else c ∷ s

-- `str.rstrip(chars)`, by what is cut
unfoldable pub rstrip : (ℕ → Bool) → List Char → List Char
rstrip p [] = []
rstrip p (c ∷ s) = let rest = rstrip p s in if is_empty rest && p (code c) then [] else c ∷ rest

-- `str.strip`
unfoldable pub strip : List Char → List Char
unfolding lstrip rstrip
strip s = rstrip is_space (lstrip s)

-- `str.startswith`
unfoldable pub begins : List Char → List Char → Bool
begins [] s = true
begins (c ∷ p) [] = false
begins (c ∷ p) (d ∷ s) = code c == code d && begins p s

-- `s[:n]`
unfoldable pub take_chars : ℕ → List Char → List Char
take_chars zero s = []
take_chars (suc n) [] = []
take_chars (suc n) (c ∷ s) = c ∷ take_chars n s

abbrev nth_char : ℕ → List Char → Char → Char
nth_char n [] c = c
nth_char zero (d ∷ s) c = d
nth_char (suc n) (d ∷ s) c = nth_char n s c

abbrev lower_char : Char → Char
lower_char c =
    if code c == 0x212a
    then "k"
    else if between b'A' b'Z' (code c)
    then nth_char (code c - 65) (chars "abcdefghijklmnopqrstuvwxyz") c
    else c

-- `str.lower`, as far as it gives letters of ASCII: U+0130 becomes an i and a dot above.
unfoldable pub lower_chars : List Char → List Char
lower_chars [] = []
lower_chars (c ∷ s) =
    let rest = lower_chars s in
    if code c == 0x130 then "i" ∷ Char.char 775 tt ∷ rest else lower_char c ∷ rest

unfoldable pub strip_text : String → String
unfolding strip
strip_text s = of_chars (strip (chars s))

unfoldable pub lower_text : String → String
unfolding lower_chars
lower_text s = of_chars (lower_chars (chars s))

strips : strip_text "  r/ python \n" ≡ "r/ python"
unfolding strip_text is_space
strips = refl

lowers : lower_text "U_Ann" ≡ "u_ann"
unfolding lower_text
lowers = refl
