-- ===== src/Accounts/Identity.antt =====
-- domain/ids.py: `account_id` and the slug of a handle. `str.lower` is that of ASCII.
use Prim.Native.Char.{Char, code}
use Prim.Native.String.{◌++◌ as append}
use account_pool.Base.{
  ℕ, zero, suc, ◌-◌, String, Bool, true, false, ◌&&◌, ◌||◌, List, [], ◌∷◌, leb, str_eq,
  if◌then◌else◌,
}
use account_pool.Domain.Enums.{Platform, platform_value}
use account_pool.Runtime.World.{Env}
use account_pool.Runtime.Monad.{Prog, pure, draw, ◌>>=◌}

abbrev letters : List String
letters =
    "a" ∷ "b" ∷ "c" ∷ "d" ∷ "e" ∷ "f" ∷ "g" ∷ "h" ∷ "i" ∷ "j" ∷ "k" ∷ "l" ∷ "m" ∷ "n" ∷ "o" ∷ "p"
    ∷ "q" ∷ "r" ∷ "s" ∷ "t" ∷ "u" ∷ "v" ∷ "w" ∷ "x" ∷ "y" ∷ "z" ∷ []

abbrev pick : ℕ → List String → String
pick n [] = ""
pick zero (s ∷ rest) = s
pick (suc n) (s ∷ rest) = pick n rest

abbrev is_upper : ℕ → Bool
is_upper c = leb b'A' c && leb c b'Z'

-- `[a-z0-9]` after `lower`
abbrev is_kept : ℕ → Bool
is_kept c = (leb b'a' c && leb c b'z') || (leb b'0' c && leb c b'9') || is_upper c

abbrev lowered : Char → String
lowered c = if is_upper (code c) then pick (code c - b'A') letters else String.◌∷◌ c ""

-- Runs of other characters become a dash, but for those at either end, which `strip` removes: a dash
-- is written before a character that is kept, if there was a gap after an earlier one.
unfoldable pub slug_from : Bool → Bool → String → String
slug_from started gap String.[] = ""
slug_from started gap (String.◌∷◌ c s) =
    let next = slug_from true false s in
    let skip = slug_from started true s in
    if is_kept (code c)
    then append (if started && gap then "-" else "") (append (lowered c) next)
    else skip

-- `_slug`
unfoldable pub slug : String → String
unfolding slug_from
slug handle = let s = slug_from false false handle in if str_eq s "" then "acct" else s

-- `account_id`
unfoldable pub mint_account_id : Env → Platform → String → Prog String
unfolding slug
mint_account_id env platform handle = draw env >>= λ hex. pure (
    append "acct_"
      (append (platform_value platform) (append "_" (append (slug handle) (append "_" hex)))))
