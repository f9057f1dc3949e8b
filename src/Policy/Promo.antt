-- ===== src/Policy/Promo.antt =====
-- policy/trackers.py: `is_promotional`, over the code points of a draft's body.
use account_pool.Base.{
  ℕ, zero, suc, ◌-◌, ◌+◌, Bool, true, false, ◌&&◌, ◌||◌, Option, none, some, List, [], ◌∷◌, map,
  leb, ◌==◌, any, length, if◌then◌else◌,
}
use account_pool.Base.Text.{codes, codes_eq, has_prefix, has_suffix, lower}
use account_pool.Domain.Models.{Account, ContentDraft}

-- `\s` of a `str` pattern
unfoldable pub is_space : ℕ → Bool
is_space c =
    leb 9 c && leb c 13
    || leb 28 c && leb c 32
    || c == 133
    || c == 160
    || c == 5760
    || leb 8192 c && leb c 8202
    || c == 8232
    || c == 8233
    || c == 8239
    || c == 8287
    || c == 12288

-- One character of the pattern under `re.IGNORECASE`: `s` also matches the long s, U+017F.
unfoldable pub matches_letter : ℕ → ℕ → Bool
matches_letter p c = c == p || c == p - 32 || p == b's' && c == 383

unfoldable pub matches_scheme : List ℕ → List ℕ → Bool
unfolding matches_letter
matches_scheme [] cs = true
matches_scheme (p ∷ ps) [] = false
matches_scheme (p ∷ ps) (c ∷ cs) = matches_letter p c && matches_scheme ps cs

-- `[^/\s]+`, as far as it goes.
unfoldable pub host_at : List ℕ → List ℕ
unfolding is_space
host_at [] = []
host_at (c ∷ cs) = if c == b'/' || is_space c then [] else c ∷ host_at cs

abbrev drop : ℕ → List ℕ → List ℕ
drop zero cs = cs
drop (suc n) [] = []
drop (suc n) (c ∷ cs) = drop n cs

-- The length of `http://` or `https://` where the text begins with one.
unfoldable pub scheme_length : List ℕ → Option ℕ
unfolding matches_scheme
scheme_length cs =
    if matches_scheme (codes "https") cs && has_prefix (codes "://") (drop 5 cs)
    then some 8
    else if matches_scheme (codes "http") cs && has_prefix (codes "://") (drop 4 cs)
    then some 7
    else none

-- The host of the address that the text begins with, and how many characters the match takes.
unfoldable pub match_url : List ℕ → Option (List ℕ × ℕ)
unfolding scheme_length host_at
match_url cs = elim (scheme_length cs) [
  | none ↦ none
  | some n ↦ elim (host_at (drop n cs)) [ [] ↦ none | h ∷ hs ↦ some (h ∷ hs, n + length (h ∷ hs)) ]
]

-- `_URL_RE.findall`: `skip` characters belong to the last match.
unfoldable pub find_hosts : ℕ → List ℕ → List (List ℕ)
unfolding match_url
find_hosts skip [] = []
find_hosts (suc skip) (c ∷ cs) = find_hosts skip cs
find_hosts zero (c ∷ cs) = elim (match_url (c ∷ cs)) [
  | none ↦ find_hosts zero cs
  | some (host, n) ↦ host ∷ find_hosts (n - 1) cs
]

unfoldable pub strip_www : List ℕ → List ℕ
strip_www host = if has_prefix (codes "www.") host then drop 4 host else host

-- `host == d or host.endswith("." + d)`
unfoldable pub belongs_to : List ℕ → List ℕ → Bool
belongs_to host d = codes_eq host d || has_suffix (b'.' ∷ d) host

unfoldable pub is_promotional : ContentDraft → Account → Bool
unfolding find_hosts strip_www belongs_to
is_promotional draft account =
    any (λ raw. any (belongs_to (strip_www (lower raw))) owned) (find_hosts 0 (codes draft.body))
  where
    owned : List (List ℕ)
    owned = map (λ d. strip_www (lower (codes d))) account.persona.owned_domains
