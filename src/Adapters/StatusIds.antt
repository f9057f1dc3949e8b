-- ===== src/Adapters/StatusIds.antt =====
-- adapters/mastodon.py and twitter.py: the id at the end of a reference to a status.
pub mod Digits
use Prim.Native.Char.{Char, code}
use account_pool.Base.{
  String, Bool, true, false, not, ◌&&◌, ◌||◌, Option, none, some, List, [], ◌∷◌, ◌==◌, ◌≡◌, refl,
  if◌then◌else◌,
}
use account_pool.Base.Chars.{chars, of_chars, is_empty, is_space, is_digit, span, strip}

-- `/?$`, in a text that does not end in a line break
abbrev pub slash_or_end : List Char → Bool
slash_or_end [] = true
slash_or_end (c ∷ s) = code c == b'/' && is_empty s

-- `(\d+)/?$` at one position
unfoldable pub digits_at : List Char → Option (List Char)
digits_at s =
    let (run, rest) = span is_digit s in
    if not (is_empty run) && slash_or_end rest then some run else none

-- `re.search`: the first position that matches.
unfoldable pub search_digits : List Char → Option (List Char)
search_digits [] = none
search_digits (c ∷ s) = elim (digits_at (c ∷ s)) [ some ds ↦ some ds | none ↦ search_digits s ]

-- `m.group(1) if m else raw`
abbrev pub found_or : List Char → Option (List Char) → List Char
found_or s (some ds) = ds
found_or s none = s

abbrev pub id_of : List Char → List Char
id_of s = found_or s (search_digits s)

-- `_status_id` and `_tweet_id`
unfoldable pub status_id : String → String
unfolding strip
status_id raw = of_chars (id_of (strip (chars raw)))

link_of_status : status_id " https://mastodon.social/@ann/1095\n" ≡ "1095"
unfolding status_id search_digits digits_at span is_space is_digit
link_of_status = refl
