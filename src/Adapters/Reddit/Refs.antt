-- ===== src/Adapters/Reddit/Refs.antt =====
-- adapters/reddit.py: the references to Reddit that `parse_ref` takes apart, and the split of a query.
-- A regular expression is a recogniser; none of these has to go back in its text: where a class is
-- repeated, what must follow is outside of the class.
use Prim.Native.Char.{Char, code}
use Prim.Native.String.{◌++◌ as append}
use account_pool.Base.{
  ℕ, String, Bool, not, ◌&&◌, ◌||◌, Option, none, some, List, [], ◌∷◌, ◌==◌, ◌≡◌, refl, any,
  if◌then◌else◌,
}
use account_pool.Base.Chars.{
  chars, of_chars, is_empty, is_space, fold_case, is_alnum, is_word, is_user, span, strip,
}

-- The dict that `parse_ref` returns.
pub record Ref : Type 0 where
  pub kind : String
  pub id : String
  pub subreddit : Option String
  pub parent_id : Option String

-- A literal text at the beginning, in letters of either case: what follows it.
unfoldable pub literal : List Char → List Char → Option (List Char)
unfolding fold_case
literal [] s = some s
literal (c ∷ p) [] = none
literal (c ∷ p) (d ∷ s) = if fold_case (code d) == code c then literal p s else none

-- `/?` at the beginning
abbrev pub skip_slash : List Char → List Char
skip_slash [] = []
skip_slash (c ∷ s) = if code c == b'/' then s else c ∷ s

-- `/?$`, in a text that does not end in a line break
abbrev pub at_end : List Char → Bool
at_end s = is_empty (skip_slash s)

-- A repeated class: what matched, if that is not nothing, and the rest.
abbrev pub run_of : (ℕ → Bool) → List Char → Option (List Char × List Char)
run_of p s = let (run, rest) = span p s in if is_empty run then none else some (run, rest)

abbrev pub fullname_kind : ℕ → Option String
fullname_kind c =
    if c == b'1'
    then some "comment"
    else if c == b'3'
    then some "submission"
    else if c == b'5'
    then some "subreddit"
    else if c == b'2'
    then some "user"
    else none

abbrev pub whole_id : String → Option (List Char × List Char) → Option Ref
whole_id kind (some (run, [])) =
    some (record { kind = kind; id = of_chars run; subreddit = none; parent_id = none })
whole_id kind _ = none

-- `_FULLNAME_RE` and what is made of its match
unfoldable pub parse_fullname : List Char → Option Ref
unfolding fold_case span is_alnum
parse_fullname (t ∷ n ∷ u ∷ s) =
    if fold_case (code t) == b't' && code u == b'_'
    then elim (fullname_kind (code n)) [
      | none ↦ none
      | some kind ↦ whole_id kind (run_of is_alnum s)
    ]
    else none
parse_fullname _ = none

abbrev pub submission_ref : List Char → List Char → Ref
submission_ref sub id = record {
  kind = "submission";
  id = of_chars id;
  subreddit = some (of_chars sub);
  parent_id = none;
}

abbrev pub comment_ref : List Char → List Char → List Char → Ref
comment_ref sub id cid = record {
  kind = "comment";
  id = of_chars cid;
  subreddit = some (of_chars sub);
  parent_id = some (of_chars id);
}

-- `[^/\s]`
unfoldable pub is_slug : ℕ → Bool
is_slug c = not (c == b'/' || is_space c)

-- `(?:/(?P<cid>[a-z0-9]+))?`, after the slug
unfoldable pub after_slug : List Char → Option (List Char)
unfolding span is_alnum
after_slug [] = none
after_slug (c ∷ s) =
    if code c == b'/'
    then elim (run_of is_alnum s) [ none ↦ none | some (cid, rest) ↦ some cid ]
    else none

-- `(?:/[^/\s]*(?:/(?P<cid>[a-z0-9]+))?)?`: the group of the comment.
unfoldable pub comment_id : List Char → Option (List Char)
unfolding span is_slug after_slug
comment_id [] = none
comment_id (c ∷ s) = if code c == b'/' then after_slug (span is_slug s).1 else none

abbrev pub url_ref : List Char → List Char → Option (List Char) → Ref
url_ref sub id none = submission_ref sub id
url_ref sub id (some cid) = comment_ref sub id cid

-- The URL after its community: the submission and what follows it.
unfoldable pub url_tail : List Char → List Char → Option Ref
unfolding literal span is_alnum comment_id
url_tail sub s = elim (literal (chars "/comments/") s) [
  | none ↦ none
  | some t ↦ elim (run_of is_alnum t) [
    | none ↦ none
    | some (id, rest) ↦ some (url_ref sub id (comment_id rest))
  ]
]

-- `_URL_RE` at one position, and what is made of its match
unfoldable pub url_at : List Char → Option Ref
unfolding literal span is_word url_tail
url_at s = elim (literal (chars "reddit.com/r/") s) [
  | none ↦ none
  | some t ↦ elim (run_of is_word t) [ none ↦ none | some (sub, rest) ↦ url_tail sub rest ]
]

-- `_URL_RE.search`: the first position that matches.
unfoldable pub search_url : List Char → Option Ref
unfolding url_at
search_url [] = none
search_url (c ∷ s) = elim (url_at (c ∷ s)) [ some r ↦ some r | none ↦ search_url s ]

-- A class repeated up to the end, or to a last slash.
abbrev whole_run : (ℕ → Bool) → List Char → Option (List Char)
whole_run p s = elim (run_of p s) [
  | none ↦ none
  | some (run, rest) ↦ if at_end rest then some run else none
]

-- `_SUBREDDIT_RE`
unfoldable pub parse_subreddit : List Char → Option (List Char)
unfolding literal span is_word
parse_subreddit s = elim (literal (chars "r/") (skip_slash s)) [
  | none ↦ none
  | some t ↦ whole_run is_word t
]

-- `u(?:ser)?/`
unfoldable pub user_prefix : List Char → Option (List Char)
unfolding literal
user_prefix s = elim (literal (chars "u/") s) [ some t ↦ some t | none ↦ literal (chars "user/") s ]

-- `_USER_RE`
unfoldable pub parse_user : List Char → Option (List Char)
unfolding user_prefix span is_user
parse_user s = elim (user_prefix (skip_slash s)) [ none ↦ none | some t ↦ whole_run is_user t ]

abbrev subreddit_ref : List Char → Ref
subreddit_ref sub = record {
  kind = "subreddit";
  id = of_chars sub;
  subreddit = some (of_chars sub);
  parent_id = none;
}

abbrev user_ref : List Char → Ref
user_ref user = record {
  kind = "user";
  id = of_chars user;
  subreddit = some (append "u_" (of_chars user));
  parent_id = none;
}

abbrev bare_ref : List Char → Ref
bare_ref s = record { kind = "submission"; id = of_chars s; subreddit = none; parent_id = none }

-- `parse_ref`, after the text has been stripped
unfoldable pub parse_chars : List Char → Ref
unfolding parse_fullname search_url parse_subreddit parse_user
parse_chars s = elim (parse_fullname s) [
  | some r ↦ r
  | none ↦ elim (search_url s) [
    | some r ↦ r
    | none ↦ elim (parse_subreddit s) [
      | some sub ↦ subreddit_ref sub
      | none ↦ elim (parse_user s) [ some user ↦ user_ref user | none ↦ bare_ref s ]
    ]
  ]
]

-- `parse_ref`
unfoldable pub parse_ref : String → Ref
unfolding strip parse_chars
parse_ref raw = parse_chars (strip (chars raw))

abbrev is_newline : ℕ → Bool
is_newline c = c == 10

-- The terms of a query: `.` does not match a line break.
abbrev terms_of : List Char → List Char → Option (String × String)
terms_of sub s =
    if is_empty s || any (λ c. is_newline (code c)) s
    then none
    else some (of_chars sub, of_chars (strip s))

-- The match of the pattern of `_split_query`
unfoldable pub match_query : List Char → Option (String × String)
unfolding literal span is_word is_space strip
match_query s = elim (literal (chars "r/") (skip_slash s)) [
  | none ↦ none
  | some t ↦ elim (run_of is_word t) [
    | none ↦ none
    | some (sub, rest) ↦ elim (run_of is_space rest) [
      | none ↦ none
      | some (gap, terms) ↦ terms_of sub terms
    ]
  ]
]

-- `_split_query`
unfoldable pub split_query : String → Option String × String
unfolding strip match_query
split_query query = elim (match_query (strip (chars query))) [
  | none ↦ (none, of_chars (strip (chars query)))
  | some (sub, terms) ↦ (some sub, terms)
]

abbrev comment_link : Ref
comment_link = parse_ref " https://www.reddit.com/r/python/comments/1abc/a_title/k9z/?x=1 "

comment_link_parses :
    comment_link
    ≡ record { kind = "comment"; id = "k9z"; subreddit = some "python"; parent_id = some "1abc" }
unfolding parse_ref is_space
comment_link_parses = refl

query_splits : split_query "r/python  async praw" ≡ (some "python", "async praw")
unfolding split_query
query_splits = refl

user_parses : (parse_ref "/user/Some-One/").subreddit ≡ some "u_Some-One"
unfolding parse_ref is_space
user_parses = refl
