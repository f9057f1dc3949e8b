-- ===== src/Adapters/Reddit/Owned.antt =====
-- adapters/reddit.py: whom `resolve_target` takes a link to belong to, and what a comment on it replies to.
use Prim.Native.Char.{Char}
use account_pool.Base.{String, ◌≡◌, true, some, List, ap, ◌∙◌, str_eq, eq_refl}
use account_pool.Base.Chars.{of_chars, lower_text}
use account_pool.Domain.Json.{text, end, field}
use account_pool.Adapters.Interface.{AdapterSession}
use account_pool.Adapters.Net.{Network, Method, request}
use account_pool.Adapters.Reddit.{ask_parent, fetch_parent}
use account_pool.Adapters.Reddit.Posts.{reddit_resolve, reddit_kwargs, profile_of, text_or}
use account_pool.Adapters.Reddit.Refs.{Ref}
use account_pool.Adapters.Reddit.Links.{comment_link, IsLink, parse_ref-link}

-- Whatever comment of Reddit a link names by its id, if its text names the account's own profile as the
-- community, the reference is taken to be the account's own; and what a comment on it replies to is
-- asked for by that id alone.
pub link_is_owned :
    (net : Network) (s : AdapterSession) (profile id slug cid : List Char)
    → IsLink profile id slug cid
    → of_chars profile ≡ profile_of s
    → let t = reddit_resolve s (of_chars (comment_link profile id slug cid)) in
      (t.is_owned ≡ true)
      × (fetch_parent net s t
          ≡ request net
              (reddit_kwargs s.credentials)
              Method.comment
              (field "id" (text (of_chars cid)) end))
unfolding reddit_resolve fetch_parent
link_is_owned net s profile id slug cid h own =
    let raw = of_chars (comment_link profile id slug cid) in
    let parsed = parse_ref-link profile id slug cid h in
    (
      ap (λ (r : Ref). str_eq (lower_text (text_or r.subreddit)) (lower_text (profile_of s))) parsed
          ∙ ap (λ (p : String). str_eq (lower_text p) (lower_text (profile_of s))) own
          ∙ eq_refl (lower_text (profile_of s)),
      ap (λ (r : Ref). ask_parent net s (some r.kind) r) parsed,
    )
