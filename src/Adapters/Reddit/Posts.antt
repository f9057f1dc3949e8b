-- ===== src/Adapters/Reddit/Posts.antt =====
-- adapters/reddit.py: the keys of the client, what the adapter can do and what it takes a reference for,
-- and what it shows of a post.
use Prim.Native.String.{◌++◌ as append}
use account_pool.Base.{
  String, Bool, true, false, Option, none, some, List, [], ◌∷◌, str_eq, if◌then◌else◌,
}
use account_pool.Base.Chars.{strip_text, lower_text}
use account_pool.Domain.Json.{Json, null, text, Fields, end, field, truthy}
use account_pool.Domain.Enums.{Platform, PublishMode}
use account_pool.Domain.Models.{Capabilities, ContentDraft, TargetRef}
use account_pool.Adapters.Interface.{AdapterSession}
use account_pool.Adapters.Net.{keep_keys, Network, attr_or_null, or_json, py_str, json_opt, filled}
use account_pool.Adapters.Reddit.Refs.{parse_ref}

-- The keys of the credentials that asyncpraw is given.
abbrev pub reddit_keys : List String
reddit_keys =
    "client_id" ∷ "client_secret" ∷ "user_agent" ∷ "refresh_token" ∷ "username" ∷ "password"
    ∷ "redirect_uri" ∷ []

-- `kwargs.setdefault(key, value)`
unfoldable pub set_default : String → Json → Fields → Fields
set_default k v end = field k v end
set_default k v (field j w rest) =
    if str_eq j k then field j w rest else field j w (set_default k v rest)

-- `_default_client_factory`: what asyncpraw is given
unfoldable pub reddit_kwargs : Fields → Fields
unfolding keep_keys set_default
reddit_kwargs credentials =
    set_default "user_agent" (text "account-pool/0.1 (compliance-first social account pool)")
      (keep_keys reddit_keys credentials)

-- `_ext_id`
abbrev pub ext_id : Json → Json
ext_id o = or_json (attr_or_null "fullname" o) (attr_or_null "id" o)

-- `_author`
abbrev pub author_of : Json → Json
author_of o = attr_or_null "name" (attr_or_null "author" o)

unfoldable pub reddit_capabilities : Capabilities
reddit_capabilities = record {
  platform = Platform.reddit;
  publish_mode = PublishMode.api;
  can_publish = true;
  can_comment = true;
  can_read = true;
  can_search = true;
  can_react = false;
  can_vote = true;
  supports_media = false;
  requires_bot_flag = false;
  self_label_supported = false;
  max_text_len = some 40000;
  reaction_kinds = [];
}

abbrev pub profile_of : AdapterSession → String
profile_of s = append "u_" s.account.handle

-- `value or ""`
abbrev pub text_or : Option String → String
text_or none = ""
text_or (some s) = s

-- `resolve_target`
unfoldable pub reddit_resolve : AdapterSession → String → TargetRef
unfolding lower_text
reddit_resolve s raw =
    let ref = parse_ref raw in
    record {
      raw = raw;
      platform = some Platform.reddit;
      kind = some ref.kind;
      container = ref.subreddit;
      parent_id = ref.parent_id;
      is_owned = str_eq (lower_text (text_or ref.subreddit)) (lower_text (profile_of s));
      resolved = true;
    }

-- `(draft.title or "").strip()`
abbrev pub title_of : ContentDraft → String
title_of d = elim d.title [ none ↦ "" | some t ↦ strip_text t ]

module _ (net : Network) where
  -- `_permalink`
  abbrev pub permalink : Json → Option String
  permalink o =
      let p = attr_or_null "permalink" o in
      if truthy p then some (append "https://www.reddit.com" (py_str net p)) else none

  -- `str(getattr(post, "subreddit", "") or "") or None`
  abbrev pub subreddit_name : Json → Json
  subreddit_name o =
      let v = attr_or_null "subreddit" o in
      if truthy v then json_opt (filled (some (py_str net v))) else null

  -- `_post_summary`
  unfoldable pub post_summary : Bool → Json → Fields
  post_summary include_body post = field "id" (attr_or_null "id" post) (
      field "fullname" (attr_or_null "fullname" post) (
        field "title" (attr_or_null "title" post) (
          field "subreddit" (subreddit_name post) (
            field "author" (author_of post) (
              field "score" (attr_or_null "score" post) (
                field "num_comments" (attr_or_null "num_comments" post) (
                  field "permalink" (json_opt (permalink post)) (
                    if include_body
                    then field "selftext" (attr_or_null "selftext" post) end
                    else end))))))))
