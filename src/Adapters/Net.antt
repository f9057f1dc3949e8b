-- ===== src/Adapters/Net.antt =====
-- What the network adapters talk to: the clients of asyncpraw, Mastodon.py, atproto and tweepy, and an
-- HTTP server of feeds. None of it is in the repository, so it is a parameter: what it answers to a
-- request may depend on every request before. An adapter's method appends the requests it makes.
use Prim.Native.String.{◌++◌ as append}
use account_pool.Base.{
  length, ◌-◌, ◌+◌, ℕ, zero, suc, not, String, Bool, true, false, Option, none, some, List, [], ◌∷◌,
  ◌&&◌, any, if◌then◌else◌, ◌++◌, str_eq,
}
use account_pool.Base.Int.{ℤ, pos, negsuc}
use account_pool.Domain.Json.{
  field, end, Json, null, bool, num, text, arr, obj, Items, nil, cons, Fields, get_field, truthy,
}
use account_pool.Domain.Models.{ActionResult}
use account_pool.Runtime.Errors.{Error, Result, ok, raised}
use account_pool.Adapters.Xml.{Element}
use account_pool.Adapters.Fake.{decimal}

-- The methods that the adapters call, by client.
pub data Method : Type 0 where
  -- asyncpraw
  open_reddit user_me subreddit submit comment submission reply subreddit_search close : Method
  -- Mastodon.py
  open_mastodon account_verify_credentials account_update_credentials status_post status : Method
  search_v2 status_reblog status_favourite : Method
  -- atproto
  open_bluesky login me get_posts send_post search_posts repost like : Method
  -- tweepy
  open_twitter get_me create_tweet get_tweet search_recent_tweets retweet like_tweet : Method
  -- httpx
  get_feed : Method

-- A method that changes something on a platform.
abbrev pub is_update : Method → Bool
is_update Method.submit = true
is_update Method.reply = true
is_update Method.account_update_credentials = true
is_update Method.status_post = true
is_update Method.status_reblog = true
is_update Method.status_favourite = true
is_update Method.send_post = true
is_update Method.repost = true
is_update Method.like = true
is_update Method.create_tweet = true
is_update Method.retweet = true
is_update Method.like_tweet = true
is_update _ = false

-- A request of the client that was made from `client`, with its arguments by name.
pub record Request : Type 0 where
  pub client : Fields
  pub method : Method
  pub args : Fields

abbrev pub Requests : Type 0
Requests = List Request

-- `answer` is the platforms; `error_text` is `str` of the exception that was raised last;
-- `object_text` is `str` of an object of a client; `parse_xml` is `ET.fromstring`, where `none`
-- stands for its exception.
pub record Network : Type 0 where
  pub answer : Requests → Request → Result Json
  pub error_text : Requests → String
  pub object_text : Json → String
  pub parse_xml : String → Option Element

abbrev pub Net : Type 0 → Type 0
Net A = Requests → Result A × Requests

module _ {A : Type 0} where
  abbrev pub pure : A → Net A
  pure a log = (ok a, log)

  abbrev pub raise : Error → Net A
  raise e log = (raised e, log)

  -- A value that needs no request.
  abbrev pub lift : Result A → Net A
  lift r log = (r, log)

  abbrev pub or_raise : Option A → Error → Net A
  or_raise none e log = (raised e, log)
  or_raise (some a) e log = (ok a, log)

abbrev pub proceed : {A B : Type 0} → (A → Net B) → Result A → Net B
proceed f (ok a) log = f a log
proceed f (raised e) log = (raised e, log)

infixl 5 ◌>>=◌ ◌>>◌
abbrev pub ◌>>=◌ : {A B : Type 0} → Net A → (A → Net B) → Net B
◌>>=◌ m f log = let (r, log') = m log in proceed f r log'

abbrev pub ◌>>◌ : {A B : Type 0} → Net A → Net B → Net B
m >> n = m >>= λ _. n

-- `except Exception as exc`: the handler is given `str(exc)`.
abbrev pub on_exception : {A : Type 0} → Network → Net A → (String → A) → Net A
on_exception net m handler log =
    let (r, log') = m log in
    elim r [ ok a ↦ (ok a, log') | raised e ↦ (ok (handler (net.error_text log')), log') ]

-- `getattr(obj, key, None)`, and `obj.get(key)` of a dict
abbrev pub attr_or_null : String → Json → Json
attr_or_null k (obj fs) = elim (get_field k fs) [ none ↦ null | some v ↦ v ]
attr_or_null k _ = null

-- `obj.key`
abbrev pub attr : String → Json → Result Json
attr k (obj fs) = elim (get_field k fs) [ none ↦ raised Error.attribute_error | some v ↦ ok v ]
attr k _ = raised Error.attribute_error

-- `d.get(key)` of what ought to be a dict
abbrev pub dict_get : String → Json → Result Json
dict_get k (obj fs) = ok (elim (get_field k fs) [ none ↦ null | some v ↦ v ])
dict_get k _ = raised Error.attribute_error

-- `a or b`
abbrev pub or_json : Json → Json → Json
or_json a b = elim (truthy a) [ true ↦ a | false ↦ b ]

-- A value of a field of type `str | None`: `none` stands for `ValidationError`.
abbrev pub as_opt_str : Json → Result (Option String)
as_opt_str null = ok none
as_opt_str (text s) = ok (some s)
as_opt_str _ = raised Error.value_error

-- `str(value)`
abbrev pub py_str : Network → Json → String
py_str net null = "None"
py_str net (bool true) = "True"
py_str net (bool false) = "False"
py_str net (num (pos n)) = decimal n n
py_str net (num (negsuc n)) = append "-" (decimal (suc n) (suc n))
py_str net (text s) = s
py_str net value = net.object_text value

abbrev pub items_list : Items → List Json
items_list nil = []
items_list (cons v vs) = v ∷ items_list vs

-- `for x in value`
abbrev pub iterate : Json → Result (List Json)
iterate (arr vs) = ok (items_list vs)
iterate _ = raised Error.type_error

-- A value that ought to be a text.
abbrev pub text_value : Json → Option String
text_value (text s) = some s
text_value _ = none

-- `d.get(key)` of a dict of texts, where the value may be null
abbrev pub json_opt : Option String → Json
json_opt none = null
json_opt (some s) = text s

-- Whether a text that may be missing is truthy.
abbrev pub filled : Option String → Option String
filled none = none
filled (some s) = elim (str_eq s "") [ true ↦ none | false ↦ some s ]

abbrev pub is_null : Json → Bool
is_null null = true
is_null _ = false

-- `{k: v for k, v in credentials.items() if k in keys and v is not None}`
unfoldable pub keep_keys : List String → Fields → Fields
keep_keys keys end = end
keep_keys keys (field k v rest) =
    if any (str_eq k) keys && not (is_null v)
    then field k v (keep_keys keys rest)
    else keep_keys keys rest

-- A value for each of the values of a list, or the first exception.
unfoldable pub traverse : {A B : Type 0} → (A → Result B) → List A → Result (List B)
traverse f [] = ok []
traverse f (x ∷ xs) = elim (f x) [
  | raised e ↦ raised e
  | ok y ↦ elim (traverse f xs) [ raised e ↦ raised e | ok ys ↦ ok (y ∷ ys) ]
]

-- `xs[:n]`
unfoldable pub take : {A : Type 0} → ℕ → List A → List A
take zero xs = []
take (suc n) [] = []
take (suc n) (x ∷ xs) = x ∷ take n xs

-- `xs[:limit]`: a limit below 0 leaves items off at the end.
unfoldable pub up_to : {A : Type 0} → ℤ → List A → List A
unfolding take
up_to (pos n) xs = take n xs
up_to (negsuc n) xs = take (length xs - (n + 1)) xs

-- `credentials.get(key)`
abbrev pub credential : String → Fields → Json
credential k fs = elim (get_field k fs) [ none ↦ null | some v ↦ v ]

-- `ActionResult(ok=True, dry_run=True, detail=...)`
abbrev pub simulated : Fields → ActionResult
simulated detail = record {
  ok = true;
  external_id = none;
  url = none;
  dry_run = true;
  detail = detail;
}

-- `ActionResult(ok=True, external_id=..., url=..., detail=...)`
abbrev pub acted : Option String → Option String → Fields → ActionResult
acted external_id url detail = record {
  ok = true;
  external_id = external_id;
  url = url;
  dry_run = false;
  detail = detail;
}

module _ (net : Network) (client : Fields) where
  -- A call of a method of the client.
  unfoldable pub request : Method → Fields → Net Json
  request method args log =
      let q : Request = record { client = client; method = method; args = args } in
      (net.answer log q, log ++ q ∷ [])
