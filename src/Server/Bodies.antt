-- ===== src/Server/Bodies.antt =====
-- server/rest_admin.py: the arguments in the body of a request, a JSON object. A value of another type
-- than the services are written for is refused where it is read, as `TypeError`.
use account_pool.Base.{
  ℕ, String, Bool, true, false, Option, none, some, List, [], ◌∷◌, ◌==◌, str_eq, if◌then◌else◌,
}
use account_pool.Base.Int.{ℤ, pos, negsuc}
use account_pool.Base.Chars.{lower_text}
use account_pool.Domain.Json.{
  Json, null, bool, num, text, arr, obj, Items, nil, cons, Fields, end, field, get_field,
}
use account_pool.Runtime.Errors.{Error, Result, ok, raised}
use account_pool.Accounts.Patch.{Update}

-- `body[key]`
abbrev pub must : String → Fields → Result Json
must k body = elim (get_field k body) [ none ↦ raised Error.key_error | some v ↦ ok v ]

-- `body.get(key)`
abbrev pub may : String → Fields → Json
may k body = elim (get_field k body) [ none ↦ null | some v ↦ v ]

abbrev pub as_text : Json → Result String
as_text (text s) = ok s
as_text _ = raised Error.type_error

abbrev pub as_text? : Json → Result (Option String)
as_text? null = ok none
as_text? (text s) = ok (some s)
as_text? _ = raised Error.type_error

abbrev pub as_fields : Json → Result Fields
as_fields (obj fs) = ok fs
as_fields _ = raised Error.type_error

abbrev pub as_fields? : Json → Result (Option Fields)
as_fields? null = ok none
as_fields? (obj fs) = ok (some fs)
as_fields? _ = raised Error.type_error

unfoldable pub texts : Items → Option (List String)
texts nil = some []
texts (cons (text s) rest) = elim (texts rest) [ none ↦ none | some more ↦ some (s ∷ more) ]
texts (cons _ rest) = none

abbrev pub as_texts : Json → Result (List String)
as_texts (arr vs) = elim (texts vs) [ none ↦ raised Error.type_error | some ss ↦ ok ss ]
as_texts _ = raised Error.type_error

abbrev pub as_texts? : Json → Result (Option (List String))
as_texts? null = ok none
as_texts? v = elim (as_texts v) [ raised e ↦ raised e | ok ss ↦ ok (some ss) ]

abbrev pub as_int? : Json → Result (Option ℤ)
as_int? null = ok none
as_int? (num z) = ok (some z)
as_int? _ = raised Error.type_error

-- `body.get(key, {})`
abbrev pub fields_or_none : String → Fields → Result Fields
fields_or_none k body = elim (get_field k body) [ none ↦ ok end | some v ↦ as_fields v ]

-- A version; no stored version is negative, so a negative number conflicts with each.
abbrev pub as_version : Json → Result (Option ℕ)
as_version (num (pos n)) = ok (some n)
as_version (num (negsuc n)) = ok none
as_version _ = raised Error.type_error

-- `body.get(key, default)`
abbrev pub text_or : String → String → Fields → Result String
text_or k default body = elim (get_field k body) [ none ↦ ok default | some v ↦ as_text v ]

-- What pydantic takes for a `bool`
unfoldable pub lax_bool : Json → Option Bool
unfolding lower_text
lax_bool (bool b) = some b
lax_bool (num (pos n)) = if n == 0 then some false else if n == 1 then some true else none
lax_bool (text s) =
    let t = lower_text s in
    if str_eq t "true"
    then some true
    else if str_eq t "false"
    then some false
    else if str_eq t "1"
    then some true
    else if str_eq t "0"
    then some false
    else if str_eq t "yes"
    then some true
    else if str_eq t "no"
    then some false
    else if str_eq t "on"
    then some true
    else if str_eq t "off"
    then some false
    else if str_eq t "y"
    then some true
    else if str_eq t "n"
    then some false
    else if str_eq t "t"
    then some true
    else if str_eq t "f"
    then some false
    else none
lax_bool _ = none

abbrev or_invalid : {A : Type 0} → Option A → (A → Update) → Update
or_invalid none f = Update.invalid
or_invalid (some a) f = f a

abbrev fields_of : Json → Option Fields
fields_of (obj fs) = some fs
fields_of _ = none

abbrev texts_of : Json → Option (List String)
texts_of (arr vs) = texts vs
texts_of _ = none

abbrev text_or_null : Json → Option (Option String)
text_or_null null = some none
text_or_null (text s) = some (some s)
text_or_null _ = none

abbrev text_of : Json → Option String
text_of (text s) = some s
text_of _ = none

-- An item of `updates`, by its key.
unfoldable pub to_update : String → Json → Update
unfolding texts lax_bool
to_update k v =
    if str_eq k "persona"
    then or_invalid (fields_of v) Update.persona
    else if str_eq k "tags"
    then or_invalid (texts_of v) Update.tags
    else if str_eq k "pool"
    then or_invalid (text_or_null v) Update.pool
    else if str_eq k "policy_overrides"
    then or_invalid (fields_of v) Update.policy_overrides
    else if str_eq k "requires_approval"
    then or_invalid (lax_bool v) Update.requires_approval
    else if str_eq k "status"
    then or_invalid (text_of v) Update.status
    else Update.unknown k

unfoldable pub to_updates : Fields → List Update
unfolding to_update
to_updates end = []
to_updates (field k v rest) = to_update k v ∷ to_updates rest
