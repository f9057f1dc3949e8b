-- ===== src/Adapters/Xml.antt =====
-- adapters/_feeds.py: RSS and Atom feeds, as the trees of elements that `xml.etree` makes of them.
pub mod Limit
use Prim.Native.Char.{Char, code}
use account_pool.Base.{
  ℕ, String, Option, none, some, List, [], ◌∷◌, ◌++◌, ◌==◌, leb, str_eq, any, length, if◌then◌else◌,
}
use account_pool.Base.Chars.{chars, of_chars, strip_text, take_chars}
use account_pool.Domain.Json.{Json, null, text, Fields, end, field}

-- An element: its tag, its attributes, its text and its children.
mutual
  pub data Element : Type 0 where
    element : String → List (String × String) → Option String → Elements → Element

  pub data Elements : Type 0 where
    nil : Elements
    cons : Element → Elements → Elements

abbrev pub tag_of : Element → String
tag_of (element tag attributes t children) = tag

abbrev text_of : Element → Option String
text_of (element tag attributes t children) = t

abbrev children_of : Element → Elements
children_of (element tag attributes t children) = children

-- `el.get(key)`
abbrev attribute : String → List (String × String) → Option String
attribute k [] = none
attribute k ((j, v) ∷ rest) = if str_eq j k then some v else attribute k rest

abbrev get_attribute : String → Element → Option String
get_attribute k (element tag attributes t children) = attribute k attributes

abbrev after_last : List Char → List Char → List Char
after_last best [] = best
after_last best (c ∷ s) = after_last (if code c == b'}' then s else best) s

-- `_localname`: the tag without its namespace.
unfoldable pub local_name : String → String
local_name tag = of_chars (after_last (chars tag) (chars tag))

-- Whether `child.text` is truthy, and what it is.
abbrev with_text : Option String → Option String
with_text none = none
with_text (some s) = if str_eq s "" then none else some s

-- `_child_text`
unfoldable pub child_text : List String → Elements → Option String
unfolding local_name strip_text
child_text names nil = none
child_text names (cons child rest) =
    let later = child_text names rest in
    if any (str_eq (local_name (tag_of child))) names
    then elim (with_text (text_of child)) [ none ↦ later | some t ↦ some (strip_text t) ]
    else later

abbrev or_null : Option String → Json
or_null none = null
or_null (some s) = text s

-- `(... or "")[:500] or None`
unfoldable pub summary_of : Option String → Json
unfolding take_chars
summary_of none = null
summary_of (some s) =
    let short = of_chars (take_chars 500 (chars s)) in if str_eq short "" then null else text short

-- `_rss_item`
unfoldable pub rss_item : Element → Fields
unfolding child_text summary_of
rss_item e =
    let inside = children_of e in
    field "title" (or_null (child_text ("title" ∷ []) inside)) (
      field "link" (or_null (child_text ("link" ∷ "guid" ∷ []) inside)) (
        field "author" (or_null (child_text ("creator" ∷ []) inside)) (
          field "published" (or_null (child_text ("pubDate" ∷ []) inside)) (
            field "summary" (summary_of (child_text ("description" ∷ "encoded" ∷ []) inside))
              end))))

-- `child.get("href") or link`
abbrev href_or : Element → Option String → Option String
href_or e link = elim (get_attribute "href" e) [
  | none ↦ link
  | some h ↦ if str_eq h "" then link else some h
]

-- The loop of `_atom_entry`: the last link with an address counts.
unfoldable pub last_link : Option String → Elements → Option String
unfolding local_name
last_link link nil = link
last_link link (cons e rest) =
    last_link (if str_eq (local_name (tag_of e)) "link" then href_or e link else link) rest

-- `_atom_entry`
unfoldable pub atom_entry : Element → Fields
unfolding child_text summary_of last_link
atom_entry e =
    let inside = children_of e in
    field "title" (or_null (child_text ("title" ∷ []) inside)) (
      field "link" (or_null (last_link none inside)) (
        field "author" null (
          field "published" (or_null (child_text ("published" ∷ "updated" ∷ []) inside))
            (field "summary" (summary_of (child_text ("summary" ∷ "content" ∷ []) inside)) end))))

-- What one element of the tree gives, if it is an item or an entry.
unfoldable pub entry_of : Element → Option Fields
unfolding local_name rss_item atom_entry
entry_of e =
    let tag = local_name (tag_of e) in
    if str_eq tag "item"
    then some (rss_item e)
    else if str_eq tag "entry"
    then some (atom_entry e)
    else none

-- `root.iter()`: the tree in the order of the document.
unfoldable mutual
  pub iter : Element → List Element
  iter (element tag attributes t children) = element tag attributes t children ∷ iter_all children

  pub iter_all : Elements → List Element
  iter_all nil = []
  iter_all (cons e rest) = iter e ++ iter_all rest

abbrev added : List Fields → Option Fields → List Fields
added items none = items
added items (some f) = items ++ f ∷ []

-- The loop of `parse_feed`, which looks at the limit after each element.
unfoldable pub collect : ℕ → List Fields → List Element → List Fields
unfolding entry_of
collect limit items [] = items
collect limit items (e ∷ rest) =
    let grown = added items (entry_of e) in
    let more = collect limit grown rest in if leb limit (length grown) then grown else more

-- `parse_feed`, after the text has been parsed
unfoldable pub parse_feed : ℕ → Element → List Fields
unfolding collect iter
parse_feed limit root = collect limit [] (iter root)
