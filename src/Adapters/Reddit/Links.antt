-- ===== src/Adapters/Reddit/Links.antt =====
-- adapters/reddit.py: `parse_ref` finds the parts of the link to a comment.
use Prim.Native.Char.{Char, code}
use account_pool.Base.{
  ℕ, ◌≡◌, refl, Bool, true, false, some, List, [], ◌∷◌, ◌++◌, arith, ap, ◌∙◌, sym,
}
use account_pool.Base.Chars.{
  chars, of_chars, is_empty, is_space, fold_case, is_alnum, is_word, span, lstrip, rstrip, strip,
  chars-of_chars,
}
use account_pool.Base.Runs.{AllIn, Stops, span-append}
use account_pool.Adapters.Reddit.Refs.{
  run_of, is_slug, after_slug, comment_id, comment_ref, url_tail, url_at, search_url, parse_chars,
  parse_ref,
}

alnum_not_space : (c : ℕ) → is_alnum c ≡ true → is_space c ≡ false
unfolding is_alnum fold_case is_space
alnum_not_space c h = ground arith

-- The last character of a text that is not empty is no white space.
abbrev Ends : List Char → Type 0
Ends [] = ⊥
Ends (c ∷ []) = is_space (code c) ≡ false
Ends (c ∷ d ∷ s) = Ends (d ∷ s)

rstrip-Ends : (s : List Char) → Ends s → rstrip is_space s ≡ s
unfolding rstrip
rstrip-Ends [] h = absurd h
rstrip-Ends (c ∷ []) h = rw h
rstrip-Ends (c ∷ d ∷ s) h = rw (rstrip-Ends (d ∷ s) h)

Ends-append : (s t : List Char) → Ends t → Ends (s ++ t)
Ends-append [] t h = h
Ends-append (c ∷ []) [] h = absurd h
Ends-append (c ∷ []) (d ∷ t) h = h
Ends-append (c ∷ d ∷ s) t h = Ends-append (d ∷ s) t h

AllIn-Ends : (c : Char) (s : List Char) → AllIn is_alnum (c ∷ s) → Ends (c ∷ s)
AllIn-Ends c [] h = alnum_not_space (code c) h.0
AllIn-Ends c (d ∷ s) h = AllIn-Ends d s h.1

-- A text in a class, with its first character apart.
module _ (p : ℕ → Bool) where
  run_of-append :
      (c : Char) (s t : List Char)
      → AllIn p (c ∷ s)
      → Stops p t
      → run_of p (c ∷ (s ++ t)) ≡ some (c ∷ s, t)
  run_of-append c s t h k = rw (span-append p (c ∷ s) t h k)

append_nil : (s : List Char) → s ++ [] ≡ s
append_nil [] = refl
append_nil (c ∷ s) = ap (λ t. c ∷ t) (append_nil s)

abbrev after_id : List Char → List Char → List Char
after_id slug cid = "/" ∷ (slug ++ "/" ∷ cid)

abbrev after_sub : List Char → List Char → List Char → List Char
after_sub id slug cid = chars "/comments/" ++ (id ++ after_id slug cid)

-- The link to a comment: its community, its submission, a text for people, and its own id.
abbrev pub comment_link : List Char → List Char → List Char → List Char → List Char
comment_link sub id slug cid =
    chars "https://www.reddit.com/r/"
    ++ (sub ++ (chars "/comments/" ++ (id ++ ("/" ∷ (slug ++ "/" ∷ cid)))))

-- Such parts as a link has.
pub record IsLink (sub id slug cid : List Char) : Type 0 where
  pub sub_word : AllIn is_word sub
  pub sub_some : is_empty sub ≡ false
  pub id_alnum : AllIn is_alnum id
  pub id_some : is_empty id ≡ false
  pub slug_free : AllIn is_slug slug
  pub cid_alnum : AllIn is_alnum cid
  pub cid_some : is_empty cid ≡ false

span-all : (p : ℕ → Bool) (s : List Char) → AllIn p s → span p s ≡ (s, [])
span-all p s h = ap (span p) (sym (append_nil s)) ∙ span-append p s [] h tt

run_of-link :
    (p : ℕ → Bool) (s t : List Char)
    → AllIn p s
    → is_empty s ≡ false
    → Stops p t
    → run_of p (s ++ t) ≡ some (s, t)
run_of-link p [] t h some_there k = absurd (cc)
run_of-link p (c ∷ s) t h some_there k = run_of-append p c s t h k

comment_id-link :
    (slug cid : List Char)
    → AllIn is_slug slug
    → AllIn is_alnum cid
    → is_empty cid ≡ false
    → comment_id (after_id slug cid) ≡ some cid
unfolding comment_id after_slug
comment_id-link slug cid free alnum there =
    rw (span-append is_slug slug ("/" ∷ cid) free refl)
      (rw (span-all is_alnum cid alnum) (rw there))

url_tail-link :
    (sub id slug cid : List Char)
    → IsLink sub id slug cid
    → url_tail sub (after_sub id slug cid) ≡ some (comment_ref sub id cid)
unfolding url_tail
url_tail-link sub id slug cid h =
    rw (url_tail, span-append is_alnum id (after_id slug cid) h.id_alnum refl)
      (rw h.id_some (rw (comment_id-link slug cid h.slug_free h.cid_alnum h.cid_some)))

url_at-link :
    (sub id slug cid : List Char)
    → IsLink sub id slug cid
    → url_at (chars "reddit.com/r/" ++ (sub ++ after_sub id slug cid))
      ≡ some (comment_ref sub id cid)
unfolding url_at
url_at-link sub id slug cid h =
    rw (url_at, span-append is_word sub (after_sub id slug cid) h.sub_word refl)
      (rw h.sub_some (url_tail-link sub id slug cid h))

search_url-link :
    (sub id slug cid : List Char)
    → IsLink sub id slug cid
    → search_url (comment_link sub id slug cid) ≡ some (comment_ref sub id cid)
unfolding search_url
search_url-link sub id slug cid h = rw (search_url, url_at-link sub id slug cid h)

cid-Ends : (cid : List Char) → AllIn is_alnum cid → is_empty cid ≡ false → Ends cid
cid-Ends [] h there = absurd (cc)
cid-Ends (c ∷ s) h there = AllIn-Ends c s h

strip-link :
    (sub id slug cid : List Char)
    → IsLink sub id slug cid
    → strip (comment_link sub id slug cid) ≡ comment_link sub id slug cid
unfolding strip lstrip is_space
strip-link sub id slug cid h =
    let end_of : List Char = ("/" ∷ []) ++ cid in
    let slug_on : List Char = ("/" ∷ slug) ++ end_of in
    let id_on : List Char = id ++ slug_on in
    let rest : List Char = chars "/comments/" ++ id_on in
    rstrip-Ends (comment_link sub id slug cid) (
      Ends-append (chars "https://www.reddit.com/r/") (sub ++ rest) (
        Ends-append sub rest (
          Ends-append (chars "/comments/") id_on (
            Ends-append id slug_on (
              Ends-append ("/" ∷ slug) end_of
                (Ends-append ("/" ∷ []) cid (cid-Ends cid h.cid_alnum h.cid_some)))))))

pub parse_chars-link :
    (sub id slug cid : List Char)
    → IsLink sub id slug cid
    → parse_chars (comment_link sub id slug cid) ≡ comment_ref sub id cid
unfolding parse_chars
parse_chars-link sub id slug cid h = rw (parse_chars, search_url-link sub id slug cid h)

-- A link to a comment, of a community, a submission and a comment with the characters that their names
-- have, is parsed into exactly these parts, whatever the text for people in it.
pub parse_ref-link :
    (sub id slug cid : List Char)
    → IsLink sub id slug cid
    → parse_ref (of_chars (comment_link sub id slug cid)) ≡ record {
      kind = "comment";
      id = of_chars cid;
      subreddit = some (of_chars sub);
      parent_id = some (of_chars id);
    }
unfolding parse_ref
parse_ref-link sub id slug cid h =
    ap (λ s. parse_chars (strip s)) (chars-of_chars (comment_link sub id slug cid))
    ∙ ap parse_chars (strip-link sub id slug cid h)
    ∙ parse_chars-link sub id slug cid h
