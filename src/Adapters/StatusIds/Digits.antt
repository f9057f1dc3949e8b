-- ===== src/Adapters/StatusIds/Digits.antt =====
-- adapters/mastodon.py and twitter.py: which digits of a reference are taken for the id.
use Prim.Native.Char.{Char, code}
use account_pool.Base.{
  ℕ, String, ◌≡◌, refl, ◌⊎◌, inl, inr, true, false, Bool-cases, none, some, List, [], ◌∷◌, ◌++◌,
  arith, ap, ◌∙◌,
}
use account_pool.Base.Chars.{chars, of_chars, is_digit, span, strip}
use account_pool.Adapters.StatusIds.{
  slash_or_end, digits_at, search_digits, found_or, id_of, status_id,
}
use account_pool.Base.Runs.{AllIn, Stops, span-append}

-- What may follow the id.
abbrev pub IsTail : List Char → Type 0
IsTail e = (e ≡ []) ⊎ (e ≡ "/" ∷ [])

tail_Stops : (e : List Char) → IsTail e → Stops is_digit e
unfolding is_digit
tail_Stops [] t = tt
tail_Stops (c ∷ e) (inl none_there) = absurd (cc)
tail_Stops (c ∷ e) (inr slash) = rw (ap first_code slash) refl
  where
    first_code : List Char → ℕ
    first_code [] = 0
    first_code (b ∷ s) = code b

tail_end : (e : List Char) → IsTail e → slash_or_end e ≡ true
tail_end e (inl none_there) = rw none_there
tail_end e (inr slash) = rw slash

digits_at-run :
    (d : Char) (ds e : List Char)
    → AllIn is_digit (d ∷ ds)
    → IsTail e
    → digits_at (d ∷ (ds ++ e)) ≡ some (d ∷ ds)
unfolding digits_at
digits_at-run d ds e h tail =
    rw (digits_at, span-append is_digit (d ∷ ds) e h (tail_Stops e tail)) (rw (tail_end e tail))

-- A run of digits that starts before another character does not reach the end.
span_rest :
    (v : List Char) (x : Char) (t : List Char)
    → is_digit (code x) ≡ false
    → (w : List Char) × ((span is_digit (v ++ x ∷ t)).1 ≡ w ++ x ∷ t)
unfolding span
span_rest [] x t h = ([], rw h)
span_rest (c ∷ v) x t h =
    let (w, same) = span_rest v x t h in
    elim (Bool-cases (is_digit (code c))) [
      | inl yes_digit ↦ (w, rw yes_digit same)
      | inr no_digit ↦ (c ∷ v, rw no_digit)
    ]

not_end : (w : List Char) (x d : Char) (t : List Char) → slash_or_end (w ++ x ∷ d ∷ t) ≡ false
not_end [] x d t = ground arith
not_end (c ∷ []) x d t = ground arith
not_end (c ∷ b ∷ w) x d t = ground arith

digits_at-before :
    (v : List Char) (x d : Char) (t : List Char)
    → is_digit (code x) ≡ false
    → digits_at (v ++ x ∷ d ∷ t) ≡ none
unfolding digits_at
digits_at-before v x d t h =
    let (w, same) = span_rest v x (d ∷ t) h in ground (arith, same, not_end w x d t)

-- What stands before a run of digits: nothing, or a text that does not end in a digit.
abbrev pub Apart : List Char → Type 0
Apart [] = Unit {0}
Apart (c ∷ []) = is_digit (code c) ≡ false
Apart (c ∷ b ∷ v) = Apart (b ∷ v)

digits_at-Apart :
    (c : Char) (v : List Char) (d : Char) (t : List Char)
    → Apart (c ∷ v)
    → digits_at (c ∷ (v ++ d ∷ t)) ≡ none
digits_at-Apart c v d t h =
    let (u, x, same, other) = last_of c v h in
    ap (λ s. digits_at (s ++ d ∷ t)) same
    ∙ ap digits_at (append_one u x (d ∷ t))
    ∙ digits_at-before u x d t other
  where
    last_of :
        (c : Char) (v : List Char)
        → Apart (c ∷ v)
        → (u : List Char) × (x : Char) × (c ∷ v ≡ u ++ x ∷ []) × (is_digit (code x) ≡ false)
    last_of c [] h = ([], c, refl, h)
    last_of c (b ∷ v) h =
        let (u, x, same, other) = last_of b v h in (c ∷ u, x, ap (λ s. c ∷ s) same, other)

    append_one : (u : List Char) (x : Char) (s : List Char) → (u ++ x ∷ []) ++ s ≡ u ++ x ∷ s
    append_one [] x s = refl
    append_one (c ∷ u) x s = ap (λ r. c ∷ r) (append_one u x s)

search_digits-end :
    (v : List Char) (d : Char) (ds e : List Char)
    → Apart v
    → AllIn is_digit (d ∷ ds)
    → IsTail e
    → search_digits (v ++ d ∷ (ds ++ e)) ≡ some (d ∷ ds)
unfolding search_digits
search_digits-end [] d ds e h all tail = rw (search_digits, digits_at-run d ds e all tail)
search_digits-end (c ∷ []) d ds e h all tail =
    rw (search_digits, digits_at-Apart c [] d (ds ++ e) h) (search_digits-end [] d ds e tt all tail)
search_digits-end (c ∷ b ∷ v) d ds e h all tail =
    rw (search_digits, digits_at-Apart c (b ∷ v) d (ds ++ e) h)
      (search_digits-end (b ∷ v) d ds e h all tail)

-- A reference that is, without the white space around it, a whole run of digits, alone or after a text
-- that does not end in a digit, with or without a slash at its end, is taken for that run of digits,
-- whatever else it contains.
pub status_id-digits :
    (raw : String) (v : List Char) (d : Char) (ds e : List Char)
    → strip (chars raw) ≡ v ++ d ∷ (ds ++ e)
    → Apart v
    → AllIn is_digit (d ∷ ds)
    → IsTail e
    → status_id raw ≡ of_chars (d ∷ ds)
unfolding status_id
status_id-digits raw v d ds e stripped apart all tail =
    ap (λ s. of_chars (id_of s)) stripped
    ∙ ap (λ o. of_chars (found_or (v ++ d ∷ (ds ++ e)) o))
        (search_digits-end v d ds e apart all tail)
