-- ===== src/Adapters/Xml/Limit.antt =====
-- adapters/_feeds.py: `parse_feed` stops at its limit.
use account_pool.Base.{
  ℕ, zero, suc, ◌+◌, ◌≤◌, ◌≡◌, refl, ap, sym, ◌∙◌, lt→leb_false, le→leb, Option, none, some, List,
  [], ◌∷◌, ◌++◌, arith, leb, length, length-append, if◌then◌else◌,
}
use account_pool.Domain.Json.{Fields}
use account_pool.Adapters.Xml.{Element, entry_of, iter, added, collect, parse_feed}
use account_pool.Adapters.Net.{take}

abbrev before : Option Fields → List Fields → List Fields
before none items = items
before (some f) items = f ∷ items

-- The items and entries of a feed, in the order of the document.
pub entries : List Element → List Fields
entries [] = []
entries (e ∷ rest) = before (entry_of e) (entries rest)

append_assoc :
    (xs : List Fields) (f : Fields) (ys : List Fields) → (xs ++ f ∷ []) ++ ys ≡ xs ++ f ∷ ys
append_assoc [] f ys = refl
append_assoc (x ∷ xs) f ys = ap (λ l. x ∷ l) (append_assoc xs f ys)

append_nil : (xs : List Fields) → xs ++ [] ≡ xs
append_nil [] = refl
append_nil (x ∷ xs) = ap (λ l. x ∷ l) (append_nil xs)

module _ (limit : ℕ) where
  -- What one element adds, where the rest of the loop is as it should be.
  added-take :
      (n : ℕ) (items : List Fields) (o : Option Fields) (es : List Element)
      → limit ≡ length items + suc n
      → ((m : ℕ) (more : List Fields)
          → limit ≡ length more + suc m
          → collect limit more es ≡ more ++ take (suc m) (entries es))
      → (let grown = added items o in
          if leb limit (length grown) then grown else collect limit grown es)
        ≡ items ++ take (suc n) (before o (entries es))
  unfolding take
  added-take n items none es room rest =
      rw (lt→leb_false limit (length items) (omega (arith, room))) (rest n items room)
  added-take zero items (some f) es room rest =
      rw (
        le→leb limit (length (items ++ f ∷ [])) (omega (arith, room, length-append items (f ∷ []))))
  added-take (suc m) items (some f) es room rest =
      rw
        (lt→leb_false limit (length (items ++ f ∷ []))
          (omega (arith, room, length-append items (f ∷ []))))
        (rest m (items ++ f ∷ []) (omega (arith, room, length-append items (f ∷ [])))
          ∙ append_assoc items f (take (suc m) (entries es)))

  -- With room for more, what an element gives is added, and the loop goes on if there still is room.
  collect-take :
      (n : ℕ) (items : List Fields) (es : List Element)
      → limit ≡ length items + suc n
      → collect limit items es ≡ items ++ take (suc n) (entries es)
  unfolding collect entries take
  collect-take n items [] room = sym (append_nil items)
  collect-take n items (e ∷ es) room =
      added-take n items (entry_of e) es room (λ m more room'. collect-take m more es room')

-- With a limit of at least one, `parse_feed` returns the first items and entries of the feed in the
-- order of the document, up to the limit, and no others.
pub parse_feed-take :
    (limit : ℕ) (root : Element)
    → 1 ≤ limit
    → parse_feed limit root ≡ take limit (entries (iter root))
unfolding parse_feed
parse_feed-take zero root h = absurd (omega arith)
parse_feed-take (suc n) root h = collect-take (suc n) n [] (iter root) (omega arith)
