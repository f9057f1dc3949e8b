-- ===== src/Db/Keys.antt =====
-- db/repositories.py: `ActionRepository.find_by_idempotency_key` after `ActionRepository.upsert`.
use account_pool.Base.{
  String, ◌≡◌, refl, ◌⊎◌, inl, inr, true, false, Option, none, some, [], ◌∷◌, arith, str_eq,
  eq_refl, select, ap, ◌∙◌,
}
use account_pool.Table.{Table, find, put, rows}
use account_pool.Domain.Models.{Action}
use account_pool.Runtime.World.{World, ActionRow}
use account_pool.Db.Records.{action_row, upsert_action, has_key, first_action}

-- What `find_by_idempotency_key` finds.
abbrev pub keyed : String → Table ActionRow → Option Action
keyed key t = first_action (select (has_key key) (rows t))

-- The first row that has the key is the first row of `id`.
pub Holds : String → String → Table ActionRow → Type 0
Holds key id [] = ⊥
Holds key id ((j, row) ∷ t) =
    (str_eq j id ≡ true) × (has_key key row ≡ true)
    ⊎ (str_eq j id ≡ false) × (has_key key row ≡ false) × Holds key id t

-- It is, or neither is in the table.
abbrev pub Ready : String → String → Table ActionRow → Type 0
Ready key id t = Holds key id t ⊎ (keyed key t ≡ none) × (find id t ≡ none)

-- A row with the key at `id` is the one that is found.
abbrev Found : String → String → ActionRow → Table ActionRow → Type 0
Found key id v t = Holds key id t × (keyed key t ≡ some v.payload)

Found-later :
    (key id j : String) (row v : ActionRow) (t : Table ActionRow)
    → str_eq j id ≡ false
    → has_key key row ≡ false
    → Found key id v (put id v t)
    → Found key id v (put id v ((j, row) ∷ t))
unfolding put Holds
Found-later key id j row v t other unkeyed (held, found) =
    rw other (inr (other, unkeyed, held), simp unkeyed found)

held-put :
    (key id : String) (v : ActionRow) (t : Table ActionRow)
    → has_key key v ≡ true
    → Holds key id t
    → Found key id v (put id v t)
unfolding put Holds
held-put key id v [] has h = absurd h
held-put key id v ((j, row) ∷ t) has (inl (same, old)) =
    rw same (inl (eq_refl id, has), simp has refl)
held-put key id v ((j, row) ∷ t) has (inr (other, unkeyed, held)) =
    Found-later key id j row v t other unkeyed (held-put key id v t has held)

fresh-put :
    (key id : String) (v : ActionRow) (t : Table ActionRow)
    → has_key key v ≡ true
    → keyed key t ≡ none
    → find id t ≡ none
    → Found key id v (put id v t)
unfolding put find Holds
fresh-put key id v [] has unkeyed new = (inl (eq_refl id, has), simp has refl)
fresh-put key id v ((j, row) ∷ t) has unkeyed new =
    Found-later key id j row v t (ground arith) (ground arith)
      (fresh-put key id v t has (ground arith) (ground arith))

held-find :
    (key id : String) (t : Table ActionRow)
    → Holds key id t
    → (row : ActionRow) × (find id t ≡ some row) × (has_key key row ≡ true)
unfolding find Holds
held-find key id [] h = absurd h
held-find key id ((j, row) ∷ t) (inl (same, old)) = (row, ground arith, old)
held-find key id ((j, row) ∷ t) (inr (other, unkeyed, held)) =
    let (r, there, has) = held-find key id t held in (r, ground arith, has)

action_row-payload : (a : Action) (o : Option ActionRow) → (action_row a o).payload ≡ a
action_row-payload a none = refl
action_row-payload a (some row) = refl

upsert-Found :
    (key : String) (a : Action) (w : World)
    → a.idempotency_key ≡ some key
    → Ready key a.action_id w.actions
    → Found key a.action_id
        (action_row a (find a.action_id w.actions))
        (upsert_action a w).1.actions
unfolding upsert_action
upsert-Found key a w has (inl held) =
    let (row, there, old) = held-find key a.action_id w.actions held in
    held-put key a.action_id (action_row a (find a.action_id w.actions)) w.actions (rw there old)
      held
upsert-Found key a w has (inr (unkeyed, new)) =
    fresh-put key a.action_id (action_row a (find a.action_id w.actions)) w.actions
      (rw new (simp has (eq_refl key))) unkeyed new

-- Once the action with the key is written, or written again, it is the one that is found.
pub upsert-keyed :
    (key : String) (a : Action) (w : World)
    → a.idempotency_key ≡ some key
    → Ready key a.action_id w.actions
    → Holds key a.action_id (upsert_action a w).1.actions
      × (keyed key (upsert_action a w).1.actions ≡ some a)
upsert-keyed key a w has ready =
    let (held, found) = upsert-Found key a w has ready in
    (held, found ∙ ap some (action_row-payload a (find a.action_id w.actions)))
