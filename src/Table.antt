-- ===== src/Table.antt =====
-- A table with a text primary key, as its rows in the order of insertion (db/tables.py over SQL).
use account_pool.Base.{
  String, ◌≡◌, refl, false, Option, none, some, List, [], ◌∷◌, arith, str_eq, eq_iff, eq_refl,
  if◌then◌else◌,
}

abbrev pub Table {ℓ} : Type ℓ → Type ℓ
Table V = List (String × V)

module _ {ℓ} {V : Type ℓ} where
  -- `s.get(Row, key)`
  unfoldable pub find : String → Table V → Option V
  find k [] = none
  find k ((j, v) ∷ t) = if str_eq j k then some v else find k t

  -- Writes the row of a key where it stands, or adds it at the end.
  unfoldable pub put : String → V → Table V → Table V
  put k v [] = (k, v) ∷ []
  put k v ((j, w) ∷ t) = if str_eq j k then (k, v) ∷ t else (j, w) ∷ put k v t

  -- `s.delete(row)`
  unfoldable pub drop : String → Table V → Table V
  drop k [] = []
  drop k ((j, w) ∷ t) = if str_eq j k then drop k t else (j, w) ∷ drop k t

  -- The rows of a `select`, in the order of the table.
  abbrev pub rows : Table V → List V
  rows [] = []
  rows ((k, v) ∷ t) = v ∷ rows t

  pub find-put :
      (k j : String) (v : V) (t : Table V)
      → find j (put k v t) ≡ (if str_eq k j then some v else find j t)
  unfolding find put
  find-put k j v [] = refl
  find-put k j v ((i, w) ∷ t) = ground (arith, eq_iff k j, eq_iff i k, eq_iff i j, find-put k j v t)

  pub find-drop :
      (k j : String) (t : Table V) → find j (drop k t) ≡ (if str_eq k j then none else find j t)
  unfolding find drop
  find-drop k j [] = ground arith
  find-drop k j ((i, w) ∷ t) = ground (arith, eq_iff k j, eq_iff i k, eq_iff i j, find-drop k j t)

  pub find-put_self : (k : String) (v : V) (t : Table V) → find k (put k v t) ≡ some v
  find-put_self k v t = ground (arith, find-put k k v t, eq_refl k)

  -- A key of another text is not touched.
  pub find-put_ne :
      (k j : String) (v : V) (t : Table V) → str_eq k j ≡ false → find j (put k v t) ≡ find j t
  find-put_ne k j v t h = ground (arith, find-put k j v t)

pub ruleset table_laws = (find-put, find-drop)
