-- ===== src/Policy/Trackers.antt =====
-- policy/trackers.py: `SelfPromoLedger` and `CoordinationTracker`, and the kinds that are votes.
use account_pool.Base.{
  ℕ, ◌+◌, ◌/◌, String, Bool, false, Option, List, [], ◌∷◌, ◌++◌, map, str_eq, leb, ltb, select, any,
  length, if◌then◌else◌, or_else,
}
use account_pool.Base.Int.{ℤ, not_positive, pos_part}
use account_pool.Base.Text.{codes, codes_eq, lower}
use account_pool.Runtime.Errors.{Result}
use account_pool.Runtime.World.{Env, SelfPromoLedger, CoordinationTracker}
use account_pool.Runtime.Monad.{Prog, pure, now, ◌>>=◌}
use account_pool.Policy.RateLimit.{update}

-- `VOTE_KINDS`
abbrev pub vote_kinds : List String
vote_kinds = "up" ∷ "down" ∷ "upvote" ∷ "downvote" ∷ "vote" ∷ "+1" ∷ "-1" ∷ []

-- `(kind or "").lower() in VOTE_KINDS`. No letter outside ASCII has a lower case among the letters
-- of these words, so `lower` is exact here.
unfoldable pub is_vote_kind : Option String → Bool
unfolding lower
is_vote_kind kind = any (λ v. codes_eq (lower (codes (or_else kind ""))) (codes v)) vote_kinds

-- `SelfPromoLedger.would_exceed`
unfoldable pub would_exceed : String → ℤ → SelfPromoLedger → Bool
would_exceed account_id ratio l =
    if not_positive ratio
    then false
    else leb (l.non_promo account_id / pos_part ratio) (l.promo account_id)

-- `SelfPromoLedger.record`
unfoldable pub record_promo : String → Bool → SelfPromoLedger → SelfPromoLedger
record_promo account_id promotional l =
    if promotional
    then record l { promo = update account_id (l.promo account_id + 1) l.promo }
    else record l { non_promo = update account_id (l.non_promo account_id + 1) l.non_promo }

-- `window_seconds` and `max_distinct_accounts`, at the defaults that app.py leaves
abbrev pub coordination_window : ℕ
coordination_window = 300000000

abbrev pub max_distinct_accounts : ℕ
max_distinct_accounts = 3

-- `[(a, t) for a, t in hits if t >= now - window]`
unfoldable pub recent_hits : ℕ → List (String × ℕ) → List (String × ℕ)
recent_hits now = select (λ hit. leb now (hit.1 + coordination_window))

-- `CoordinationTracker._prune`
unfoldable pub prune_hits : String → ℕ → CoordinationTracker → CoordinationTracker
prune_hits target_key now c = record c {
  hits = update target_key (recent_hits now (c.hits target_key)) c.hits;
}

-- The elements of a set that is built from a list.
unfoldable pub distinct : List String → List String
distinct [] = []
distinct (a ∷ as') = let rest = distinct as' in if any (str_eq a) rest then rest else a ∷ rest

abbrev pub hit_accounts : List (String × ℕ) → List String
hit_accounts = map (λ hit. hit.0)

-- The body of `would_coordinate` for a target with a key.
unfoldable pub would_coordinate_at :
    String → String → ℕ → CoordinationTracker → Bool × CoordinationTracker
unfolding prune_hits distinct
would_coordinate_at target_key account_id now c =
    let c' = prune_hits target_key now c in
    (
      ltb max_distinct_accounts
          (length (distinct (account_id ∷ hit_accounts (c'.hits target_key)))),
      c',
    )

-- The body of `record` for a target with a key.
unfoldable pub record_hit : String → String → ℕ → CoordinationTracker → CoordinationTracker
record_hit target_key account_id now c = record c {
  hits = update target_key (c.hits target_key ++ (account_id, now) ∷ []) c.hits;
}

abbrev pub on_coordination : {A : Type 0} → (CoordinationTracker → A × CoordinationTracker) → Prog A
on_coordination f w = let (a, c) = f w.coordination in (Result.ok a, record w { coordination = c })

module _ (env : Env) where
  -- `CoordinationTracker.would_coordinate`
  unfoldable pub would_coordinate : String → String → Prog Bool
  unfolding would_coordinate_at
  would_coordinate target_key account_id =
      if str_eq target_key ""
      then pure false
      else (do t ← now env; on_coordination (would_coordinate_at target_key account_id t))

  -- `CoordinationTracker.record`
  unfoldable pub record_coordination : String → String → Prog Unit
  unfolding record_hit
  record_coordination target_key account_id =
      if str_eq target_key ""
      then pure tt
      else (do t ← now env; on_coordination (λ c. (tt, record_hit target_key account_id t c)))
