-- ===== src/Policy/RateLimit.antt =====
-- policy/ratelimit.py. Moments are whole microseconds, as `datetime` keeps them; the source compares
-- their floats, which keep the order and the distance of a minute for any date from 2004 to 2038.
use Prim.Native.String.{◌++◌ as append}
use account_pool.Base.{
  ℕ, ◌+◌, String, Bool, true, none, some, List, [], ◌∷◌, ◌++◌, str_eq, leb, ltb, select, length,
  if◌then◌else◌,
}
use account_pool.Base.Int.{not_positive, pos_part}
use account_pool.Domain.Json.{Json, as_int}
use account_pool.Runtime.Errors.{Error, Result}
use account_pool.Runtime.World.{Env, RateLimiter}
use account_pool.Runtime.Monad.{Prog, pure, raise, now, ◌>>=◌}

-- `d[key] = value` on a `defaultdict`, as a function of the key.
abbrev pub update {ℓ} : {A : Type ℓ} → String → A → (String → A) → String → A
update k v f j = if str_eq k j then v else f j

-- `_WINDOW_SECONDS`, in microseconds
abbrev pub rate_window : ℕ
rate_window = 60000000

unfoldable pub rate_key : String → String → String
rate_key account_id action = append account_id (append ":" action)

-- `[t for t in events if t >= now - window]`
unfoldable pub recent : ℕ → ℕ → List ℕ → List ℕ
recent window now = select (λ t. leb now (t + window))

-- `_prune`
unfoldable pub prune : String → ℕ → RateLimiter → RateLimiter
unfolding recent
prune key now r = record r { events = update key (recent rate_window now (r.events key)) r.events }

-- The body of `check` for a positive limit.
unfoldable pub check_at : String → ℕ → ℕ → RateLimiter → Bool × RateLimiter
unfolding prune
check_at key limit now r = let r' = prune key now r in (ltb (length (r'.events key)) limit, r')

-- The body of `consume`.
unfoldable pub consume_at : String → ℕ → RateLimiter → RateLimiter
unfolding prune
consume_at key now r =
    let r' = prune key now r in
    record r' { events = update key (r'.events key ++ now ∷ []) r'.events }

-- The body of `snapshot`.
unfoldable pub snapshot_at : String → ℕ → RateLimiter → ℕ × RateLimiter
unfolding prune
snapshot_at key now r = let r' = prune key now r in (length (r'.events key), r')

abbrev pub on_rate : {A : Type 0} → (RateLimiter → A × RateLimiter) → Prog A
on_rate f w = let (a, r) = f w.rate in (Result.ok a, record w { rate = r })

module _ (env : Env) where
  -- `RateLimiter.check`: a limit that is no number raises, one of 0 or below is no limit.
  unfoldable pub check : String → String → Json → Prog Bool
  unfolding check_at rate_key
  check account_id action limit = elim (as_int limit) [
    | none ↦ raise Error.type_error
    | some n ↦
        if not_positive n
        then pure true
        else (do t ← now env; on_rate (check_at (rate_key account_id action) (pos_part n) t))
  ]

  -- `RateLimiter.consume`
  unfoldable pub consume : String → String → Prog Unit
  unfolding consume_at rate_key
  consume account_id action = do
    t ← now env
    on_rate (λ r. (tt, consume_at (rate_key account_id action) t r))

  -- `RateLimiter.snapshot`
  unfoldable pub snapshot : String → String → Prog ℕ
  unfolding snapshot_at rate_key
  snapshot account_id action = do t ← now env; on_rate (snapshot_at (rate_key account_id action) t)
