-- ===== src/Policy/Window.antt =====
-- The limiter of policy/ratelimit.py over a whole run: every request checks, and consumes if it
-- may; what waited and is approved consumes without a check.
use account_pool.Base.{
  ℕ, ◌+◌, ◌≤◌, String, ◌≡◌, List, [], ◌∷◌, ◌++◌, leb, length, if◌then◌else◌, suc,
}
use account_pool.Runtime.World.{RateLimiter}
use account_pool.Policy.RateLimit.{rate_window, recent, check_at, consume_at}

-- A request asks at one moment and, where it may, is executed at another; or an action that waited
-- is approved and executed at a moment, and nothing asks for it again. A request that
-- asked before another one was executed, and is executed after it, counts among the latter.
pub data Request : Type 0 where
  asked : ℕ → ℕ → Request
  approved : ℕ → Request

module _ (key : String) (limit : ℕ) where
  -- The moments of all executed actions are kept beside the limiter.
  abbrev pub attempt : Request → RateLimiter × List ℕ → RateLimiter × List ℕ
  attempt (Request.asked t t') (r, log) =
      let (allowed, r') = check_at key limit t r in
      if allowed then (consume_at key t' r', log ++ t' ∷ []) else (r', log)
  attempt (Request.approved t) (r, log) = (consume_at key t r, log ++ t ∷ [])

  abbrev pub attempts : List Request → RateLimiter × List ℕ → RateLimiter × List ℕ
  attempts [] s = s
  attempts (a ∷ more) s = attempts more (attempt a s)

abbrev pub approvals : List Request → ℕ
approvals [] = 0
approvals (Request.asked t t' ∷ rest) = approvals rest
approvals (Request.approved t ∷ rest) = suc (approvals rest)

-- How many of the moments lie at most a minute, 60 million microseconds, before a moment.
abbrev pub in_minute : ℕ → List ℕ → ℕ
in_minute now [] = 0
in_minute now (t ∷ ts) =
    let rest = in_minute now ts in if leb now (t + 60000000) then suc rest else rest

-- The clock does not go back.
abbrev pub InOrder : ℕ → List Request → Type 0
InOrder last [] = Unit
InOrder last (Request.asked t t' ∷ rest) = (last ≤ t) × (t ≤ t') × InOrder t' rest
InOrder last (Request.approved t ∷ rest) = (last ≤ t) × InOrder t rest

abbrev pub last_moment : ℕ → List Request → ℕ
last_moment last [] = last
last_moment last (Request.asked t t' ∷ rest) = last_moment t' rest
last_moment last (Request.approved t ∷ rest) = last_moment t rest

module _ (key : String) (limit : ℕ) where
  -- From a moment on, the limiter and the full log agree on what is recent, and it is within the limit
  -- and so many approvals.
  record Holds (last approved : ℕ) (r : RateLimiter) (log : List ℕ) : Type 0 where
    agrees :
        (now : ℕ) → last ≤ now → recent rate_window now (r.events key) ≡ recent rate_window now log
    within : (now : ℕ) → last ≤ now → length (recent rate_window now log) ≤ limit + approved

abbrev pub no_events : RateLimiter
no_events = record { events = λ key. [] }
