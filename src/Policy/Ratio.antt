-- ===== src/Policy/Ratio.antt =====
-- The ledger of policy/trackers.py over a whole run: a write that the guards let through, or one that a
-- person approved, for which actions/service.py does not ask the ledger again.
use account_pool.Base.{
  ℕ, ◌+◌, ◌*◌, ◌≤◌, String, Bool, true, false, List, [], ◌∷◌, ◌&&◌, if◌then◌else◌, str_eq,
}
use account_pool.Base.Int.{ℤ}
use account_pool.Runtime.World.{SelfPromoLedger}
use account_pool.Policy.Trackers.{would_exceed, record_promo}

-- A write of an account, and whether it is promotional.
pub data Write : Type 0 where
  guarded : String → Bool → Write
  approved : String → Bool → Write

-- A promotional write that would exceed the ratio is skipped where the guards are asked.
abbrev pub post : ℤ → Write → SelfPromoLedger → SelfPromoLedger
post ratio (Write.guarded account promotional) l =
    if promotional && would_exceed account ratio l then l else record_promo account promotional l
post ratio (Write.approved account promotional) l = record_promo account promotional l

abbrev pub posts : ℤ → List Write → SelfPromoLedger → SelfPromoLedger
posts ratio [] l = l
posts ratio (p ∷ rest) l = posts ratio rest (post ratio p l)

abbrev pub no_posts : SelfPromoLedger
no_posts = record { promo = λ a. 0; non_promo = λ a. 0 }

-- How many promotional writes of an account were approved.
abbrev pub approvals : String → List Write → ℕ
approvals a [] = 0
approvals a (Write.approved account true ∷ rest) =
    if str_eq account a then approvals a rest + 1 else approvals a rest
approvals a (Write.approved account false ∷ rest) = approvals a rest
approvals a (Write.guarded account promotional ∷ rest) = approvals a rest

-- But for `k` of them, each promotional write of an account is paid for by `r` others.
abbrev IsPaid : ℕ → String → ℕ → SelfPromoLedger → Type 0
IsPaid r a k l = l.promo a * r ≤ l.non_promo a + k * r
