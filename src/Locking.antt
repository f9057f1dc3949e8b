-- ===== src/Locking.antt =====
-- actions/locking.py: `LockService`. The proofs are in the modules below.
pub mod Interleaving
pub mod Exclusion
pub mod Refinement
pub mod Checkout
pub mod Asked
pub mod Release
pub mod Obtaining
use account_pool.Base.{
  ℕ, zero, suc, String, Bool, false, not, ◌&&◌, Option, none, some, str_eq, if◌then◌else◌,
}
use account_pool.Base.Int.{ℤ, pos}
use account_pool.Domain.Models.{Account, LockLease, lease_active, held_by, add_seconds}
use account_pool.Runtime.Errors.{Error, raised}
use account_pool.Runtime.World.{World, Env}
use account_pool.Runtime.Monad.{Prog, pure, raise, or_raise, modify, now, draw, ◌>>=◌, ◌>>◌}
use account_pool.Db.Accounts.{get_account, update_account}

abbrev pub max_cas_retries : ℕ
max_cas_retries = 4

-- `ttl_seconds or self._default_ttl`
unfoldable pub ttl_or : Option ℤ → ℤ → ℤ
ttl_or none d = d
ttl_or (some (pos zero)) d = d
ttl_or (some t) d = t

-- `LockService._get`
unfoldable pub require_account : String → Prog Account
unfolding get_account
require_account id = get_account id >>= λ found. or_raise found Error.not_found

-- The test of `checkout`: another holder's lease is active.
unfoldable pub held_by_other : Account → String → ℕ → Bool
held_by_other a holder t = elim a.lock [
  | none ↦ false
  | some lock ↦ lease_active lock t && not (str_eq lock.holder holder)
]

abbrev pub with_lock : Account → Option LockLease → Account
with_lock a lock = record a { lock = lock }

-- `except VersionConflict`
abbrev pub on_conflict : {A : Type 0} → Prog A → Prog A → Prog A
on_conflict m handler w =
    let (r, w') = m w in elim r [ raised Error.version_conflict ↦ handler w' | other ↦ (other, w') ]

module _ (env : Env) where
  -- A round of `checkout` up to the write: the account with the new lease, and the version read.
  unfoldable pub prepare_checkout : String → String → ℤ → Prog (Account × ℕ)
  unfolding require_account held_by_other
  prepare_checkout account_id holder ttl = do
    account ← require_account account_id
    t ← now env
    if held_by_other account holder t then raise Error.lock_held else do
      token ← draw env
      expires ← or_raise (add_seconds t ttl) Error.overflow_error
      pure (
        with_lock account (
            some
              (record { holder = holder; token = token; acquired_at = t; expires_at = expires })),
        account.record_version,
      )

  -- The loop of `checkout`. What other agents do between a round's read and its write is
  -- `meanwhile`, by the rounds left.
  unfoldable pub checkout_rounds : (ℕ → World → World) → ℕ → String → String → ℤ → Prog Account
  unfolding prepare_checkout
  checkout_rounds meanwhile zero account_id holder ttl = raise Error.conflict
  checkout_rounds meanwhile (suc n) account_id holder ttl =
      let again = checkout_rounds meanwhile n account_id holder ttl in
      prepare_checkout account_id holder ttl >>= λ p.
      modify (meanwhile n) >> on_conflict (update_account env p.0 p.1) again

  -- `LockService.checkout`
  unfoldable pub checkout : (ℕ → World → World) → String → String → Option ℤ → Prog Account
  unfolding checkout_rounds ttl_or
  checkout meanwhile account_id holder ttl =
      checkout_rounds meanwhile max_cas_retries account_id holder (ttl_or ttl env.default_lock_ttl)

  -- The end of `refresh` and `checkin`: a lost race is not tried again.
  unfoldable pub save_lock : Account × ℕ → Prog Account
  save_lock p = on_conflict (update_account env p.0 p.1) (raise Error.conflict)

  -- `refresh` up to the write: the account with the longer lease, and the version read.
  unfoldable pub prepare_refresh : String → String → String → Option ℤ → Prog (Account × ℕ)
  unfolding require_account ttl_or
  prepare_refresh account_id holder token ttl = do
    account ← require_account account_id
    lock ← or_raise account.lock Error.lock_held
    at ← now env
    if not (held_by lock holder token at) then raise Error.lock_held else do
      t ← now env
      expires ← or_raise (add_seconds t (ttl_or ttl env.default_lock_ttl)) Error.overflow_error
      pure (
        with_lock account (
            some (record {
              holder = holder;
              token = token;
              acquired_at = lock.acquired_at;
              expires_at = expires;
            })),
        account.record_version,
      )

  -- `LockService.refresh`
  unfoldable pub refresh : String → String → String → Option ℤ → Prog Account
  unfolding prepare_refresh save_lock
  refresh account_id holder token ttl = prepare_refresh account_id holder token ttl >>= save_lock

  -- `checkin` up to the write: the account without a lease, and the version read.
  unfoldable pub prepare_checkin : String → String → String → Prog (Account × ℕ)
  unfolding require_account
  prepare_checkin account_id holder token = do
    account ← require_account account_id
    lock ← or_raise account.lock Error.invalid_state
    if not (str_eq lock.holder holder && str_eq lock.token token)
        then raise Error.lock_held
        else pure (with_lock account none, account.record_version)

  -- `LockService.checkin`
  unfoldable pub checkin : String → String → String → Prog Account
  unfolding prepare_checkin save_lock
  checkin account_id holder token = prepare_checkin account_id holder token >>= save_lock
