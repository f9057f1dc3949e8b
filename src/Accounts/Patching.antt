-- ===== src/Accounts/Patching.antt =====
-- accounts/service.py: what `patch` asks for, and what it does not check.
use account_pool.Base.{
  ℕ, ◌+◌, String, ◌≡◌, refl, true, ◌==◌, Option, some, List, [], ◌∷◌, arith, Option-cases,
  Bool-cases, inl, inr,
}
use mathlib.Core.Path.{subst}
use account_pool.Runtime.Laws.{proceed-eq_ok}
use account_pool.Table.{find}
use account_pool.Domain.Json.{Fields}
use account_pool.Domain.Enums.{LifecycleState}
use account_pool.Domain.Models.{Account, LockLease, Persona, held_by}
use account_pool.Runtime.Errors.{ok}
use account_pool.Runtime.World.{World, Env, AccountRow}
use account_pool.Runtime.Monad.{Prog, ◌>>=◌}
use account_pool.Db.Accounts.{
  account_of, next_version, get_account, compare_and_set, write_account, update_account,
}
use account_pool.Db.Audit.{record_event, append_event}
use account_pool.Locking.{require_account}
use account_pool.Accounts.Status.{parse_status}
use account_pool.Accounts.Service.{note, save, change}
use account_pool.Accounts.Patch.{Update, apply_update, apply_updates, patched, patch}

module _ (parse_persona : Fields → Option Persona) (env : Env) (caller id token : String)
    (expected : ℕ) (updates : List Update) where
  -- What a patch that is let through has been shown.
  pub record Entitled (w : World) : Type 0 where
    pub account : Account
    pub lease : LockLease
    pub stored : account_of w.accounts id ≡ some account
    pub leased : account.lock ≡ some lease
    pub held : held_by lease caller token (env.time w.ticks) ≡ true
    pub current : account.record_version ≡ expected

  work : Account → Prog Account
  work = patched parse_persona env caller token expected updates

  patched-checks :
      (a b : Account) (w : World)
      → (work a w).0 ≡ ok b
      → (l : LockLease) × (a.lock ≡ some l)
        × (held_by l caller token (env.time w.ticks) ≡ true)
        × (a.record_version ≡ expected)
  unfolding work patched
  patched-checks a b w made = elim (Option-cases a.lock) [
    | inl free ↦ absurd (ground arith)
    | inr (l, leased) ↦ elim (Bool-cases (held_by l caller token (env.time w.ticks))) [
      | inl held ↦ elim (Bool-cases (a.record_version == expected)) [
        | inl current ↦ (l, leased, held, ground arith)
        | inr old ↦ absurd (ground arith)
      ]
      | inr lost ↦ absurd (ground arith)
    ]
  ]

  require_account-ok :
      (w : World) (a : Account)
      → (require_account id w).0 ≡ ok a
      → (account_of w.accounts id ≡ some a) × ((require_account id w).1 ≡ w)
  unfolding require_account get_account
  require_account-ok w a e = ground (arith, Option-cases (account_of w.accounts id))

  finish : Account → Prog Account
  finish a = work a >>= save env caller "account_patch" id a

  -- A patch that returns was made by the holder of the account's unexpired lease, with its token, and
  -- under the version of the account that is stored.
  pub patch-Entitled :
      (w : World) (b : Account)
      → (patch parse_persona env caller id token expected updates w).0 ≡ ok b
      → Entitled w
  unfolding patch change work finish
  patch-Entitled w b made =
      let (a, found, rest) = proceed-eq_ok finish (require_account id w) b made in
      let (stored, same) = require_account-ok w a found in
      let u = (require_account id w).1 in
      let (new, worked, saved) =
        proceed-eq_ok (save env caller "account_patch" id a) (work a u) b rest in
      let (l, leased, held, current) = patched-checks a new u worked in
      record {
        account = a;
        lease = l;
        stored = stored;
        leased = leased;
        held = subst (λ (v : World). held_by l caller token (env.time v.ticks) ≡ true) same held;
        current = current;
      }

-- The holder of a lease can make any account active by a patch of its status, without a connection or an
-- authorization: where the account is stored under its version and the caller holds its lease, the
-- patch returns an active account with the old connection and authorization.
pub patch_activates :
    (parse_persona : Fields → Option Persona) (env : Env) (caller token : String) (a : Account)
    (row : AccountRow) (l : LockLease) (w : World)
    → find a.account_id w.accounts ≡ some row
    → row.payload ≡ a
    → row.record_version ≡ a.record_version
    → a.lock ≡ some l
    → held_by l caller token (env.time w.ticks) ≡ true
    → (b : Account) × ((patch parse_persona env caller a.account_id token a.record_version
          (Update.status "active" ∷ [])
          w).0
        ≡ ok b)
      × (b.status ≡ LifecycleState.active)
      × (b.connection_id ≡ a.connection_id)
      × (b.authorization ≡ a.authorization)
unfolding patch change require_account get_account patched apply_updates apply_update parse_status
    save update_account write_account compare_and_set note record_event append_event
patch_activates parse_persona env caller token a row l w there same version leased held = (
  next_version (record a { status = LifecycleState.active }) a.record_version
      (env.time (w.ticks + 1)),
  ground arith,
  refl,
  refl,
  refl,
)
