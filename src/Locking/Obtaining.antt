-- ===== src/Locking/Obtaining.antt =====
-- actions/locking.py: that a checkout of a free account does return, and the checkin of its lease.
use account_pool.Base.{
  ℕ, ◌+◌, suc, String, ◌≡◌, refl, false, Option, none, some, arith, eq_refl, ap, ◌∙◌,
}
use mathlib.Core.Path.{subst}
use account_pool.Base.Int.{ℤ}
use account_pool.Table.{find, find-put_self}
use account_pool.Domain.Models.{Account, LockLease, add_seconds}
use account_pool.Runtime.Errors.{Result, ok}
use account_pool.Runtime.World.{World, Env, AccountRow}
use account_pool.Runtime.Monad.{Prog, proceed, modify, ◌>>◌}
use account_pool.Db.Accounts.{
  account_row, next_version, get_account, compare_and_set, write_account, update_account,
}
use account_pool.Locking.{
  held_by_other, with_lock, require_account, prepare_checkout, on_conflict, checkout_rounds, ttl_or,
  checkout, save_lock, prepare_checkin, checkin,
}
use account_pool.Locking.Checkout.{Leased, checkout-Leased}

update_account-current :
    (env : Env) (acc : Account) (row : AccountRow) (w : World)
    → find acc.account_id w.accounts ≡ some row
    → (update_account env acc row.record_version w).0
      ≡ ok (next_version acc row.record_version (env.time w.ticks))
unfolding update_account write_account compare_and_set
update_account-current env acc row w there = ground arith

on_conflict-eq_ok :
    {A : Type 0} (m handler : Prog A) (w : World) (a : A)
    → (m w).0 ≡ ok a
    → (on_conflict m handler w).0 ≡ ok a
on_conflict-eq_ok m handler w a returned = ground arith

module _ (env : Env) (meanwhile : ℕ → World → World) (holder : String) (ttl : ℤ) where
  -- What a round that gets the account will write.
  abbrev lease_to : Account → ℕ → World → Account
  lease_to snap expires w = with_lock snap (
      some (record {
        holder = holder;
        token = env.random w.minted;
        acquired_at = env.time w.ticks;
        expires_at = expires;
      }))

  abbrev prepared : World → World
  prepared w = record w { ticks = w.ticks + 1; minted = w.minted + 1 }

  prepare_checkout-free :
      (snap : Account) (expires : ℕ) (w : World)
      → find snap.account_id w.accounts ≡ some (account_row snap)
      → held_by_other snap holder (env.time w.ticks) ≡ false
      → add_seconds (env.time w.ticks) ttl ≡ some expires
      → prepare_checkout env snap.account_id holder ttl w
        ≡ (ok (lease_to snap expires w, snap.record_version), prepared w)
  unfolding prepare_checkout require_account get_account
  prepare_checkout-free snap expires w there free fits = ground arith

  rounds-free :
      (n : ℕ) (snap : Account) (expires : ℕ) (w : World)
      → find snap.account_id w.accounts ≡ some (account_row snap)
      → held_by_other snap holder (env.time w.ticks) ≡ false
      → add_seconds (env.time w.ticks) ttl ≡ some expires
      → find snap.account_id (meanwhile n (prepared w)).accounts ≡ some (account_row snap)
      → (checkout_rounds env meanwhile (suc n) snap.account_id holder ttl w).0
        ≡ ok (
            next_version
              (lease_to snap expires w)
              snap.record_version
              (env.time (meanwhile n (prepared w)).ticks))
  unfolding checkout_rounds
  rounds-free n snap expires w there free fits kept =
      let again = checkout_rounds env meanwhile n snap.account_id holder ttl in
      ap
        (λ m.
          (proceed
            (λ (p : Account × ℕ).
              modify (meanwhile n) >> on_conflict (update_account env p.0 p.1) again)
            m.0 m.1).0)
        (prepare_checkout-free snap expires w there free fits)
      ∙ on_conflict-eq_ok (update_account env (lease_to snap expires w) snap.record_version) again
          (meanwhile n (prepared w))
          (next_version (lease_to snap expires w) snap.record_version
            (env.time (meanwhile n (prepared w)).ticks))
          (update_account-current env (lease_to snap expires w) (account_row snap)
            (meanwhile n (prepared w)) kept)

-- A checkout of an account that is in its row, that no other holder's active lease keeps, returns the
-- account with a lease of the holder, where the end of the lease is a date and the first round meets
-- no other write of the row between its read and its write; the row is then that account.
pub checkout-Obtains :
    (env : Env) (meanwhile : ℕ → World → World) (holder : String) (ttl : Option ℤ) (snap : Account)
    (expires : ℕ) (w : World)
    → find snap.account_id w.accounts ≡ some (account_row snap)
    → held_by_other snap holder (env.time w.ticks) ≡ false
    → add_seconds (env.time w.ticks) (ttl_or ttl env.default_lock_ttl) ≡ some expires
    → ((u : World)
        → find snap.account_id (meanwhile 3 u).accounts ≡ find snap.account_id u.accounts)
    → (a : Account) × ((checkout env meanwhile snap.account_id holder ttl w).0 ≡ ok a)
      × (a.record_version ≡ snap.record_version + 1)
      × (a.lock
          ≡ some (record {
            holder = holder;
            token = env.random w.minted;
            acquired_at = env.time w.ticks;
            expires_at = expires;
          }))
      × Leased holder (checkout env meanwhile snap.account_id holder ttl w).1 a
unfolding checkout
checkout-Obtains env meanwhile holder ttl snap expires w there free fits quiet =
    let u = prepared env meanwhile holder (ttl_or ttl env.default_lock_ttl) w in
    let a =
      next_version (lease_to env meanwhile holder (ttl_or ttl env.default_lock_ttl) snap expires w)
        snap.record_version (env.time (meanwhile 3 u).ticks) in
    let returns =
      rounds-free env meanwhile holder (ttl_or ttl env.default_lock_ttl) 3 snap expires w there free
        fits (quiet u ∙ there) in
    (a, returns, refl, refl, checkout-Leased env meanwhile snap.account_id holder ttl w a returns)

checkin-held :
    (env : Env) (a : Account) (l : LockLease) (w : World)
    → find a.account_id w.accounts ≡ some (account_row a)
    → a.lock ≡ some l
    → (checkin env a.account_id l.holder l.token w).0
      ≡ ok (next_version (with_lock a none) a.record_version (env.time w.ticks))
unfolding checkin save_lock prepare_checkin require_account get_account update_account write_account
    compare_and_set
checkin-held env a l w there held = ground (arith, eq_refl l.holder, eq_refl l.token)

checkin-held_stored :
    (env : Env) (a : Account) (l : LockLease) (w : World)
    → find a.account_id w.accounts ≡ some (account_row a)
    → a.lock ≡ some l
    → find a.account_id (checkin env a.account_id l.holder l.token w).1.accounts
      ≡ some (account_row (next_version (with_lock a none) a.record_version (env.time w.ticks)))
unfolding checkin save_lock prepare_checkin require_account get_account update_account write_account
    compare_and_set
checkin-held_stored env a l w there held =
    let new = account_row (next_version (with_lock a none) a.record_version (env.time w.ticks)) in
    ground (arith, eq_refl l.holder, eq_refl l.token, find-put_self a.account_id new w.accounts)

-- The account without a lease, under the next version, is what a call returned and what its row holds.
pub record Freed (a : Account) (m : Result Account × World) : Type 0 where
  pub free : Account
  pub returned : m.0 ≡ ok free
  pub unlocked : free ≡ next_version (with_lock a none) a.record_version free.updated_at
  pub stored : find a.account_id m.1.accounts ≡ some (account_row free)

-- After a checkout that returned, whatever other agents did in it, a checkin of the lease by its
-- holder and token returns, and the account is free again under the next version.
pub checkin-checkout :
    (env : Env) (meanwhile : ℕ → World → World) (id holder : String) (ttl : Option ℤ) (w : World)
    (a : Account) (l : LockLease)
    → (checkout env meanwhile id holder ttl w).0 ≡ ok a
    → a.lock ≡ some l
    → Freed a (checkin env a.account_id holder l.token (checkout env meanwhile id holder ttl w).1)
checkin-checkout env meanwhile id holder ttl w a l returns held =
    let u = (checkout env meanwhile id holder ttl w).1 in
    let leased = checkout-Leased env meanwhile id holder ttl w a returns in
    let mine : l.holder ≡ holder = ground (arith, leased.locked, leased.mine) in
    subst (λ h. Freed a (checkin env a.account_id h l.token u)) mine
      (record {
        free = next_version (with_lock a none) a.record_version (env.time u.ticks);
        returned = checkin-held env a l u leased.stored held;
        unlocked = refl;
        stored = checkin-held_stored env a l u leased.stored held;
      })
