-- ===== src/Locking/Checkout.antt =====
-- actions/locking.py: what a caller of `checkout` has when it returns.
use account_pool.Base.{
  ℕ, zero, suc, String, ◌≡◌, refl, ◌⊎◌, inl, inr, Option, some, arith, sym, ◌∙◌, ◌==◌, Option-cases,
  Bool-cases,
}
use mathlib.Core.Path.{subst}
use account_pool.Base.Int.{ℤ}
use account_pool.Table.{find, find-put_self}
use account_pool.Domain.Models.{Account, LockLease, add_seconds}
use account_pool.Runtime.Errors.{Error, Result, ok, raised}
use account_pool.Runtime.World.{World, Env}
use account_pool.Runtime.Monad.{Prog, proceed, modify, ◌>>◌}
use account_pool.Db.Accounts.{
  account_row, account_of, next_version, get_account, compare_and_set, write_account,
  update_account,
}
use account_pool.Locking.{
  held_by_other, require_account, prepare_checkout, on_conflict, checkout_rounds, max_cas_retries,
  ttl_or, checkout,
}

-- The row of the account is this account, with a lease of the holder.
pub record Leased (holder : String) (w : World) (a : Account) : Type 0 where
  pub lease : LockLease
  pub locked : a.lock ≡ some lease
  pub mine : lease.holder ≡ holder
  pub stored : find a.account_id w.accounts ≡ some (account_row a)

-- A handler of a conflict runs, or the result is as it was.
pub on_conflict-cases :
    {A : Type 0} (r : Result A) (u : World) (handler : Prog A)
    → let m = on_conflict (λ _. (r, u)) handler u in (m ≡ (r, u)) ⊎ (m ≡ handler u)
on_conflict-cases (ok a) u handler = inl refl
on_conflict-cases (raised Error.version_conflict) u handler = inr refl
on_conflict-cases (raised e) u handler = inl refl

update_account-stored :
    (env : Env) (acc a : Account) (v : ℕ) (w : World)
    → (update_account env acc v w).0 ≡ ok a
    → (a.lock ≡ acc.lock)
      × (find a.account_id (update_account env acc v w).1.accounts ≡ some (account_row a))
unfolding update_account write_account compare_and_set
update_account-stored env acc a v w e =
    let new = next_version acc v (env.time w.ticks) in
    elim (Option-cases (find acc.account_id w.accounts)) [
      | inl missing ↦ absurd (ground arith)
      | inr (row, there) ↦ elim (Bool-cases (row.record_version == v)) [
        | inl current ↦
            let same : new ≡ a = ground arith in
            subst
              (λ (b : Account).
                (b.lock ≡ acc.lock)
                × (find b.account_id (update_account env acc v w).1.accounts
                    ≡ some (account_row b)))
              same (refl, ground (arith, find-put_self acc.account_id (account_row new) w.accounts))
        | inr old ↦ absurd (ground arith)
      ]
    ]

module _ (env : Env) (meanwhile : ℕ → World → World) (id holder : String) (ttl : ℤ) where
  prepare_checkout-holder :
      (w : World) (acc : Account) (v : ℕ)
      → (prepare_checkout env id holder ttl w).0 ≡ ok (acc, v)
      → (l : LockLease) × (acc.lock ≡ some l) × (l.holder ≡ holder)
  unfolding prepare_checkout require_account get_account
  prepare_checkout-holder w acc v e = elim (Option-cases (account_of w.accounts id)) [
    | inl missing ↦ absurd (ground arith)
    | inr (snap, there) ↦ elim (Bool-cases (held_by_other snap holder (env.time w.ticks))) [
      | inl busy ↦ absurd (ground arith)
      | inr free ↦ elim (Option-cases (add_seconds (env.time w.ticks) ttl)) [
        | inl overflow ↦ absurd (ground arith)
        | inr (expires, fits) ↦ (
          record {
            holder = holder;
            token = env.random w.minted;
            acquired_at = env.time w.ticks;
            expires_at = expires;
          },
          ground arith,
          refl,
        )
      ]
    ]
  ]

  unfoldable pub attempt : ℕ → Prog Account → Account × ℕ → Prog Account
  attempt n again p = modify (meanwhile n) >> on_conflict (update_account env p.0 p.1) again

  written-Leased :
      (acc a : Account) (v : ℕ) (l : LockLease) (w : World)
      → acc.lock ≡ some l
      → l.holder ≡ holder
      → (update_account env acc v w).0 ≡ ok a
      → Leased holder (update_account env acc v w).1 a
  written-Leased acc a v l w leased mine e =
      let (same, stored) = update_account-stored env acc a v w e in
      record { lease = l; locked = same ∙ leased; mine = mine; stored = stored }

  -- What holds of every result that the rest of the rounds can return.
  abbrev Safe : Result Account × World → Type 0
  Safe m = (a : Account) → m.0 ≡ ok a → Leased holder m.1 a

  conflict-Safe :
      (m : Result Account × World) (again : Prog Account)
      → Safe m
      → ((u : World) → Safe (again u))
      → Safe (on_conflict (λ _. m) again m.1)
  conflict-Safe (r, u) again first rest = elim (on_conflict-cases r u again) [
    | inl same ↦ subst (λ m. Safe m) (sym same) first
    | inr next ↦ subst (λ m. Safe m) (sym next) (rest u)
  ]

  attempt-Safe :
      (n : ℕ) (again : Prog Account) (acc : Account) (v : ℕ) (l : LockLease) (w : World)
      → acc.lock ≡ some l
      → l.holder ≡ holder
      → ((u : World) → Safe (again u))
      → Safe (attempt n again (acc, v) w)
  unfolding attempt
  attempt-Safe n again acc v l w leased mine rest =
      conflict-Safe (update_account env acc v (meanwhile n w)) again
        (λ a e. written-Leased acc a v l (meanwhile n w) leased mine e) rest

  prepared-Safe :
      (n : ℕ) (again : Prog Account) (m : Result (Account × ℕ) × World)
      → ((acc : Account) (v : ℕ)
          → m.0 ≡ ok (acc, v)
          → (l : LockLease) × (acc.lock ≡ some l) × (l.holder ≡ holder))
      → ((u : World) → Safe (again u))
      → Safe (proceed (attempt n again) m.0 m.1)
  prepared-Safe n again (raised x, u) holds rest a e = absurd (ground arith)
  prepared-Safe n again (ok (acc, v), u) holds rest a e =
      let (l, leased, mine) = holds acc v refl in
      attempt-Safe n again acc v l u leased mine rest a e

  rounds-Safe : (n : ℕ) (w : World) → Safe (checkout_rounds env meanwhile n id holder ttl w)
  unfolding checkout_rounds attempt
  rounds-Safe zero w = λ a e. absurd (ground arith)
  rounds-Safe (suc n) w =
      prepared-Safe n (checkout_rounds env meanwhile n id holder ttl)
        (prepare_checkout env id holder ttl w)
        (λ acc v prepared. prepare_checkout-holder w acc v prepared) (rounds-Safe n)

-- A checkout that returns gives an account with a lease of the holder, whose row is that account,
-- whatever other agents did between its rounds' reads and writes.
pub checkout-Leased :
    (env : Env) (meanwhile : ℕ → World → World) (id holder : String) (ttl : Option ℤ) (w : World)
    (a : Account)
    → (checkout env meanwhile id holder ttl w).0 ≡ ok a
    → Leased holder (checkout env meanwhile id holder ttl w).1 a
unfolding checkout
checkout-Leased env meanwhile id holder ttl w a e =
    rounds-Safe env meanwhile id holder (ttl_or ttl env.default_lock_ttl) max_cas_retries w a e
