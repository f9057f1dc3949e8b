-- ===== src/Locking/Asked.antt =====
-- actions/locking.py: `checkout` leases the account that it is asked for.
use account_pool.Base.{
  ℕ, zero, suc, String, ◌≡◌, refl, inl, inr, Option, some, arith, eq_iff, str_eq, ◌==◌, sym, ◌∙◌,
  ap, Option-cases, Bool-cases,
}
use mathlib.Core.Path.{subst}
use account_pool.Base.Int.{ℤ}
use account_pool.Table.{find, find-put}
use account_pool.Domain.Models.{Account, add_seconds}
use account_pool.Runtime.Errors.{Result, ok, raised}
use account_pool.Runtime.World.{World, Env, AccountRow}
use account_pool.Runtime.Monad.{Prog, proceed}
use account_pool.Db.Accounts.{
  account_row, account_of, next_version, get_account, compare_and_set, write_account,
  update_account,
}
use account_pool.Locking.{
  held_by_other, require_account, prepare_checkout, on_conflict, checkout_rounds, max_cas_retries,
  ttl_or, checkout,
}
use account_pool.Locking.Checkout.{Leased, attempt, on_conflict-cases, checkout-Leased}

-- Every row of the accounts stands under the id of its account.
abbrev pub KeyedRows : World → Type 0
KeyedRows w =
    (k : String) (row : AccountRow) → find k w.accounts ≡ some row → row.payload.account_id ≡ k

update_account-KeyedRows :
    (env : Env) (acc : Account) (v : ℕ) (w : World)
    → KeyedRows w
    → KeyedRows (update_account env acc v w).1
unfolding update_account write_account compare_and_set
update_account-KeyedRows env acc v w keyed k row e =
    let new = account_row (next_version acc v (env.time w.ticks)) in
    let before = keyed k row in
    elim (Option-cases (find acc.account_id w.accounts)) [
      | inl missing ↦ before (ground arith)
      | inr (old, there) ↦ elim (Bool-cases (old.record_version == v)) [
        | inr other ↦ before (ground arith)
        | inl current ↦ elim (Bool-cases (str_eq acc.account_id k)) [
          | inr apart ↦ before (ground (arith, find-put acc.account_id k new w.accounts))
          | inl same ↦
              ground (arith, find-put acc.account_id k new w.accounts, eq_iff acc.account_id k)
        ]
      ]
    ]

update_account-id :
    (env : Env) (acc a : Account) (v : ℕ) (w : World)
    → (update_account env acc v w).0 ≡ ok a
    → a.account_id ≡ acc.account_id
unfolding update_account write_account compare_and_set
update_account-id env acc a v w e = elim (Option-cases (find acc.account_id w.accounts)) [
  | inl missing ↦ absurd (ground arith)
  | inr (old, there) ↦ ground (arith, Bool-cases (old.record_version == v))
]

module _ (env : Env) (meanwhile : ℕ → World → World) (id holder : String) (ttl : ℤ)
    (others : (n : ℕ) (u : World) → KeyedRows u → KeyedRows (meanwhile n u)) where
  prepare_checkout-accounts :
      (w : World) → (prepare_checkout env id holder ttl w).1.accounts ≡ w.accounts
  unfolding prepare_checkout require_account get_account
  prepare_checkout-accounts w = elim (Option-cases (account_of w.accounts id)) [
    | inl missing ↦ ground arith
    | inr (snap, there) ↦ elim (Bool-cases (held_by_other snap holder (env.time w.ticks))) [
      | inl busy ↦ ground arith
      | inr free ↦ ground (arith, Option-cases (add_seconds (env.time w.ticks) ttl))
    ]
  ]

  prepare_checkout-id :
      (w : World) (acc : Account) (v : ℕ)
      → KeyedRows w
      → (prepare_checkout env id holder ttl w).0 ≡ ok (acc, v)
      → acc.account_id ≡ id
  unfolding prepare_checkout require_account get_account
  prepare_checkout-id w acc v keyed e = elim (Option-cases (find id w.accounts)) [
    | inl missing ↦ absurd (ground arith)
    | inr (row, there) ↦ elim (Bool-cases (held_by_other row.payload holder (env.time w.ticks))) [
      | inl busy ↦ absurd (ground arith)
      | inr free ↦ elim (Option-cases (add_seconds (env.time w.ticks) ttl)) [
        | inl overflow ↦ absurd (ground arith)
        | inr (expires, fits) ↦
            let own = keyed id row there in
            let same : row.payload.account_id ≡ acc.account_id = ground arith in sym same ∙ own
      ]
    ]
  ]

  -- Every result that the rest of the rounds can return is the account that was asked for.
  abbrev Asked : Result Account × World → Type 0
  Asked m = (a : Account) → m.0 ≡ ok a → a.account_id ≡ id

  abbrev AsksIn : Prog Account → Type 0
  AsksIn again = (u : World) → KeyedRows u → Asked (again u)

  conflict-Asked :
      (m : Result Account × World) (again : Prog Account)
      → Asked m
      → KeyedRows m.1
      → AsksIn again
      → Asked (on_conflict (λ _. m) again m.1)
  conflict-Asked (r, u) again first keyed rest = elim (on_conflict-cases r u again) [
    | inl same ↦ subst (λ m. Asked m) (sym same) first
    | inr next ↦ subst (λ m. Asked m) (sym next) (rest u keyed)
  ]

  prepared-Asked :
      (n : ℕ) (again : Prog Account) (m : Result (Account × ℕ) × World)
      → ((acc : Account) (v : ℕ) → m.0 ≡ ok (acc, v) → acc.account_id ≡ id)
      → KeyedRows m.1
      → AsksIn again
      → Asked (proceed (attempt env meanwhile id holder ttl n again) m.0 m.1)
  unfolding attempt
  prepared-Asked n again (raised x, u) own keyed rest = λ a e. absurd (ground arith)
  prepared-Asked n again (ok (acc, v), u) own keyed rest =
      let there = others n u keyed in
      conflict-Asked (update_account env acc v (meanwhile n u)) again
        (λ a e. update_account-id env acc a v (meanwhile n u) e ∙ own acc v refl)
        (update_account-KeyedRows env acc v (meanwhile n u) there) rest

  rounds-Asked : (n : ℕ) → AsksIn (checkout_rounds env meanwhile n id holder ttl)
  unfolding checkout_rounds attempt
  rounds-Asked zero w keyed = λ a e. absurd (ground arith)
  rounds-Asked (suc n) w keyed =
      prepared-Asked n (checkout_rounds env meanwhile n id holder ttl)
        (prepare_checkout env id holder ttl w)
        (λ acc v prepared. prepare_checkout-id w acc v keyed prepared)
        (λ k row e. keyed k row (sym (ap (find k) (prepare_checkout-accounts w)) ∙ e))
        (rounds-Asked n)

-- Where every row of the accounts stands under the id of its account, and what other agents do keeps
-- that so, a checkout that returns gives its holder the account that was asked for, with a lease of
-- the holder, and the row of that id is the returned account, whatever else other agents did between
-- its rounds' reads and writes.
pub checkout-Asked :
    (env : Env) (meanwhile : ℕ → World → World) (id holder : String) (ttl : Option ℤ) (w : World)
    (a : Account)
    → ((n : ℕ) (u : World) → KeyedRows u → KeyedRows (meanwhile n u))
    → KeyedRows w
    → (checkout env meanwhile id holder ttl w).0 ≡ ok a
    → (a.account_id ≡ id)
      × (find id (checkout env meanwhile id holder ttl w).1.accounts ≡ some (account_row a))
      × Leased holder (checkout env meanwhile id holder ttl w).1 a
unfolding checkout
checkout-Asked env meanwhile id holder ttl w a others keyed e =
    let own =
      rounds-Asked env meanwhile id holder (ttl_or ttl env.default_lock_ttl) others max_cas_retries
        w keyed a e in
    let leased = checkout-Leased env meanwhile id holder ttl w a e in
    (
      own,
      subst (λ k. find k (checkout env meanwhile id holder ttl w).1.accounts ≡ some (account_row a))
          own leased.stored,
      leased,
    )
