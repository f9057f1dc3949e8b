-- ===== src/Locking/Refinement.antt =====
-- actions/locking.py: what its three operations read and work out is what the steps allow.
use account_pool.Base.{
  ℕ, ◌+◌, String, ◌≡◌, ◌&&◌, Option, some, arith, str_eq, eq_iff, eq_refl, Option-cases, Bool-cases,
  inl, inr,
}
use account_pool.Base.Int.{ℤ}
use account_pool.Domain.Models.{Account, held_by, add_seconds}
use account_pool.Runtime.Errors.{ok}
use account_pool.Runtime.World.{World, Env}
use account_pool.Db.Accounts.{account_of, get_account}
use account_pool.Locking.{
  held_by_other, require_account, prepare_checkout, prepare_refresh, prepare_checkin, ttl_or,
}
use account_pool.Locking.Interleaving.{Plan}

-- If a round of `checkout` in locking.py returns what it will write, the account has a row, the
-- version to write under is the one of that row, and what will be written is a `Plan` of the agent
-- for that row at the moment that the round first reads the clock.
pub prepare_checkout-Plan :
    (env : Env) (id holder : String) (ttl : ℤ) (w : World) (acc : Account) (v : ℕ)
    → (prepare_checkout env id holder ttl w).0 ≡ ok (acc, v)
    → (snap : Account) × (account_of w.accounts id ≡ some snap)
      × (v ≡ snap.record_version)
      × Plan snap holder (env.time w.ticks) acc
unfolding prepare_checkout get_account
prepare_checkout-Plan env id holder ttl w acc v e = elim (Option-cases (account_of w.accounts id)) [
  | inl missing ↦ absurd (ground arith)
  | inr (snap, there) ↦ elim (Bool-cases (held_by_other snap holder (env.time w.ticks))) [
    | inl busy ↦ absurd (ground arith)
    | inr free ↦ elim (Option-cases (add_seconds (env.time w.ticks) ttl)) [
      | inl overflow ↦ absurd (ground arith)
      | inr (expires, fits) ↦ (
        snap,
        there,
        ground arith,
        Plan.checkout (env.random w.minted) expires free (ground arith),
      )
    ]
  ]
]

-- If `refresh` in locking.py comes to a write, the account has a row, the version to write under is
-- the one of that row, and what will be written is a `Plan` of the agent for that row at the moment
-- that the operation first reads the clock.
pub prepare_refresh-Plan :
    (env : Env) (id holder token : String) (ttl : Option ℤ) (w : World) (acc : Account) (v : ℕ)
    → (prepare_refresh env id holder token ttl w).0 ≡ ok (acc, v)
    → (snap : Account) × (account_of w.accounts id ≡ some snap)
      × (v ≡ snap.record_version)
      × Plan snap holder (env.time w.ticks) acc
unfolding prepare_refresh require_account get_account
prepare_refresh-Plan env id holder token ttl w acc v e =
    elim (Option-cases (account_of w.accounts id)) [
      | inl missing ↦ absurd (ground arith)
      | inr (snap, there) ↦ elim (Option-cases snap.lock) [
        | inl free ↦ absurd (ground arith)
        | inr (l, leased) ↦ elim (Bool-cases (held_by l holder token (env.time w.ticks))) [
          | inr lost ↦ absurd (ground arith)
          | inl held ↦
              elim (Option-cases
                (add_seconds (env.time (w.ticks + 1)) (ttl_or ttl env.default_lock_ttl))) [
                  | inl overflow ↦ absurd (ground arith)
                  | inr (expires, fits) ↦ (
                    snap,
                    there,
                    ground arith,
                    Plan.refresh l expires leased
                        (ground (arith, eq_iff l.holder holder, eq_refl l.token))
                        (ground (arith, eq_iff l.token token, eq_iff l.holder holder)),
                  )
                ]
        ]
      ]
    ]

-- If `checkin` in locking.py comes to a write, the account has a row, the version to write under is
-- the one of that row, and what will be written is a `Plan` of the agent for that row at the moment
-- of the operation.
pub prepare_checkin-Plan :
    (env : Env) (id holder token : String) (w : World) (acc : Account) (v : ℕ)
    → (prepare_checkin env id holder token w).0 ≡ ok (acc, v)
    → (snap : Account) × (account_of w.accounts id ≡ some snap)
      × (v ≡ snap.record_version)
      × Plan snap holder (env.time w.ticks) acc
unfolding prepare_checkin require_account get_account
prepare_checkin-Plan env id holder token w acc v e =
    elim (Option-cases (account_of w.accounts id)) [
      | inl missing ↦ absurd (ground arith)
      | inr (snap, there) ↦ elim (Option-cases snap.lock) [
        | inl free ↦ absurd (ground arith)
        | inr (l, leased) ↦ elim (Bool-cases (str_eq l.holder holder && str_eq l.token token)) [
          | inr other ↦ absurd (ground arith)
          | inl mine ↦
              (snap, there, ground arith, Plan.checkin l leased (ground arith) (ground arith))
        ]
      ]
    ]
