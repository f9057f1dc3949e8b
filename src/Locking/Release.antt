-- ===== src/Locking/Release.antt =====
-- actions/locking.py: what `checkin` needs and what it leaves.
use account_pool.Base.{
  String, ◌≡◌, false, ◌&&◌, inl, inr, none, some, arith, eq_iff, str_eq, ◌==◌, Option-cases,
  Bool-cases,
}
use account_pool.Table.{find, find-put, find-put_self}
use account_pool.Domain.Models.{Account, LockLease}
use account_pool.Runtime.Errors.{ok}
use account_pool.Runtime.World.{World, Env}
use account_pool.Db.Accounts.{
  account_row, account_of, next_version, get_account, compare_and_set, write_account,
  update_account,
}
use account_pool.Locking.{with_lock, require_account, save_lock, prepare_checkin, checkin}
use account_pool.Locking.Asked.{KeyedRows}

-- A checkin that returned: the account had a lease of the caller's with the caller's token, and has
-- none any more; its version is counted up, and every other row is as it was.
pub record Released (env : Env) (id holder token : String) (w u : World) (a : Account)
    : Type 0 where
  pub before : Account
  pub read : account_of w.accounts id ≡ some before
  pub lease : LockLease
  pub locked : before.lock ≡ some lease
  pub mine : lease.holder ≡ holder
  pub token_is : lease.token ≡ token
  pub free : a ≡ next_version (with_lock before none) before.record_version (env.time w.ticks)
  pub stored : find id u.accounts ≡ some (account_row a)
  pub others : (j : String) → str_eq id j ≡ false → find j u.accounts ≡ find j w.accounts

-- Where every row of the accounts stands under the id of its account, a checkin that returns was made
-- by the holder of the account's lease with its token; the returned account, which is what is now
-- stored under the id, is the one that was read, without the lease and under the next version, and
-- no other row is touched.
pub checkin-Released :
    (env : Env) (id holder token : String) (w : World) (a : Account)
    → KeyedRows w
    → (checkin env id holder token w).0 ≡ ok a
    → Released env id holder token w (checkin env id holder token w).1 a
unfolding checkin save_lock prepare_checkin require_account get_account update_account write_account
    compare_and_set
checkin-Released env id holder token w a keyed e = elim (Option-cases (find id w.accounts)) [
  | inl missing ↦ absurd (ground arith)
  | inr (row, there) ↦ elim (Option-cases row.payload.lock) [
    | inl free ↦ absurd (ground arith)
    | inr (l, leased) ↦ elim (Bool-cases (str_eq l.holder holder && str_eq l.token token)) [
      | inr other ↦ absurd (ground arith)
      | inl same ↦
          let own = keyed id row there in
          let snap = row.payload in
          let new = next_version (with_lock snap none) snap.record_version (env.time w.ticks) in
          elim (Bool-cases (row.record_version == snap.record_version)) [
            | inr old ↦ absurd (ground arith)
            | inl current ↦ record {
              before = snap;
              read = ground arith;
              lease = l;
              locked = leased;
              mine = ground (arith, eq_iff l.holder holder);
              token_is = ground (arith, eq_iff l.token token);
              free = ground arith;
              stored = ground (arith, find-put_self id (account_row new) w.accounts);
              others = λ j apart. ground (arith, find-put id j (account_row new) w.accounts);
            }
          ]
    ]
  ]
]
