-- ===== src/Locking/Exclusion.antt =====
-- What the versions buy: interleaved agents behave as if each had read and written at once, and an
-- active lease is safe from every other agent.
use account_pool.Base.{ℕ, ◌<◌, String, ◌≡◌, ◌≢◌, some, arith, eq_iff, sym}
use mathlib.Core.Path.{subst}
use account_pool.Table.{Table, find}
use account_pool.Domain.Models.{Account, LockLease}
use account_pool.Runtime.World.{AccountRow}
use account_pool.Db.Accounts.{account_row, next_version, compare_and_set}
use account_pool.Locking.{held_by_other}
use account_pool.Locking.Interleaving.{
  Plan, Pending, Shared, Step, Reach, IsValid, compare_and_set-eq_some, Reach-IsValid,
}

module _ (id : String) {start s : Shared} (valid : IsValid id start) (run : Reach id start s) where
  -- A write that succeeds, in any interleaving, is one that its agent could have worked out from the row
  -- as it stands at that moment: the agents run as if a read and its write were one transaction.
  pub write_is_atomic :
      (agent : String) (p : Pending) (accounts : Table AccountRow)
      → s.pending agent ≡ some p
      → compare_and_set id p.snapshot.record_version
          (account_row (next_version p.account p.snapshot.record_version s.clock))
          s.accounts
        ≡ some accounts
      → (row : AccountRow) × (find id s.accounts ≡ some row)
        × (row.payload ≡ p.snapshot)
        × Plan row.payload agent p.at p.account
        × (find id accounts
            ≡ some (account_row (next_version p.account row.record_version s.clock)))
  write_is_atomic agent p accounts mine cas =
      let v = p.snapshot.record_version in
      let (row, there, version, written) =
        compare_and_set-eq_some id v (account_row (next_version p.account v s.clock)) s.accounts
          accounts cas in
      let (at, plan, older, same) = (Reach-IsValid id run valid).fresh agent p row mine there in
      let equal : row.payload ≡ p.snapshot = same (omega arith) in
      (
        row,
        there,
        equal,
        subst (λ a. Plan a agent p.at p.account) (sym equal) plan,
        rw version written,
      )

-- No plan of another agent touches an active lease.
plan_keeps_lease :
    (snap acc : Account) (agent : String) (t : ℕ) (l : LockLease)
    → Plan snap agent t acc
    → snap.lock ≡ some l
    → l.holder ≢ agent
    → t < l.expires_at
    → acc.lock ≡ some l
unfolding held_by_other
plan_keeps_lease snap acc agent t l (Plan.checkout token expires free e) held others active =
    ground (arith, eq_iff l.holder agent)
plan_keeps_lease snap acc agent t l (Plan.refresh k expires k_held mine e) held others active =
    ground (arith, eq_iff l.holder agent)
plan_keeps_lease snap acc agent t l (Plan.checkin k k_held mine e) held others active =
    ground (arith, eq_iff l.holder agent)
plan_keeps_lease snap acc agent t l (Plan.other same) held others active = ground arith

module _ (id : String) {start s u : Shared} (valid : IsValid id start)
    (run : Reach id start s) where
  -- In every reachable state, no step of any agent changes the lock while another agent's lease on it is
  -- active: the row still carries that lease afterwards.
  pub lease_is_protected :
      (agent : String) (row : AccountRow) (l : LockLease)
      → Step id agent s u
      → find id s.accounts ≡ some row
      → row.payload.lock ≡ some l
      → l.holder ≢ agent
      → s.clock < l.expires_at
      → (row' : AccountRow) × (find id u.accounts ≡ some row') × (row'.payload.lock ≡ some l)
  lease_is_protected agent row l (Step.wait t le e) there held others active =
      (row, ground arith, held)
  lease_is_protected agent row l (Step.read r acc found plan e) there held others active =
      (row, ground arith, held)
  lease_is_protected agent row l (Step.drop e) there held others active = (row, ground arith, held)
  lease_is_protected agent row l (Step.write p accounts mine cas e) there held others active =
      let (old, found, same, plan, written) =
        write_is_atomic id valid run agent p accounts mine cas in
      let (at, _, _, _) = (Reach-IsValid id run valid).fresh agent p old mine found in
      let this : old ≡ row = ground arith in
      let lease : old.payload.lock ≡ some l = rw this held in
      (
        account_row (next_version p.account old.record_version s.clock),
        rw e written,
        plan_keeps_lease old.payload p.account agent p.at l plan lease others (omega arith),
      )
