-- ===== src/Locking/Interleaving.antt =====
-- Agents that lock one account at the same time (actions/locking.py over `AccountRepository.update`):
-- each reads the row, works out what it will write, and writes under the version that it has read.
-- A step is one transaction, so any interleaving of the agents is a sequence of steps.
use account_pool.Base.{
  ℕ, ◌+◌, ◌≤◌, String, ◌≡◌, true, false, Option, none, some, arith, str_eq, eq_iff, Option-cases,
  Bool-cases, inl, inr, ap,
}
use mathlib.Core.Path.{subst₂}
use account_pool.Table.{Table, find, find-put_self}
use account_pool.Domain.Models.{Account, LockLease, held_by}
use account_pool.Runtime.World.{AccountRow}
use account_pool.Db.Accounts.{account_row, next_version, compare_and_set}
use account_pool.Policy.RateLimit.{update}
use account_pool.Locking.{held_by_other, with_lock}

-- What an agent may write after it has read `snap` at the moment `t`: a lease of its own, a longer
-- lease, no lease any more, or anything that leaves the lock alone.
pub data Plan (snap : Account) (agent : String) (t : ℕ) (acc : Account) : Type 0 where
  checkout :
      (token : String) (expires : ℕ)
      → held_by_other snap agent t ≡ false
      → acc
        ≡ with_lock snap
            (some (record { holder = agent; token = token; acquired_at = t; expires_at = expires }))
      → Plan snap agent t acc
  refresh :
      (l : LockLease) (expires : ℕ)
      → snap.lock ≡ some l
      → held_by l agent l.token t ≡ true
      → acc
        ≡ with_lock snap (
            some (record {
              holder = agent;
              token = l.token;
              acquired_at = l.acquired_at;
              expires_at = expires;
            }))
      → Plan snap agent t acc
  checkin :
      (l : LockLease)
      → snap.lock ≡ some l
      → str_eq l.holder agent ≡ true
      → acc ≡ with_lock snap none
      → Plan snap agent t acc
  other : acc.lock ≡ snap.lock → Plan snap agent t acc

-- What an agent has read, when, and what it will write.
pub record Pending : Type 0 where
  pub snapshot : Account
  pub at : ℕ
  pub account : Account

pub record Shared : Type 0 where
  pub clock : ℕ
  pub accounts : Table AccountRow
  pub pending : String → Option Pending

-- At the moment `now` and with the row `row` in the table, what an agent has read is older than the row,
-- or is the row.
abbrev pub Fresh : ℕ → String → Pending → AccountRow → Type 0
Fresh now agent p row =
    (p.at ≤ now)
    × Plan p.snapshot agent p.at p.account
    × (p.snapshot.record_version ≤ row.record_version)
    × (p.snapshot.record_version ≡ row.record_version → row.payload ≡ p.snapshot)

module _ (id : String) where
  pub data Step (agent : String) (s u : Shared) : Type 0 where
    wait : (t : ℕ) → s.clock ≤ t → u ≡ record s { clock = t } → Step agent s u
    read :
        (row : AccountRow) (acc : Account)
        → find id s.accounts ≡ some row
        → Plan row.payload agent s.clock acc
        → u ≡ record s {
          pending =
              update agent
                (some (record { snapshot = row.payload; at = s.clock; account = acc }))
                s.pending;
        }
        → Step agent s u
    write :
        (p : Pending) (accounts : Table AccountRow)
        → s.pending agent ≡ some p
        → compare_and_set id p.snapshot.record_version
            (account_row (next_version p.account p.snapshot.record_version s.clock))
            s.accounts
          ≡ some accounts
        → u ≡ record s { accounts = accounts; pending = update agent none s.pending }
        → Step agent s u
    -- a conflict, or an agent that raises
    drop : u ≡ record s { pending = update agent none s.pending } → Step agent s u

  pub data Reach (s : Shared) : Shared → Type 0 where
    here : Reach s s
    next : {u v : Shared} (agent : String) → Reach s u → Step agent u v → Reach s v

  -- The row's version is its payload's; what an agent has read is older than the row, or is the row.
  pub record IsValid (s : Shared) : Type 0 where
    pub stored :
        (row : AccountRow)
        → find id s.accounts ≡ some row
        → row.record_version ≡ row.payload.record_version
    pub fresh :
        (agent : String) (p : Pending) (row : AccountRow)
        → s.pending agent ≡ some p
        → find id s.accounts ≡ some row
        → Fresh s.clock agent p row

pub compare_and_set-eq_some :
    (id : String) (v : ℕ) (new : AccountRow) (t t' : Table AccountRow)
    → compare_and_set id v new t ≡ some t'
    → (old : AccountRow) × (find id t ≡ some old)
      × (old.record_version ≡ v)
      × (find id t' ≡ some new)
unfolding compare_and_set
compare_and_set-eq_some id v new t t' e = elim (Option-cases (find id t)) [
  | inl missing ↦ absurd (ground arith)
  | inr (old, there) ↦ (old, there, ground arith, ground (arith, find-put_self id new t))
]

module _ (id : String) where
  wait-IsValid :
      (s : Shared) (t : ℕ) → s.clock ≤ t → IsValid id s → IsValid id (record s { clock = t })
  wait-IsValid s t le h = record {
    stored = h.stored;
    fresh = λ a p row e there.
        let (at, plan, older, same) = h.fresh a p row e there in (omega arith, plan, older, same);
  }

  drop-IsValid :
      (s : Shared) (agent : String)
      → IsValid id s
      → IsValid id (record s { pending = update agent none s.pending })
  drop-IsValid s agent h = record {
    stored = h.stored;
    fresh = λ a p row e there. h.fresh a p row (ground arith) there;
  }

  read-IsValid :
      (s : Shared) (agent : String) (row : AccountRow) (acc : Account)
      → find id s.accounts ≡ some row
      → Plan row.payload agent s.clock acc
      → IsValid id s
      → IsValid id (record s {
        pending =
            update agent
              (some (record { snapshot = row.payload; at = s.clock; account = acc }))
              s.pending;
      })
  read-IsValid s agent row acc there plan h =
      let new : Pending = record { snapshot = row.payload; at = s.clock; account = acc } in
      record {
        stored = h.stored;
        fresh = λ a p row' e found.
            let same : row' ≡ row = ground arith in
            elim (Bool-cases (str_eq agent a)) [
              | inl mine ↦
                  let me : agent ≡ a = (eq_iff agent a).0 mine in
                  let is_new : new ≡ p = ground arith in
                  subst₂ (λ q b. Fresh s.clock b q row') is_new me
                    (
                      omega arith,
                      plan,
                      rw same (omega (arith, h.stored row there)),
                      λ version. ap (λ (r : AccountRow). r.payload) same,
                    )
              | inr theirs ↦ h.fresh a p row' (ground arith) found
            ];
      }

  write-IsValid :
      (s : Shared) (agent : String) (p : Pending) (accounts : Table AccountRow)
      → s.pending agent ≡ some p
      → compare_and_set id p.snapshot.record_version
          (account_row (next_version p.account p.snapshot.record_version s.clock))
          s.accounts
        ≡ some accounts
      → IsValid id s
      → IsValid id (record s { accounts = accounts; pending = update agent none s.pending })
  write-IsValid s agent p accounts e cas h =
      let v = p.snapshot.record_version in
      let (old, there, version, written) =
        compare_and_set-eq_some id v (account_row (next_version p.account v s.clock)) s.accounts
          accounts cas in
      record {
        stored = λ row found. ground arith;
        fresh = λ a q row found_q found.
            let (at, plan, older, same) = h.fresh a q old (ground arith) there in
            let newer : row.record_version ≡ v + 1 = ground arith in
            (at, plan, omega arith, λ equal. absurd (omega arith));
      }

  Step-IsValid : {s u : Shared} (agent : String) → Step id agent s u → IsValid id s → IsValid id u
  Step-IsValid {s} agent (Step.wait t le e) h = rw e (wait-IsValid s t le h)
  Step-IsValid {s} agent (Step.read row acc there plan e) h =
      rw e (read-IsValid s agent row acc there plan h)
  Step-IsValid {s} agent (Step.write p accounts mine cas e) h =
      rw e (write-IsValid s agent p accounts mine cas h)
  Step-IsValid {s} agent (Step.drop e) h = rw e (drop-IsValid s agent h)

  -- Every state that the agents can reach from a valid one is valid.
  pub Reach-IsValid : {s u : Shared} → Reach id s u → IsValid id s → IsValid id u
  Reach-IsValid Reach.here h = h
  Reach-IsValid (Reach.next agent r st) h = Step-IsValid agent st (Reach-IsValid r h)
