-- ===== src/Accounts/Honesty.antt =====
-- accounts/service.py: "only an account that is both connected and authorized becomes ACTIVE".
use account_pool.Base.{
  ℕ, ◌==◌, ◌+◌, String, ◌≡◌, refl, ◌⊎◌, inl, inr, true, some, arith, ap, str_eq, Option-cases,
  Bool-cases,
}
use mathlib.Core.Path.{subst}
use account_pool.Table.{Table, find, put, find-put}
use account_pool.Domain.Enums.{LifecycleState}
use account_pool.Domain.Models.{Account, is_effective}
use account_pool.Runtime.Errors.{Result, ok, raised}
use account_pool.Runtime.World.{World, Env, AccountRow}
use account_pool.Runtime.Monad.{Prog, proceed, ◌>>=◌}
use account_pool.Db.Accounts.{
  add_account, account_row, account_of, next_version, compare_and_set, write_account,
  update_account, get_account,
}
use account_pool.Db.Audit.{record_event, append_event}
use account_pool.Locking.{require_account}
use account_pool.Accounts.Status.{is_connected, recompute_status}
use account_pool.Accounts.Service.{note, enter, save, change}

-- An active account has a connection and an authorization that is in force.
abbrev pub IsHonest : Account → Type 0
IsHonest a =
    a.status ≡ LifecycleState.active
    → (is_connected a ≡ true) × (is_effective a.authorization ≡ true)

pub recompute_status-IsHonest : (a : Account) → IsHonest (recompute_status a)
unfolding recompute_status
recompute_status-IsHonest a active = ground arith

-- Every account in a table is honest.
pub record AllHonest (t : Table AccountRow) : Type 0 where
  pub each : (id : String) (row : AccountRow) → find id t ≡ some row → IsHonest row.payload

put-AllHonest :
    (t : Table AccountRow) (id : String) (row : AccountRow)
    → AllHonest t
    → IsHonest row.payload
    → AllHonest (put id row t)
put-AllHonest t id row all honest = record {
  each = λ j r there. elim (Bool-cases (str_eq id j)) [
    | inl same ↦
        let this : row ≡ r = ground (arith, find-put id j row t) in
        subst (λ (x : AccountRow). IsHonest x.payload) this honest
    | inr other ↦ all.each j r (ground (arith, find-put id j row t))
  ];
}

account_of-IsHonest :
    (t : Table AccountRow) (id : String) (a : Account)
    → AllHonest t
    → account_of t id ≡ some a
    → IsHonest a
account_of-IsHonest t id a all there = elim (Option-cases (find id t)) [
  | inl missing ↦ absurd (ground arith)
  | inr (row, found) ↦
      let this : row.payload ≡ a = ground arith in subst IsHonest this (all.each id row found)
]

-- A step from `w` keeps the accounts honest.
abbrev pub Keeps : World → World → Type 0
Keeps w v = AllHonest w.accounts → AllHonest v.accounts

pub Keeps-same : (w v : World) → v.accounts ≡ w.accounts → Keeps w v
Keeps-same w v same all = rw same all

pub Keeps-then :
    {A B : Type 0} (w : World) (m : Result A × World) (f : A → Prog B)
    → Keeps w m.1
    → ((a : A) → m.0 ≡ ok a → Keeps m.1 (f a m.1).1)
    → Keeps w (proceed f m.0 m.1).1
Keeps-then w (raised e, u) f first rest all = first all
Keeps-then w (ok a, u) f first rest all = rest a refl (first all)

write_account-accounts :
    (a : Account) (v : ℕ) (w : World)
    → ((write_account a v w).1.accounts ≡ w.accounts)
      ⊎ ((write_account a v w).1.accounts ≡ put a.account_id (account_row a) w.accounts)
unfolding write_account compare_and_set
write_account-accounts a v w = elim (Option-cases (find a.account_id w.accounts)) [
  | inl missing ↦ inl (ground arith)
  | inr (row, there) ↦ elim (Bool-cases (row.record_version == v)) [
    | inl current ↦ inr (ground arith)
    | inr old ↦ inl (ground arith)
  ]
]

write_account-Keeps :
    (a : Account) (v : ℕ) (w : World) → IsHonest a → Keeps w (write_account a v w).1
write_account-Keeps a v w honest all = elim (write_account-accounts a v w) [
  | inl same ↦ rw same all
  | inr written ↦ rw written (put-AllHonest w.accounts a.account_id (account_row a) all honest)
]

module _ (env : Env) where
  update_account-Keeps :
      (a : Account) (v : ℕ) (w : World) → IsHonest a → Keeps w (update_account env a v w).1
  unfolding update_account
  update_account-Keeps a v w honest =
      write_account-Keeps (next_version a v (env.time w.ticks)) v (record w { ticks = w.ticks + 1 })
        honest

  module _ (caller verb id : String) where
    event-Keeps : (a : Account) (w : World) → Keeps w (note env caller verb id a w).1
    unfolding note record_event append_event
    event-Keeps a w = Keeps-same w (note env caller verb id a w).1 refl

    save-Keeps :
        (old new : Account) (w : World)
        → IsHonest new
        → Keeps w (save env caller verb id old new w).1
    unfolding save
    save-Keeps old new w honest =
        Keeps-then w (update_account env new old.record_version w) (note env caller verb id)
          (update_account-Keeps new old.record_version w honest)
          λ a _. event-Keeps a (update_account env new old.record_version w).1

    -- The body of a change makes an honest account of any account that is stored, and writes no account.
    abbrev pub MakesHonest : (Account → Prog Account) → Type 0
    MakesHonest work =
        (a : Account) (w : World)
        → ((work a w).1.accounts ≡ w.accounts)
          × ((b : Account) → (work a w).0 ≡ ok b → IsHonest a → IsHonest b)

    require_account-quiet : (w : World) → (require_account id w).1 ≡ w
    unfolding require_account get_account
    require_account-quiet w = ground arith

    require_account-found :
        (w : World) (a : Account)
        → (require_account id w).0 ≡ ok a
        → account_of w.accounts id ≡ some a
    unfolding require_account get_account
    require_account-found w a e = ground (arith, Option-cases (account_of w.accounts id))

    worked : (Account → Prog Account) → Account → Prog Account
    worked work account = work account >>= save env caller verb id account

    pub change-Keeps :
        (work : Account → Prog Account) (w : World)
        → MakesHonest work
        → Keeps w (change env caller verb id work w).1
    unfolding change worked
    change-Keeps work w makes all =
        let u = (require_account id w).1 in
        Keeps-then w (require_account id w) (worked work)
          (Keeps-same w u (ap (λ v. v.accounts) (require_account-quiet w)))
          (λ a got.
            Keeps-then u (work a u) (save env caller verb id a)
              (Keeps-same u (work a u).1 (makes a u).0)
              λ b made. save-Keeps a b (work a u).1 (
                (makes a u).1 b made
                  (account_of-IsHonest w.accounts id a all (require_account-found w a got))))
          all

module _ (env : Env) (caller : String) where
  add_account-Keeps : (a : Account) (w : World) → IsHonest a → Keeps w (add_account a w).1
  unfolding add_account
  add_account-Keeps a w honest = elim (Option-cases (find a.account_id w.accounts)) [
    | inl fresh ↦ λ all.
        let this : (add_account a w).1.accounts ≡ put a.account_id (account_row a) w.accounts =
          ground arith in
        rw this (put-AllHonest w.accounts a.account_id (account_row a) all honest)
    | inr (row, taken) ↦ Keeps-same w (add_account a w).1 (ground arith)
  ]

  pub enter-Keeps : (a : Account) (w : World) → IsHonest a → Keeps w (enter env caller a w).1
  unfolding enter
  enter-Keeps a w honest =
      Keeps-then w (add_account a w)
        (λ added. note env caller "account_register" added.account_id added)
        (add_account-Keeps a w honest)
        λ b _. event-Keeps env caller "account_register" b.account_id b (add_account a w).1
