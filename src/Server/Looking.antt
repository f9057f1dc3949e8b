-- ===== src/Server/Looking.antt =====
-- server/mcp_server.py and actions/service.py: what the surfaces show is read without an effect.
use account_pool.Base.{
  ℕ, String, ◌≡◌, refl, Bool, true, false, Option, none, some, List, [], ◌∷◌, ◌++◌, ◌+◌, arith, inl,
  inr, Option-cases, if◌then◌else◌,
}
use account_pool.Domain.Models.{Account, ApprovalItem, ContentDraft, TargetRef}
use account_pool.Adapters.Interface.{AdapterCall, History}
use account_pool.Runtime.Errors.{Error}
use account_pool.Runtime.World.{Env, World}
use account_pool.Runtime.Monad.{Prog, pure, get_adapter, or_raise, ◌>>=◌}
use account_pool.Db.Accounts.{get_account}
use account_pool.Db.Records.{list_open_rows}
use account_pool.Approvals.{list_open}
use account_pool.Locking.{require_account}
use account_pool.Policy.Engine.{evaluate}
use account_pool.Policy.Frame.{evaluate-Untouched}
use account_pool.Domain.Enums.{ActionType, parse_verb}
use account_pool.Actions.Context.{given, load_session, build_ctx, resolve, draft_if}
use account_pool.Actions.Outcomes.{load_session-quiet}
use account_pool.Actions.Submit.{validate}
use account_pool.Server.Views.{
  with_account, Inventory, active_holder, summary, summary_list, count_accounts, expired_now,
  item_view, each_view,
}
use account_pool.Server.Inspection.{
  Harmless, Harmless-refl, Untouched-Harmless, IsHarmless, Asked, quiet, after,
}

module _ (env : Env) where
  pub require-Harmless : (id : String) → IsHarmless (require_account id)
  unfolding require_account get_account
  require-Harmless id = quiet (require_account id) λ w. ground arith

  beside-Harmless :
      (w : World) (n : ℕ) (h : History)
      → Asked w.calls h
      → Harmless w (record w { ticks = n; calls = h })
  beside-Harmless w n h asked = record {
    accounts = refl;
    connections = refl;
    secrets = refl;
    drafts = refl;
    actions = refl;
    approvals = refl;
    audit = refl;
    promo_ledger = refl;
    notified = refl;
    calls = asked;
  }

  holder-Harmless : (a : Account) → IsHarmless (active_holder env a)
  unfolding active_holder
  holder-Harmless a w = elim (Option-cases a.lock) [
    | inl free ↦ rw free (Harmless-refl w)
    | inr (l, held) ↦ rw held (beside-Harmless w (w.ticks + 1) w.calls Asked.nothing)
  ]

  pub summary_list-Harmless : (found : List Account) → IsHarmless (summary_list env found)
  unfolding summary_list summary
  summary_list-Harmless [] = Harmless-refl
  summary_list-Harmless (a ∷ rest) =
      after (summary env a) _
        (after (active_holder env a) _ (holder-Harmless a) λ holder. Harmless-refl)
        λ s.
          after (summary_list env rest) _ (summary_list-Harmless rest) λ others w. Harmless-refl w

  resolve-Harmless : (a : Account) (raw : String) → IsHarmless (resolve env a raw)
  unfolding resolve
  resolve-Harmless a raw =
      after (get_adapter env a.platform) _ (quiet (get_adapter env a.platform) λ w. ground arith)
        λ adapter.
          after (load_session env a) _ (quiet (load_session env a) λ w. load_session-quiet env w a)
            λ session w.
              beside-Harmless w w.ticks (w.calls ++ AdapterCall.resolve_target session raw ∷ [])
                (Asked.resolving session raw Asked.nothing)

  pub count_accounts-Harmless :
      (leases : Bool) (found : List Account) (i : Inventory)
      → IsHarmless (count_accounts env leases found i)
  unfolding count_accounts
  count_accounts-Harmless leases [] i = Harmless-refl
  count_accounts-Harmless leases (a ∷ rest) i =
      after (if leases then active_holder env a else pure none) _ (asks leases)
        λ holder. count_accounts-Harmless leases rest (with_account env a holder i)
    where
      asks : (b : Bool) → IsHarmless (if b then active_holder env a else pure none)
      asks true = holder-Harmless a
      asks false = Harmless-refl

  expired_now-Harmless : (a : ApprovalItem) → IsHarmless (expired_now env a)
  unfolding expired_now
  expired_now-Harmless a w = elim (Option-cases a.expires_at) [
    | inl forever ↦ rw forever (Harmless-refl w)
    | inr (e, set) ↦ rw set (beside-Harmless w (w.ticks + 1) w.calls Asked.nothing)
  ]

  pub views-Harmless :
      (items : List ApprovalItem) → IsHarmless (each_view env (item_view env) items)
  unfolding each_view item_view
  views-Harmless [] = Harmless-refl
  views-Harmless (i ∷ rest) =
      after (item_view env i) _
        (after (expired_now env i) _ (expired_now-Harmless i) λ expired. Harmless-refl)
        λ v.
          after (each_view env (item_view env) rest) _ (views-Harmless rest) λ others. Harmless-refl

  pub list_open-Harmless : (platform id : Option String) → IsHarmless (list_open env platform id)
  unfolding list_open list_open_rows
  list_open-Harmless platform id = quiet (list_open env platform id) λ w. refl

  draft_if-Harmless : (id : Option String) → IsHarmless (draft_if id)
  unfolding draft_if
  draft_if-Harmless id = quiet (draft_if id) λ w. ground arith

  build_ctx-same :
      (a : Account) (verb : ActionType) (caller : String) (token : Option String)
      (draft : Option ContentDraft) (target : Option TargetRef) (kind : Option String) (w : World)
      → (build_ctx env a verb caller token draft target kind w).1 ≡ w
  unfolding build_ctx
  build_ctx-same a verb caller token draft target kind w = ground arith

  abbrev asked_target : Account → Option String → Prog (Option TargetRef)
  asked_target account o = elim o [
    | none ↦ pure none
    | some raw ↦ resolve env account raw >>= λ t. pure (some t)
  ]

  asked_target-Harmless :
      (account : Account) (o : Option String) → IsHarmless (asked_target account o)
  asked_target-Harmless account none = Harmless-refl
  asked_target-Harmless account (some raw) =
      after (resolve env account raw) _ (resolve-Harmless account raw) λ t. Harmless-refl

  pub validate-Harmless :
      (caller id verb : String) (draft raw kind token : Option String)
      → IsHarmless (validate env caller id verb draft raw kind token)
  unfolding validate
  validate-Harmless caller id verb draft raw kind token =
      after (require_account id) _ (require-Harmless id) λ account.
        after (or_raise (parse_verb verb) Error.value_error) _
          (quiet (or_raise (parse_verb verb) Error.value_error) λ w. ground arith)
          λ act. after (draft_if draft) _ (draft_if-Harmless draft) λ found.
            after (asked_target account (given raw)) _ (asked_target-Harmless account (given raw))
              λ target.
                after (build_ctx env account act caller token found target kind) _
                  (quiet (build_ctx env account act caller token found target kind)
                    (build_ctx-same account act caller token found target kind))
                  λ ctx.
                    after (evaluate env ctx) _
                      (λ w. Untouched-Harmless (evaluate-Untouched env ctx w))
                      λ result. Harmless-refl
