-- ===== src/Db/Records.antt =====
-- db/repositories.py: `DraftRepository`, `ActionRepository` and `ApprovalRepository`.
use account_pool.Base.{
  String, Bool, true, false, Option, none, some, List, [], ◌∷◌, str_eq, leb, select, map,
  if◌then◌else◌,
}
use account_pool.Table.{Table, find, put, rows}
use account_pool.Domain.Enums.{ReviewState}
use account_pool.Domain.Models.{ContentDraft, Action, ApprovalItem}
use account_pool.Runtime.Errors.{ok}
use account_pool.Runtime.World.{Env, ActionRow, ApprovalRow}
use account_pool.Runtime.Monad.{Prog, gets, now, ◌>>=◌}

-- `DraftRepository.upsert`
unfoldable pub upsert_draft : ContentDraft → Prog ContentDraft
upsert_draft d w = (ok d, record w { drafts = put d.draft_id d w.drafts })

-- `DraftRepository.get`
unfoldable pub get_draft : String → Prog (Option ContentDraft)
get_draft id = gets (λ w. find id w.drafts)

-- The row after `upsert`: an old row keeps the column of its idempotency key.
abbrev pub action_row : Action → Option ActionRow → ActionRow
action_row a none = record { idempotency_key = a.idempotency_key; payload = a }
action_row a (some old) = record old { payload = a }

-- `ActionRepository.upsert`
unfoldable pub upsert_action : Action → Prog Action
upsert_action a w = (
  ok a,
  record w { actions = put a.action_id (action_row a (find a.action_id w.actions)) w.actions },
)

abbrev pub action_of : Table ActionRow → String → Option Action
action_of t id = elim (find id t) [ none ↦ none | some row ↦ some row.payload ]

-- `ActionRepository.get`
unfoldable pub get_action : String → Prog (Option Action)
get_action id = gets (λ w. action_of w.actions id)

abbrev pub has_key : String → ActionRow → Bool
has_key key row = elim row.idempotency_key [ none ↦ false | some k ↦ str_eq k key ]

abbrev pub first_action : List ActionRow → Option Action
first_action [] = none
first_action (row ∷ rest) = some row.payload

-- `ActionRepository.find_by_idempotency_key`
unfoldable pub find_by_idempotency_key : String → Prog (Option Action)
find_by_idempotency_key key = gets (λ w. first_action (select (has_key key) (rows w.actions)))

-- `ApprovalRepository.upsert`
unfoldable pub upsert_approval : Env → ApprovalItem → Prog ApprovalItem
upsert_approval env a = now env >>= λ t w. (
  ok a,
  record w {
    approvals =
        put a.approval_id (record { review_state = a.review_state; updated_at = t; payload = a })
          w.approvals;
  },
)

abbrev pub approval_of : Table ApprovalRow → String → Option ApprovalItem
approval_of t id = elim (find id t) [ none ↦ none | some row ↦ some row.payload ]

-- `ApprovalRepository.get`
unfoldable pub get_approval : String → Prog (Option ApprovalItem)
get_approval id = gets (λ w. approval_of w.approvals id)

abbrev pub is_open : ReviewState → Bool
is_open ReviewState.opened = true
is_open _ = false

-- `ORDER BY updated_at`; rows of one moment keep the order of the table.
unfoldable pub insert_by_time : ApprovalRow → List ApprovalRow → List ApprovalRow
insert_by_time r [] = r ∷ []
insert_by_time r (s ∷ rest) =
    if leb r.updated_at s.updated_at then r ∷ s ∷ rest else s ∷ insert_by_time r rest

unfoldable pub sort_by_time : List ApprovalRow → List ApprovalRow
unfolding insert_by_time
sort_by_time [] = []
sort_by_time (r ∷ rest) = insert_by_time r (sort_by_time rest)

-- `ApprovalRepository.list` for the open state, the only one that is asked for.
unfoldable pub list_open_rows : Prog (List ApprovalItem)
unfolding sort_by_time
list_open_rows = gets λ w.
    map (λ (r : ApprovalRow). r.payload)
      (sort_by_time (select (λ (r : ApprovalRow). is_open r.review_state) (rows w.approvals)))
