-- ===== src/Actions/Drafts.antt =====
-- actions/service.py: `create_draft` and `update_draft`.
use account_pool.Base.{ℕ, ◌+◌, String, Option, none, some, List, [], or_else}
use account_pool.Domain.Models.{ContentDraft}
use account_pool.Runtime.World.{Env}
use account_pool.Runtime.Monad.{Prog, now, new_id, ◌>>=◌, ◌>>◌}
use account_pool.Db.Records.{upsert_draft}
use account_pool.Locking.{require_account}
use account_pool.Actions.Context.{require_draft}

-- The fields that a caller of `update_draft` gives; `none` leaves one alone.
pub record DraftChanges : Type 0 where
  pub body : Option String
  pub title : Option String
  pub media_refs : Option (List String)
  pub disclosure : Option String

abbrev replace {ℓ} : {A : Type ℓ} → Option A → Option A → Option A
replace none old = old
replace (some new) old = some new

-- The draft after an edit at a moment.
unfoldable pub edit : DraftChanges → ℕ → ContentDraft → ContentDraft
edit c t d = record d {
  body = or_else c.body d.body;
  title = replace c.title d.title;
  media_refs = or_else c.media_refs d.media_refs;
  disclosure = replace c.disclosure d.disclosure;
  revision = d.revision + 1;
  updated_at = t;
}

module _ (env : Env) where
  -- `create_draft`
  unfoldable pub create_draft :
      String → String → Option String → Option (List String) → Option String → Prog ContentDraft
  unfolding require_account
  create_draft account_id body title media_refs disclosure = do
    require_account account_id
    draft_id ← new_id env "draft"
    created_at ← now env
    updated_at ← now env
    upsert_draft (record {
      draft_id = draft_id;
      account_id = account_id;
      body = body;
      title = title;
      media_refs = or_else media_refs [];
      disclosure = disclosure;
      revision = 1;
      created_at = created_at;
      updated_at = updated_at;
    })

  -- `update_draft`
  unfoldable pub update_draft : String → DraftChanges → Prog ContentDraft
  unfolding require_draft edit
  update_draft draft_id changes = do
    draft ← require_draft draft_id
    t ← now env
    upsert_draft (edit changes t draft)
