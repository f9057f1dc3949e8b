-- ===== src/Adapters/Fake.antt =====
-- adapters/fake.py: the adapter of tests and of the default registry. Its counter and the lists of
-- what it published are read off the calls made before.
use Prim.Native.Char.{code}
use Prim.Native.String.{◌++◌ as append}
use package.text.Mathlib.Text.{starts_with}
use account_pool.Base.{
  ℕ, zero, suc, ◌+◌, ◌/◌, ◌%◌, String, Bool, true, false, not, ◌&&◌, Option, none, some, List, [],
  ◌∷◌, ltb, ◌==◌, str_eq, length, select, if◌then◌else◌,
}
use account_pool.Base.Int.{ℤ, pos_part}
use account_pool.Domain.Json.{Fields, bool, text, end, field}
use account_pool.Domain.Enums.{Platform, HealthStatus, PublishMode, platform_value}
use account_pool.Domain.Models.{Capabilities, ContentDraft, TargetRef, ActionResult}
use account_pool.Runtime.Errors.{Error, Result, ok, raised}
use account_pool.Adapters.Interface.{
  Adapter, AdapterCall, AdapterSession, AuthState, RefreshResult, HealthReport, ComplianceState,
  History,
}

abbrev nth : ℕ → List String → String
nth n [] = ""
nth zero (s ∷ rest) = s
nth (suc n) (s ∷ rest) = nth n rest

abbrev digit : ℕ → String
digit n = nth n ("0" ∷ "1" ∷ "2" ∷ "3" ∷ "4" ∷ "5" ∷ "6" ∷ "7" ∷ "8" ∷ "9" ∷ [])

-- `str(n)`, where the fuel is at least the number of digits.
unfoldable pub decimal : ℕ → ℕ → String
decimal zero n = digit n
decimal (suc fuel) n =
    let rest = decimal fuel (n / 10) in if ltb n 10 then digit n else append rest (digit (n % 10))

-- `raw.split("/")[0] if "/" in raw else None`
unfoldable pub before_slash : String → Option String
before_slash String.[] = none
before_slash (String.◌∷◌ c s) =
    let rest = before_slash s in
    if code c == b'/' then some "" else elim rest [ none ↦ none | some t ↦ some (String.◌∷◌ c t) ]

abbrev is_reddit : Platform → Bool
is_reddit Platform.reddit = true
is_reddit _ = false

abbrev is_mastodon : Platform → Bool
is_mastodon Platform.mastodon = true
is_mastodon _ = false

abbrev is_bluesky : Platform → Bool
is_bluesky Platform.bluesky = true
is_bluesky _ = false

module _ (platform : Platform) where
  -- `FakeAdapter.capabilities`, by default
  unfoldable pub fake_capabilities : Capabilities
  fake_capabilities = record {
    platform = platform;
    publish_mode = PublishMode.api;
    can_publish = true;
    can_comment = true;
    can_read = true;
    can_search = true;
    can_react = true;
    can_vote = is_reddit platform;
    supports_media = true;
    requires_bot_flag = is_mastodon platform;
    self_label_supported = is_bluesky platform;
    max_text_len = some 5000;
    reaction_kinds = "like" ∷ "boost" ∷ [];
  }

  abbrev mine : AdapterSession → Bool
  mine s = str_eq (platform_value s.account.platform) (platform_value platform)

  -- A call that took a number of the counter.
  abbrev counts : AdapterCall → Bool
  counts (AdapterCall.publish s d dry) = mine s && not dry
  counts (AdapterCall.comment s t d dry) = mine s && not dry
  counts (AdapterCall.react s t k dry) = mine s && not dry
  counts _ = false

  -- `_next_id`
  unfoldable pub next_id : History → String
  unfolding decimal
  next_id h =
      let seq = length (select counts h) + 1 in
      append (platform_value platform) (append "_ext_" (decimal seq seq))

  -- The result of a simulated write.
  abbrev simulated : ActionResult
  simulated = record {
    ok = true;
    external_id = none;
    url = none;
    dry_run = true;
    detail = field "simulated" (bool true) end;
  }

  abbrev written : String → Option String → ActionResult
  written ext url = record {
    ok = true;
    external_id = some ext;
    url = url;
    dry_run = false;
    detail = end;
  }

  -- The first items of a search.
  unfoldable pub results : ℕ → ℕ → String → List Fields
  unfolding decimal
  results zero i query = []
  results (suc n) i query =
      field "id" (text (append "result-" (decimal i i)))
        (field "text" (text (append query (append " #" (decimal i i)))) end)
      ∷ results n (i + 1) query

  -- How many rounds `range(min(limit, 3))` has.
  abbrev at_most_three : ℤ → ℕ
  at_most_three n = let k = pos_part n in if ltb k 3 then k else 3

  -- `FakeAdapter.authenticate`
  unfoldable pub fake_authenticate : History → AdapterSession → Result AuthState
  fake_authenticate h s = ok (record {
    ok = true;
    platform_user_id = some (append (platform_value platform) (append ":" s.account.handle));
    display_name = some (elim s.account.display_name [
      | none ↦ s.account.handle
      | some n ↦ if str_eq n "" then s.account.handle else n
    ]);
    scopes = "identity" ∷ "submit" ∷ "read" ∷ [];
    detail = end;
  })

  -- `PlatformAdapter.refresh_credentials`, which the fake inherits
  unfoldable pub fake_refresh : History → AdapterSession → Result RefreshResult
  fake_refresh h s = ok (record {
    auth = record {
      ok = true;
      platform_user_id = none;
      display_name = none;
      scopes = [];
      detail = end;
    };
    new_credentials = none;
  })

  -- `FakeAdapter.health_check`
  unfoldable pub fake_health : History → AdapterSession → Result HealthReport
  fake_health h s = ok (record {
    status = HealthStatus.ok;
    error = none;
    detail = field "simulated" (bool true) end;
  })

  -- `FakeAdapter.ensure_self_identification`
  unfoldable pub fake_identify : History → AdapterSession → Result ComplianceState
  unfolding fake_capabilities
  fake_identify h s = ok (record {
    ok = true;
    bot_flag_set = fake_capabilities.requires_bot_flag;
    self_label = if fake_capabilities.self_label_supported then some "automated" else none;
    detail = end;
  })

  -- `FakeAdapter.publish`: `draft.body` raises without a draft
  unfoldable pub fake_publish :
      History → AdapterSession → Option ContentDraft → Bool → Result ActionResult
  unfolding next_id
  fake_publish h s none dry = raised Error.attribute_error
  fake_publish h s (some d) dry =
      if dry
      then ok simulated
      else ok (written (next_id h) (some (append "https://fake/" (next_id h))))

  -- `FakeAdapter.comment`
  unfoldable pub fake_comment :
      History → AdapterSession → Option TargetRef → Option ContentDraft → Bool → Result ActionResult
  unfolding next_id
  fake_comment h s none d dry = raised Error.attribute_error
  fake_comment h s (some t) none true = ok simulated
  fake_comment h s (some t) none false = raised Error.attribute_error
  fake_comment h s (some t) (some d) dry =
      if dry
      then ok simulated
      else ok (written (next_id h) (some (append "https://fake/" (next_id h))))

  -- `FakeAdapter.react`
  unfoldable pub fake_react :
      History → AdapterSession → Option TargetRef → String → Bool → Result ActionResult
  unfolding next_id
  fake_react h s none kind dry = raised Error.attribute_error
  fake_react h s (some t) kind dry = if dry then ok simulated else ok (written (next_id h) none)

  -- `FakeAdapter.resolve_target`
  unfoldable pub fake_resolve : History → AdapterSession → String → Result TargetRef
  unfolding before_slash
  fake_resolve h s raw = ok (record {
    raw = raw;
    platform = some platform;
    kind = none;
    container = before_slash raw;
    parent_id = none;
    is_owned = starts_with raw "owned:";
    resolved = true;
  })

  -- `FakeAdapter`
  unfoldable pub fake_adapter : Adapter
  unfolding fake_capabilities fake_authenticate fake_refresh fake_health fake_identify fake_publish
      fake_comment fake_react fake_resolve results
  fake_adapter = record {
    capabilities = fake_capabilities;
    on_authenticate = fake_authenticate;
    on_refresh_credentials = fake_refresh;
    on_health_check = fake_health;
    on_ensure_self_identification = fake_identify;
    on_publish = fake_publish;
    on_comment = fake_comment;
    on_react = fake_react;
    on_read = λ h s t. ok (record {
      items =
          field "id" (text t.raw)
            (field "text" (text "simulated item") (field "author" (text "someone") end))
          ∷ [];
      detail = end;
    });
    on_search = λ h s query limit.
        ok (record { items = results (at_most_three limit) 0 query; detail = end });
    on_resolve_target = fake_resolve;
  }
