-- ===== src/Server/Inspection.antt =====
-- server/mcp_server.py: the tools and resources that only look, "no execution, no audit".
use account_pool.Base.{String, ◌≡◌, refl, [], ◌∷◌, ◌++◌, ◌∙◌}
use mathlib.Core.Path.{subst, sym}
use account_pool.Adapters.Interface.{AdapterCall, AdapterSession, History}
use account_pool.Runtime.Errors.{Result, ok, raised}
use account_pool.Runtime.World.{World}
use account_pool.Runtime.Monad.{Prog, proceed, ◌>>=◌}
use account_pool.Policy.Frame.{Untouched}

-- The calls grow by requests to resolve a target alone.
pub data Asked (h : History) : History → Type 0 where
  nothing : Asked h h
  resolving :
      {b : History} (s : AdapterSession) (raw : String)
      → Asked h b
      → Asked h (b ++ AdapterCall.resolve_target s raw ∷ [])

Asked-trans : {a b c : History} → Asked a b → Asked b c → Asked a c
Asked-trans first Asked.nothing = first
Asked-trans first (Asked.resolving s raw rest) = Asked.resolving s raw (Asked-trans first rest)

-- Whatever is stored is as it was, and no platform was asked to do anything.
pub record Harmless (w v : World) : Type 0 where
  pub accounts : v.accounts ≡ w.accounts
  pub connections : v.connections ≡ w.connections
  pub secrets : v.secrets ≡ w.secrets
  pub drafts : v.drafts ≡ w.drafts
  pub actions : v.actions ≡ w.actions
  pub approvals : v.approvals ≡ w.approvals
  pub audit : v.audit ≡ w.audit
  pub promo_ledger : v.promo_ledger ≡ w.promo_ledger
  pub notified : v.notified ≡ w.notified
  pub calls : Asked w.calls v.calls

pub Harmless-refl : (w : World) → Harmless w w
Harmless-refl w = record {
  accounts = refl;
  connections = refl;
  secrets = refl;
  drafts = refl;
  actions = refl;
  approvals = refl;
  audit = refl;
  promo_ledger = refl;
  notified = refl;
  calls = Asked.nothing;
}

Harmless-trans : {u v w : World} → Harmless u v → Harmless v w → Harmless u w
Harmless-trans a b = record {
  accounts = b.accounts ∙ a.accounts;
  connections = b.connections ∙ a.connections;
  secrets = b.secrets ∙ a.secrets;
  drafts = b.drafts ∙ a.drafts;
  actions = b.actions ∙ a.actions;
  approvals = b.approvals ∙ a.approvals;
  audit = b.audit ∙ a.audit;
  promo_ledger = b.promo_ledger ∙ a.promo_ledger;
  notified = b.notified ∙ a.notified;
  calls = Asked-trans a.calls b.calls;
}

pub Untouched-Harmless : {w v : World} → Untouched w v → Harmless w v
Untouched-Harmless {w} {v} u = record {
  accounts = u.accounts;
  connections = u.connections;
  secrets = u.secrets;
  drafts = u.drafts;
  actions = u.actions;
  approvals = u.approvals;
  audit = u.audit;
  promo_ledger = u.promo_ledger;
  notified = u.notified;
  calls = subst (Asked w.calls) (sym u.calls) Asked.nothing;
}

-- What is harmless from any state.
abbrev pub IsHarmless : {A : Type 0} → Prog A → Type 0
IsHarmless m = (w : World) → Harmless w (m w).1

pub quiet : {A : Type 0} (m : Prog A) → ((w : World) → (m w).1 ≡ w) → IsHarmless m
quiet m same w = subst (Harmless w) (sym (same w)) (Harmless-refl w)

pub after :
    {A B : Type 0} (m : Prog A) (f : A → Prog B)
    → IsHarmless m
    → ((a : A) → IsHarmless (f a))
    → IsHarmless (m >>= f)
after m f first rest w = go (m w) (first w)
  where
    go : (r : Result _ × World) → Harmless w r.1 → Harmless w (proceed f r.0 r.1).1
    go (raised e, u) h = h
    go (ok a, u) h = Harmless-trans h (rest a u)
