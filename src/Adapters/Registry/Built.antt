-- ===== src/Adapters/Registry/Built.antt =====
-- adapters/registry.py: which adapter `build_registry` leaves a platform with.
use account_pool.Base.{
  String, Bool, true, false, ◌&&◌, ◌≡◌, refl, Option, none, some, List, [], ◌∷◌, arith, ap, ◌∙◌,
  if◌then◌else◌, Option-cases, Bool-cases, ◌⊎◌, inl, inr, str_eq, eq_iff, eq_refl, sym,
}
use account_pool.Domain.Enums.{Platform, platform_value}
use account_pool.Base.Chars.{strip_text, lower_text}
use account_pool.Runtime.Errors.{ok}
use account_pool.Adapters.Interface.{Adapter}
use account_pool.Adapters.Fake.{fake_adapter}
use account_pool.Adapters.Net.{Network}
use account_pool.Adapters.Replay.{NetAdapter, as_adapter}
use account_pool.Adapters.Registry.{
  AdapterRegistry, same_platform, real_adapter, real_platforms, register_adapter, get_registered,
  wanted_names, is_wanted, fleet, default_registry, register_real, build_registry,
}

-- After a registration that depends on a test, by the platform that is looked up.
step_factories :
    {A : Type 0} (b : Bool) (p q : Platform) (a : A) (r : AdapterRegistry A)
    → (if b then register_adapter p a r else r).factories q
      ≡ (if same_platform p q && b then some a else r.factories q)
unfolding register_adapter
step_factories true p q a r = ground arith
step_factories false p q a r = ground arith

step_cache :
    {A : Type 0} (b : Bool) (p q : Platform) (a : A) (r : AdapterRegistry A)
    → r.cache q ≡ none
    → (if b then register_adapter p a r else r).cache q ≡ none
unfolding register_adapter
step_cache true p q a r h = ground arith
step_cache false p q a r h = h

get_registered-eq_ok :
    {A : Type 0} (q : Platform) (a : A) (r : AdapterRegistry A)
    → r.cache q ≡ none
    → r.factories q ≡ some a
    → (get_registered q r).0 ≡ ok a
unfolding get_registered
get_registered-eq_ok q a r empty there = ground (arith, empty, there)

module _ (net : Network) (names : List String) where
  default-factories :
      (q : Platform) → (default_registry net names).factories q ≡ some (fake_adapter q)
  unfolding default_registry register_adapter
  default-factories Platform.reddit = refl
  default-factories q = refl

  default-cache : (q : Platform) → (default_registry net names).cache q ≡ none
  unfolding default_registry register_adapter
  default-cache Platform.reddit = refl
  default-cache q = refl

  real_or : Platform → Platform → Option Adapter → Option NetAdapter → Option Adapter
  real_or p q old none = old
  real_or p q old (some a) =
      if same_platform p q && is_wanted names p then some (as_adapter (fleet net names) a) else old

  -- What the loop leaves a platform with.
  picked : List Platform → Platform → Option Adapter → Option Adapter
  picked [] q old = old
  picked (p ∷ ps) q old = picked ps q (real_or p q old (real_adapter net p))

  register_one : Platform → Option NetAdapter → AdapterRegistry Adapter → AdapterRegistry Adapter
  register_one p none r = r
  register_one p (some a) r =
      if is_wanted names p then register_adapter p (as_adapter (fleet net names) a) r else r

  register_real-cons :
      (p : Platform) (ps : List Platform) (r : AdapterRegistry Adapter)
      → register_real net names (p ∷ ps) r
        ≡ register_real net names ps (register_one p (real_adapter net p) r)
  unfolding register_real register_one
  register_real-cons p ps r = elim (Option-cases (real_adapter net p)) [
    | inl missing ↦ rw (register_real, missing)
    | inr (a, there) ↦ rw (register_real, there)
  ]

  register_one-factories :
      (p q : Platform) (o : Option NetAdapter) (r : AdapterRegistry Adapter)
      → (register_one p o r).factories q ≡ real_or p q (r.factories q) o
  unfolding register_one real_or
  register_one-factories p q none r = refl
  register_one-factories p q (some a) r =
      step_factories (is_wanted names p) p q (as_adapter (fleet net names) a) r

  register_one-cache :
      (p q : Platform) (o : Option NetAdapter) (r : AdapterRegistry Adapter)
      → r.cache q ≡ none
      → (register_one p o r).cache q ≡ none
  unfolding register_one
  register_one-cache p q none r h = h
  register_one-cache p q (some a) r h =
      step_cache (is_wanted names p) p q (as_adapter (fleet net names) a) r h

  register_real-factories :
      (ps : List Platform) (r : AdapterRegistry Adapter) (q : Platform)
      → (register_real net names ps r).factories q ≡ picked ps q (r.factories q)
  unfolding register_real picked
  register_real-factories [] r q = refl
  register_real-factories (p ∷ ps) r q =
      ap (λ t. t.factories q) (register_real-cons p ps r)
      ∙ register_real-factories ps (register_one p (real_adapter net p) r) q
      ∙ ap (picked ps q) (register_one-factories p q (real_adapter net p) r)

  register_real-cache :
      (ps : List Platform) (r : AdapterRegistry Adapter) (q : Platform)
      → r.cache q ≡ none
      → (register_real net names ps r).cache q ≡ none
  unfolding register_real
  register_real-cache [] r q h = h
  register_real-cache (p ∷ ps) r q h =
      ap (λ t. t.cache q) (register_real-cons p ps r)
      ∙ register_real-cache ps (register_one p (real_adapter net p) r) q
          (register_one-cache p q (real_adapter net p) r h)

  abbrev pub network_or : Adapter → Option NetAdapter → Adapter
  network_or fake none = fake
  network_or fake (some a) = as_adapter (fleet net names) a

  by_wish :
      (b : Bool) (o : Option NetAdapter) (fake : Adapter)
      → (elim o as (λ _. Option Adapter) [
        | none ↦ some fake
        | some a ↦ if b then some (as_adapter (fleet net names) a) else some fake
      ])
        ≡ some (network_or fake (if b then o else none))
  by_wish true none fake = refl
  by_wish true (some a) fake = refl
  by_wish false none fake = refl
  by_wish false (some a) fake = refl

  picked-real :
      (q : Platform) (fake : Adapter)
      → picked real_platforms q (some fake) ≡ (elim (real_adapter net q) as (λ _. Option Adapter) [
        | none ↦ some fake
        | some a ↦ if is_wanted names q then some (as_adapter (fleet net names) a) else some fake
      ])
  unfolding picked real_or real_adapter
  picked-real Platform.reddit fake = refl
  picked-real q fake = refl

  built-eq_ok :
      (q : Platform)
      → (get_registered q (build_registry net names)).0
        ≡ ok (network_or (fake_adapter q) (if is_wanted names q then real_adapter net q else none))
  unfolding build_registry
  built-eq_ok q =
      let start = default_registry net names in
      get_registered-eq_ok q
        (network_or (fake_adapter q) (if is_wanted names q then real_adapter net q else none))
        (build_registry net names) (register_real-cache real_platforms start q (default-cache q))
        (register_real-factories real_platforms start q
          ∙ ap (picked real_platforms q) (default-factories q)
          ∙ picked-real q (fake_adapter q)
          ∙ by_wish (is_wanted names q) (real_adapter net q) (fake_adapter q))

-- A platform is named where one of the names is, but for white space around it and for case, its value.
pub Named : List String → Platform → Type 0
Named [] q = ⊥
Named (s ∷ names) q = (lower_text (strip_text s) ≡ platform_value q) ⊎ Named names q

blank_names_none : (q : Platform) → ¬ (lower_text "" ≡ platform_value q)
unfolding lower_text
blank_names_none Platform.reddit e =
    let same : str_eq (lower_text "") "reddit" ≡ true = (eq_iff (lower_text "") "reddit").1 e in
    absurd (ground arith)
blank_names_none q e =
    let same : str_eq (lower_text "") (platform_value q) ≡ true =
      (eq_iff (lower_text "") (platform_value q)).1 e in
    absurd (ground arith)

is_wanted-Named : (names : List String) (q : Platform) → is_wanted names q ≡ true → Named names q
unfolding is_wanted wanted_names Named
is_wanted-Named [] q e = absurd (ground arith)
is_wanted-Named (s ∷ names) q e = elim (Bool-cases (str_eq (strip_text s) "")) [
  | inl blank ↦ inr (is_wanted-Named names q (ground arith))
  | inr kept ↦ elim (Bool-cases (str_eq (platform_value q) (lower_text (strip_text s)))) [
    | inl same ↦ inl (sym ((eq_iff (platform_value q) (lower_text (strip_text s))).0 same))
    | inr other ↦ inr (is_wanted-Named names q (ground arith))
  ]
]

Named-is_wanted : (names : List String) (q : Platform) → Named names q → is_wanted names q ≡ true
unfolding is_wanted wanted_names Named
Named-is_wanted [] q h = absurd h
Named-is_wanted (s ∷ names) q h = elim (Bool-cases (str_eq (strip_text s) "")) [
  | inl blank ↦ elim h [
    | inl same ↦
        absurd
          (blank_names_none q (ap lower_text (sym ((eq_iff (strip_text s) "").0 blank)) ∙ same))
    | inr later ↦ rw blank (Named-is_wanted names q later)
  ]
  | inr kept ↦ elim h [
    | inl same ↦ rw kept (rw same (ground (arith, eq_refl (platform_value q))))
    | inr later ↦ let rest = Named-is_wanted names q later in ground arith
  ]
]

-- In a registry that is built, a platform that is named and has an adapter of the network has this
-- adapter; any other platform, one that is not named or has none, has the fake.
pub get-build_registry :
    (net : Network) (names : List String) (q : Platform)
    → let got = (get_registered q (build_registry net names)).0 in
      (Named names q × (got ≡ ok (network_or net names (fake_adapter q) (real_adapter net q))))
      ⊎ (¬ (Named names q) × (got ≡ ok (fake_adapter q)))
get-build_registry net names q = elim (Bool-cases (is_wanted names q)) [
  | inl yes_wanted ↦ inl (
    is_wanted-Named names q yes_wanted,
    built-eq_ok net names q
        ∙ ap
            (λ b.
              ok (network_or net names (fake_adapter q) (if b then real_adapter net q else none)))
            yes_wanted,
  )
  | inr not_wanted ↦ inr (
    (λ h. let there = Named-is_wanted names q h in absurd (ground arith)),
    built-eq_ok net names q
        ∙ ap
            (λ b.
              ok (network_or net names (fake_adapter q) (if b then real_adapter net q else none)))
            not_wanted,
  )
]
