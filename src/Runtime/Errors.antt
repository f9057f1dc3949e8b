-- ===== src/Runtime/Errors.antt =====
-- errors.py, and the other exceptions that the modelled code raises or catches.
use account_pool.Base.{◌≡◌, refl, ◌⊎◌, inl, inr}

pub data Error : Type 0 where
  not_found lock_held conflict invalid_state : Error
  version_conflict key_error value_error type_error attribute_error assertion_error : Error
  integrity_error overflow_error : Error
  unsupported_capability adapter_content_invalid : Error
  -- any other exception of an adapter or a platform's SDK
  adapter_failure : Error

pub data Result {ℓ} (A : Type ℓ) : Type ℓ where
  ok : A → Result A
  raised : Error → Result A

abbrev pub IsOk {ℓ} : {A : Type ℓ} → Result A → Type 0
IsOk (ok a) = Unit
IsOk (raised e) = ⊥

pub Result-cases {ℓ} :
    {A : Type ℓ} (r : Result A) → ((e : Error) × (r ≡ raised e)) ⊎ ((a : A) × (r ≡ ok a))
Result-cases (raised e) = inl (e, refl)
Result-cases (ok a) = inr (a, refl)
