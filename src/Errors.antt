-- ===== src/Errors.antt =====
-- The exceptions of errors.h that the modelled code throws, and an assertion that fails.
use claude_opus.Base.{◌≡◌, refl, ◌⊎◌, inl, inr, ℕ, ℤ, List}

pub data Error : Type 0 where
  internal_error unix_error assertion_failed index_entry_not_found_error : Error
  page_not_exist_error : ℤ → Error
  record_not_found_error : ℤ → ℤ → Error
  column_not_found_error : List ℕ → Error
  string_overflow_error incompatible_type_error invalid_value_count_error duplicate_value : Error
  invalid_record_size_error : ℤ → Error

pub data Result {ℓ} (A : Type ℓ) : Type ℓ where
  ok : A → Result A
  throw : Error → Result A

pub Result-cases :
    {A : Type 0} (r : Result A) → ((a : A) × (r ≡ ok a)) ⊎ ((e : Error) × (r ≡ throw e))
Result-cases (ok a) = inl (a, refl)
Result-cases (throw e) = inr (e, refl)
