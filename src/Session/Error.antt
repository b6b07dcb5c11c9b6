-- ===== src/Session/Error.antt =====
-- The errors of src/session/error.rs, without the payloads that only serve messages, and results
-- over them. `panicked` stands for a panic of the code: an `unwrap`, `expect` or `unreachable!`
-- that fails.
use iroh_willow.Prelude.{Bool, if◌then◌else◌, ◌≡◌, ◌⊎◌, inl, inr, refl}

pub data PaiError : Type 0 where
  subspace_cap_request_for_invalid_handle : PaiError
  subspace_cap_request_for_wrong_namespace : PaiError
  missing_resource : PaiError

pub data Error : Type 0 where
  store auth payload_store payload_digest_mismatch payload_size_mismatch key_store receive : Error
  write wrong_secret_key_for_capability missing_resource invalid_capability : Error
  invalid_signature range_outside_capability invalid_message_in_current_state : Error
  area_of_interest_namespace_mismatch area_of_interest_does_not_overlap unauthorised_area : Error
  unauthorised_write unsupported_message wrong_channel broken_committement : Error
  session_not_found invalid_parameters invalid_state actor_failed missing_user_key : Error
  task_failed no_known_interests_for_capability : Error
  pai : PaiError → Error
  net channel_closed shutting_down cancelled connection_closed session_closed_by_peer : Error

-- The outcome of a fallible operation.
pub data Result {ℓ} (Value : Type ℓ) : Type ℓ where
  panicked : Result Value
  err : Error → Result Value
  ok : Value → Result Value

infixl 5 ◌>>=◌
abbrev pub ◌>>=◌ {ℓ κ} : {V : Type ℓ} {W : Type κ} → Result V → (V → Result W) → Result W
panicked >>= next = panicked
err failure >>= next = err failure
ok value >>= next = next value

-- An early return: the error unless the test holds.
abbrev pub ensure : Bool → Error → Result (Unit {0})
ensure holds failure = if holds then ok tt else err failure

pub Result-cases {ℓ} :
    {A : Type ℓ} (r : Result A)
    → ((a : A) × (r ≡ ok a)) ⊎ ((e : Error) × (r ≡ err e)) ⊎ (r ≡ panicked)
Result-cases (ok a) = inl (a, refl)
Result-cases (err e) = inr (inl (e, refl))
Result-cases panicked = inr (inr refl)

-- What an operation gives, when it neither fails nor panics.
unfoldable pub OnOk {ℓ κ} : {A : Type ℓ} → (A → Type κ) → Result A → Type κ
OnOk P (ok a) = P a
OnOk P (err _) = Unit
OnOk P panicked = Unit
