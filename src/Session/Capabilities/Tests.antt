-- ===== src/Session/Capabilities/Tests.antt =====
-- The capabilities of a session at concrete inputs.
use iroh_willow.Prelude.{ℕ, ◌+◌, ◌==◌, ◌≡◌, refl, some, [], ◌∷◌, arith}
use iroh_willow.Session.Error.{Error, ok, err, ◌>>=◌}
use iroh_willow.Session.Challenge.{
  alfie, betty, Bytes, bitwise_xor, bitwise_complement, bitwise_xor_complement, ours_for, reveal,
  signable, get_ours, get_theirs, verify,
}
use iroh_willow.Session.Resource.{bind, empty_map}
use iroh_willow.Session.Capabilities.{
  Signing, Capabilities, or_error, new_capabilities, sign_capability, validate_and_bind_theirs,
  received_commitment_reveal, commitment_of, reveal_commitment,
}
use iroh_willow.Session.Capabilities.Handshake.{after_reveal, CanSign, signed_capability_accepted}

program : Unit {0}
unfolding bitwise_xor bitwise_complement bitwise_xor_complement ours_for reveal signable get_ours
    get_theirs verify bind empty_map or_error new_capabilities sign_capability
    validate_and_bind_theirs received_commitment_reveal commitment_of reveal_commitment after_reveal
program = tt

abbrev sum : Bytes → ℕ
sum [] = 0
sum (x ∷ xs) = x + sum xs

-- A capability is its receiver, a key the user, and a signature adds the user to the message's sum.
abbrev signing : Signing
signing = record {
  Capability = ℕ;
  SubspaceCapability = ℕ;
  Key = ℕ;
  Signature = ℕ;
  receiver = λ c. c;
  subspace_receiver = λ c. c;
  same_capability = ◌==◌;
  into_public_key = λ u. some u;
  hash = sum;
  sign_user = λ u message. some (u + sum message);
  verify_signature = λ k message s. s == k + sum message;
}

abbrev nonce_a : Bytes
nonce_a = 3 ∷ 200 ∷ []

abbrev nonce_b : Bytes
nonce_b = 5 ∷ 17 ∷ []

seven-CanSign : CanSign signing nonce_a nonce_b (omega arith) (omega arith) 7
seven-CanSign = record {
  key = 7;
  key_of = refl;
  sign = λ message. 7 + sum message;
  signs = λ message. refl;
  verifies = λ message. ground arith;
}

signed_capability_accepted_example :
    let after = after_reveal signing nonce_a nonce_b (omega arith) (omega arith) in
    (ca : Capabilities signing) × (cb : Capabilities signing) × (after alfie ≡ ok ca)
    × (after betty ≡ ok cb)
    × ((do
      signed ← sign_capability 1 7 ca
      validate_and_bind_theirs signed.capability signed.signature cb)
        ≡ ok (record cb { theirs = (bind 7 empty_map).after }))
    × ((do
      signed ← sign_capability 1 7 cb
      validate_and_bind_theirs signed.capability signed.signature ca)
        ≡ ok (record ca { theirs = (bind 7 empty_map).after }))
signed_capability_accepted_example =
    signed_capability_accepted signing nonce_a nonce_b (omega arith) (omega arith) 7 1 refl
      (omega arith) seven-CanSign

-- Before the reveal nothing can be signed.
unrevealed_sign :
    sign_capability {G = signing} 1 7 (new_capabilities signing nonce_a 22)
    ≡ err Error.invalid_message_in_current_state
unfolding program
unrevealed_sign = refl
