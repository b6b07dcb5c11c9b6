-- ===== src/Session/Capabilities/Handshake.antt =====
-- A capability that one peer signs and the other validates, in src/session/capabilities.rs.
use iroh_willow.Prelude.{ℕ, ◌<◌, ◌≡◌, refl, ap, ◌∙◌, true, some, [], length}
use iroh_willow.Session.Error.{Result, ok, ◌>>=◌}
use iroh_willow.Session.Challenge.{
  Role, alfie, betty, Bytes, ChallengeState, committed, revealed, reveal, signable, get_ours,
  get_theirs, verify,
}
use iroh_willow.Session.Challenge.Agree.{IsBytes, reveal_agree}
use iroh_willow.Session.Resource.{bind, empty_map}
use iroh_willow.Session.Capabilities.{
  Signing, Capabilities, Signed, or_error, new_capabilities, sign_capability,
  validate_and_bind_theirs, received_commitment_reveal,
}

module _ (G : Signing) (a b : Bytes) (a_bytes : IsBytes a) (b_bytes : IsBytes b) where
  -- The capabilities of Alfie, with nonce `a`, and of Betty, with nonce `b`, after both reveals.
  unfoldable pub after_reveal : Role → Result (Capabilities G)
  after_reveal alfie = do
    (woken, c) ← received_commitment_reveal alfie b (new_capabilities G a (G.hash b))
    ok c
  after_reveal betty = do
    (woken, c) ← received_commitment_reveal betty a (new_capabilities G b (G.hash a))
    ok c

  -- A capability's receiver has a secret, and what it signs verifies with the receiver's key.
  pub record CanSign (cap : G.Capability) : Type 0 where
    pub key : G.Key
    pub key_of : G.into_public_key (G.receiver cap) ≡ some key
    pub sign : Bytes → G.Signature
    pub signs : (message : Bytes) → G.sign_user (G.receiver cap) message ≡ some (sign message)
    pub verifies : (message : Bytes) → G.verify_signature key message (sign message) ≡ true

  revealed_caps : Bytes → Bytes → Capabilities G
  revealed_caps ours theirs = record {
    challenge = revealed ours theirs;
    ours = empty_map;
    theirs = empty_map;
    on_reveal_wakers = [];
  }

  signs_revealed :
      (cap : G.Capability) (handle : ℕ) (x y : Bytes) (s : CanSign cap)
      → sign_capability handle cap (revealed_caps x y)
        ≡ ok (record { capability = cap; handle = handle; signature = s.sign x })
  unfolding sign_capability revealed_caps signable get_ours or_error
  signs_revealed cap handle x y s = rw (s.signs x) refl

  binds_revealed :
      (cap : G.Capability) (x y : Bytes) (s : CanSign cap)
      → validate_and_bind_theirs cap (s.sign x) (revealed_caps y x)
        ≡ ok (record (revealed_caps y x) { theirs = (bind cap empty_map).after })
  unfolding validate_and_bind_theirs revealed_caps get_theirs or_error verify
  binds_revealed cap x y s = rw (s.key_of, s.verifies x) refl

  alfie_revealed :
      (s : ChallengeState)
      → reveal G.hash alfie b (committed a (G.hash b)) ≡ ok s
      → after_reveal alfie
        ≡ ok (record { challenge = s; ours = empty_map; theirs = empty_map; on_reveal_wakers = [] })
  unfolding after_reveal received_commitment_reveal new_capabilities
  alfie_revealed s e = rw (e) refl

  betty_revealed :
      (s : ChallengeState)
      → reveal G.hash betty a (committed b (G.hash a)) ≡ ok s
      → after_reveal betty
        ≡ ok (record { challenge = s; ours = empty_map; theirs = empty_map; on_reveal_wakers = [] })
  unfolding after_reveal received_commitment_reveal new_capabilities
  betty_revealed s e = rw (e) refl

  -- After both reveals, a capability that one peer signs, whose receiver's signatures verify, is
  -- accepted by the other peer, which binds it to its first handle; either peer may be the signer.
  pub signed_capability_accepted :
      (cap : G.Capability) (handle : ℕ)
      → length a ≡ length b
      → 0 < length a
      → CanSign cap
      → (ca : Capabilities G) × (cb : Capabilities G) × (after_reveal alfie ≡ ok ca)
        × (after_reveal betty ≡ ok cb)
        × ((do
          signed ← sign_capability handle cap ca
          validate_and_bind_theirs signed.capability signed.signature cb)
            ≡ ok (record cb { theirs = (bind cap empty_map).after }))
        × ((do
          signed ← sign_capability handle cap cb
          validate_and_bind_theirs signed.capability signed.signature ca)
            ≡ ok (record ca { theirs = (bind cap empty_map).after }))
  unfolding revealed_caps
  signed_capability_accepted cap handle same nonempty s =
      let (x, y, alfies, bettys, _, _) = reveal_agree G.hash a b a_bytes b_bytes same nonempty in
      let bind_in : Capabilities G → Result (Signed G G.Capability) → Result (Capabilities G) =
        λ c r. r >>= (λ q. validate_and_bind_theirs q.capability q.signature c) in
      (
        revealed_caps x y,
        revealed_caps y x,
        alfie_revealed (revealed x y) alfies,
        betty_revealed (revealed y x) bettys,
        ap (bind_in (revealed_caps y x)) (signs_revealed cap handle x y s)
            ∙ binds_revealed cap x y s,
        ap (bind_in (revealed_caps x y)) (signs_revealed cap handle y x s)
            ∙ binds_revealed cap y x s,
      )
