-- ===== src/Session/Capabilities.antt =====
-- `Capabilities` of src/session/capabilities.rs: the challenge of a session and the capabilities that
-- both peers have bound. Capabilities, keys and signatures are those of the libraries, here a
-- parameter.
pub mod Handshake
mod Tests
use iroh_willow.Prelude.{ℕ, Bool, Option, none, some, List, []}
use iroh_willow.Session.Error.{Error, Result, ok, err, ◌>>=◌}
use iroh_willow.Session.Challenge.{
  Role, Bytes, ChallengeState, committed, revealed, reveal, is_revealed, signable, verify,
}
use iroh_willow.Session.Resource.{
  ResourceMap, PollResource, empty_map, bind, bind_if_new, find, poll_get_eventually,
}

pub record Signing : Type 1 where
  pub Capability : Type 0
  pub SubspaceCapability : Type 0
  pub Key : Type 0
  pub Signature : Type 0
  pub receiver : Capability → ℕ
  pub subspace_receiver : SubspaceCapability → ℕ
  pub same_capability : Capability → Capability → Bool
  -- `into_public_key`, the hash of a nonce, signing for a user with a stored secret, verification.
  pub into_public_key : ℕ → Option Key
  pub hash : Bytes → ℕ
  pub sign_user : ℕ → Bytes → Option Signature
  pub verify_signature : Key → Bytes → Signature → Bool

pub record Capabilities (G : Signing) : Type 0 where
  pub challenge : ChallengeState
  pub ours : ResourceMap G.Capability
  pub theirs : ResourceMap G.Capability
  pub on_reveal_wakers : List ℕ

-- `SetupBindReadCapability` and `PaiReplySubspaceCapability`.
pub record Signed (G : Signing) (C : Type 0) : Type 0 where
  pub capability : C
  pub handle : ℕ
  pub signature : G.Signature

-- What `?` does to a failure of a library.
unfoldable pub or_error : {A : Type 0} → Error → Option A → Result A
or_error e none = err e
or_error e (some a) = ok a

unfoldable pub commitment_of : ChallengeState → Result Bytes
commitment_of (committed our_nonce _) = ok our_nonce
commitment_of (revealed _ _) = err Error.invalid_message_in_current_state

module _ (G : Signing) where
  unfoldable pub new_capabilities : Bytes → ℕ → Capabilities G
  new_capabilities our_nonce received_commitment = record {
    challenge = committed our_nonce received_commitment;
    ours = empty_map;
    theirs = empty_map;
    on_reveal_wakers = [];
  }

module _ {G : Signing} where
  unfoldable pub challenge_is_revealed : Capabilities G → Bool
  challenge_is_revealed c = is_revealed c.challenge

  unfoldable pub find_ours : G.Capability → Capabilities G → Option ℕ
  find_ours cap c = find G.same_capability cap c.ours

  unfoldable pub sign_capability :
      ℕ → G.Capability → Capabilities G → Result (Signed G G.Capability)
  sign_capability handle cap c = do
    message ← signable c.challenge
    signature ← or_error Error.key_store (G.sign_user (G.receiver cap) message)
    ok (record { capability = cap; handle = handle; signature = signature })

  unfoldable pub sign_subspace_capability :
      G.SubspaceCapability → ℕ → Capabilities G → Result (Signed G G.SubspaceCapability)
  sign_subspace_capability cap handle c = do
    message ← signable c.challenge
    signature ← or_error Error.key_store (G.sign_user (G.subspace_receiver cap) message)
    ok (record { capability = cap; handle = handle; signature = signature })

  -- The handle, whether the capability is new, and the state afterwards.
  unfoldable pub bind_ours : G.Capability → Capabilities G → ℕ × Bool × Capabilities G
  bind_ours cap c =
      let (b, is_new) = bind_if_new G.same_capability cap c.ours in
      (b.handle, is_new, record c { ours = b.after })

  unfoldable pub validate_and_bind_theirs :
      G.Capability → G.Signature → Capabilities G → Result (Capabilities G)
  validate_and_bind_theirs cap signature c = do
    key ← or_error Error.invalid_signature (G.into_public_key (G.receiver cap))
    verified ← verify G.verify_signature key signature c.challenge
    ok (record c { theirs = (bind cap c.theirs).after })

  unfoldable pub get_theirs_eventually :
      ℕ → ℕ → Capabilities G → PollResource G.Capability × Capabilities G
  get_theirs_eventually handle waker c =
      let (polled, theirs) = poll_get_eventually handle waker c.theirs in
      (polled, record c { theirs = theirs })

  unfoldable pub verify_subspace_cap :
      G.SubspaceCapability → G.Signature → Capabilities G → Result (Unit {0})
  verify_subspace_cap cap signature c = do
    key ← or_error Error.invalid_signature (G.into_public_key (G.subspace_receiver cap))
    verify G.verify_signature key signature c.challenge

  unfoldable pub reveal_commitment : Capabilities G → Result Bytes
  reveal_commitment c = commitment_of c.challenge

  -- The wakers that are woken, and the state afterwards.
  unfoldable pub received_commitment_reveal :
      Role → Bytes → Capabilities G → Result (List ℕ × Capabilities G)
  received_commitment_reveal our_role their_nonce c = do
    s ← reveal G.hash our_role their_nonce c.challenge
    ok (c.on_reveal_wakers, record c { challenge = s; on_reveal_wakers = [] })
