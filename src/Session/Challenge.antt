-- ===== src/Session/Challenge.antt =====
-- The access challenge of src/session/challenge.rs. Bytes are numbers below 256; a challenge and
-- its parts are lists of bytes, of length 32 in the program. The hash of a nonce and the
-- verification of a signature are the program's cryptography libraries', and arguments.
mod Bytes
pub mod Agree
mod Tests
use iroh_willow.Prelude.{ℕ, ◌-◌, Bool, true, false, List, [], ◌∷◌, bit_xor, ◌==◌, if◌then◌else◌}
use iroh_willow.Session.Error.{
  Result, ok, err, broken_committement, invalid_message_in_current_state, invalid_signature, ensure,
  ◌>>=◌,
}

pub data Role : Type 0 where
  alfie betty : Role

abbrev pub Bytes : Type 0
Bytes = List ℕ

pub data ChallengeState : Type 0 where
  committed : Bytes → ℕ → ChallengeState
  revealed : Bytes → Bytes → ChallengeState

unfoldable pub bitwise_xor : Bytes → Bytes → Bytes
bitwise_xor (x ∷ xs) (y ∷ ys) = bit_xor x y ∷ bitwise_xor xs ys
bitwise_xor _ _ = []

-- `!x` on a byte.
unfoldable pub bitwise_complement : Bytes → Bytes
bitwise_complement [] = []
bitwise_complement (x ∷ xs) = (255 - x) ∷ bitwise_complement xs

unfoldable pub bitwise_xor_complement : Bytes → Bytes → Bytes
bitwise_xor_complement (x ∷ xs) (y ∷ ys) = (255 - bit_xor x y) ∷ bitwise_xor_complement xs ys
bitwise_xor_complement _ _ = []

unfoldable pub ours_for : Role → Bytes → Bytes → Bytes
ours_for alfie our_nonce their_nonce = bitwise_xor our_nonce their_nonce
ours_for betty our_nonce their_nonce = bitwise_xor_complement our_nonce their_nonce

unfoldable pub reveal : (Bytes → ℕ) → Role → Bytes → ChallengeState → Result ChallengeState
reveal hash our_role their_nonce (committed our_nonce received_commitment) =
    if hash their_nonce == received_commitment
    then (let ours = ours_for our_role our_nonce their_nonce in
        ok (revealed ours (bitwise_complement ours)))
    else err broken_committement
reveal hash our_role their_nonce (revealed _ _) = err invalid_message_in_current_state

unfoldable pub is_revealed : ChallengeState → Bool
is_revealed (committed _ _) = false
is_revealed (revealed _ _) = true

unfoldable pub get_ours : ChallengeState → Result Bytes
get_ours (revealed ours _) = ok ours
get_ours (committed _ _) = err invalid_message_in_current_state

unfoldable pub get_theirs : ChallengeState → Result Bytes
get_theirs (revealed _ theirs) = ok theirs
get_theirs (committed _ _) = err invalid_message_in_current_state

unfoldable pub signable : ChallengeState → Result Bytes
signable s = get_ours s

module _ {Key Signature : Type 0} (verify_signature : Key → Bytes → Signature → Bool) where
  unfoldable pub verify : Key → Signature → ChallengeState → Result (Unit {0})
  verify key signature s = do
    theirs ← get_theirs s
    ensure (verify_signature key theirs signature) invalid_signature
