-- ===== src/Session/Challenge/Agree.antt =====
-- The challenges that the two peers of a session derive, against each other.
use iroh_willow.Prelude.{
  ℕ, suc, ◌-◌, ◌<◌, ◌≡◌, ◌≢◌, ◌⊎◌, inl, inr, refl, ap, ap, ◌∙◌, Bool, true, [], ◌∷◌, ◌==◌, arith,
  All, length, Bool-cases,
}
use iroh_willow.Session.Error.{
  ok, err, broken_committement, invalid_message_in_current_state, ◌>>=◌,
}
use iroh_willow.Session.Challenge.{
  Bytes, Role, alfie, betty, ChallengeState, committed, revealed, bitwise_xor, bitwise_complement,
  bitwise_xor_complement, ours_for, reveal, signable, get_ours, get_theirs, verify,
}
use iroh_willow.Session.Challenge.Bytes.{bit_xor_comm, bit_xor-lt}

abbrev pub IsBytes : Bytes → Type 0
IsBytes xs = All (λ (x : ℕ). x < 256) xs

bitwise_xor_comm : (a b : Bytes) → IsBytes a → IsBytes b → bitwise_xor a b ≡ bitwise_xor b a
unfolding bitwise_xor
bitwise_xor_comm [] [] h k = refl
bitwise_xor_comm [] (y ∷ ys) h k = refl
bitwise_xor_comm (x ∷ xs) [] h k = refl
bitwise_xor_comm (x ∷ xs) (y ∷ ys) h k =
    rw (bit_xor_comm x y h.0 k.0, bitwise_xor_comm xs ys h.1 k.1)

bitwise_xor_complement_lem :
    (a b : Bytes) → bitwise_xor_complement a b ≡ bitwise_complement (bitwise_xor a b)
unfolding bitwise_xor bitwise_complement bitwise_xor_complement
bitwise_xor_complement_lem [] b = refl
bitwise_xor_complement_lem (x ∷ xs) [] = refl
bitwise_xor_complement_lem (x ∷ xs) (y ∷ ys) = rw (bitwise_xor_complement_lem xs ys)

bitwise_xor-IsBytes : (a b : Bytes) → IsBytes a → IsBytes b → IsBytes (bitwise_xor a b)
unfolding bitwise_xor
bitwise_xor-IsBytes [] b h k = tt
bitwise_xor-IsBytes (x ∷ xs) [] h k = tt
bitwise_xor-IsBytes (x ∷ xs) (y ∷ ys) h k =
    (bit_xor-lt x y h.0 k.0, bitwise_xor-IsBytes xs ys h.1 k.1)

complement_twice : (a : Bytes) → IsBytes a → bitwise_complement (bitwise_complement a) ≡ a
unfolding bitwise_complement
complement_twice [] h = refl
complement_twice (x ∷ xs) h =
    let back : 255 - (255 - x) ≡ x = omega (arith, h.0) in rw (back, complement_twice xs h.1)

complement_differs : (a : Bytes) → 0 < length a → IsBytes a → bitwise_complement a ≢ a
unfolding bitwise_complement
complement_differs [] l h e = elim l [ ]
complement_differs (x ∷ xs) l h e = let heads : 255 - x ≡ x = cc e in omega (arith, heads, h.0)

length-bitwise_xor : (a b : Bytes) → length a ≡ length b → length (bitwise_xor a b) ≡ length a
unfolding bitwise_xor
length-bitwise_xor [] b e = refl
length-bitwise_xor (x ∷ xs) [] e = absurd (omega (arith, e))
length-bitwise_xor (x ∷ xs) (y ∷ ys) e = ap suc (length-bitwise_xor xs ys (omega (arith, e)))

module _ (hash : Bytes → ℕ) (a b : Bytes) (a_bytes : IsBytes a) (b_bytes : IsBytes b) where
  -- When Alfie with nonce `a` and Betty with nonce `b`, byte strings of one non-zero length, each
  -- hold the hash of the other's nonce and then receive that nonce, both succeed, each one's own
  -- challenge is the other's challenge of the remote, and the two challenges are as long as the
  -- nonces and differ.
  pub reveal_agree :
      length a ≡ length b
      → 0 < length a
      → (x : Bytes) × (y : Bytes) × (reveal hash alfie b (committed a (hash b)) ≡ ok (revealed x y))
        × (reveal hash betty a (committed b (hash a)) ≡ ok (revealed y x))
        × (length x ≡ length a)
        × (y ≢ x)
  unfolding reveal ours_for
  reveal_agree same nonempty =
      let x = bitwise_xor a b in
      let bytes = bitwise_xor-IsBytes a b a_bytes b_bytes in
      let betty_ours : bitwise_xor_complement b a ≡ bitwise_complement x =
        bitwise_xor_complement_lem b a
        ∙ ap bitwise_complement (bitwise_xor_comm b a b_bytes a_bytes) in
      (
        x,
        bitwise_complement x,
        ground arith,
        ground (arith, betty_ours, complement_twice x bytes),
        length-bitwise_xor a b same,
        complement_differs x (omega (arith, length-bitwise_xor a b same)) bytes,
      )

  module _ {Key Signature : Type 0} (verify_signature : Key → Bytes → Signature → Bool)
      (sign : Bytes → Signature) (key : Key)
      (signed : (message : Bytes) → verify_signature key message (sign message) ≡ true) where
    -- After both reveals, for a signature scheme that accepts what was signed with the secret of a
    -- key, what each peer signs as its own challenge is accepted by the other.
    pub signable_verifies :
        length a ≡ length b
        → 0 < length a
        → (x : Bytes) × (y : Bytes) × ((do
          s ← reveal hash alfie b (committed a (hash b))
          signable s)
            ≡ ok x)
          × ((do
            s ← reveal hash betty a (committed b (hash a))
            verify verify_signature key (sign x) s)
              ≡ ok tt)
          × ((do s ← reveal hash betty a (committed b (hash a)); signable s) ≡ ok y)
          × ((do
            s ← reveal hash alfie b (committed a (hash b))
            verify verify_signature key (sign y) s)
              ≡ ok tt)
    unfolding signable get_ours get_theirs verify
    signable_verifies same nonempty =
        let (x, y, alfies, bettys, _, _) = reveal_agree same nonempty in
        (x, y, rw alfies, rw (bettys, signed x), rw bettys, rw (alfies, signed y))

-- A reveal succeeds exactly in the committed state and with a nonce whose hash is the received
-- commitment; a wrong nonce is a broken commitment, a second reveal an invalid message.
pub reveal_cases :
    (hash : Bytes → ℕ) (role : Role) (nonce : Bytes) (s : ChallengeState)
    → ((our_nonce : Bytes) × (x : Bytes) × (s ≡ committed our_nonce (hash nonce))
        × (reveal hash role nonce s ≡ ok (revealed x (bitwise_complement x)))
        × ((later : Bytes)
            → reveal hash role later (revealed x (bitwise_complement x))
              ≡ err invalid_message_in_current_state))
      ⊎ ((our_nonce : Bytes) × (c : ℕ) × (s ≡ committed our_nonce c)
          × (c ≢ hash nonce)
          × (reveal hash role nonce s ≡ err broken_committement))
      ⊎ ((x : Bytes) × (y : Bytes) × (s ≡ revealed x y)
          × (reveal hash role nonce s ≡ err invalid_message_in_current_state))
unfolding reveal
reveal_cases hash role nonce (committed our_nonce c) = elim (Bool-cases (hash nonce == c)) [
  | inl e ↦
      inl (our_nonce, ours_for role our_nonce nonce, ground arith, ground arith, λ later. refl)
  | inr e ↦ inr (inl (our_nonce, c, refl, ground arith, ground arith))
]
reveal_cases hash role nonce (revealed x y) = inr (inr (x, y, refl, refl))
