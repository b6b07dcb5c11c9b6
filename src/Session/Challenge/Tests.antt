-- ===== src/Session/Challenge/Tests.antt =====
-- Runs of the challenge, and the theorems on it at concrete inputs.
use iroh_willow.Prelude.{ℕ, ◌≡◌, ◌≢◌, ◌+◌, refl, [], ◌∷◌, length, ◌==◌, arith}
use iroh_willow.Session.Error.{ok, ◌>>=◌}
use iroh_willow.Session.Challenge.{
  Bytes, alfie, betty, committed, revealed, bitwise_xor, bitwise_complement, bitwise_xor_complement,
  ours_for, reveal, signable, get_ours, get_theirs, verify,
}
use iroh_willow.Session.Challenge.Agree.{reveal_agree, signable_verifies}

program : Unit {0}
unfolding bitwise_xor bitwise_complement bitwise_xor_complement ours_for reveal signable get_ours
    get_theirs verify
program = tt

-- A weak hash, for runs.
abbrev sum : Bytes → ℕ
sum [] = 0
sum (x ∷ xs) = x + sum xs

abbrev nonce_a : Bytes
nonce_a = 3 ∷ 200 ∷ []

abbrev nonce_b : Bytes
nonce_b = 5 ∷ 17 ∷ []

reveal_runs :
    reveal sum betty nonce_a (committed nonce_b 203) ≡ ok (revealed (249 ∷ 38 ∷ []) (6 ∷ 217 ∷ []))
unfolding program
reveal_runs = refl

reveal_agree_example :
    (x : Bytes) × (y : Bytes) × (reveal sum alfie nonce_b (committed nonce_a 22)
      ≡ ok (revealed x y))
    × (reveal sum betty nonce_a (committed nonce_b 203) ≡ ok (revealed y x))
    × (length x ≡ 2)
    × (y ≢ x)
reveal_agree_example =
    reveal_agree sum nonce_a nonce_b (omega arith) (omega arith) refl (omega arith)

-- A scheme whose signature is the message's sum.
signatures_accepted :
    (x : Bytes) × (y : Bytes) × ((do
      s ← reveal sum alfie nonce_b (committed nonce_a 22)
      signable s)
      ≡ ok x)
    × ((do
      s ← reveal sum betty nonce_a (committed nonce_b 203)
      verify (λ (k : ℕ) m s. s == k + sum m) 7 (7 + sum x) s)
        ≡ ok tt)
    × ((do s ← reveal sum betty nonce_a (committed nonce_b 203); signable s) ≡ ok y)
    × ((do
      s ← reveal sum alfie nonce_b (committed nonce_a 22)
      verify (λ (k : ℕ) m s. s == k + sum m) 7 (7 + sum y) s)
        ≡ ok tt)
signatures_accepted =
    signable_verifies sum nonce_a nonce_b (omega arith) (omega arith)
      (λ (k : ℕ) m s. s == k + sum m) (λ m. 7 + sum m) 7 (λ m. ground arith) refl (omega arith)
