-- ===== src/Session/Challenge/Bytes.antt =====
-- Exclusive or on bytes: a table of all pairs, which evaluation fills, and what it says.
use iroh_willow.Prelude.{
  ℕ, zero, suc, ◌<◌, ◌≡◌, refl, Bool, true, false, Bool-cases, inl, inr, bit_xor, ◌==◌, ltb,
  if◌then◌else◌, arith,
}

-- The two orders agree, and the result is a byte.
abbrev xor_fits : ℕ → ℕ → Bool
xor_fits x y = if bit_xor x y == bit_xor y x then ltb (bit_xor x y) 256 else false

-- The first `k` entries of a row pass.
row_passes : (ℕ → Bool) → ℕ → Bool
row_passes test zero = true
row_passes test (suc k) = if test k then row_passes test k else false

row_passes-lt : (test : ℕ → Bool) (k y : ℕ) → row_passes test k ≡ true → y < k → test y ≡ true
unfolding row_passes
row_passes-lt test zero y e below = elim below [ ]
row_passes-lt test (suc k) y e below = elim (Bool-cases (test k)) [
  | inl last ↦ ground (arith, row_passes-lt test k y)
  | inr fails ↦ ground arith
]

byte_table : row_passes (λ x. row_passes (xor_fits x) 256) 256 ≡ true
unfolding row_passes
byte_table = refl

xor_fits_bytes : (x y : ℕ) → x < 256 → y < 256 → xor_fits x y ≡ true
xor_fits_bytes x y x_byte y_byte =
    let row = row_passes-lt (λ z. row_passes (xor_fits z) 256) 256 x byte_table x_byte in
    row_passes-lt (xor_fits x) 256 y row y_byte

pub bit_xor_comm : (x y : ℕ) → x < 256 → y < 256 → bit_xor x y ≡ bit_xor y x
bit_xor_comm x y x_byte y_byte = let fits = xor_fits_bytes x y x_byte y_byte in ground arith

pub bit_xor-lt : (x y : ℕ) → x < 256 → y < 256 → bit_xor x y < 256
bit_xor-lt x y x_byte y_byte = let fits = xor_fits_bytes x y x_byte y_byte in ground arith
