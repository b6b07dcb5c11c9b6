-- ===== src/Util/Guarantees.antt =====
-- `Guarantees` of src/util/channel.rs: how many more bytes may be sent, a u64 that wraps.
use iroh_willow.Prelude.{ℕ, ◌+◌, ◌-◌, ◌%◌, ◌^◌}

pub data Guarantees : Type 0 where
  unlimited : Guarantees
  limited : ℕ → Guarantees

-- `Guarantees::add`, `get` and `use`.
unfoldable pub add : ℕ → Guarantees → Guarantees
add amount unlimited = unlimited
add amount (limited current) = limited ((current + amount) % 2 ^ 64)

unfoldable pub get : Guarantees → ℕ
get unlimited = 2 ^ 64 - 1
get (limited current) = current

unfoldable pub spend : ℕ → Guarantees → Guarantees
spend amount unlimited = unlimited
spend amount (limited current) = limited ((current + (2 ^ 64 - amount)) % 2 ^ 64)
