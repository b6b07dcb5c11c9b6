-- ===== src/Store/Fingerprint.antt =====
-- Fingerprints of src/proto/wgps/fingerprint.rs: 32 bytes, written as their 256 bits. The hash of an
-- entry is a parameter.
pub mod Sums
use iroh_willow.Prelude.{ℕ, zero, suc, Bool, true, false, not, List, [], ◌∷◌}
use iroh_willow.Model.{DataModel}
use iroh_willow.Store.Ranges.{Ranges}

unfoldable pub zeros : ℕ → List Bool
zeros zero = []
zeros (suc n) = false ∷ zeros n

abbrev pub Fingerprint : Type 0
Fingerprint = List Bool

-- `Fingerprint::default` and `neutral`.
unfoldable pub default_fingerprint : Fingerprint
default_fingerprint = zeros 256

unfoldable pub xor_bit : Bool → Bool → Bool
xor_bit true b = not b
xor_bit false b = b

-- `BitXorAssign`: the two arrays are walked side by side.
unfoldable pub bitxor_assign : Fingerprint → Fingerprint → Fingerprint
bitxor_assign [] ys = []
bitxor_assign (x ∷ xs) [] = x ∷ xs
bitxor_assign (x ∷ xs) (y ∷ ys) = xor_bit x y ∷ bitxor_assign xs ys

unfoldable pub combine : Fingerprint → Fingerprint → Fingerprint
combine a b = bitxor_assign a b

unfoldable pub same_bits : List Bool → List Bool → Bool
same_bits [] [] = true
same_bits [] (_ ∷ _) = false
same_bits (_ ∷ _) [] = false
same_bits (true ∷ xs) (true ∷ ys) = same_bits xs ys
same_bits (false ∷ xs) (false ∷ ys) = same_bits xs ys
same_bits (true ∷ _) (false ∷ _) = false
same_bits (false ∷ _) (true ∷ _) = false

unfoldable pub is_empty_fingerprint : Fingerprint → Bool
is_empty_fingerprint f = same_bits f default_fingerprint

module _ {m : DataModel} (d : Ranges m) where
  unfoldable pub add_entry : Fingerprint → m.Entry → Fingerprint
  add_entry f e = bitxor_assign f (d.lift_entry e)

  unfoldable pub add_entries : Fingerprint → List m.Entry → Fingerprint
  add_entries f [] = f
  add_entries f (e ∷ es) = add_entries (add_entry f e) es

  unfoldable pub from_entries : List m.Entry → Fingerprint
  from_entries es = add_entries default_fingerprint es
