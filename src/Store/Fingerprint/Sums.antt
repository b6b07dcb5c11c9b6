-- ===== src/Store/Fingerprint/Sums.antt =====
-- Exclusive or of fingerprints, and the fingerprint of a list of entries as a sum.
use iroh_willow.Prelude.{
  ℕ, zero, suc, ◌≡◌, refl, ap, sym, ◌∙◌, Bool, true, false, List, [], ◌∷◌, length, arith,
}
use mathlib.Core.List.{Perm, Permᴰ}
use mathlib.Core.Logic.{∥∥₁_elim}
use iroh_willow.Model.{DataModel}
use iroh_willow.Store.Ranges.{Ranges, Laws}
use iroh_willow.Store.Fingerprint.{
  Fingerprint, zeros, default_fingerprint, xor_bit, bitxor_assign, add_entry, add_entries,
  from_entries,
}

pub length-zeros : (n : ℕ) → length (zeros n) ≡ n
unfolding zeros
length-zeros zero = refl
length-zeros (suc n) = ap suc (length-zeros n)

pub length-bitxor_assign : (xs ys : List Bool) → length (bitxor_assign xs ys) ≡ length xs
unfolding bitxor_assign
length-bitxor_assign [] ys = refl
length-bitxor_assign (x ∷ xs) [] = refl
length-bitxor_assign (x ∷ xs) (y ∷ ys) = ap suc (length-bitxor_assign xs ys)

pub zeros-bitxor_assign : (xs : List Bool) → bitxor_assign (zeros (length xs)) xs ≡ xs
unfolding zeros bitxor_assign xor_bit
zeros-bitxor_assign [] = refl
zeros-bitxor_assign (x ∷ xs) = ap (λ t. x ∷ t) (zeros-bitxor_assign xs)

bitxor_assign-zeros : (xs : List Bool) → bitxor_assign xs (zeros (length xs)) ≡ xs
unfolding zeros bitxor_assign xor_bit
bitxor_assign-zeros [] = refl
bitxor_assign-zeros (true ∷ xs) = ap (λ t. true ∷ t) (bitxor_assign-zeros xs)
bitxor_assign-zeros (false ∷ xs) = ap (λ t. false ∷ t) (bitxor_assign-zeros xs)

xor_bit_assoc : (a b c : Bool) → xor_bit (xor_bit a b) c ≡ xor_bit a (xor_bit b c)
unfolding xor_bit
xor_bit_assoc a b c = ground arith

xor_bit_left : (a b c : Bool) → xor_bit a (xor_bit b c) ≡ xor_bit b (xor_bit a c)
unfolding xor_bit
xor_bit_left a b c = ground arith

pub bitxor_assoc :
    (xs ys zs : List Bool)
    → length xs ≡ length ys
    → length ys ≡ length zs
    → bitxor_assign (bitxor_assign xs ys) zs ≡ bitxor_assign xs (bitxor_assign ys zs)
unfolding bitxor_assign
bitxor_assoc [] ys zs e f = refl
bitxor_assoc (x ∷ xs) (y ∷ ys) (z ∷ zs) e f =
    cc (xor_bit_assoc x y z, bitxor_assoc xs ys zs (omega arith) (omega arith))
bitxor_assoc (x ∷ xs) [] zs e f = absurd (omega arith)
bitxor_assoc (x ∷ xs) (y ∷ ys) [] e f = absurd (omega arith)

pub bitxor_left :
    (xs ys zs : List Bool)
    → length xs ≡ length ys
    → length ys ≡ length zs
    → bitxor_assign xs (bitxor_assign ys zs) ≡ bitxor_assign ys (bitxor_assign xs zs)
unfolding bitxor_assign
bitxor_left [] [] zs e f = refl
bitxor_left [] (y ∷ ys) zs e f = absurd (omega arith)
bitxor_left (x ∷ xs) (y ∷ ys) (z ∷ zs) e f =
    cc (xor_bit_left x y z, bitxor_left xs ys zs (omega arith) (omega arith))
bitxor_left (x ∷ xs) [] zs e f = absurd (omega arith)
bitxor_left (x ∷ xs) (y ∷ ys) [] e f = absurd (omega arith)

module _ {m : DataModel} (d : Ranges m) where
  -- The sum of the hashes of the entries.
  unfoldable pub sum : List m.Entry → Fingerprint
  sum [] = default_fingerprint
  sum (e ∷ es) = bitxor_assign (d.lift_entry e) (sum es)

  module _ (laws : Laws d) where
    pub length-sum : (es : List m.Entry) → length (sum es) ≡ 256
    unfolding sum default_fingerprint
    length-sum [] = length-zeros 256
    length-sum (e ∷ es) = length-bitxor_assign (d.lift_entry e) (sum es) ∙ laws.lift_size e

    add_entries_lem :
        (f : Fingerprint) (es : List m.Entry)
        → length f ≡ 256
        → add_entries d f es ≡ bitxor_assign f (sum es)
    unfolding add_entries add_entry sum default_fingerprint
    add_entries_lem f [] e =
        sym (ap (λ n. bitxor_assign f (zeros n)) (sym e) ∙ bitxor_assign-zeros f)
    add_entries_lem f (x ∷ es) e =
        add_entries_lem (bitxor_assign f (d.lift_entry x)) es
          (length-bitxor_assign f (d.lift_entry x) ∙ e)
        ∙ bitxor_assoc f (d.lift_entry x) (sum es) (omega (arith, laws.lift_size x))
            (omega (arith, laws.lift_size x, length-sum es))

    pub from_entries-sum : (es : List m.Entry) → add_entries d default_fingerprint es ≡ sum es
    unfolding default_fingerprint
    from_entries-sum es =
        add_entries_lem (zeros 256) es (length-zeros 256)
        ∙ ap (λ n. bitxor_assign (zeros n) (sum es)) (sym (length-sum es))
        ∙ zeros-bitxor_assign (sum es)

    sum-Permᴰ : (es fs : List m.Entry) → Permᴰ es fs → sum es ≡ sum fs
    unfolding sum
    sum-Permᴰ _ _ Permᴰ.nil = refl
    sum-Permᴰ (e ∷ es) (f ∷ fs) (Permᴰ.cons same p) =
        ap (λ g. bitxor_assign (d.lift_entry g) (sum es)) same
        ∙ ap (bitxor_assign (d.lift_entry f)) (sum-Permᴰ es fs p)
    sum-Permᴰ (a ∷ b ∷ es) (b2 ∷ a2 ∷ _) (Permᴰ.swap same_a same_b) =
        bitxor_left (d.lift_entry a) (d.lift_entry b) (sum es)
          (omega (arith, laws.lift_size a, laws.lift_size b))
          (omega (arith, laws.lift_size b, length-sum es))
        ∙ ap (λ g. bitxor_assign (d.lift_entry g) (bitxor_assign (d.lift_entry a) (sum es))) same_b
        ∙ ap (λ g. bitxor_assign (d.lift_entry b2) (bitxor_assign (d.lift_entry g) (sum es))) same_a
    sum-Permᴰ es fs (Permᴰ.trans {l₂ = gs} p q) = sum-Permᴰ es gs p ∙ sum-Permᴰ gs fs q

    -- The fingerprint of entries does not depend on their order.
    pub from_entries-Perm :
        (es fs : List m.Entry) → Perm es fs → from_entries d es ≡ from_entries d fs
    unfolding from_entries
    from_entries-Perm es fs p =
        from_entries-sum es
        ∙ ∥∥₁_elim p (hlevel) (λ q. sum-Permᴰ es fs q)
        ∙ sym (from_entries-sum fs)
