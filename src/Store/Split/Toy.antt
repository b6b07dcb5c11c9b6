-- ===== src/Store/Split/Toy.antt =====
-- Concrete ranges for tests: a range is its start and its end, paths are in lexicographic order.
use iroh_willow.Prelude.{
  ℕ, suc, ◌≡◌, ◌↔◌, ◌⊎◌, inl, inr, refl, ap, Bool, true, false, ◌&&◌, not, Option, none, some, List,
  [], ◌∷◌, length, ltb, leb, ◌==◌, if◌then◌else◌, arith, ==_iff,
}
use iroh_willow.Model.Toy.{toy, ToyEntry, list_eq, list_eq_sound, list_eq_refl}
use iroh_willow.Store.Ranges.{RangeType, RangeLaws, Ranges, Laws}
use iroh_willow.Store.Fingerprint.{zeros}
use iroh_willow.Store.Fingerprint.Sums.{length-zeros}

abbrev below_end : {A : Type 0} → (A → A → Bool) → A → Option A → Bool
below_end le p none = true
below_end le p (some a) = not (le a p)

module _ {A : Type 0} (le same : A → A → Bool) where
  abbrev pub pairs : RangeType A
  pairs = record {
    Range = A × Option A;
    RangeEnd = Option A;
    le = le;
    same = same;
    range_start = λ r. r.0;
    range_end = λ r. r.1;
    closed = λ a. some a;
    new = λ a e. (a, e);
    new_closed = λ a b. if le b a then none else some (a, some b);
    includes = λ r p. le r.0 p && below_end le p r.1;
    below = below_end le;
  }

  module _ (total : (a b : A) → (le a b ≡ true) ⊎ (le b a ≡ true))
      (trans : (a b c : A) → le a b ≡ true → le b c ≡ true → le a c ≡ true)
      (antisym : (a b : A) → le a b ≡ true → le b a ≡ true → a ≡ b)
      (decides : (a b : A) → (same a b ≡ true) ↔ (a ≡ b)) where
    below_end_down :
        (p q : A) (e : Option A) → le p q ≡ true → below_end le q e ≡ true → below_end le p e ≡ true
    below_end_down p q none le_pq b = refl
    below_end_down p q (some a) le_pq b = ground (arith, trans a p q)

    new_closed_some :
        (a b : A)
        → le a b ≡ true
        → same a b ≡ false
        → pairs.new_closed a b ≡ some (pairs.new a (pairs.closed b))
    new_closed_some a b h e = ground (arith, antisym a b, decides a b)

    pub pairs_laws : RangeLaws pairs
    pairs_laws = record {
      le_total = total;
      le_trans = trans;
      le_antisym = antisym;
      same_decides = decides;
      includes_lem = λ s p. refl;
      start-new = λ a e. refl;
      end-new = λ a e. refl;
      below-closed = λ p a. refl;
      below_down = below_end_down;
      new_closed_lem = new_closed_some;
    }

abbrev pub lex : List ℕ → List ℕ → Bool
lex [] ys = true
lex (x ∷ xs) [] = false
lex (x ∷ xs) (y ∷ ys) = if x == y then lex xs ys else ltb x y

lex_total : (a b : List ℕ) → (lex a b ≡ true) ⊎ (lex b a ≡ true)
lex_total [] b = inl refl
lex_total (x ∷ xs) [] = inr refl
lex_total (x ∷ xs) (y ∷ ys) = ground (arith, lex_total xs ys)

lex_trans : (a b c : List ℕ) → lex a b ≡ true → lex b c ≡ true → lex a c ≡ true
lex_trans [] b c h k = refl
lex_trans (x ∷ xs) [] c h k = ground arith
lex_trans (x ∷ xs) (y ∷ ys) [] h k = k
lex_trans (x ∷ xs) (y ∷ ys) (z ∷ zs) h k = ground (arith, lex_trans xs ys zs)

lex_antisym : (a b : List ℕ) → lex a b ≡ true → lex b a ≡ true → a ≡ b
lex_antisym [] [] h k = refl
lex_antisym [] (y ∷ ys) h k = ground arith
lex_antisym (x ∷ xs) [] h k = ground arith
lex_antisym (x ∷ xs) (y ∷ ys) h k = ground (arith, lex_antisym xs ys)

list_eq_iff : (a b : List ℕ) → (list_eq a b ≡ true) ↔ (a ≡ b)
list_eq_iff a b = (λ h. list_eq_sound a b h, λ e. ground (arith, e, list_eq_refl a))

leb_total : (a b : ℕ) → (leb a b ≡ true) ⊎ (leb b a ≡ true)
leb_total a b = ground arith

leb_trans : (a b c : ℕ) → leb a b ≡ true → leb b c ≡ true → leb a c ≡ true
leb_trans a b c h k = ground arith

leb_antisym : (a b : ℕ) → leb a b ≡ true → leb b a ≡ true → a ≡ b
leb_antisym a b h k = ground arith

-- A hash that sets a bit for each of the two first bits of the time.
abbrev pub lift : ToyEntry → List Bool
lift e = (e.time == 5) ∷ (e.time == 9) ∷ zeros 254

lift_size : (e : ToyEntry) → length (lift e) ≡ 256
lift_size e = ap (λ n. suc (suc n)) (length-zeros 254)

abbrev pub toy_ranges : Ranges toy
toy_ranges = record {
  subspaces = pairs leb (◌==◌);
  paths = pairs lex list_eq;
  times = pairs leb (◌==◌);
  lift_entry = lift;
}

pub toy_ranges-Laws : Laws toy_ranges
toy_ranges-Laws = record {
  subspace_laws = pairs_laws leb (◌==◌) leb_total leb_trans leb_antisym ==_iff;
  path_laws = pairs_laws lex list_eq lex_total lex_trans lex_antisym list_eq_iff;
  time_laws = pairs_laws leb (◌==◌) leb_total leb_trans leb_antisym ==_iff;
  lift_size = lift_size;
}
