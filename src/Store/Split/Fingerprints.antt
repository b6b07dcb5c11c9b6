-- ===== src/Store/Split/Fingerprints.antt =====
-- The fingerprints of the parts of a split range (src/store/traits.rs).
use iroh_willow.Prelude.{
  ℕ, zero, suc, ◌+◌, ◌≡◌, refl, ap, sym, ◌∙◌, Bool, true, false, if◌then◌else◌, List, [], ◌∷◌, map,
  keep, length, arith, Bool-cases, inl, inr, if_cases, leb, subst,
}
use iroh_willow.Model.{DataModel}
use iroh_willow.Session.Error.{Result, ok, err, panicked, OnOk}
use iroh_willow.Session.Storage.{SplitAction, split_fingerprint, split_entries}
use iroh_willow.Store.Memory.{EntryStore, entries_in, get_authorised_entries}
use iroh_willow.Store.Ranges.{Ranges, Laws}
use iroh_willow.Store.Fingerprint.{Fingerprint, combine, default_fingerprint, bitxor_assign, zeros}
use iroh_willow.Store.Fingerprint.Sums.{
  sum, length-sum, bitxor_left, bitxor_assoc, from_entries-sum, length-bitxor_assign, length-zeros,
  zeros-bitxor_assign,
}
use iroh_willow.Store.Split.{
  Range3d, SplitOpts, includes_entry, get_entries, fingerprint, split_range, count,
  with_fingerprints, after_split,
}
use iroh_willow.Store.Split.Halves.{covers, Partitions}
use iroh_willow.Store.Split.Partition.{parts_of, split_range-Partitions}

-- A sum to which a fingerprint is added several times.
add_times : ℕ → Fingerprint → Fingerprint → Fingerprint
add_times zero x t = t
add_times (suc n) x t = bitxor_assign x (add_times n x t)

module _ {m : DataModel} (d : Ranges m) where
  -- The sum of the entries that a range includes.
  sum_in : Range3d d → List m.AuthorisedEntry → Fingerprint
  sum_in r es = sum d (map m.entry (keep (λ a. includes_entry d r (m.entry a)) es))

  sums_in : List (Range3d d) → List m.AuthorisedEntry → Fingerprint
  sums_in [] es = default_fingerprint
  sums_in (r ∷ rs) es = bitxor_assign (sum_in r es) (sums_in rs es)

  zero_twice : bitxor_assign default_fingerprint default_fingerprint ≡ default_fingerprint
  unfolding default_fingerprint
  zero_twice =
      ap (λ n. bitxor_assign (zeros n) (zeros 256)) (sym (length-zeros 256))
      ∙ zeros-bitxor_assign (zeros 256)

  sum_in-nil : (r : Range3d d) → sum_in r [] ≡ default_fingerprint
  unfolding sum_in sum
  sum_in-nil r = refl

  module _ (laws : Laws d) where
    length-sum_in : (r : Range3d d) (es : List m.AuthorisedEntry) → length (sum_in r es) ≡ 256
    unfolding sum_in
    length-sum_in r es = length-sum d laws _

    length-sums_in :
        (rs : List (Range3d d)) (es : List m.AuthorisedEntry) → length (sums_in rs es) ≡ 256
    unfolding sums_in default_fingerprint
    length-sums_in [] es = length-zeros 256
    length-sums_in (r ∷ rs) es = length-bitxor_assign _ _ ∙ length-sum_in r es

    length-add_times :
        (n : ℕ) (x t : Fingerprint)
        → length x ≡ 256
        → length t ≡ 256
        → length (add_times n x t) ≡ 256
    unfolding add_times
    length-add_times zero x t e f = f
    length-add_times (suc n) x t e f = length-bitxor_assign x (add_times n x t) ∙ e

    add_times-bitxor_assign :
        (n : ℕ) (x s t : Fingerprint)
        → length x ≡ 256
        → length s ≡ 256
        → length t ≡ 256
        → bitxor_assign s (add_times n x t) ≡ add_times n x (bitxor_assign s t)
    unfolding add_times
    add_times-bitxor_assign zero x s t e f g = refl
    add_times-bitxor_assign (suc n) x s t e f g =
        bitxor_left s x (add_times n x t) (f ∙ sym e) (e ∙ sym (length-add_times n x t e g))
        ∙ ap (bitxor_assign x) (add_times-bitxor_assign n x s t e f g)

    sum_in-cons :
        (r : Range3d d) (a : m.AuthorisedEntry) (es : List m.AuthorisedEntry)
        → sum_in r (a ∷ es) ≡ (
            if includes_entry d r (m.entry a)
            then bitxor_assign (d.lift_entry (m.entry a)) (sum_in r es)
            else sum_in r es)
    unfolding sum_in sum
    sum_in-cons r a es = elim (Bool-cases (includes_entry d r (m.entry a))) [
      | inl inside ↦ rw (inside) refl
      | inr outside ↦ rw (outside) refl
    ]

    add_front :
        (b : Bool) (n : ℕ) (x s t : Fingerprint)
        → length x ≡ 256
        → length s ≡ 256
        → length t ≡ 256
        → bitxor_assign (if b then bitxor_assign x s else s) (add_times n x t)
          ≡ add_times ((if b then 1 else 0) + n) x (bitxor_assign s t)
    unfolding add_times
    add_front true n x s t e f g =
        let next_n : suc n ≡ 1 + n = omega arith in
        bitxor_assoc x s (add_times n x t) (e ∙ sym f) (f ∙ sym (length-add_times n x t e g))
        ∙ ap (bitxor_assign x) (add_times-bitxor_assign n x s t e f g)
        ∙ ap (λ k. add_times k x (bitxor_assign s t)) next_n
    add_front false n x s t e f g =
        let same_n : n ≡ 0 + n = omega arith in
        add_times-bitxor_assign n x s t e f g ∙ ap (λ k. add_times k x (bitxor_assign s t)) same_n

    -- An entry in front is added as often as the ranges include it.
    sums_in-cons :
        (rs : List (Range3d d)) (a : m.AuthorisedEntry) (es : List m.AuthorisedEntry)
        → sums_in rs (a ∷ es)
          ≡ add_times (covers d rs (m.entry a)) (d.lift_entry (m.entry a)) (sums_in rs es)
    unfolding sums_in add_times covers
    sums_in-cons [] a es = refl
    sums_in-cons (r ∷ rs) a es =
        let x : Fingerprint = d.lift_entry (m.entry a) in
        let n : ℕ = covers d rs (m.entry a) in
        ap (bitxor_assign (sum_in r (a ∷ es))) (sums_in-cons rs a es)
        ∙ ap (λ f. bitxor_assign f (add_times n x (sums_in rs es))) (sum_in-cons r a es)
        ∙ add_front (includes_entry d r (m.entry a)) n x (sum_in r es) (sums_in rs es)
            (laws.lift_size (m.entry a)) (length-sum_in r es) (length-sums_in rs es)

    add_once :
        (b : Bool) (x t : Fingerprint)
        → add_times (if b then 1 else 0) x t ≡ (if b then bitxor_assign x t else t)
    unfolding add_times
    add_once true x t = refl
    add_once false x t = refl

    zero_sums : (rs : List (Range3d d)) → sums_in rs [] ≡ default_fingerprint
    unfolding sums_in sum_in sum
    zero_sums [] = refl
    zero_sums (r ∷ rs) = ap (bitxor_assign default_fingerprint) (zero_sums rs) ∙ zero_twice

    sums_in-Partitions :
        (r : Range3d d) (rs : List (Range3d d)) (es : List m.AuthorisedEntry)
        → Partitions d r rs
        → sums_in rs es ≡ sum_in r es
    sums_in-Partitions r rs [] whole = zero_sums rs ∙ sym (sum_in-nil r)
    sums_in-Partitions r rs (a ∷ es) whole =
        let x : Fingerprint = d.lift_entry (m.entry a) in
        let b : Bool = includes_entry d r (m.entry a) in
        sums_in-cons rs a es
        ∙ ap (λ n. add_times n x (sums_in rs es)) (whole (m.entry a))
        ∙ add_once b x (sums_in rs es)
        ∙ ap (λ t. if b then bitxor_assign x t else t) (sums_in-Partitions r rs es whole)
        ∙ sym (sum_in-cons r a es)

    fingerprint-sum_in :
        (namespace : ℕ) (r : Range3d d) (s : EntryStore m)
        → fingerprint d namespace r s ≡ sum_in r (entries_in m namespace s)
    unfolding fingerprint get_entries get_authorised_entries sum_in
    fingerprint-sum_in namespace r s = from_entries-sum d laws (get_entries d namespace r s)

  -- The fingerprints of some ranges, combined.
  unfoldable pub combined : ℕ → EntryStore m → List (Range3d d) → Fingerprint
  combined namespace s [] = default_fingerprint
  combined namespace s (r ∷ rs) = combine (fingerprint d namespace r s) (combined namespace s rs)

  combined-sums_in :
      Laws d
      → (namespace : ℕ) (s : EntryStore m) (rs : List (Range3d d))
      → combined namespace s rs ≡ sums_in rs (entries_in m namespace s)
  unfolding combined combine sums_in
  combined-sums_in laws namespace s [] = refl
  combined-sums_in laws namespace s (r ∷ rs) =
      ap (λ f. bitxor_assign f (combined namespace s rs)) (fingerprint-sum_in laws namespace r s)
      ∙ ap (bitxor_assign (sum_in r (entries_in m namespace s)))
          (combined-sums_in laws namespace s rs)

  -- What the parts say of their entries, combined: the fingerprint that a part carries, and for a part
  -- whose entries are to be sent their fingerprint.
  unfoldable pub carried :
      ℕ → EntryStore m → List (Range3d d × SplitAction Fingerprint) → Fingerprint
  carried namespace s [] = default_fingerprint
  carried namespace s ((r, split_fingerprint f) ∷ parts) = combine f (carried namespace s parts)
  carried namespace s ((r, split_entries n) ∷ parts) =
      combine (fingerprint d namespace r s) (carried namespace s parts)

  carried-with_fingerprints :
      (namespace : ℕ) (s : EntryStore m) (rs : List (Range3d d))
      → carried namespace s (with_fingerprints d namespace s rs)
        ≡ combined namespace s (parts_of d (with_fingerprints d namespace s rs))
  unfolding carried combined with_fingerprints parts_of
  carried-with_fingerprints namespace s [] = refl
  carried-with_fingerprints namespace s (r ∷ rs) =
      ap (combine (fingerprint d namespace r s)) (carried-with_fingerprints namespace s rs)

  abbrev Carries : ℕ → EntryStore m → List (Range3d d × SplitAction Fingerprint) → Type 0
  Carries namespace s parts = carried namespace s parts ≡ combined namespace s (parts_of d parts)

  after_split-Carries :
      (namespace : ℕ) (s : EntryStore m) (r : Result (List (Range3d d)))
      → OnOk (Carries namespace s) (after_split d namespace s r)
  unfolding OnOk after_split
  after_split-Carries namespace s (ok rs) = carried-with_fingerprints namespace s rs
  after_split-Carries namespace s (err e) = tt
  after_split-Carries namespace s panicked = tt

  split_range-Carries :
      (namespace : ℕ) (r : Range3d d) (config : SplitOpts) (s : EntryStore m)
      → OnOk (Carries namespace s) (split_range d namespace r config s)
  unfolding OnOk split_range carried combined parts_of
  split_range-Carries namespace r config s =
      if_cases (OnOk (Carries namespace s)) (leb (count d namespace r s) config.max_set_size)
        (λ _. refl) (λ _. after_split-Carries namespace s _)

  -- The fingerprints that the parts of a split range carry, and those of the parts whose entries are to
  -- be sent, combined, are the fingerprint of the range.
  pub split_range_fingerprints :
      Laws d
      → (namespace : ℕ) (r : Range3d d) (config : SplitOpts) (s : EntryStore m)
      → (parts : List (Range3d d × SplitAction Fingerprint)) × (split_range d namespace r config s
          ≡ ok parts)
        × (carried namespace s parts ≡ fingerprint d namespace r s)
  unfolding OnOk
  split_range_fingerprints laws namespace r config s =
      let (parts, made, whole) = split_range-Partitions d laws namespace r config s in
      (
        parts,
        made,
        subst (OnOk (Carries namespace s)) made (split_range-Carries namespace r config s)
            ∙ combined-sums_in laws namespace s (parts_of d parts)
            ∙ sums_in-Partitions laws r (parts_of d parts) (entries_in m namespace s) whole
            ∙ sym (fingerprint-sum_in laws namespace r s),
      )
