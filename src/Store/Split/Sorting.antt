-- ===== src/Store/Split/Sorting.antt =====
-- The order in which src/store/traits.rs sorts the entries of a range.
use iroh_willow.Prelude.{
  ℕ, zero, suc, ◌≡◌, ◌↔◌, subst, Bool, true, false, ◌&&◌, if_cases, arith, List, [], ◌∷◌, get_elem?,
  All, some,
}
use mathlib.Core.Option.{some-injective}
use iroh_willow.Model.{DataModel}
use iroh_willow.Store.Ranges.{Ranges, Laws}
use iroh_willow.Store.Split.{sortable_le, insert_sorted, sort_entries}
use iroh_willow.Store.Split.Partition.{insert_sorted-All, sort_entries-All}

module _ {m : DataModel} (d : Ranges m) where
  abbrev pub same_place : m.Entry → m.Entry → Bool
  same_place a b =
      d.subspaces.same (m.subspace_id a) (m.subspace_id b) && d.paths.same (m.path a) (m.path b)

  -- No two entries are at one place.
  abbrev pub Apart : List m.Entry → Type 0
  Apart [] = Unit
  Apart (e ∷ es) = All (λ f. same_place e f ≡ false) es × Apart es

  abbrev Above : m.Entry → List m.Entry → Type 0
  Above p [] = Unit
  Above p (x ∷ xs) = (sortable_le d p x ≡ true) × Above x xs

  abbrev pub Sorted : List m.Entry → Type 0
  Sorted [] = Unit
  Sorted (x ∷ xs) = Above x xs

  module _ (laws : Laws d) where
    same_flip :
        {Point : Type 0} (same : Point → Point → Bool)
        → ((a b : Point) → (same a b ≡ true) ↔ (a ≡ b))
        → (a b : Point) → same a b ≡ same b a
    same_flip same decides a b = ground (arith, decides a b, decides b a)

    same_place_flip : (a b : m.Entry) → same_place a b ≡ false → same_place b a ≡ false
    same_place_flip a b e = ground (
      arith,
      same_flip d.subspaces.same laws.subspace_laws.same_decides (m.subspace_id a)
          (m.subspace_id b),
      same_flip d.paths.same laws.path_laws.same_decides (m.path a) (m.path b),
    )

    sortable_total : (a b : m.Entry) → sortable_le d a b ≡ false → sortable_le d b a ≡ true
    unfolding sortable_le
    sortable_total a b e = ground (
      arith,
      same_flip d.subspaces.same laws.subspace_laws.same_decides (m.subspace_id a)
          (m.subspace_id b),
      laws.subspace_laws.le_total (m.subspace_id a) (m.subspace_id b),
      laws.path_laws.le_total (m.path a) (m.path b),
    )

    insert_sorted-Above :
        (p e : m.Entry) (xs : List m.Entry)
        → sortable_le d p e ≡ true
        → Above p xs
        → Above p (insert_sorted d e xs)
    unfolding insert_sorted
    insert_sorted-Above p e [] le s = (le, tt)
    insert_sorted-Above p e (x ∷ xs) le s =
        if_cases (Above p) (sortable_le d e x) (λ below. (le, (below, s.1)))
          (λ above. (s.0, insert_sorted-Above x e xs (sortable_total e x above) s.1))

    insert_sorted-Sorted :
        (e : m.Entry) (xs : List m.Entry) → Sorted xs → Sorted (insert_sorted d e xs)
    unfolding insert_sorted
    insert_sorted-Sorted e [] s = tt
    insert_sorted-Sorted e (x ∷ xs) s =
        if_cases Sorted (sortable_le d e x) (λ below. (below, s))
          (λ above. insert_sorted-Above x e xs (sortable_total e x above) s)

    pub sort_entries-Sorted : (es : List m.Entry) → Sorted (sort_entries d es)
    unfolding sort_entries
    sort_entries-Sorted [] = tt
    sort_entries-Sorted (e ∷ es) =
        insert_sorted-Sorted e (sort_entries d es) (sort_entries-Sorted es)

    insert_sorted-Apart :
        (e : m.Entry) (xs : List m.Entry)
        → All (λ f. same_place e f ≡ false) xs
        → Apart xs
        → Apart (insert_sorted d e xs)
    unfolding insert_sorted
    insert_sorted-Apart e [] h a = (tt, tt)
    insert_sorted-Apart e (x ∷ xs) h a =
        if_cases Apart (sortable_le d e x) (λ _. (h, a))
          (λ _. (
            insert_sorted-All d (λ f. same_place x f ≡ false) e xs (same_place_flip e x h.0) a.0,
            insert_sorted-Apart e xs h.1 a.1,
          ))

    pub sort_entries-Apart : (es : List m.Entry) → Apart es → Apart (sort_entries d es)
    unfolding sort_entries
    sort_entries-Apart [] a = tt
    sort_entries-Apart (e ∷ es) a =
        insert_sorted-Apart e (sort_entries d es)
          (sort_entries-All d (λ f. same_place e f ≡ false) es a.0) (sort_entries-Apart es a.1)

  -- What stands just before an entry of a sorted list.
  pub before :
      (P : m.Entry → Type 0) (p : m.Entry) (xs : List m.Entry) (i : ℕ) (b : m.Entry)
      → Above p xs
      → Apart (p ∷ xs)
      → All P (p ∷ xs)
      → get_elem? (p ∷ xs) (suc i) ≡ some b
      → (a : m.Entry) × (sortable_le d a b ≡ true) × (same_place a b ≡ false) × P a
  before P p [] i b s a h e = ground arith
  before P p (x ∷ xs) zero b s a h e =
      let same : x ≡ b = some-injective x b e in
      (
        p,
        subst (λ y. sortable_le d p y ≡ true) same s.0,
        subst (λ y. same_place p y ≡ false) same a.0.0,
        h.0,
      )
  before P p (x ∷ xs) (suc i) b s a h e = before P x xs i b s.1 a.1 h.1 e
