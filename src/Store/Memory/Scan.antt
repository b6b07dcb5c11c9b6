-- ===== src/Store/Memory/Scan.antt =====
-- Lemmas on the two loops of `ingest_entry`: the search for entries to prune, and the removals by
-- index.
use iroh_willow.Prelude.{
  ℕ, zero, suc, ◌-◌, ◌≤◌, ◌<◌, ◌≡◌, refl, ap, sym, ◌∙◌, inl, inr, Bool, true, ◌||◌, not, none, some,
  List, [], ◌∷◌, keep, any, All, length, get_elem?, if◌then◌else◌, arith, Bool-cases, Option-cases,
}
use iroh_willow.Model.{DataModel}
use iroh_willow.Store.Memory.{NamespaceStore, remove_at, scan, prunes, blocks, prune_all}

module _ {A : Type 0} where
  pub remove_at-lt :
      (i p : ℕ) (xs ys : List A) (x : A)
      → remove_at i xs ≡ some (x, ys)
      → p < i
      → get_elem? ys p ≡ get_elem? xs p
  unfolding remove_at
  remove_at-lt i p [] ys x e h = ground arith
  remove_at-lt zero p (z ∷ zs) ys x e h = absurd (omega arith)
  remove_at-lt (suc i) zero (z ∷ zs) ys x e h = ground arith
  remove_at-lt (suc i) (suc p) (z ∷ zs) ys x e h = elim (Option-cases (remove_at i zs)) [
    | inl n ↦ ground arith
    | inr ((y, rest), s) ↦ let ih = remove_at-lt i p zs rest y s (omega arith) in ground arith
  ]

  pub remove_at-gt :
      (i p : ℕ) (xs ys : List A) (x : A)
      → remove_at i xs ≡ some (x, ys)
      → i ≤ p
      → get_elem? ys p ≡ get_elem? xs (suc p)
  unfolding remove_at
  remove_at-gt i p [] ys x e h = ground arith
  remove_at-gt zero p (z ∷ zs) ys x e h = ground arith
  remove_at-gt (suc i) zero (z ∷ zs) ys x e h = absurd (omega arith)
  remove_at-gt (suc i) (suc p) (z ∷ zs) ys x e h = elim (Option-cases (remove_at i zs)) [
    | inl n ↦ ground arith
    | inr ((y, rest), s) ↦ let ih = remove_at-gt i p zs rest y s (omega arith) in ground arith
  ]

pub All-mono : (i j : ℕ) (is : List ℕ) → i ≤ j → All (λ k. j ≤ k) is → All (λ k. i ≤ k) is
All-mono i j [] h a = tt
All-mono i j (k ∷ is) h a = (omega arith, All-mono i j is h a.1)

module _ (m : DataModel) (new : m.Entry) where
  abbrev pub prunable : m.AuthorisedEntry → Bool
  prunable e = prunes m new (m.entry e)

  -- An entry that ends the ingestion.
  abbrev pub refuses : m.AuthorisedEntry → Bool
  refuses e = m.entry_eq (m.entry e) new || blocks m new (m.entry e)

  -- The positions of the prunable entries, counted from `i`.
  abbrev pub indices : ℕ → List m.AuthorisedEntry → List ℕ
  indices i [] = []
  indices i (x ∷ xs) = let rest = indices (suc i) xs in if prunable x then i ∷ rest else rest

  pub scan_lem :
      (i : ℕ) (xs : List m.AuthorisedEntry)
      → scan m new i xs ≡ (if any refuses xs then none else some (indices i xs))
  unfolding scan
  scan_lem i [] = refl
  scan_lem i (x ∷ xs) = ground (arith, scan_lem (suc i) xs)

  pub length-indices :
      (i : ℕ) (xs : List m.AuthorisedEntry) → length (indices i xs) ≡ length (keep prunable xs)
  length-indices i [] = refl
  length-indices i (x ∷ xs) = ground (arith, length-indices (suc i) xs)

  indices-ge : (i : ℕ) (xs : List m.AuthorisedEntry) → All (λ j. i ≤ j) (indices i xs)
  indices-ge i [] = tt
  indices-ge i (x ∷ xs) =
      let later = All-mono i (suc i) (indices (suc i) xs) (omega arith) (indices-ge (suc i) xs) in
      elim (Bool-cases (prunable x)) [ inl e ↦ rw e (omega arith, later) | inr e ↦ rw e later ]

  -- The first position is that of a prunable entry, and the others are behind it.
  pub indices_first :
      (i : ℕ) (xs : List m.AuthorisedEntry) (j : ℕ) (js : List ℕ)
      → indices i xs ≡ j ∷ js
      → (i ≤ j)
        × All (λ k. j < k) js
        × ((y : m.AuthorisedEntry) × (get_elem? xs (j - i) ≡ some y) × (prunable y ≡ true))
  indices_first i [] j js e = cc
  indices_first i (x ∷ xs) j js e = elim (Bool-cases (prunable x)) [
    | inl hit ↦
        let e' : i ∷ indices (suc i) xs ≡ j ∷ js = rw hit at e in
        let first : i ≡ j = cc e' in
        let others : indices (suc i) xs ≡ js = cc e' in
        let here : j - i ≡ zero = omega (arith, first) in
        (omega (arith, first), rw (← others, ← first) (indices-ge (suc i) xs), (x, rw here, hit))
    | inr miss ↦
        let e' : indices (suc i) xs ≡ j ∷ js = rw miss at e in
        let ih = indices_first (suc i) xs j js e' in
        let d : j - i ≡ suc (j - suc i) = omega (arith, ih.0) in
        (omega (arith, ih.0), ih.1, (ih.2.0, rw d ih.2.1, ih.2.2))
  ]

  -- The second position is that of a prunable entry too, behind the first.
  pub indices_second :
      (i : ℕ) (xs : List m.AuthorisedEntry) (j k : ℕ) (js : List ℕ)
      → indices i xs ≡ j ∷ k ∷ js
      → (i ≤ j)
        × (j < k)
        × All (λ l. k < l) js
        × ((y : m.AuthorisedEntry) × (get_elem? xs (k - i) ≡ some y) × (prunable y ≡ true))
  indices_second i [] j k js e = cc
  indices_second i (x ∷ xs) j k js e = elim (Bool-cases (prunable x)) [
    | inl hit ↦
        let e' : i ∷ indices (suc i) xs ≡ j ∷ k ∷ js = rw hit at e in
        let first : i ≡ j = cc e' in
        let ih = indices_first (suc i) xs k js (cc e') in
        let d : k - i ≡ suc (k - suc i) = omega (arith, ih.0) in
        (omega (arith, first), omega (arith, first, ih.0), ih.1, (ih.2.0, rw d ih.2.1, ih.2.2))
    | inr miss ↦
        let e' : indices (suc i) xs ≡ j ∷ k ∷ js = rw miss at e in
        let ih = indices_second (suc i) xs j k js e' in
        let d : k - i ≡ suc (k - suc i) = omega (arith, ih.0, ih.1) in
        (omega (arith, ih.0), ih.1, ih.2, (ih.3.0, rw d ih.3.1, ih.3.2))
  ]

  abbrev pub unpruned : m.AuthorisedEntry → Bool
  unpruned e = not (prunable e)

  pub keep-unpruned_nil :
      (i : ℕ) (xs : List m.AuthorisedEntry) → indices i xs ≡ [] → keep unpruned xs ≡ xs
  keep-unpruned_nil i [] e = refl
  keep-unpruned_nil i (x ∷ xs) e = ground (arith, keep-unpruned_nil (suc i) xs)

  pub keep-prunable_nil :
      (i : ℕ) (xs : List m.AuthorisedEntry) → indices i xs ≡ [] → keep prunable xs ≡ []
  keep-prunable_nil i [] e = refl
  keep-prunable_nil i (x ∷ xs) e = ground (arith, keep-prunable_nil (suc i) xs)

  -- With one position the removal by index is the filter.
  pub remove_at_single :
      (i : ℕ) (xs : List m.AuthorisedEntry) (j : ℕ)
      → indices i xs ≡ j ∷ []
      → (i ≤ j)
        × ((y : m.AuthorisedEntry) × (remove_at (j - i) xs ≡ some (y, keep unpruned xs))
            × (keep prunable xs ≡ y ∷ []))
  unfolding remove_at
  remove_at_single i [] j e = cc
  remove_at_single i (x ∷ xs) j e = elim (Bool-cases (prunable x)) [
    | inl hit ↦
        let e' : i ∷ indices (suc i) xs ≡ j ∷ [] = rw hit at e in
        let first : i ≡ j = cc e' in
        let others : indices (suc i) xs ≡ [] = cc e' in
        let here : j - i ≡ zero = omega (arith, first) in
        let whole = keep-unpruned_nil (suc i) xs others in
        (
          omega (arith, first),
          (
            x,
            rw (here, hit, remove_at) (ap (λ l. some (x, l)) (sym whole)),
            rw (hit, keep-prunable_nil (suc i) xs others),
          ),
        )
    | inr miss ↦
        let e' : indices (suc i) xs ≡ j ∷ [] = rw miss at e in
        let (le, (y, removed, one)) = remove_at_single (suc i) xs j e' in
        let d : j - i ≡ suc (j - suc i) = omega (arith, le) in
        (omega (arith, le), (y, rw d (ground (arith, removed)), rw miss one))
  ]

-- Removals behind a position leave it alone.
pub get_elem?-prune_all :
    (m : DataModel) (new : m.AuthorisedEntry) (p : ℕ) (is : List ℕ) (s t : NamespaceStore m)
    → All (λ i. p < i) is
    → prune_all m new is s ≡ some t
    → get_elem? t.entries p ≡ get_elem? s.entries p
unfolding prune_all
get_elem?-prune_all m new p [] s t h e = ground arith
get_elem?-prune_all m new p (i ∷ is) s t h e = elim (Option-cases (remove_at i s.entries)) [
  | inl n ↦ ground arith
  | inr ((old, rest), r) ↦
      let e' = rw (r, prune_all) at e in
      get_elem?-prune_all m new p is _ t h.1 e' ∙ remove_at-lt i p s.entries rest old r h.0
]
