-- ===== src/Prelude/Map.antt =====
-- A hash map whose keys are numbers, as an association list. The program relies on no order of
-- the entries.
use iroh_willow.Prelude.Tests.{◌==◌, if◌then◌else◌, Bool-cases, if_cases, ==_iff}
use Prim.Native.Nat.{ℕ}
use mathlib.Core.Path.{◌≡◌, refl, subst}
use mathlib.Core.Logic.{inl, inr}
use mathlib.Core.Bool.{true, false}
use mathlib.Core.List.{List, [], ◌∷◌}
use mathlib.Core.Option.{Option, none, some}
use native.Mathlib.Omega.{arith}

abbrev pub Map {ℓ} : Type ℓ → Type ℓ
Map V = List (ℕ × V)

module _ {ℓ} {V : Type ℓ} where
  abbrev pub lookup : ℕ → Map V → Option V
  lookup k [] = none
  lookup k ((j, v) ∷ m) = if j == k then some v else lookup k m

  abbrev pub put : ℕ → V → Map V → Map V
  put k v [] = (k, v) ∷ []
  put k v ((j, w) ∷ m) = if j == k then (k, v) ∷ m else (j, w) ∷ put k v m

  abbrev pub remove : ℕ → Map V → Map V
  remove k [] = []
  remove k ((j, w) ∷ m) = if j == k then remove k m else (j, w) ∷ remove k m

  -- `entry(k).or_default()`, read.
  abbrev pub lookup_or : V → ℕ → Map V → V
  lookup_or d k m = elim (lookup k m) [ none ↦ d | some v ↦ v ]

  pub lookup-put :
      (k j : ℕ) (v : V) (m : Map V) → lookup j (put k v m) ≡ (if k == j then some v else lookup j m)
  lookup-put k j v [] = refl
  lookup-put k j v ((i, w) ∷ m) = ground (arith, lookup-put k j v m)

  pub lookup-remove :
      (k j : ℕ) (m : Map V) → lookup j (remove k m) ≡ (if k == j then none else lookup j m)
  lookup-remove k j [] = ground arith
  lookup-remove k j ((i, w) ∷ m) = ground (arith, lookup-remove k j m)

  pub lookup_or-put_self : (d : V) (k : ℕ) (v : V) (m : Map V) → lookup_or d k (put k v m) ≡ v
  lookup_or-put_self d k v m = ground (arith, lookup-put k k v m)

  -- No key stands twice.
  abbrev pub IsDistinct : Map V → Type ℓ
  IsDistinct [] = Unit
  IsDistinct ((k, v) ∷ m) = (lookup k m ≡ none) × IsDistinct m

  put_hit : (k j : ℕ) (v w : V) (m : Map V) → (j == k) ≡ true → (k, v) ∷ m ≡ put k v ((j, w) ∷ m)
  put_hit k j v w m e = ground arith

  put_miss :
      (k j : ℕ) (v w : V) (m : Map V) → (j == k) ≡ false → (j, w) ∷ put k v m ≡ put k v ((j, w) ∷ m)
  put_miss k j v w m e = ground arith

  pub put-IsDistinct : (k : ℕ) (v : V) (m : Map V) → IsDistinct m → IsDistinct (put k v m)
  put-IsDistinct k v [] d = (refl, tt)
  put-IsDistinct k v ((j, w) ∷ m) d = elim (Bool-cases (j == k)) [
    | inl e ↦ subst IsDistinct (put_hit k j v w m e) (rw (← (==_iff j k).0 e) d)
    | inr e ↦
        subst IsDistinct (put_miss k j v w m e)
          (ground (arith, lookup-put k j v m), put-IsDistinct k v m d.1)
  ]

  pub remove-IsDistinct : (k : ℕ) (m : Map V) → IsDistinct m → IsDistinct (remove k m)
  remove-IsDistinct k [] d = tt
  remove-IsDistinct k ((j, w) ∷ m) d =
      if_cases IsDistinct (j == k) (λ _. remove-IsDistinct k m d.1)
        (λ e. (ground (arith, lookup-remove k j m), remove-IsDistinct k m d.1))
