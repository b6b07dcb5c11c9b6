-- ===== src/Model/Toy.antt =====
-- A concrete data model for tests and examples: paths are lists of numbers, an area is a
-- subspace with a path prefix.
use iroh_willow.Prelude.{
  ℕ, Bool, true, false, ◌&&◌, ◌||◌, Option, none, some, List, [], ◌∷◌, ltb, ◌==◌, if◌then◌else◌,
  ◌≡◌, ◌↔◌, arith, refl,
}
use iroh_willow.Model.{DataModel}

abbrev pub list_eq : List ℕ → List ℕ → Bool
list_eq [] [] = true
list_eq (x ∷ xs) (y ∷ ys) = x == y && list_eq xs ys
list_eq _ _ = false

abbrev pub prefix : List ℕ → List ℕ → Bool
prefix [] _ = true
prefix (x ∷ xs) (y ∷ ys) = x == y && prefix xs ys
prefix (x ∷ xs) [] = false

pub record ToyEntry : Type 0 where
  pub namespace : ℕ
  pub subspace : ℕ
  pub path : List ℕ
  pub time : ℕ
  pub length : ℕ
  pub digest : ℕ

pub record ToyArea : Type 0 where
  pub subspace : ℕ
  pub path : List ℕ

abbrev pub toy_entry_eq : ToyEntry → ToyEntry → Bool
toy_entry_eq a b =
    a.namespace == b.namespace
    && a.subspace == b.subspace
    && list_eq a.path b.path
    && a.time == b.time
    && a.length == b.length
    && a.digest == b.digest

-- By time, then digest, then length.
abbrev pub newer : ToyEntry → ToyEntry → Bool
newer a b =
    ltb b.time a.time
    || (a.time == b.time
        && (ltb b.digest a.digest || (a.digest == b.digest && ltb b.length a.length)))

abbrev pub area_includes : ToyArea → ToyArea → Bool
area_includes a b = a.subspace == b.subspace && prefix a.path b.path

abbrev pub toy_intersection : ToyArea → ToyArea → Option ToyArea
toy_intersection a b =
    if area_includes a b then some b else if area_includes b a then some a else none

abbrev pub toy : DataModel
toy = record {
  EntryPath = List ℕ;
  Entry = ToyEntry;
  AuthorisedEntry = ToyEntry;
  Area = ToyArea;
  entry = λ e. e;
  namespace_id = λ e. e.namespace;
  subspace_id = λ e. e.subspace;
  path = λ e. e.path;
  timestamp = λ e. e.time;
  payload_length = λ e. e.length;
  payload_digest = λ e. e.digest;
  entry_eq = toy_entry_eq;
  path_eq = list_eq;
  is_prefix_of = prefix;
  is_newer_than = newer;
  area_eq = λ a b. a.subspace == b.subspace && list_eq a.path b.path;
  includes_area = area_includes;
  includes_entry = λ a e. a.subspace == e.subspace && prefix a.path e.path;
  intersection = toy_intersection;
}

pub list_eq_refl : (xs : List ℕ) → list_eq xs xs ≡ true
list_eq_refl [] = refl
list_eq_refl (x ∷ xs) = ground (arith, list_eq_refl xs)

pub list_eq_sound : (xs ys : List ℕ) → list_eq xs ys ≡ true → xs ≡ ys
list_eq_sound [] [] h = refl
list_eq_sound (x ∷ xs) (y ∷ ys) h = ground (arith, list_eq_sound xs ys)
list_eq_sound [] (y ∷ ys) h = ground arith
list_eq_sound (x ∷ xs) [] h = ground arith

pub prefix_refl : (xs : List ℕ) → prefix xs xs ≡ true
prefix_refl [] = refl
prefix_refl (x ∷ xs) = ground (arith, prefix_refl xs)

pub toy_entry_eq_iff : (a b : ToyEntry) → (toy_entry_eq a b ≡ true) ↔ (a ≡ b)
toy_entry_eq_iff a b =
    (λ h. ground (arith, list_eq_sound a.path b.path), λ e. ground (arith, list_eq_refl a.path))

-- An entry of namespace 0 and subspace 1 with an empty payload.
abbrev pub at_path : List ℕ → ℕ → ToyEntry
at_path p t = record { namespace = 0; subspace = 1; path = p; time = t; length = 0; digest = 0 }
