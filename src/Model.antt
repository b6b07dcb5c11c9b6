-- ===== src/Model.antt =====
-- The types and operations of the crate willow_data_model that the code uses. The crate is not
-- part of the repository: every definition takes them as an argument, and what a theorem relies on
-- is one of the named hypotheses below. Identifiers (namespace, subspace and user ids, digests)
-- are byte strings of fixed length that the code only compares; each stands here as the number
-- that it spells in base 256, which keeps equality and order.
pub mod Toy
use iroh_willow.Prelude.{ℕ, ◌≡◌, ◌↔◌, Bool, true, Option, ◌⊎◌}

pub record DataModel : Type 1 where
  pub EntryPath : Type 0
  pub Entry : Type 0
  pub AuthorisedEntry : Type 0
  pub Area : Type 0
  pub entry : AuthorisedEntry → Entry
  pub namespace_id : Entry → ℕ
  pub subspace_id : Entry → ℕ
  pub path : Entry → EntryPath
  pub timestamp : Entry → ℕ
  pub payload_length : Entry → ℕ
  pub payload_digest : Entry → ℕ
  pub entry_eq : Entry → Entry → Bool
  pub path_eq : EntryPath → EntryPath → Bool
  pub is_prefix_of : EntryPath → EntryPath → Bool
  pub is_newer_than : Entry → Entry → Bool
  pub area_eq : Area → Area → Bool
  pub includes_area : Area → Area → Bool
  pub includes_entry : Area → Entry → Bool
  pub intersection : Area → Area → Option Area

-- `==` on entries decides equality.
abbrev pub EntryEqDecides : DataModel → Type 0
EntryEqDecides m = (a b : m.Entry) → (m.entry_eq a b ≡ true) ↔ (a ≡ b)

-- `==` on paths decides equality.
abbrev pub PathEqDecides : DataModel → Type 0
PathEqDecides m = (a b : m.EntryPath) → (m.path_eq a b ≡ true) ↔ (a ≡ b)

-- Every path is a prefix of itself.
abbrev pub PrefixRefl : DataModel → Type 0
PrefixRefl m = (p : m.EntryPath) → m.is_prefix_of p p ≡ true

-- Of two entries at one place one is newer, or they are equal: entries are ordered by timestamp,
-- then digest, then length.
abbrev pub NewerTotal : DataModel → Type 0
NewerTotal m =
    (a b : m.Entry)
    → m.namespace_id a ≡ m.namespace_id b
    → m.subspace_id a ≡ m.subspace_id b
    → m.path a ≡ m.path b
    → (m.is_newer_than a b ≡ true) ⊎ (m.is_newer_than b a ≡ true) ⊎ (m.entry_eq a b ≡ true)
