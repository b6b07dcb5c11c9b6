-- ===== src/Caps/Meadowcap.antt =====
-- What the program uses of the libraries meadowcap and willow_data_model for capabilities, as a
-- parameter, and src/proto/meadowcap.rs on top of it. Namespaces and users are numbers.
use iroh_willow.Prelude.{
  ℕ, ◌≡◌, Bool, true, not, ◌||◌, ◌&&◌, Option, none, some, ltb, if◌then◌else◌,
}

pub record Meadowcap : Type 1 where
  pub Cap : Type 0
  pub SubspaceCap : Type 0
  pub Area : Type 0
  pub Point : Type 0
  pub UserSecret : Type 0
  pub NamespaceSecret : Type 0
  pub granted_namespace : Cap → ℕ
  pub receiver : Cap → ℕ
  pub granted_area : Cap → Area
  -- The number of delegations, and whether the access mode is `Read` (or `Write`).
  pub delegations : Cap → ℕ
  pub is_read : Cap → Bool
  pub includes_area : Area → Area → Bool
  pub includes_point : Area → Point → Bool
  pub same_area : Area → Area → Bool
  -- `area.subspace().is_any()` and `area.path().is_empty()`.
  pub is_any_subspace : Area → Bool
  pub is_empty_path : Area → Bool
  pub user_id : UserSecret → ℕ
  pub namespace_id : NamespaceSecret → ℕ
  pub is_communal : ℕ → Bool
  -- The constructors of capabilities, for reading (`true`) or writing, and delegation: none if the
  -- library refuses.
  pub new_communal : ℕ → ℕ → Bool → Option Cap
  pub new_owned : ℕ → NamespaceSecret → ℕ → Bool → Option Cap
  pub new_subspace_cap : ℕ → NamespaceSecret → ℕ → Option SubspaceCap
  pub delegate_cap : Cap → UserSecret → ℕ → Area → Option Cap
  pub delegate_subspace_cap : SubspaceCap → UserSecret → ℕ → Option SubspaceCap

-- The inclusion of areas is a preorder that decides their equality on both sides.
pub record AreaOrder (M : Meadowcap) : Type 0 where
  pub same_includes : (a b : M.Area) → M.same_area a b ≡ true → M.includes_area a b ≡ true
  pub includes_trans :
      (a b c : M.Area)
      → M.includes_area a b ≡ true
      → M.includes_area b c ≡ true
      → M.includes_area a c ≡ true

pub record ReadAuthorisation (M : Meadowcap) : Type 0 where
  pub read_cap : M.Cap
  pub subspace_cap : Option M.SubspaceCap

module _ {M : Meadowcap} where
  unfoldable pub namespace : ReadAuthorisation M → ℕ
  namespace auth = M.granted_namespace auth.read_cap

  unfoldable pub delegate_read :
      M.UserSecret
      → ℕ
      → M.Area
      → Option M.SubspaceCap
      → ReadAuthorisation M
      → Option (ReadAuthorisation M)
  delegate_read secret new_user new_area subspace_cap auth =
      elim (M.delegate_cap auth.read_cap secret new_user new_area) [
        | none ↦ none
        | some cap ↦ some (record { read_cap = cap; subspace_cap = subspace_cap })
      ]

  unfoldable pub delegate :
      M.UserSecret → ℕ → M.Area → ReadAuthorisation M → Option (ReadAuthorisation M)
  delegate secret new_user new_area auth = elim auth.subspace_cap [
    | none ↦ delegate_read secret new_user new_area none auth
    | some cap ↦
        if M.is_any_subspace new_area && not (M.is_empty_path new_area)
        then (elim (M.delegate_subspace_cap cap secret new_user) [
          | none ↦ none
          | some new_cap ↦ delegate_read secret new_user new_area (some new_cap) auth
        ])
        else delegate_read secret new_user new_area none auth
  ]

unfoldable pub is_wider_than : (M : Meadowcap) → M.Cap → M.Cap → Bool
is_wider_than M a b =
    M.includes_area (M.granted_area a) (M.granted_area b)
    || (M.same_area (M.granted_area a) (M.granted_area b)
        && ltb (M.delegations a) (M.delegations b))
