-- ===== src/Session/Pai.antt =====
-- The primitives of private area intersection in src/proto/pai.rs: the fragments of a capability and
-- their group members. The curve, its hash, the encodings of the libraries and the capabilities are
-- the parameter Psi.
use iroh_willow.Prelude.{ℕ, Bool, true, false, Option, List, ◌++◌, map}
use iroh_willow.Session.Storage.{Bytes}

-- `AreaSubspace` of willow_data_model.
pub data AreaSubspace : Type 0 where
  any_subspace : AreaSubspace
  subspace_id : ℕ → AreaSubspace

pub record Psi : Type 1 where
  pub WillowPath : Type 0
  pub all_prefixes : WillowPath → List WillowPath
  pub encode_namespace : ℕ → Bytes
  pub encode_subspace : ℕ → Bytes
  pub encode_path : WillowPath → Bytes
  -- Points of the group, their compressed bytes, and the hash of bytes into the group.
  pub PsiGroup : Type 0
  pub PsiScalar : Type 0
  pub to_bytes : PsiGroup → Bytes
  pub from_bytes : Bytes → Option PsiGroup
  pub hash_from_bytes : Bytes → PsiGroup
  pub scalar_mult : PsiGroup → PsiScalar → PsiGroup
  pub is_group_equal : PsiGroup → PsiGroup → Bool
  -- `ReadAuthorisation`, with what its read capability grants.
  pub Authorisation : Type 0
  pub SubspaceCap : Type 0
  pub same_authorisation : Authorisation → Authorisation → Bool
  pub granted_namespace : Authorisation → ℕ
  pub granted_subspace : Authorisation → AreaSubspace
  pub granted_path : Authorisation → WillowPath
  pub subspace_cap : Authorisation → Option SubspaceCap

pub data FragmentKind : Type 0 where
  primary secondary : FragmentKind

unfoldable pub is_secondary_kind : FragmentKind → Bool
is_secondary_kind primary = false
is_secondary_kind secondary = true

pub data Fragment (P : Psi) : Type 0 where
  pair : ℕ × P.WillowPath → Fragment P
  triple : ℕ × ℕ × P.WillowPath → Fragment P

pub data FragmentSet (P : Psi) : Type 0 where
  complete_set : List (ℕ × P.WillowPath) → FragmentSet P
  -- The primary and the secondary fragments.
  selective_set : List (ℕ × ℕ × P.WillowPath) → List (ℕ × P.WillowPath) → FragmentSet P

pub data FragmentKit (P : Psi) : Type 0 where
  complete_kit : ℕ → P.WillowPath → FragmentKit P
  selective_kit : ℕ → ℕ → P.WillowPath → FragmentKit P

module _ {P : Psi} where
  unfoldable pub into_parts : Fragment P → ℕ × AreaSubspace × P.WillowPath
  into_parts (pair (namespace, path)) = (namespace, any_subspace, path)
  into_parts (triple (namespace, subspace, path)) = (namespace, subspace_id subspace, path)

  unfoldable pub encode : Fragment P → Bytes
  encode (pair (namespace, path)) = P.encode_namespace namespace ++ P.encode_path path
  encode (triple (namespace, subspace, path)) =
      P.encode_namespace namespace ++ (P.encode_subspace subspace ++ P.encode_path path)

  unfoldable pub hash_into_group : Fragment P → P.PsiGroup
  hash_into_group fragment = P.hash_from_bytes (encode fragment)

  unfoldable pub get_fragment_kit : P.Authorisation → FragmentKit P
  get_fragment_kit auth = elim (P.granted_subspace auth) [
    | any_subspace ↦ complete_kit (P.granted_namespace auth) (P.granted_path auth)
    | subspace_id subspace ↦ selective_kit (P.granted_namespace auth) subspace (P.granted_path auth)
  ]

  unfoldable pub into_fragment_set : FragmentKit P → FragmentSet P
  into_fragment_set (complete_kit namespace path) =
      complete_set (map (λ prefix. (namespace, prefix)) (P.all_prefixes path))
  into_fragment_set (selective_kit namespace subspace path) =
      selective_set (map (λ prefix. (namespace, subspace, prefix)) (P.all_prefixes path))
        (map (λ prefix. (namespace, prefix)) (P.all_prefixes path))
