-- ===== src/Caps/Interest.antt =====
-- The selectors and capability packs of src/interest.rs.
use iroh_willow.Prelude.{ℕ, Bool, true, not, ◌&&◌, ◌==◌}
use iroh_willow.Caps.Meadowcap.{Meadowcap, ReadAuthorisation, namespace}

pub data UserSelector : Type 0 where
  any_user : UserSelector
  exact_user : ℕ → UserSelector

unfoldable pub includes : UserSelector → ℕ → Bool
includes any_user user = true
includes (exact_user u) user = u == user

pub data AreaSelector (M : Meadowcap) : Type 0 where
  widest : AreaSelector M
  contains_area : M.Area → AreaSelector M
  contains_point : M.Point → AreaSelector M

pub record CapSelector (M : Meadowcap) : Type 0 where
  pub namespace_id : ℕ
  pub receiver : UserSelector
  pub granted_area : AreaSelector M

pub data CapabilityPack (M : Meadowcap) : Type 0 where
  read : ReadAuthorisation M → CapabilityPack M
  write : M.Cap → CapabilityPack M

pub data RestrictArea (M : Meadowcap) : Type 0 where
  no_restriction : RestrictArea M
  restrict : M.Area → RestrictArea M

pub record DelegateTo (M : Meadowcap) : Type 0 where
  pub user : ℕ
  pub restrict_area : RestrictArea M

module _ {M : Meadowcap} where
  -- `AreaSelector::is_covered_by`.
  unfoldable pub is_area_covered_by : AreaSelector M → M.Area → Bool
  is_area_covered_by widest other = true
  is_area_covered_by (contains_area area) other = M.includes_area other area
  is_area_covered_by (contains_point point) other = M.includes_point other point

  unfoldable pub is_covered_by : CapSelector M → M.Cap → Bool
  is_covered_by selector cap =
      (selector.namespace_id == M.granted_namespace cap)
      && (includes selector.receiver (M.receiver cap)
          && is_area_covered_by selector.granted_area (M.granted_area cap))

  unfoldable pub with_user : ℕ → ℕ → CapSelector M
  with_user namespace_id user = record {
    namespace_id = namespace_id;
    receiver = exact_user user;
    granted_area = widest;
  }

  unfoldable pub any_cap : ℕ → CapSelector M
  any_cap namespace_id = record {
    namespace_id = namespace_id;
    receiver = any_user;
    granted_area = widest;
  }

  unfoldable pub or_default : RestrictArea M → M.Area → M.Area
  or_default no_restriction default = default
  or_default (restrict area) default = area

  unfoldable pub pack_receiver : CapabilityPack M → ℕ
  pack_receiver (read auth) = M.receiver auth.read_cap
  pack_receiver (write cap) = M.receiver cap

  unfoldable pub pack_namespace : CapabilityPack M → ℕ
  pack_namespace (read auth) = namespace auth
  pack_namespace (write cap) = M.granted_namespace cap

  -- Whether `validate` succeeds.
  unfoldable pub validate : CapabilityPack M → Bool
  validate (read auth) = M.is_read auth.read_cap
  validate (write cap) = not (M.is_read cap)
