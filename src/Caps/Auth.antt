-- ===== src/Caps/Auth.antt =====
-- `Auth` of src/store/auth.rs over the in-memory stores. An operation that changes the capabilities
-- returns the store that it leaves with its result.
use iroh_willow.Prelude.{ℕ, Bool, true, false, Option, none, some, List, [], ◌∷◌, if◌then◌else◌}
use iroh_willow.Caps.Meadowcap.{Meadowcap}
use iroh_willow.Caps.Interest.{
  CapSelector, CapabilityPack, read, write, RestrictArea, or_default, DelegateTo, pack_receiver,
  validate,
}
use iroh_willow.Caps.CapsStore.{
  CapsStore, SecretStore, get_write_cap, get_read_cap, insert_cap, get_user, get_namespace,
  has_user,
}

-- The errors that the stores of this model and the capability library can give rise to.
pub data AuthError : Type 0 where
  missing_user_secret : ℕ → AuthError
  missing_namespace_secret : ℕ → AuthError
  no_capability invalid_pack create_owned_cap create_communal_cap : AuthError
  delegation_failed subspace_cap_delegation_failed : AuthError

pub data AuthResult (A : Type 0) : Type 0 where
  fine : A → AuthResult A
  fails : AuthError → AuthResult A

infixl 5 ◌>>=◌
abbrev pub ◌>>=◌ : {A B : Type 0} → AuthResult A → (A → AuthResult B) → AuthResult B
fine a >>= f = f a
fails e >>= f = fails e

-- `ok_or`, which is also what `?` does to a failure of the library.
abbrev pub or_fail : {A : Type 0} → AuthError → Option A → AuthResult A
or_fail e none = fails e
or_fail e (some a) = fine a

-- The subspace capability of a delegation: only for areas of any subspace.
unfoldable pub delegate_subspace :
    (M : Meadowcap)
    → M.UserSecret
    → ℕ
    → M.Area
    → Option M.SubspaceCap
    → AuthResult (Option M.SubspaceCap)
delegate_subspace M secret to area none = fine none
delegate_subspace M secret to area (some subspace_cap) =
    if M.is_any_subspace area
    then (do
      new_cap ←
          or_fail subspace_cap_delegation_failed (M.delegate_subspace_cap subspace_cap secret to)
      fine (some new_cap))
    else fine none

module _ {M : Meadowcap} where
  unfoldable pub import_caps :
      List (CapabilityPack M) → SecretStore M → CapsStore M → AuthResult (Unit {0}) × CapsStore M
  import_caps [] secrets caps = (fine tt, caps)
  import_caps (cap ∷ rest) secrets caps =
      let later = import_caps rest secrets (insert_cap cap caps) in
      if validate cap
      then (if has_user (pack_receiver cap) secrets
          then later
          else (fails (missing_user_secret (pack_receiver cap)), caps))
      else (fails invalid_pack, caps)

  unfoldable pub insert_caps_unchecked : List (CapabilityPack M) → CapsStore M → CapsStore M
  insert_caps_unchecked [] caps = caps
  insert_caps_unchecked (cap ∷ rest) caps = insert_caps_unchecked rest (insert_cap cap caps)

  unfoldable pub create_read_cap : ℕ → ℕ → SecretStore M → AuthResult (CapabilityPack M)
  create_read_cap namespace user secrets =
      if M.is_communal namespace
      then (do
        cap ← or_fail create_communal_cap (M.new_communal namespace user true)
        fine (read (record { read_cap = cap; subspace_cap = none })))
      else (do
        secret ← or_fail (missing_namespace_secret namespace) (get_namespace namespace secrets)
        cap ← or_fail create_owned_cap (M.new_owned namespace secret user true)
        subspace ← or_fail subspace_cap_delegation_failed (M.new_subspace_cap namespace secret user)
        fine (read (record { read_cap = cap; subspace_cap = some subspace })))

  unfoldable pub create_write_cap : ℕ → ℕ → SecretStore M → AuthResult (CapabilityPack M)
  create_write_cap namespace user secrets =
      if M.is_communal namespace
      then (do
        cap ← or_fail create_communal_cap (M.new_communal namespace user false)
        fine (write cap))
      else (do
        secret ← or_fail (missing_namespace_secret namespace) (get_namespace namespace secrets)
        cap ← or_fail create_owned_cap (M.new_owned namespace secret user false)
        fine (write cap))

  unfoldable pub create_full_caps :
      ℕ → ℕ → SecretStore M → CapsStore M → AuthResult (List (CapabilityPack M)) × CapsStore M
  create_full_caps namespace user secrets caps =
      let pack = do
        read_cap ← create_read_cap namespace user secrets
        write_cap ← create_write_cap namespace user secrets
        fine (read_cap ∷ write_cap ∷ [])
      in elim pack [
        | fails e ↦ (fails e, caps)
        | fine packs ↦ (fine packs, insert_caps_unchecked packs caps)
      ]

  unfoldable pub delegate_read_cap :
      CapSelector M
      → ℕ
      → RestrictArea M
      → SecretStore M
      → CapsStore M
      → AuthResult (CapabilityPack M)
  delegate_read_cap from to restrict_area secrets caps = do
    auth ← or_fail no_capability (get_read_cap from caps)
    secret ←
        or_fail (missing_user_secret (M.receiver auth.read_cap))
          (get_user (M.receiver auth.read_cap) secrets)
    new_cap ← or_fail delegation_failed (
        M.delegate_cap auth.read_cap secret to
          (or_default restrict_area (M.granted_area auth.read_cap)))
    subspace ←
        delegate_subspace M secret to (or_default restrict_area (M.granted_area auth.read_cap))
          auth.subspace_cap
    fine (read (record { read_cap = new_cap; subspace_cap = subspace }))

  unfoldable pub delegate_write_cap :
      CapSelector M
      → ℕ
      → RestrictArea M
      → SecretStore M
      → CapsStore M
      → AuthResult (CapabilityPack M)
  delegate_write_cap from to restrict_area secrets caps = do
    cap ← or_fail no_capability (get_write_cap from caps)
    secret ← or_fail (missing_user_secret (M.receiver cap)) (get_user (M.receiver cap) secrets)
    new_cap ←
        or_fail delegation_failed
          (M.delegate_cap cap secret to (or_default restrict_area (M.granted_area cap)))
    fine (write new_cap)

  -- The access mode is `true` for writing.
  unfoldable pub delegate_full_caps :
      CapSelector M
      → Bool
      → DelegateTo M
      → Bool
      → SecretStore M
      → CapsStore M
      → AuthResult (List (CapabilityPack M)) × CapsStore M
  delegate_full_caps from to_write to store secrets caps =
      let packs = do
        read_cap ← delegate_read_cap from to.user to.restrict_area secrets caps
        writes ←
            (if to_write
              then (do
                write_cap ← delegate_write_cap from to.user to.restrict_area secrets caps
                fine (write_cap ∷ []))
              else fine [])
        fine (read_cap ∷ writes)
      in elim packs [
        | fails e ↦ (fails e, caps)
        | fine out ↦ (fine out, if store then insert_caps_unchecked out caps else caps)
      ]
