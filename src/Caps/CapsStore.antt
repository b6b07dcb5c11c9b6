-- ===== src/Caps/CapsStore.antt =====
-- `CapsStore` and `SecretStore` of src/store/memory.rs.
use iroh_willow.Prelude.{
  ℕ, Bool, true, false, Option, none, some, List, [], ◌∷◌, ◌++◌, keep, if◌then◌else◌,
}
use iroh_willow.Prelude.Map.{Map, lookup, put, lookup_or}
use iroh_willow.Caps.Meadowcap.{Meadowcap, ReadAuthorisation, is_wider_than}
use iroh_willow.Caps.Interest.{CapSelector, CapabilityPack, read, write, is_covered_by}

pub record CapsStore (M : Meadowcap) : Type 0 where
  pub write_caps : Map (List M.Cap)
  pub read_caps : Map (List (ReadAuthorisation M))

pub record SecretStore (M : Meadowcap) : Type 0 where
  pub user : Map M.UserSecret
  pub namespace : Map M.NamespaceSecret

pub data SecretKey (M : Meadowcap) : Type 0 where
  user_key : M.UserSecret → SecretKey M
  namespace_key : M.NamespaceSecret → SecretKey M

module _ {A : Type 0} (wider : A → A → Bool) where
  -- `Iterator::reduce` with the choice of the wider one: the next one if it is wider.
  unfoldable pub widest_from : A → List A → A
  widest_from prev [] = prev
  widest_from prev (next ∷ rest) =
      if wider next prev then widest_from next rest else widest_from prev rest

  unfoldable pub widest_of : List A → Option A
  widest_of [] = none
  widest_of (first ∷ rest) = some (widest_from first rest)

unfoldable pub is_some : {A : Type 0} → Option A → Bool
is_some none = false
is_some (some _) = true

-- `values().flatten()`.
unfoldable pub all_values : {A : Type 0} → Map (List A) → List A
all_values [] = []
all_values ((k, vs) ∷ m) = vs ++ all_values m

unfoldable pub list_caps : {A : Type 0} → Option ℕ → Map (List A) → List A
list_caps none m = all_values m
list_caps (some namespace) m = lookup_or [] namespace m

module _ {M : Meadowcap} where
  unfoldable pub get_write_cap : CapSelector M → CapsStore M → Option M.Cap
  get_write_cap selector s =
      widest_of (is_wider_than M)
        (keep (λ cap. is_covered_by selector cap) (lookup_or [] selector.namespace_id s.write_caps))

  unfoldable pub get_read_cap : CapSelector M → CapsStore M → Option (ReadAuthorisation M)
  get_read_cap selector s =
      widest_of (λ a b. is_wider_than M a.read_cap b.read_cap)
        (keep (λ (auth : ReadAuthorisation M). is_covered_by selector auth.read_cap)
          (lookup_or [] selector.namespace_id s.read_caps))

  unfoldable pub list_write_caps : Option ℕ → CapsStore M → List M.Cap
  list_write_caps namespace s = list_caps namespace s.write_caps

  unfoldable pub list_read_caps : Option ℕ → CapsStore M → List (ReadAuthorisation M)
  list_read_caps namespace s = list_caps namespace s.read_caps

  unfoldable pub insert_cap : CapabilityPack M → CapsStore M → CapsStore M
  insert_cap (read auth) s =
      let namespace = M.granted_namespace auth.read_cap in
      record s {
        read_caps = put namespace (lookup_or [] namespace s.read_caps ++ auth ∷ []) s.read_caps;
      }
  insert_cap (write cap) s =
      let namespace = M.granted_namespace cap in
      record s {
        write_caps = put namespace (lookup_or [] namespace s.write_caps ++ cap ∷ []) s.write_caps;
      }

  unfoldable pub insert_secret : SecretKey M → SecretStore M → SecretStore M
  insert_secret (user_key secret) s = record s { user = put (M.user_id secret) secret s.user }
  insert_secret (namespace_key secret) s = record s {
    namespace = put (M.namespace_id secret) secret s.namespace;
  }

  unfoldable pub get_user : ℕ → SecretStore M → Option M.UserSecret
  get_user id s = lookup id s.user

  unfoldable pub get_namespace : ℕ → SecretStore M → Option M.NamespaceSecret
  get_namespace id s = lookup id s.namespace

  unfoldable pub has_user : ℕ → SecretStore M → Bool
  has_user id s = is_some (get_user id s)

  -- As the code has it: it looks among the users.
  unfoldable pub has_namespace : ℕ → SecretStore M → Bool
  has_namespace id s = is_some (get_user id s)
