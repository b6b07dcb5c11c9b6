-- ===== src/Caps/Resolve.antt =====
-- The interests of src/interest.rs, their builder, and `resolve_interests` of src/store/auth.rs. Hash
-- maps are lists, whose keys are compared by an argument; sets of areas are lists without doubles.
use iroh_willow.Prelude.{ℕ, Bool, none, some, List, [], ◌∷◌, ◌++◌, any, ◌==◌, ◌&&◌, if◌then◌else◌}
use iroh_willow.Caps.Meadowcap.{Meadowcap, ReadAuthorisation}
use iroh_willow.Caps.Interest.{CapSelector}
use iroh_willow.Caps.CapsStore.{CapsStore, get_read_cap, list_read_caps}

pub record AreaOfInterest (M : Meadowcap) : Type 0 where
  pub area : M.Area
  pub max_count : ℕ
  pub max_size : ℕ

pub data AreaOfInterestSelector (M : Meadowcap) : Type 0 where
  widest_area : AreaOfInterestSelector M
  exact_areas : List (AreaOfInterest M) → AreaOfInterestSelector M

pub data Interests (M : Meadowcap) : Type 0 where
  all_interests : Interests M
  select : List (CapSelector M × AreaOfInterestSelector M) → Interests M

module _ {M : Meadowcap} where
  unfoldable pub into_area_of_interest : M.Area → AreaOfInterest M
  into_area_of_interest area = record { area = area; max_count = 0; max_size = 0 }

  unfoldable pub same_aoi : AreaOfInterest M → AreaOfInterest M → Bool
  same_aoi a b =
      M.same_area a.area b.area && (a.max_count == b.max_count && a.max_size == b.max_size)

  -- `HashSet::insert` and `extend`.
  unfoldable pub insert_aoi : AreaOfInterest M → List (AreaOfInterest M) → List (AreaOfInterest M)
  insert_aoi a aois = if any (same_aoi a) aois then aois else aois ++ a ∷ []

  unfoldable pub insert_aois :
      List (AreaOfInterest M) → List (AreaOfInterest M) → List (AreaOfInterest M)
  insert_aois [] aois = aois
  insert_aois (a ∷ more) aois = insert_aois more (insert_aoi a aois)

  unfoldable pub extend_selector :
      List (AreaOfInterest M) → AreaOfInterestSelector M → AreaOfInterestSelector M
  extend_selector aois widest_area = widest_area
  extend_selector aois (exact_areas existing) = exact_areas (insert_aois aois existing)

  module _ (same_selector : CapSelector M → CapSelector M → Bool) where
    -- `InterestBuilder::add`: an entry of the selector is replaced.
    unfoldable pub add :
        CapSelector M
        → AreaOfInterestSelector M
        → List (CapSelector M × AreaOfInterestSelector M)
        → List (CapSelector M × AreaOfInterestSelector M)
    add cap areas [] = (cap, areas) ∷ []
    add cap areas ((c, old) ∷ rest) =
        if same_selector c cap then (c, areas) ∷ rest else (c, old) ∷ add cap areas rest

    unfoldable pub add_full_cap :
        CapSelector M
        → List (CapSelector M × AreaOfInterestSelector M)
        → List (CapSelector M × AreaOfInterestSelector M)
    add_full_cap cap b = add cap widest_area b

    unfoldable pub add_area :
        CapSelector M
        → List (AreaOfInterest M)
        → List (CapSelector M × AreaOfInterestSelector M)
        → List (CapSelector M × AreaOfInterestSelector M)
    add_area cap aois [] = (cap, exact_areas (insert_aois aois [])) ∷ []
    add_area cap aois ((c, old) ∷ rest) =
        if same_selector c cap
        then (c, extend_selector aois old) ∷ rest
        else (c, old) ∷ add_area cap aois rest

  module _ (same_authorisation : ReadAuthorisation M → ReadAuthorisation M → Bool) where
    -- `entry(auth).or_default()`, to which areas are added.
    unfoldable pub add_entry :
        ReadAuthorisation M
        → List (AreaOfInterest M)
        → List (ReadAuthorisation M × List (AreaOfInterest M))
        → List (ReadAuthorisation M × List (AreaOfInterest M))
    add_entry auth aois [] = (auth, insert_aois aois []) ∷ []
    add_entry auth aois ((b, old) ∷ rest) =
        if same_authorisation b auth
        then (b, insert_aois aois old) ∷ rest
        else (b, old) ∷ add_entry auth aois rest

    unfoldable pub full_area : ReadAuthorisation M → AreaOfInterest M
    full_area auth = into_area_of_interest (M.granted_area auth.read_cap)

    unfoldable pub resolve_all :
        List (ReadAuthorisation M)
        → List (ReadAuthorisation M × List (AreaOfInterest M))
        → List (ReadAuthorisation M × List (AreaOfInterest M))
    resolve_all [] out = out
    resolve_all (auth ∷ rest) out = resolve_all rest (add_entry auth (full_area auth ∷ []) out)

    unfoldable pub selected_areas :
        ReadAuthorisation M → AreaOfInterestSelector M → List (AreaOfInterest M)
    selected_areas auth widest_area = full_area auth ∷ []
    selected_areas auth (exact_areas aois) = aois

    unfoldable pub resolve_selected :
        CapsStore M
        → List (CapSelector M × AreaOfInterestSelector M)
        → List (ReadAuthorisation M × List (AreaOfInterest M))
        → List (ReadAuthorisation M × List (AreaOfInterest M))
    resolve_selected caps [] out = out
    resolve_selected caps ((selector, areas) ∷ rest) out = elim (get_read_cap selector caps) [
      | none ↦ resolve_selected caps rest out
      | some auth ↦ resolve_selected caps rest (add_entry auth (selected_areas auth areas) out)
    ]

    unfoldable pub resolve_interests :
        Interests M → CapsStore M → List (ReadAuthorisation M × List (AreaOfInterest M))
    resolve_interests all_interests caps = resolve_all (list_read_caps none caps) []
    resolve_interests (select interests) caps = resolve_selected caps interests []
