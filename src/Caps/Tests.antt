-- ===== src/Caps/Tests.antt =====
-- The theorems on capabilities at concrete inputs: a capability is a namespace, a receiver, an
-- area, a number of delegations and its mode; areas are the numbers below a bound.
use iroh_willow.Prelude.{
  ℕ, ◌≡◌, refl, Bool, true, false, none, some, [], ◌∷◌, leb, ltb, ◌==◌, All, arith,
}
use iroh_willow.Prelude.Map.{lookup_or}
use iroh_willow.Caps.Meadowcap.{Meadowcap, AreaOrder, ReadAuthorisation, is_wider_than}
use iroh_willow.Caps.Interest.{
  CapSelector, any_user, widest, write, includes, is_area_covered_by, is_covered_by, validate,
  pack_receiver,
}
use iroh_willow.Caps.CapsStore.{
  CapsStore, SecretStore, widest_from, widest_of, get_write_cap, get_read_cap, insert_cap, get_user,
  is_some, has_user,
}
use iroh_willow.Caps.Auth.{import_caps, insert_caps_unchecked}
use iroh_willow.Caps.Selection.{prefer}
use iroh_willow.Caps.Resolve.{
  AreaOfInterest, all_interests, select, into_area_of_interest, same_aoi, insert_aoi, insert_aois,
  extend_selector, add_area, add_entry, full_area, resolve_all, selected_areas, resolve_selected,
  resolve_interests,
}
use iroh_willow.Caps.CapsStore.{list_caps, list_read_caps, all_values}
use iroh_willow.Caps.Best.{Covers, get_read_cap_best, get_write_cap-insert_cap}
use iroh_willow.Caps.Import.{Imported, import_caps_lem}

program : Unit {0}
unfolding is_wider_than includes is_area_covered_by is_covered_by validate pack_receiver widest_from
    widest_of get_write_cap get_read_cap insert_cap get_user is_some has_user import_caps
    insert_caps_unchecked list_caps list_read_caps all_values into_area_of_interest same_aoi
    insert_aoi insert_aois extend_selector add_area add_entry full_area resolve_all selected_areas
    resolve_selected resolve_interests
program = tt

record ToyCap : Type 0 where
  space : ℕ
  owner : ℕ
  area : ℕ
  steps : ℕ
  reads : Bool

abbrev toy : Meadowcap
toy = record {
  Cap = ToyCap;
  SubspaceCap = ℕ;
  Area = ℕ;
  Point = ℕ;
  UserSecret = ℕ;
  NamespaceSecret = ℕ;
  granted_namespace = λ c. c.space;
  receiver = λ c. c.owner;
  granted_area = λ c. c.area;
  delegations = λ c. c.steps;
  is_read = λ c. c.reads;
  includes_area = λ a b. leb b a;
  includes_point = λ a p. ltb p a;
  same_area = ◌==◌;
  is_any_subspace = λ a. true;
  is_empty_path = λ a. false;
  user_id = λ u. u;
  namespace_id = λ n. n;
  is_communal = λ n. false;
  new_communal = λ n u r. none;
  new_owned = λ n secret u r. none;
  new_subspace_cap = λ n secret u. none;
  delegate_cap = λ c secret u a. none;
  delegate_subspace_cap = λ c secret u. none;
}

toy-AreaOrder : AreaOrder toy
toy-AreaOrder = record {
  same_includes = λ a b e. ground arith;
  includes_trans = λ a b c e f. ground arith;
}

abbrev cap : ℕ → ℕ → Bool → ToyCap
cap area steps reads = record { space = 0; owner = 3; area = area; steps = steps; reads = reads }

abbrev auth : ℕ → ReadAuthorisation toy
auth area = record { read_cap = cap area 1 true; subspace_cap = none }

abbrev store : CapsStore toy
store = record {
  write_caps = (0, cap 5 1 false ∷ []) ∷ [];
  read_caps = (0, auth 4 ∷ auth 9 ∷ auth 2 ∷ []) ∷ [];
}

abbrev secrets : SecretStore toy
secrets = record { user = (3, 33) ∷ []; namespace = [] }

abbrev selector : CapSelector toy
selector = record { namespace_id = 0; receiver = any_user; granted_area = widest }

selected : get_read_cap selector store ≡ some (auth 9)
unfolding program
selected = refl

get_read_cap_best_example :
    (is_covered_by selector (cap 9 1 true) ≡ true)
    × All
        (λ (c : ReadAuthorisation toy).
          is_covered_by selector c.read_cap ≡ true
          → Covers toy c.read_cap (cap 9 1 true)
          → Covers toy (cap 9 1 true) c.read_cap)
        (lookup_or [] 0 store.read_caps)
get_read_cap_best_example = get_read_cap_best toy-AreaOrder selector store (auth 9) selected

-- Of two capabilities for the same area the last one is given, here the one with more delegations.
get_write_cap-insert_cap_example :
    get_write_cap selector (insert_cap (write (cap 5 7 false)) store)
    ≡ prefer (λ (a b : ToyCap). leb b.area a.area) (cap 5 7 false) (get_write_cap selector store)
unfolding program
get_write_cap-insert_cap_example =
    get_write_cap-insert_cap toy-AreaOrder selector store (cap 5 7 false) refl

import_caps_lem_example :
    Imported secrets
      (write (cap 5 7 false) ∷ write (cap 5 7 true) ∷ [])
      store
      (import_caps (write (cap 5 7 false) ∷ write (cap 5 7 true) ∷ []) secrets store)
import_caps_lem_example =
    import_caps_lem secrets (write (cap 5 7 false) ∷ write (cap 5 7 true) ∷ []) store

abbrev same_auth : ReadAuthorisation toy → ReadAuthorisation toy → Bool
same_auth a b = a.read_cap.area == b.read_cap.area

abbrev aoi : ℕ → AreaOfInterest toy
aoi area = record { area = area; max_count = 0; max_size = 0 }

-- All capabilities, each with its granted area.
resolve_everything :
    resolve_interests same_auth all_interests store
    ≡ (auth 4, aoi 4 ∷ []) ∷ (auth 9, aoi 9 ∷ []) ∷ (auth 2, aoi 2 ∷ []) ∷ []
unfolding program
resolve_everything = refl

-- Two calls of the builder for one selector: the widest capability with both areas.
resolve_built :
    resolve_interests same_auth
      (select (
        add_area
          (λ a b. true)
          selector
          (aoi 3 ∷ [])
          (add_area (λ a b. true) selector (aoi 7 ∷ aoi 3 ∷ []) [])))
      store
    ≡ (auth 9, aoi 7 ∷ aoi 3 ∷ []) ∷ []
unfolding program
resolve_built = refl
