-- ===== src/Session/AoiFinder.antt =====
-- `IntersectionFinder` and `AoiResources` of src/session/aoi_finder.rs. Capabilities, authorisations
-- and areas of interest are those of the libraries, here a parameter; outputs are recorded in order.
pub mod Pairs
mod Tests
use iroh_willow.Prelude.{
  ℕ, Bool, true, false, Option, none, some, List, [], ◌∷◌, ◌++◌, any, ◌==◌, if◌then◌else◌,
}
use iroh_willow.Prelude.Map.{Map}
use iroh_willow.Session.Error.{Error, Result, ok, err}
use iroh_willow.Session.Resource.{ResourceMap, empty_map, bind, bind_if_new, find}

pub record Interest : Type 1 where
  pub Authorisation : Type 0
  pub Capability : Type 0
  pub Aoi : Type 0
  pub read_cap : Authorisation → Capability
  pub namespace : Authorisation → ℕ
  pub same_authorisation : Authorisation → Authorisation → Bool
  pub same_capability : Capability → Capability → Bool
  pub same_aoi : Aoi → Aoi → Bool
  pub intersection : Aoi → Aoi → Option Aoi

pub data Scope : Type 0 where
  ours theirs : Scope

pub record AoiInfo (I : Interest) : Type 0 where
  pub aoi : I.Aoi
  pub namespace : ℕ

pub record Found (I : Interest) : Type 0 where
  pub our_handle : ℕ
  pub their_handle : ℕ
  pub intersection : I.Aoi
  pub namespace : ℕ

pub data Output (I : Interest) : Type 0 where
  -- `SetupBindAreaOfInterest`: the area and the handle of the capability.
  send_message : I.Aoi → ℕ → Output I
  submit_authorisation : I.Authorisation → Output I
  aoi_intersection : Found I → Output I
  sign_and_send_capability : ℕ → I.Capability → Output I

pub record AoiResources (I : Interest) : Type 0 where
  pub our_handles : ResourceMap (AoiInfo I)
  pub their_handles : ResourceMap (AoiInfo I)

pub record IntersectionFinder (I : Interest) : Type 0 where
  -- What `Capabilities` has bound of ours.
  pub caps : ResourceMap I.Capability
  pub handles : AoiResources I
  pub interests : List (I.Authorisation × List I.Aoi)
  pub outputs : List (Output I)

pub data Input (I : Interest) : Type 0 where
  add_interests_input : List (I.Authorisation × List I.Aoi) → Input I
  pai_intersection : I.Authorisation → ℕ → Input I
  received_validated_aoi : ℕ → I.Aoi → Input I

module _ (I : Interest) where
  unfoldable pub known_aois :
      I.Authorisation → List (I.Authorisation × List I.Aoi) → Option (List I.Aoi)
  known_aois auth [] = none
  known_aois auth ((b, aois) ∷ rest) =
      if I.same_authorisation b auth then some aois else known_aois auth rest

  unfoldable pub put_aois :
      I.Authorisation
      → List I.Aoi
      → List (I.Authorisation × List I.Aoi)
      → List (I.Authorisation × List I.Aoi)
  put_aois auth aois [] = (auth, aois) ∷ []
  put_aois auth aois ((b, old) ∷ rest) =
      if I.same_authorisation b auth then (b, aois) ∷ rest else (b, old) ∷ put_aois auth aois rest

module _ {I : Interest} where
  unfoldable pub no_resources : AoiResources I
  no_resources = record { our_handles = empty_map; their_handles = empty_map }

  unfoldable pub found_at : Scope → ℕ → ℕ → I.Aoi → ℕ → Found I
  found_at ours bound other x namespace = record {
    our_handle = bound;
    their_handle = other;
    intersection = x;
    namespace = namespace;
  }
  found_at theirs bound other x namespace = record {
    our_handle = other;
    their_handle = bound;
    intersection = x;
    namespace = namespace;
  }

  -- The loop over the areas of the other side.
  unfoldable pub intersecting : Scope → ℕ → ℕ → I.Aoi → Map (AoiInfo I) → List (Found I)
  intersecting scope bound namespace aoi [] = []
  intersecting scope bound namespace aoi ((other, info) ∷ rest) =
      let later = intersecting scope bound namespace aoi rest in
      if info.namespace == namespace
      then elim (I.intersection info.aoi aoi) [
        | none ↦ later
        | some x ↦ found_at scope bound other x namespace ∷ later
      ]
      else later

  unfoldable pub bind_validated :
      Scope → ℕ → I.Aoi → AoiResources I → AoiResources I × List (Found I)
  bind_validated ours namespace aoi r =
      let b = bind (record { aoi = aoi; namespace = namespace }) r.our_handles in
      (
        record r { our_handles = b.after },
        intersecting ours b.handle namespace aoi r.their_handles.map,
      )
  bind_validated theirs namespace aoi r =
      let b = bind (record { aoi = aoi; namespace = namespace }) r.their_handles in
      (
        record r { their_handles = b.after },
        intersecting theirs b.handle namespace aoi r.our_handles.map,
      )

  unfoldable pub as_outputs : List (Found I) → List (Output I)
  as_outputs [] = []
  as_outputs (f ∷ fs) = aoi_intersection f ∷ as_outputs fs

  unfoldable pub bind_received : ℕ → I.Aoi → IntersectionFinder I → IntersectionFinder I
  bind_received namespace aoi f =
      let (handles, found) = bind_validated theirs namespace aoi f.handles in
      record f { handles = handles; outputs = f.outputs ++ as_outputs found }

  unfoldable pub bind_and_send_ours : ℕ → ℕ → I.Aoi → IntersectionFinder I → IntersectionFinder I
  bind_and_send_ours namespace capability aoi f =
      let (handles, found) = bind_validated ours namespace aoi f.handles in
      record f {
        handles = handles;
        outputs = f.outputs ++ (as_outputs found ++ send_message aoi capability ∷ []);
      }

  unfoldable pub bind_and_send_all :
      ℕ → ℕ → List I.Aoi → IntersectionFinder I → IntersectionFinder I
  bind_and_send_all namespace capability [] f = f
  bind_and_send_all namespace capability (a ∷ aois) f =
      bind_and_send_all namespace capability aois (bind_and_send_ours namespace capability a f)

  -- An area that is new is bound and sent if the capability is bound already.
  unfoldable pub bind_if_bound : ℕ → Option ℕ → I.Aoi → IntersectionFinder I → IntersectionFinder I
  bind_if_bound namespace none aoi f = f
  bind_if_bound namespace (some capability) aoi f = bind_and_send_ours namespace capability aoi f

  unfoldable pub add_aois :
      I.Authorisation
      → Option ℕ
      → List I.Aoi
      → List I.Aoi
      → IntersectionFinder I
      → IntersectionFinder I
  add_aois auth capability [] existing f = record f {
    interests = put_aois I auth existing f.interests;
  }
  add_aois auth capability (a ∷ aois) existing f =
      if any (I.same_aoi a) existing
      then add_aois auth capability aois existing f
      else add_aois auth capability aois (existing ++ a ∷ [])
          (bind_if_bound (I.namespace auth) capability a f)

  unfoldable pub add_authorisation :
      I.Authorisation
      → List I.Aoi
      → Option (List I.Aoi)
      → IntersectionFinder I
      → IntersectionFinder I
  add_authorisation auth aois (some existing) f =
      add_aois auth (find I.same_capability (I.read_cap auth) f.caps) aois existing f
  add_authorisation auth aois none f = record f {
    interests = f.interests ++ (auth, aois) ∷ [];
    outputs = f.outputs ++ submit_authorisation auth ∷ [];
  }

  unfoldable pub add_interests :
      List (I.Authorisation × List I.Aoi) → IntersectionFinder I → IntersectionFinder I
  add_interests [] f = f
  add_interests ((auth, aois) ∷ rest) f =
      add_interests rest (add_authorisation auth aois (known_aois I auth f.interests) f)

  unfoldable pub on_pai_intersection :
      I.Authorisation → ℕ → IntersectionFinder I → Result (IntersectionFinder I)
  on_pai_intersection auth handle f = elim (known_aois I auth f.interests) [
    | none ↦ err Error.no_known_interests_for_capability
    | some aois ↦
        let (b, is_new) = bind_if_new I.same_capability (I.read_cap auth) f.caps in
        let sent : List (Output I) =
          if is_new then sign_and_send_capability handle (I.read_cap auth) ∷ [] else [] in
        ok (
          bind_and_send_all (I.namespace auth) b.handle aois
            (record f { caps = b.after; outputs = f.outputs ++ sent }))
  ]

  unfoldable pub handle_input : Input I → IntersectionFinder I → Result (IntersectionFinder I)
  handle_input (add_interests_input interests) f = ok (add_interests interests f)
  handle_input (pai_intersection auth handle) f = on_pai_intersection auth handle f
  handle_input (received_validated_aoi namespace aoi) f = ok (bind_received namespace aoi f)
