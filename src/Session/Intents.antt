-- ===== src/Session/Intents.antt =====
-- `IntentInfo` of src/session/intents.rs: what a session knows of an intent, and which events it
-- sends to it. A channel is a number; whether its receiver was dropped is an argument. Sets of areas
-- of interest are lists.
pub mod Completes
pub mod Dispatcher
pub mod Handle
pub mod Reconciled
mod Tests
use iroh_willow.Prelude.{
  ℕ, Bool, true, false, ◌&&◌, not, Option, none, some, List, [], ◌∷◌, ◌++◌, any, keep,
  if◌then◌else◌,
}
use iroh_willow.Prelude.Map.{Map, lookup, put, remove, lookup_or}
use iroh_willow.Model.{DataModel}
use iroh_willow.Session.Error.{Error}

pub record AreaOfInterest (m : DataModel) : Type 0 where
  pub area : m.Area
  pub max_count : ℕ
  pub max_size : ℕ

abbrev pub NamespaceInterests : DataModel → Type 0
NamespaceInterests m = Map (List (AreaOfInterest m))

-- `InterestMap`: the areas of each capability, of which only the namespace matters here.
abbrev pub InterestMap : DataModel → Type 0
InterestMap m = List (ℕ × List (AreaOfInterest m))

pub data EventKind (m : DataModel) : Type 0 where
  capability_intersection : ℕ → m.Area → EventKind m
  interest_intersection : ℕ → AreaOfInterest m → EventKind m
  reconciled : ℕ → AreaOfInterest m → EventKind m
  reconciled_all : EventKind m
  abort : Error → EventKind m

pub data SessionMode : Type 0 where
  reconcile_once continuous : SessionMode

unfoldable pub is_live : SessionMode → Bool
is_live continuous = true
is_live reconcile_once = false

pub record IntentInfo (m : DataModel) : Type 0 where
  pub interests : NamespaceInterests m
  pub mode : SessionMode
  pub event_tx : Option ℕ

abbrev pub Sent : DataModel → Type 0
Sent m = List (ℕ × EventKind m)

-- What handling an event leads to: the receiver was dropped, or it was sent what it should get,
-- and the intent is complete or not.
pub data Handled (m : DataModel) : Type 0 where
  receiver_dropped : IntentInfo m → Sent m → Handled m
  handled : IntentInfo m → Sent m → Bool → Handled m

unfoldable pub no_areas : {A : Type 0} → List A → Bool
no_areas [] = true
no_areas (_ ∷ _) = false

unfoldable pub is_some : {A : Type 0} → Option A → Bool
is_some none = false
is_some (some _) = true

module _ {m : DataModel} where
  -- `extend` of the set of a namespace.
  unfoldable pub extend_interests :
      ℕ → List (AreaOfInterest m) → NamespaceInterests m → NamespaceInterests m
  extend_interests namespace aois interests =
      put namespace (lookup_or [] namespace interests ++ aois) interests

  unfoldable pub extend_all : InterestMap m → NamespaceInterests m → NamespaceInterests m
  extend_all [] interests = interests
  extend_all ((namespace, aois) ∷ rest) interests =
      extend_all rest (extend_interests namespace aois interests)

  unfoldable pub merge_interests : InterestMap m → IntentInfo m → IntentInfo m
  merge_interests added info = record info { interests = extend_all added info.interests }

  unfoldable pub flatten_interests : InterestMap m → NamespaceInterests m
  flatten_interests interests = extend_all interests []

  unfoldable pub is_complete : IntentInfo m → Bool
  is_complete info = no_areas info.interests && not (is_live info.mode)

  unfoldable pub overlaps : m.Area → AreaOfInterest m → Bool
  overlaps area x = is_some (m.intersection x.area area)

  unfoldable pub matches_area : ℕ → m.Area → IntentInfo m → Bool
  matches_area namespace area info = elim (lookup namespace info.interests) [
    | none ↦ false
    | some xs ↦ any (overlaps area) xs
  ]

  unfoldable pub remaining : m.Area → List (AreaOfInterest m) → List (AreaOfInterest m)
  remaining area xs = keep (λ x. not (m.includes_area area x.area)) xs

  -- The entry of a namespace that is not complete is kept, one that is complete is removed.
  unfoldable pub put_remaining :
      ℕ → List (AreaOfInterest m) → NamespaceInterests m → NamespaceInterests m
  put_remaining namespace rest interests =
      if no_areas rest then remove namespace interests else put namespace rest interests

  unfoldable pub complete_areas :
      ℕ → m.Area → Option (List (AreaOfInterest m)) → IntentInfo m → Bool × IntentInfo m
  complete_areas namespace area none info = (false, info)
  complete_areas namespace area (some xs) info =
      if any (overlaps area) xs
      then (
        true,
        record info { interests = put_remaining namespace (remaining area xs) info.interests },
      )
      else (false, info)

  unfoldable pub complete_area_if_matches : ℕ → m.Area → IntentInfo m → Bool × IntentInfo m
  complete_area_if_matches namespace area info =
      complete_areas namespace area (lookup namespace info.interests) info

  -- Whether an event is for an intent, and what is left of its interests.
  unfoldable pub match_event : EventKind m → IntentInfo m → Bool × IntentInfo m
  match_event (capability_intersection namespace _) info =
      (is_some (lookup namespace info.interests), info)
  match_event (interest_intersection namespace aoi) info =
      (matches_area namespace aoi.area info, info)
  match_event (reconciled namespace aoi) info = complete_area_if_matches namespace aoi.area info
  match_event (abort _) info = (true, info)
  match_event reconciled_all info = (false, info)

  unfoldable pub is_reconciled : EventKind m → Bool
  is_reconciled (reconciled _ _) = true
  is_reconciled _ = false

  module _ (dropped : ℕ → Bool) where
    unfoldable pub events_closed : IntentInfo m → Bool
    events_closed info = elim info.event_tx [ none ↦ false | some tx ↦ dropped tx ]

    -- `none` is an error: the receiver was dropped.
    unfoldable pub send_on : Option ℕ → EventKind m → Option (Sent m)
    send_on none event = some []
    send_on (some tx) event = if dropped tx then none else some ((tx, event) ∷ [])

    unfoldable pub send_all_done : Sent m → IntentInfo m → Option (Sent m) → Handled m
    send_all_done first info none = receiver_dropped info first
    send_all_done first info (some second) = handled info (first ++ second) (is_complete info)

    -- What follows once an event was sent, or could not be sent.
    unfoldable pub after_send : EventKind m → IntentInfo m → Option (Sent m) → Handled m
    after_send event info none = receiver_dropped info []
    after_send event info (some first) =
        if is_reconciled event && no_areas info.interests
        then send_all_done first info (send_on info.event_tx reconciled_all)
        else handled info first (is_complete info)

    unfoldable pub deliver : EventKind m → Bool × IntentInfo m → Handled m
    deliver event (true, info) = after_send event info (send_on info.event_tx event)
    deliver event (false, info) = handled info [] (is_complete info)

    unfoldable pub handle_event : EventKind m → IntentInfo m → Handled m
    handle_event event info = deliver event (match_event event info)

    -- `on_reconciled`: the same for an area that was complete before the intent came.
    unfoldable pub on_reconciled : ℕ → AreaOfInterest m → IntentInfo m → Handled m
    on_reconciled namespace aoi info =
        deliver (reconciled namespace aoi) (complete_area_if_matches namespace aoi.area info)
