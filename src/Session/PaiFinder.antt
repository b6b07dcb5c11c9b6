-- ===== src/Session/PaiFinder.antt =====
-- `PaiFinder` of src/session/pai_finder.rs. What the generator yields is recorded in order, and a
-- failing input leaves what it yielded before. A set of authorisations is the list of its members; a
-- received message that is itself an error ends the finder before it gets here.
pub mod Inputs
pub mod Shared
pub mod Reactions
pub mod Agree
pub mod Requests
pub mod Known
pub mod Succeeds
pub mod Gives
pub mod Results
mod Tests
use iroh_willow.Prelude.{
  ℕ, ◌-◌, ◌+◌, ◌%◌, ◌^◌, Bool, true, false, not, ◌&&◌, ◌||◌, Option, none, some, List, [], ◌∷◌,
  ◌++◌, any, keep, length, map, ◌==◌, if◌then◌else◌,
}
use iroh_willow.Prelude.Map.{Map, lookup, put}
use iroh_willow.Session.Error.{
  Error, PaiError, subspace_cap_request_for_invalid_handle,
  subspace_cap_request_for_wrong_namespace, Result, panicked, ok, err,
}
use iroh_willow.Session.Resource.{ResourceMap, empty_map, bind, try_get, update}
use iroh_willow.Session.Storage.{Bytes}
use iroh_willow.Session.Pai.{
  Psi, AreaSubspace, FragmentKind, primary, secondary, is_secondary_kind, Fragment, pair, triple,
  complete_set, selective_set, FragmentSet, into_parts, hash_into_group, get_fragment_kit,
  into_fragment_set,
}

pub data Scope : Type 0 where
  ours theirs : Scope

pub data PendingState : Type 0 where
  pending complete : PendingState

pub record GroupState (P : Psi) : Type 0 where
  pub group : P.PsiGroup
  pub state : PendingState
  pub is_secondary : Bool

pub data OnIntersection : Type 0 where
  do_nothing bind_read_cap request_subspace_cap reply_read_cap : OnIntersection

unfoldable pub on_intersection_of : FragmentKind → Bool → OnIntersection
on_intersection_of primary true = bind_read_cap
on_intersection_of primary false = reply_read_cap
on_intersection_of secondary true = request_subspace_cap
on_intersection_of secondary false = do_nothing

pub record LocalFragmentInfo (P : Psi) : Type 0 where
  pub on_intersection : OnIntersection
  pub authorisation : P.Authorisation
  pub namespace_id : ℕ
  pub path : P.WillowPath
  pub subspace : AreaSubspace

pub data Message : Type 0 where
  -- The group member, and whether the fragment is secondary.
  bind_fragment : Bytes → Bool → Message
  reply_fragment : ℕ → Bytes → Message
  request_subspace_capability : ℕ → Message

pub data Output (P : Psi) : Type 0 where
  send_message : Message → Output P
  new_intersection : P.Authorisation → ℕ → Output P
  sign_and_send_subspace_cap : ℕ → P.SubspaceCap → Output P

pub data Input (P : Psi) : Type 0 where
  established : Input P
  submit_authorisation_input : P.Authorisation → Input P
  received_bind : Bytes → Bool → Input P
  received_reply : ℕ → Bytes → Input P
  received_subspace_cap_request_input : ℕ → Input P
  received_verified_subspace_cap_reply_input : ℕ → ℕ → Input P
  received_read_cap_for_intersection_input : ℕ → Input P

pub record PaiFinder (P : Psi) : Type 0 where
  pub scalar : P.PsiScalar
  pub fragments_info : Map (LocalFragmentInfo P)
  pub our_intersection_handles : ResourceMap (GroupState P)
  pub their_intersection_handles : ResourceMap (GroupState P)
  pub requested_subspace_cap_handles : List ℕ
  pub submitted : List P.Authorisation
  -- The authorisations that wait for `established`.
  pub waiting : Option (List P.Authorisation)
  pub outputs : List (Output P)

unfoldable pub last_index : {A : Type 0} → List A → ℕ
last_index xs = (length xs + (2 ^ 64 - 1)) % 2 ^ 64

unfoldable pub insert_handle : ℕ → List ℕ → List ℕ
insert_handle h hs = if any (λ k. h == k) hs then hs else hs ++ h ∷ []

unfoldable pub our_handle : Scope → ℕ → ℕ → ℕ
our_handle ours handle other = handle
our_handle theirs handle other = other

-- `From<MissingResource>` for `PaiError`.
abbrev pub as_pai : {A : Type 0} → Result A → Result A
as_pai (ok a) = ok a
as_pai (err _) = err (Error.pai PaiError.missing_resource)
as_pai panicked = panicked

-- The finder after an operation, with its result.
abbrev pub Outcome : Psi → Type 0
Outcome P = Result (Unit {0}) × PaiFinder P

module _ {P : Psi} where
  -- What follows an operation, if that succeeded.
  abbrev pub and_then : Outcome P → (PaiFinder P → Outcome P) → Outcome P
  and_then (ok _, f) next = next f
  and_then (err e, f) next = (err e, f)
  and_then (panicked, f) next = (panicked, f)

  -- A value that may be missing.
  abbrev pub with_found : {A : Type 0} → Result A → PaiFinder P → (A → Outcome P) → Outcome P
  with_found (ok a) f next = next a
  with_found (err e) f next = (err e, f)
  with_found panicked f next = (panicked, f)

  abbrev pub out : Output P → PaiFinder P → PaiFinder P
  out o f = record f { outputs = f.outputs ++ o ∷ [] }

  -- The error of a callee, converted by `?`.
  abbrev pub convert : Error → Outcome P → Outcome P
  convert e (ok a, f) = (ok a, f)
  convert e (err _, f) = (err e, f)
  convert e (panicked, f) = (panicked, f)

  unfoldable pub new : P.PsiScalar → PaiFinder P
  new scalar = record {
    scalar = scalar;
    fragments_info = [];
    our_intersection_handles = empty_map;
    their_intersection_handles = empty_map;
    requested_subspace_cap_handles = [];
    submitted = [];
    waiting = some [];
    outputs = [];
  }

  unfoldable pub new_pending : P.PsiGroup → Bool → GroupState P
  new_pending group is_secondary = record {
    group = group;
    state = pending;
    is_secondary = is_secondary;
  }

  unfoldable pub new_complete : P.PsiGroup → Bool → GroupState P
  new_complete group is_secondary = record {
    group = group;
    state = complete;
    is_secondary = is_secondary;
  }

  unfoldable pub to_bind_fragment_message : GroupState P → Message
  to_bind_fragment_message g = bind_fragment (P.to_bytes g.group) g.is_secondary

  unfoldable pub is_complete : GroupState P → Bool
  is_complete g = elim g.state [ complete ↦ true | pending ↦ false ]

  unfoldable pub completes_with : GroupState P → GroupState P → Bool
  unfolding is_complete
  completes_with g other =
      if not (is_complete g) || not (is_complete other)
      then false
      else if g.is_secondary && other.is_secondary
      then false
      else P.is_group_equal g.group other.group

  unfoldable pub new_info : P.Authorisation → Fragment P → FragmentKind → Bool → LocalFragmentInfo P
  unfolding into_parts
  new_info authorisation fragment kind is_most_specific =
      let (namespace, subspace, path) = into_parts fragment in
      record {
        on_intersection = on_intersection_of kind is_most_specific;
        authorisation = authorisation;
        namespace_id = namespace;
        path = path;
        subspace = subspace;
      }

  unfoldable pub fragment_info : ℕ → PaiFinder P → Result (LocalFragmentInfo P)
  fragment_info handle f = elim (lookup handle f.fragments_info) [
    | none ↦ err Error.missing_resource
    | some info ↦ ok info
  ]

  unfoldable pub submit_fragment :
      P.Authorisation → Fragment P → FragmentKind → Bool → PaiFinder P → PaiFinder P
  submit_fragment authorisation fragment kind is_most_specific f =
      let multiplied = P.scalar_mult (hash_into_group fragment) f.scalar in
      let group_state = new_pending multiplied (is_secondary_kind kind) in
      let b = bind group_state f.our_intersection_handles in
      record f {
        our_intersection_handles = b.after;
        fragments_info =
            put b.handle (new_info authorisation fragment kind is_most_specific) f.fragments_info;
        outputs = f.outputs ++ send_message (to_bind_fragment_message group_state) ∷ [];
      }

  -- The loop over fragments with their indices; `last` is the length less one, which wraps.
  unfoldable pub submit_fragments :
      P.Authorisation → FragmentKind → ℕ → ℕ → List (Fragment P) → PaiFinder P → PaiFinder P
  submit_fragments authorisation kind i last [] f = f
  submit_fragments authorisation kind i last (fragment ∷ rest) f =
      submit_fragments authorisation kind (i + 1) last rest
        (submit_fragment authorisation fragment kind (i == last) f)

  unfoldable pub submit_set : P.Authorisation → FragmentSet P → PaiFinder P → PaiFinder P
  submit_set authorisation (complete_set pairs) f =
      submit_fragments authorisation primary 0 (last_index pairs) (map pair pairs) f
  submit_set authorisation (selective_set triples pairs) f =
      submit_fragments authorisation secondary 0 (last_index pairs) (map pair pairs)
        (submit_fragments authorisation primary 0 (last_index triples) (map triple triples) f)

  unfoldable pub submit_authorisation : P.Authorisation → PaiFinder P → PaiFinder P
  submit_authorisation authorisation f =
      if any (P.same_authorisation authorisation) f.submitted
      then f
      else submit_set authorisation (into_fragment_set (get_fragment_kit authorisation))
          (record f { submitted = f.submitted ++ authorisation ∷ [] })

  unfoldable pub submit_all : List P.Authorisation → PaiFinder P → PaiFinder P
  submit_all [] f = f
  submit_all (a ∷ rest) f = submit_all rest (submit_authorisation a f)
