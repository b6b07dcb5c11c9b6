-- ===== src/Session/AoiFinder/Tests.antt =====
-- Runs of the finder of areas of interest at concrete inputs.
use iroh_willow.Prelude.{ℕ, ◌≡◌, refl, ◌==◌, none, some, List, [], ◌∷◌, if◌then◌else◌, arith}
use iroh_willow.Prelude.Map.{lookup}
use iroh_willow.Session.Error.{Result, ok, err, panicked}
use iroh_willow.Session.Resource.{bind, bind_if_new, find_handle, find, empty_map}
use iroh_willow.Session.AoiFinder.{
  Interest, Scope, Output, IntersectionFinder, known_aois, put_aois, no_resources, found_at,
  intersecting, bind_validated, as_outputs, bind_received, bind_and_send_ours, bind_and_send_all,
  bind_if_bound, add_aois, add_authorisation, add_interests, on_pai_intersection, handle_input,
  ours, theirs, send_message, submit_authorisation, sign_and_send_capability,
}
use iroh_willow.Session.AoiFinder.Pairs.{Symmetric, meets, times_found, bind_all, pairs_found_once}

-- Areas are numbers, which intersect if they are equal.
abbrev numbers : Interest
numbers = record {
  Authorisation = ℕ × ℕ;
  Capability = ℕ;
  Aoi = ℕ;
  read_cap = λ auth. auth.0;
  namespace = λ auth. auth.1;
  same_authorisation = λ a b. a.0 == b.0;
  same_capability = ◌==◌;
  same_aoi = ◌==◌;
  intersection = λ a b. if a == b then some a else none;
}

program : Unit {0}
unfolding bind bind_if_new find_handle find empty_map no_resources found_at intersecting
    bind_validated as_outputs bind_received bind_and_send_ours bind_and_send_all known_aois put_aois
    bind_if_bound add_aois add_authorisation add_interests on_pai_intersection handle_input
    times_found bind_all
program = tt

numbers-Symmetric : Symmetric numbers
numbers-Symmetric a b = ground arith

abbrev binds : List (Scope × ℕ × ℕ)
binds = (ours, 7, 3) ∷ (theirs, 7, 4) ∷ (theirs, 7, 3) ∷ (ours, 7, 4) ∷ []

pairs_found_once_example :
    let (r, found) = bind_all {I = numbers} binds no_resources in
    times_found 0 1 found ≡ meets (lookup 0 r.our_handles.map) (lookup 1 r.their_handles.map)
pairs_found_once_example = pairs_found_once numbers numbers-Symmetric 0 1 binds (omega arith)

-- Both pairs are found, the second one by our later binding.
binds-found :
    (bind_all {I = numbers} binds no_resources).1
    ≡ record { our_handle = 0; their_handle = 1; intersection = 3; namespace = 7 }
      ∷ record { our_handle = 1; their_handle = 0; intersection = 4; namespace = 7 }
      ∷ []
unfolding program
binds-found = refl

abbrev empty_finder : IntersectionFinder numbers
empty_finder = record {
  caps = record { next_handle = 0; map = []; wakers = [] };
  handles = no_resources;
  interests = [];
  outputs = [];
}

abbrev outputs_of : Result (IntersectionFinder numbers) → List (Output numbers)
outputs_of (ok f) = f.outputs
outputs_of (err _) = []
outputs_of panicked = []

-- An authorisation is submitted; its intersection signs the capability and sends the area.
pai-outputs :
    outputs_of (on_pai_intersection (5, 7) 9 (add_interests (((5, 7), 3 ∷ []) ∷ []) empty_finder))
    ≡ submit_authorisation (5, 7) ∷ sign_and_send_capability 9 5 ∷ send_message 3 0 ∷ []
unfolding program
pai-outputs = refl
