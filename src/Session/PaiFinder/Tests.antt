-- ===== src/Session/PaiFinder/Tests.antt =====
-- The theorems on private area intersection at concrete inputs.
use iroh_willow.Prelude.{
  ℕ, ◌+◌, ◌≡◌, refl, ap, ◌↔◌, inr, Bool, true, false, ◌&&◌, Option, none, some, List, [], ◌∷◌, ◌++◌,
  map, arith, ◌==◌,
}
use iroh_willow.Session.Error.{Error, subspace_cap_request_for_invalid_handle, err, ok}
use iroh_willow.Session.Resource.{empty_map, bind, try_get, update}
use iroh_willow.Session.Pai.{
  AreaSubspace, Psi, is_secondary_kind, Fragment, encode, hash_into_group, get_fragment_kit,
  into_fragment_set, any_subspace, subspace_id, primary, secondary, pair, triple,
}
use iroh_willow.Session.PaiFinder.{
  on_intersection_of, LocalFragmentInfo, Output, PaiFinder, last_index, insert_handle, our_handle,
  new, new_pending, new_complete, to_bind_fragment_message, is_complete, completes_with, new_info,
  fragment_info, submit_fragment, submit_fragments, submit_set, submit_authorisation, submit_all,
  ours, theirs, bind_read_cap, request_subspace_cap, bind_fragment, reply_fragment,
  request_subspace_capability, send_message, new_intersection, established,
  submit_authorisation_input, received_bind, received_reply,
  received_read_cap_for_intersection_input,
}
use iroh_willow.Session.PaiFinder.Inputs.{
  on_intersection, check_others, check_complete, check_for_intersection, receive_bind,
  complete_ours, receive_reply, verified_for, received_verified_subspace_cap_reply, input, run,
}
use iroh_willow.Session.PaiFinder.Shared.{CanUndo, PsiLaws, Entered, states}
use iroh_willow.Session.PaiFinder.Reactions.{reaction_at, Checked}
use iroh_willow.Session.PaiFinder.Agree.{
  with_reply, with_bound, receive_reply_lem, receive_bind_lem,
}
use iroh_willow.Session.PaiFinder.Requests.{request_is_misdirected}
use iroh_willow.Session.PaiFinder.Gives.{expected}
use iroh_willow.Session.PaiFinder.Results.{input-after_run}

same_list : List ℕ → List ℕ → Bool
same_list [] [] = true
same_list (x ∷ xs) (y ∷ ys) = x == y && same_list xs ys
same_list _ _ = false

same_list_iff : (xs ys : List ℕ) → (same_list xs ys ≡ true) ↔ (xs ≡ ys)
unfolding same_list
same_list_iff [] [] = (λ _. refl, λ _. refl)
same_list_iff [] (y ∷ ys) = (λ e. cc e, λ e. cc e)
same_list_iff (x ∷ xs) [] = (λ e. cc e, λ e. cc e)
same_list_iff (x ∷ xs) (y ∷ ys) =
    (λ e. ground (arith, same_list_iff xs ys), λ e. ground (arith, same_list_iff xs ys))

prefixes : List ℕ → List (List ℕ)
prefixes [] = [] ∷ []
prefixes (x ∷ xs) = [] ∷ map (λ p. x ∷ p) (prefixes xs)

point : List ℕ → Option (List ℕ × ℕ)
point [] = none
point (n ∷ b) = some (b, n)

-- A point is the bytes that were hashed with the sum of the scalars. An authorisation is its path,
-- for any subspace if it is empty, and otherwise for the subspace of its first component.
abbrev toy_subspace : List ℕ → AreaSubspace
toy_subspace [] = any_subspace
toy_subspace (u ∷ _) = subspace_id u

abbrev toy : Psi
toy = record {
  WillowPath = List ℕ;
  all_prefixes = prefixes;
  encode_namespace = λ n. n ∷ [];
  encode_subspace = λ u. u ∷ [];
  encode_path = λ p. p;
  PsiGroup = List ℕ × ℕ;
  PsiScalar = ℕ;
  to_bytes = λ g. g.1 ∷ g.0;
  from_bytes = point;
  hash_from_bytes = λ b. (b, 0);
  scalar_mult = λ g s. (g.0, g.1 + s);
  is_group_equal = λ g h. same_list g.0 h.0 && g.1 == h.1;
  Authorisation = List ℕ;
  SubspaceCap = ℕ;
  same_authorisation = same_list;
  granted_namespace = λ a. 5;
  granted_subspace = toy_subspace;
  granted_path = λ a. a;
  subspace_cap = λ a. some 8;
}

toy-CanUndo : (s : ℕ) → CanUndo toy s
toy-CanUndo s g h e = ground arith

toy-PsiLaws : PsiLaws toy
unfolding point
toy-PsiLaws = record {
  from-to = λ g. refl;
  mult_comm = λ g s t. ap (λ (n : ℕ). (g.0, n)) (omega arith);
  equal_iff = λ g h.
      (λ e. ground (arith, same_list_iff g.0 h.0), λ e. ground (arith, same_list_iff g.0 h.0));
}

abbrev whole : Fragment toy
whole = pair (5, [])

-- A primary fragment of ours, bound and not replied to, and two of the peer's, one of them the same.
abbrev entered : List (Entered toy)
entered =
    record { handle = 0; fragment = triple (5, 9, []); kind = primary; replied = true }
    ∷ record { handle = 1; fragment = whole; kind = secondary; replied = true }
    ∷ []

abbrev whole_info : LocalFragmentInfo toy
whole_info = record {
  on_intersection = bind_read_cap;
  authorisation = [];
  namespace_id = 5;
  path = [];
  subspace = any_subspace;
}

abbrev asking : PaiFinder toy
asking = record {
  scalar = 3;
  fragments_info = (0, whole_info) ∷ [];
  our_intersection_handles = record {
    next_handle = 1;
    map =
        (0, new_pending (toy.scalar_mult (hash_into_group whole) 3) (is_secondary_kind primary))
        ∷ [];
    wakers = [];
  };
  their_intersection_handles = record { next_handle = 2; map = states 4 3 entered; wakers = [] };
  requested_subspace_cap_handles = [];
  submitted = [] ∷ [];
  waiting = none;
  outputs = [];
}

receive_reply_lem_example :
    let member = toy.scalar_mult (toy.scalar_mult (hash_into_group whole) 3) 4 in
    Checked whole primary
      (reaction_at ours 0 asking.fragments_info)
      entered
      (with_reply 0 (new_complete member (is_secondary_kind primary)) asking)
      (receive_reply 0 (toy.to_bytes member) asking)
receive_reply_lem_example =
    receive_reply_lem toy-PsiLaws 4 whole primary entered asking (toy-CanUndo 4) (toy-CanUndo 3) 0
      whole_info refl refl refl

-- A secondary fragment of ours, replied to, for which a subspace capability is needed.
abbrev part : Entered toy
part = record { handle = 0; fragment = whole; kind = secondary; replied = true }

abbrev part_info : LocalFragmentInfo toy
part_info = record {
  on_intersection = request_subspace_cap;
  authorisation = [];
  namespace_id = 5;
  path = [];
  subspace = any_subspace;
}

abbrev requesting : PaiFinder toy
requesting = record {
  scalar = 3;
  fragments_info = (0, part_info) ∷ [];
  our_intersection_handles = record { next_handle = 1; map = states 3 4 (part ∷ []); wakers = [] };
  their_intersection_handles = record { next_handle = 2; map = []; wakers = [] };
  requested_subspace_cap_handles = [];
  submitted = [] ∷ [];
  waiting = none;
  outputs = [];
}

receive_bind_lem_example :
    let member = toy.scalar_mult (hash_into_group whole) 4 in
    let answer = toy.scalar_mult member 3 in
    Checked whole primary
      (reaction_at theirs 2 requesting.fragments_info)
      (part ∷ [])
      (with_bound answer (new_complete answer (is_secondary_kind primary)) requesting)
      (receive_bind (toy.to_bytes member) (is_secondary_kind primary) requesting)
unfolding our_handle
receive_bind_lem_example =
    receive_bind_lem toy-PsiLaws 4 whole primary (part ∷ []) requesting (toy-CanUndo 4)
      (toy-CanUndo 3) refl ((part_info, refl), tt)

request_is_misdirected_example :
    let member = toy.scalar_mult (hash_into_group whole) 4 in
    let answer = toy.scalar_mult member 3 in
    let r = receive_bind (toy.to_bytes member) (is_secondary_kind primary) requesting in
    (r.0 ≡ ok tt)
    × ((more : List (Output toy)) × (r.1.outputs
          ≡ []
            ++ send_message (reply_fragment 2 (toy.to_bytes answer))
              ∷ send_message (request_subspace_capability 2)
              ∷ more))
    × ((n : ℕ)
        → (received_verified_subspace_cap_reply 2 n r.1).0
          ≡ err (Error.pai subspace_cap_request_for_invalid_handle))
unfolding our_handle
request_is_misdirected_example =
    request_is_misdirected toy-PsiLaws 4 whole primary part [] requesting (toy-CanUndo 4)
      (toy-CanUndo 3) refl ((part_info, refl), tt) (refl, refl, inr refl) part_info refl refl
      (refl, tt) refl

input-after_run_example :
    let f = (run (received_bind (7 ∷ []) false ∷ established ∷ []) (new {P = toy} 3)).1 in
    (input (received_read_cap_for_intersection_input 4) f).0
    ≡ expected (received_read_cap_for_intersection_input 4) f
input-after_run_example =
    input-after_run {P = toy} 3 (received_bind (7 ∷ []) false ∷ established ∷ [])
      (received_read_cap_for_intersection_input 4)

program : Unit {0}
unfolding new empty_map bind new_pending new_complete to_bind_fragment_message is_complete
    completes_with new_info on_intersection_of fragment_info submit_fragment submit_fragments
    submit_set submit_authorisation submit_all insert_handle on_intersection our_handle check_others
    check_complete check_for_intersection receive_bind complete_ours receive_reply
    received_verified_subspace_cap_reply verified_for input run try_get update hash_into_group
    encode get_fragment_kit into_fragment_set last_index is_secondary_kind prefixes point same_list
program = tt

-- A finder for everything meets a peer that bound the same fragment, with scalar 4.
whole_run :
    (run
      (submit_authorisation_input []
        ∷ established
        ∷ received_bind (4 ∷ 5 ∷ []) false
        ∷ received_reply 0 (7 ∷ 5 ∷ [])
        ∷ [])
      (new {P = toy} 3)).1.outputs
    ≡ send_message (bind_fragment (3 ∷ 5 ∷ []) false)
      ∷ send_message (reply_fragment 0 (7 ∷ 5 ∷ []))
      ∷ new_intersection [] 0
      ∷ []
unfolding program
whole_run = refl
