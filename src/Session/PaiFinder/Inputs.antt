-- ===== src/Session/PaiFinder/Inputs.antt =====
-- How `PaiFinder` of src/session/pai_finder.rs handles its inputs: checking for intersections, and
-- what it receives.
use iroh_willow.Prelude.{
  ℕ, Bool, ◌&&◌, not, none, some, List, [], ◌∷◌, ◌++◌, ◌==◌, if◌then◌else◌, keep, any, ◌≡◌, refl,
  true, false,
}
use iroh_willow.Prelude.Map.{Map}
use iroh_willow.Session.Error.{
  Error, subspace_cap_request_for_invalid_handle, subspace_cap_request_for_wrong_namespace, err, ok,
  Result, panicked,
}
use iroh_willow.Session.Resource.{bind, try_get, update}
use iroh_willow.Session.Storage.{Bytes}
use iroh_willow.Session.Pai.{Psi}
use iroh_willow.Session.PaiFinder.{
  Scope, GroupState, LocalFragmentInfo, Input, PaiFinder, insert_handle, our_handle, as_pai,
  Outcome, and_then, with_found, out, convert, new_complete, is_complete, completes_with,
  fragment_info, submit_authorisation, submit_all, ours, theirs, do_nothing, bind_read_cap,
  request_subspace_cap, reply_read_cap, reply_fragment, request_subspace_capability, send_message,
  new_intersection, sign_and_send_subspace_cap, established, submit_authorisation_input,
  received_bind, received_reply, received_subspace_cap_request_input,
  received_verified_subspace_cap_reply_input, received_read_cap_for_intersection_input,
  OnIntersection,
}

unfoldable pub is_reply_read_cap : OnIntersection → Bool
is_reply_read_cap reply_read_cap = true
is_reply_read_cap bind_read_cap = false
is_reply_read_cap request_subspace_cap = false
is_reply_read_cap do_nothing = false

module _ {P : Psi} where
  -- What an intersection asks for; `handle` is the one that was checked.
  unfoldable pub on_intersection : ℕ → ℕ → LocalFragmentInfo P → PaiFinder P → PaiFinder P
  on_intersection handle our_handle info f = elim info.on_intersection [
    | bind_read_cap ↦ out (new_intersection info.authorisation our_handle) f
    | request_subspace_cap ↦ out (send_message (request_subspace_capability handle)) (record f {
      requested_subspace_cap_handles = insert_handle our_handle f.requested_subspace_cap_handles;
    })
    | reply_read_cap ↦ f
    | do_nothing ↦ f
  ]

  -- The loop over the handles of the other side.
  unfoldable pub check_others :
      Scope → ℕ → GroupState P → Map (GroupState P) → PaiFinder P → Outcome P
  check_others scope handle intersection [] f = (ok tt, f)
  check_others scope handle intersection ((other, state) ∷ rest) f =
      let later = λ (f1 : PaiFinder P). check_others scope handle intersection rest f1 in
      if completes_with state intersection
      then with_found (fragment_info (our_handle scope handle other) f) f
          (λ info. later (on_intersection handle (our_handle scope handle other) info f))
      else later f

  unfoldable pub check_complete :
      Scope → ℕ → GroupState P → Map (GroupState P) → PaiFinder P → Outcome P
  check_complete scope handle intersection others f =
      if is_complete intersection
      then check_others scope handle intersection others f
      else (ok tt, f)

  unfoldable pub check_for_intersection : ℕ → Scope → PaiFinder P → Outcome P
  check_for_intersection handle ours f =
      with_found (try_get handle f.our_intersection_handles) f
        (λ i. check_complete ours handle i f.their_intersection_handles.map f)
  check_for_intersection handle theirs f =
      with_found (try_get handle f.their_intersection_handles) f
        (λ i. check_complete theirs handle i f.our_intersection_handles.map f)

  -- The errors of the next two are of type `anyhow::Error`, which is the store's.
  unfoldable pub receive_bind : Bytes → Bool → PaiFinder P → Outcome P
  receive_bind group_member is_secondary f = elim (P.from_bytes group_member) [
    | none ↦ (err Error.store, f)
    | some unmixed ↦
        let multiplied = P.scalar_mult unmixed f.scalar in
        let b = bind (new_complete multiplied is_secondary) f.their_intersection_handles in
        convert Error.store (
          check_for_intersection b.handle theirs (
            out (send_message (reply_fragment b.handle (P.to_bytes multiplied)))
              (record f { their_intersection_handles = b.after })))
  ]

  unfoldable pub complete_ours : ℕ → P.PsiGroup → GroupState P → PaiFinder P → Outcome P
  complete_ours handle group our_state f =
      with_found
        (update handle (new_complete group our_state.is_secondary) f.our_intersection_handles) f
        (λ handles.
          check_for_intersection handle ours (record f { our_intersection_handles = handles }))

  unfoldable pub receive_reply : ℕ → Bytes → PaiFinder P → Outcome P
  receive_reply handle group_member f = elim (P.from_bytes group_member) [
    | none ↦ (err Error.store, f)
    | some group ↦ convert Error.store (
        with_found (try_get handle f.our_intersection_handles) f
          (λ our_state. complete_ours handle group our_state f))
  ]

  unfoldable pub reply_read_caps : GroupState P → Map (GroupState P) → PaiFinder P → Outcome P
  reply_read_caps their_intersection [] f = (ok tt, f)
  reply_read_caps their_intersection ((our, state) ∷ rest) f =
      let later = λ (f1 : PaiFinder P). reply_read_caps their_intersection rest f1 in
      if completes_with state their_intersection
      then with_found (fragment_info our f) f (λ info.
        if is_reply_read_cap info.on_intersection
        then later (out (new_intersection info.authorisation our) f)
        else later f)
      else later f

  unfoldable pub received_read_cap_for_intersection : ℕ → PaiFinder P → Outcome P
  received_read_cap_for_intersection their_handle f = convert Error.store (
      with_found (try_get their_handle f.their_intersection_handles) f
        (λ i. reply_read_caps i f.our_intersection_handles.map f))

  unfoldable pub verified_for : ℕ → ℕ → PaiFinder P → LocalFragmentInfo P → Outcome P
  verified_for handle namespace_id f info =
      if info.namespace_id == namespace_id
      then (ok tt, out (new_intersection info.authorisation handle) f)
      else (err (Error.pai subspace_cap_request_for_wrong_namespace), f)

  unfoldable pub received_verified_subspace_cap_reply : ℕ → ℕ → PaiFinder P → Outcome P
  received_verified_subspace_cap_reply handle namespace_id f =
      let f1 = record f {
        requested_subspace_cap_handles =
            keep (λ k. not (k == handle)) f.requested_subspace_cap_handles;
      } in
      if any (λ k. k == handle) f.requested_subspace_cap_handles
      then with_found (as_pai (try_get handle f.our_intersection_handles)) f1 (λ _.
        with_found (as_pai (fragment_info handle f1)) f1 (verified_for handle namespace_id f1))
      else (err (Error.pai subspace_cap_request_for_invalid_handle), f)

  unfoldable pub sign_subspace_caps :
      ℕ → GroupState P → Map (GroupState P) → PaiFinder P → Outcome P
  sign_subspace_caps handle result [] f = (ok tt, f)
  sign_subspace_caps handle result ((our, state) ∷ rest) f =
      let later = λ (f1 : PaiFinder P). sign_subspace_caps handle result rest f1 in
      if is_complete state && P.is_group_equal result.group state.group
      then with_found (fragment_info our f) f (λ info. elim (P.subspace_cap info.authorisation) [
        | none ↦ later f
        | some cap ↦ later (out (sign_and_send_subspace_cap handle cap) f)
      ])
      else later f

  unfoldable pub received_subspace_cap_request : ℕ → PaiFinder P → Outcome P
  received_subspace_cap_request handle f =
      with_found (try_get handle f.their_intersection_handles) f
        (λ result. sign_subspace_caps handle result f.our_intersection_handles.map f)

  unfoldable pub input : Input P → PaiFinder P → Outcome P
  input (submit_authorisation_input authorisation) f = elim f.waiting [
    | some waiting ↦ (
      ok tt,
      record f {
        waiting = some (
            if any (P.same_authorisation authorisation) waiting
            then waiting
            else waiting ++ authorisation ∷ []);
      },
    )
    | none ↦ (ok tt, submit_authorisation authorisation f)
  ]
  input established f = elim f.waiting [
    | some waiting ↦ (ok tt, submit_all waiting (record f { waiting = none }))
    | none ↦ (ok tt, f)
  ]
  input (received_bind group_member is_secondary) f = receive_bind group_member is_secondary f
  input (received_reply handle group_member) f = receive_reply handle group_member f
  input (received_subspace_cap_request_input handle) f = received_subspace_cap_request handle f
  input (received_verified_subspace_cap_reply_input handle namespace) f =
      received_verified_subspace_cap_reply handle namespace f
  input (received_read_cap_for_intersection_input handle) f =
      received_read_cap_for_intersection handle f

  -- The inputs in order, until one fails.
  unfoldable pub run : List (Input P) → PaiFinder P → Outcome P
  run [] f = (ok tt, f)
  run (i ∷ rest) f = and_then (input i f) (run rest)

  -- A property of what follows a lookup: of the continuation, and of the unchanged finder.
  pub with_found_cases {κ} :
      {A : Type 0} (Q : Outcome P → Type κ) (r : Result A) (f : PaiFinder P) (next : A → Outcome P)
      → ((a : A) → r ≡ ok a → Q (next a))
      → ((failed : Result (Unit {0})) → Q (failed, f))
      → Q (with_found r f next)
  with_found_cases Q (ok a) f next found missing = found a refl
  with_found_cases Q (err e) f next found missing = missing (err e)
  with_found_cases Q panicked f next found missing = missing panicked

  pub convert_state : (e : Error) (r : Outcome P) → (convert e r).1 ≡ r.1
  convert_state e (ok _, f) = refl
  convert_state e (err _, f) = refl
  convert_state e (panicked, f) = refl
