-- ===== src/Session/PaiFinder/Gives.antt =====
-- What each input of src/session/pai_finder.rs gives, said of what is bound and requested alone.
use iroh_willow.Prelude.{
  ℕ, ◌≡◌, refl, Bool, true, false, ◌&&◌, not, Option, none, some, List, [], ◌∷◌, arith, ◌==◌,
  if◌then◌else◌, keep, any, sym, subst, inl, inr, Bool-cases,
}
use iroh_willow.Prelude.Map.{Map, lookup}
use iroh_willow.Session.Error.{
  Error, Result, subspace_cap_request_for_invalid_handle, subspace_cap_request_for_wrong_namespace,
  panicked, err, ok,
}
use iroh_willow.Session.Resource.{ResourceMap, try_get, bind}
use iroh_willow.Session.Pai.{Psi}
use iroh_willow.Session.PaiFinder.{
  PaiFinder, GroupState, LocalFragmentInfo, Input, Outcome, with_found, convert, established,
  submit_authorisation_input, received_bind, received_reply, received_subspace_cap_request_input,
  received_verified_subspace_cap_reply_input, received_read_cap_for_intersection_input,
  new_complete, theirs, our_handle, ours, new_intersection,
}
use iroh_willow.Session.PaiFinder.Inputs.{
  check_for_intersection, receive_bind, receive_reply, received_read_cap_for_intersection,
  received_subspace_cap_request, complete_ours, check_others, verified_for,
  received_verified_subspace_cap_reply,
}
use iroh_willow.Session.PaiFinder.Agree.{
  update-some, with_reply, with_bound, check_ours, check_theirs, try_get-some,
}
use iroh_willow.Session.Storage.{Bytes}
use iroh_willow.Session.PaiFinder.Reactions.{fragment_info-some}
use iroh_willow.Session.PaiFinder.Known.{
  IsKnown, own_keys, HasKey-put, HasKey-put_self, HasKey-put_same,
}
use iroh_willow.Session.PaiFinder.Succeeds.{
  check_others-IsFine, reply_read_caps-IsFine, sign_subspace_caps-IsFine, KeysOf-ours, out-IsKnown,
}

abbrev pub is_some : {A : Type 0} → Option A → Bool
is_some none = false
is_some (some _) = true

and_true : (b : Bool) → (b && true) ≡ b
and_true b = ground arith

any-keep :
    (h j : ℕ) (hs : List ℕ)
    → any (λ k. k == j) (keep (λ k. not (k == h)) hs) ≡ true
    → any (λ k. k == j) hs ≡ true
any-keep h j [] e = e
any-keep h j (k ∷ hs) e = ground (arith, any-keep h j hs)

module _ {P : Psi} where
  -- The namespace of one of our fragments.
  abbrev pub namespace_is : ℕ → ℕ → Map (LocalFragmentInfo P) → Bool
  namespace_is handle namespace infos = elim (lookup handle infos) [
    | none ↦ false
    | some info ↦ info.namespace_id == namespace
  ]

  -- What an input gives, said of the input and of what is bound and requested alone.
  abbrev pub expected : Input P → PaiFinder P → Result (Unit {0})
  expected established f = ok tt
  expected (submit_authorisation_input a) f = ok tt
  expected (received_bind member _) f =
      if is_some (P.from_bytes member) then ok tt else err Error.store
  expected (received_reply handle member) f =
      if is_some (P.from_bytes member) && is_some (lookup handle f.our_intersection_handles.map)
      then ok tt
      else err Error.store
  expected (received_subspace_cap_request_input handle) f =
      if is_some (lookup handle f.their_intersection_handles.map)
      then ok tt
      else err Error.missing_resource
  expected (received_verified_subspace_cap_reply_input handle namespace) f =
      if any (λ k. k == handle) f.requested_subspace_cap_handles
      then (if namespace_is handle namespace f.fragments_info
          then ok tt
          else err (Error.pai subspace_cap_request_for_wrong_namespace))
      else err (Error.pai subspace_cap_request_for_invalid_handle)
  expected (received_read_cap_for_intersection_input handle) f =
      if is_some (lookup handle f.their_intersection_handles.map) then ok tt else err Error.store

  -- The result is this one, and every fragment stays known.
  abbrev pub Gives : Outcome P → Result (Unit {0}) → Type 0
  Gives r result = (r.0 ≡ result) × IsKnown r.1

  convert-Gives :
      (e m : Error) (b : Bool) (r : Outcome P)
      → Gives r (if b then ok tt else err m)
      → Gives (convert e r) (if b then ok tt else err e)
  convert-Gives e m true (ok _, f) g = g
  convert-Gives e m true (err x, f) g = cc (g.0)
  convert-Gives e m true (panicked, f) g = cc (g.0)
  convert-Gives e m false (ok _, f) g = cc (g.0)
  convert-Gives e m false (err x, f) g = (refl, g.1)
  convert-Gives e m false (panicked, f) g = cc (g.0)

  found-Gives :
      {A : Type 0} (h : ℕ) (m : ResourceMap A) (f : PaiFinder P) (next : A → Outcome P)
      → ((a : A) → lookup h m.map ≡ some a → Gives (next a) (ok tt))
      → IsKnown f
      → Gives
          (with_found (try_get h m) f next)
          (if is_some (lookup h m.map) then ok tt else err Error.missing_resource)
  unfolding try_get
  found-Gives h m f next found known = go (lookup h m.map) found
    where
      go :
          {A : Type 0} (o : Option A) {next : A → Outcome P}
          → ((a : A) → o ≡ some a → Gives (next a) (ok tt))
          → Gives
              (with_found (elim o [ none ↦ err Error.missing_resource | some a ↦ ok a ]) f next)
              (if is_some o then ok tt else err Error.missing_resource)
      go none found = (refl, known)
      go (some a) found = found a refl

  complete_ours-Gives :
      (h : ℕ) (g : P.PsiGroup) (s : GroupState P) (f : PaiFinder P)
      → lookup h f.our_intersection_handles.map ≡ some s
      → IsKnown f
      → Gives (complete_ours h g s f) (ok tt)
  unfolding complete_ours
  complete_ours-Gives h g s f found known =
      let s' = new_complete g s.is_secondary in
      let f' = with_reply h s' f in
      let f'-IsKnown : IsKnown f' = record {
        infos = λ j has.
            known.infos j (HasKey-put_same j h s s' f.our_intersection_handles.map found has);
        requested = λ j e. HasKey-put j h s' f.our_intersection_handles.map (known.requested j e);
      } in
      subst
        (λ r.
          Gives
            (with_found r f (λ handles.
              check_for_intersection h ours (record f { our_intersection_handles = handles })))
            (ok tt))
        (sym (update-some h f.our_intersection_handles s s' found))
        (subst (λ r. Gives r (ok tt)) (sym (check_ours f h g s.is_secondary))
          (check_others-IsFine ours h s' f.their_intersection_handles.map f'
            (KeysOf-ours h f.their_intersection_handles.map f'.our_intersection_handles
              (HasKey-put_self h s' f.our_intersection_handles.map))
            f'-IsKnown))

  point-Gives :
      {A : Type 0} (o : Option A) (b : Bool) (f : PaiFinder P) {next : A → Outcome P}
      → IsKnown f
      → ((a : A) → Gives (next a) (if b then ok tt else err Error.store))
      → Gives
          (elim o [ none ↦ (err Error.store, f) | some a ↦ next a ])
          (if is_some o && b then ok tt else err Error.store)
  point-Gives none b f known fine = (refl, known)
  point-Gives (some a) b f known fine = fine a

  pub bind-Gives :
      (member : Bytes) (b : Bool) (f : PaiFinder P)
      → IsKnown f
      → Gives
          (receive_bind member b f)
          (if is_some (P.from_bytes member) then ok tt else err Error.store)
  unfolding receive_bind bind our_handle
  bind-Gives member b f known =
      subst (λ c. Gives (receive_bind member b f) (if c then ok tt else err Error.store))
        (and_true (is_some (P.from_bytes member)))
        (point-Gives (P.from_bytes member) true f known (λ g.
          let g' = P.scalar_mult g f.scalar in
          let s' = new_complete g' b in
          let h = f.their_intersection_handles.next_handle in
          subst (λ r. Gives (convert Error.store r) (ok tt)) (sym (check_theirs f g' b))
            (convert-Gives Error.store Error.missing_resource true
              (check_others theirs h s' f.our_intersection_handles.map (with_bound g' s' f))
              (check_others-IsFine theirs h s' f.our_intersection_handles.map (with_bound g' s' f)
                (own_keys f.our_intersection_handles.map)
                (record { infos = known.infos; requested = known.requested })))))

  pub reply-Gives :
      (h : ℕ) (member : Bytes) (f : PaiFinder P)
      → IsKnown f
      → Gives (receive_reply h member f) (
          if is_some (P.from_bytes member) && is_some (lookup h f.our_intersection_handles.map)
          then ok tt
          else err Error.store)
  unfolding receive_reply
  reply-Gives h member f known =
      point-Gives (P.from_bytes member) (is_some (lookup h f.our_intersection_handles.map)) f known
        (λ g. convert-Gives Error.store Error.missing_resource _ _ (
          found-Gives h f.our_intersection_handles f _
            (λ s found. complete_ours-Gives h g s f found known) known))

  pub request-Gives :
      (h : ℕ) (f : PaiFinder P)
      → IsKnown f
      → Gives (received_subspace_cap_request h f) (
          if is_some (lookup h f.their_intersection_handles.map)
          then ok tt
          else err Error.missing_resource)
  unfolding received_subspace_cap_request
  request-Gives h f known =
      found-Gives h f.their_intersection_handles f _
        (λ i _.
          sign_subspace_caps-IsFine h i f.our_intersection_handles.map f
            (own_keys f.our_intersection_handles.map) known)
        known

  pub read_cap-Gives :
      (h : ℕ) (f : PaiFinder P)
      → IsKnown f
      → Gives
          (received_read_cap_for_intersection h f)
          (if is_some (lookup h f.their_intersection_handles.map) then ok tt else err Error.store)
  unfolding received_read_cap_for_intersection
  read_cap-Gives h f known = convert-Gives Error.store Error.missing_resource _ _ (
      found-Gives h f.their_intersection_handles f _
        (λ i _.
          reply_read_caps-IsFine i f.our_intersection_handles.map f
            (own_keys f.our_intersection_handles.map) known)
        known)

  if_Gives :
      (b : Bool) (e : Error) {f f' : PaiFinder P}
      → IsKnown f
      → IsKnown f'
      → Gives (if b then (ok tt, f') else (err e, f)) (if b then ok tt else err e)
  if_Gives true e known known' = (refl, known')
  if_Gives false e known known' = (refl, known)

  verified_for-Gives :
      (h n : ℕ) (f : PaiFinder P) (info : LocalFragmentInfo P)
      → lookup h f.fragments_info ≡ some info
      → IsKnown f
      → Gives (verified_for h n f info) (
          if namespace_is h n f.fragments_info
          then ok tt
          else err (Error.pai subspace_cap_request_for_wrong_namespace))
  unfolding verified_for
  verified_for-Gives h n f info found known =
      let same : namespace_is h n f.fragments_info ≡ (info.namespace_id == n) =
        rw (found, namespace_is) in
      let wrong = Error.pai subspace_cap_request_for_wrong_namespace in
      subst (λ b. Gives (verified_for h n f info) (if b then ok tt else err wrong)) (sym same)
        (if_Gives (info.namespace_id == n) wrong known
          (out-IsKnown (new_intersection info.authorisation h) known))

  pub verified-Gives :
      (h n : ℕ) (f : PaiFinder P)
      → IsKnown f
      → Gives
          (received_verified_subspace_cap_reply h n f)
          (expected (received_verified_subspace_cap_reply_input h n) f)
  unfolding received_verified_subspace_cap_reply
  verified-Gives h n f known =
      let hs = f.requested_subspace_cap_handles in
      let f1 = record f { requested_subspace_cap_handles = keep (λ k. not (k == h)) hs } in
      let f1-IsKnown : IsKnown f1 = record {
        infos = known.infos;
        requested = λ j e. known.requested j (any-keep h j hs e);
      } in
      elim (Bool-cases (any (λ k. k == h) hs)) [
        | inr e ↦ rw e (refl, known)
        | inl e ↦
            let (s, bound) = known.requested h e in
            let (info, found) = known.infos h (s, bound) in
            rw
              (
                e,
                try_get-some h f.our_intersection_handles s bound,
                fragment_info-some h f1 info found,
              )
              (verified_for-Gives h n f1 info found f1-IsKnown)
      ]
