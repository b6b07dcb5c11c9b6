-- ===== src/Session/PaiFinder/Requests.antt =====
-- Requests for subspace capabilities that src/session/pai_finder.rs sends when a fragment of the peer
-- comes in: they name the peer's handle, and not the one that is noted as requested.
use iroh_willow.Prelude.{
  ℕ, ◌≡◌, false, List, [], ◌∷◌, ◌++◌, arith, ◌==◌, if_cases, any, All, some, sym, ap, subst, ◌∙◌,
  append_assoc,
}
use iroh_willow.Prelude.Map.{Map, lookup}
use iroh_willow.Session.Error.{err, Error, subspace_cap_request_for_invalid_handle, ok}
use iroh_willow.Session.Resource.{bind}
use iroh_willow.Session.Pai.{Psi, FragmentKind, Fragment, is_secondary_kind, hash_into_group}
use iroh_willow.Session.PaiFinder.{
  GroupState, LocalFragmentInfo, PaiFinder, insert_handle, our_handle, Outcome, completes_with,
  fragment_info, theirs, Output, request_subspace_cap, request_subspace_capability, send_message,
  new_complete, reply_fragment,
}
use iroh_willow.Session.PaiFinder.Shared.{Entered, IsShared, states, PsiLaws, CanUndo}
use iroh_willow.Session.PaiFinder.Reactions.{
  is_shared, not_shared, reaction, reaction_at-some, Reacts, reaction_at, HasInfos,
}
use iroh_willow.Session.PaiFinder.Agree.{receive_bind_lem, with_bound, bind_checks}
use iroh_willow.Session.PaiFinder.Inputs.{
  on_intersection, check_others, received_verified_subspace_cap_reply, with_found_cases,
  receive_bind, convert_state,
}

abbrev pub NotIn : ℕ → List ℕ → Type 0
NotIn h hs = any (λ k. k == h) hs ≡ false

NotIn-append : (h : ℕ) (xs ys : List ℕ) → NotIn h xs → NotIn h ys → NotIn h (xs ++ ys)
NotIn-append h [] ys p q = q
NotIn-append h (x ∷ xs) ys p q = ground (arith, NotIn-append h xs ys)

insert_handle-NotIn :
    (h k : ℕ) (hs : List ℕ) → NotIn h hs → (k == h) ≡ false → NotIn h (insert_handle k hs)
unfolding insert_handle
insert_handle-NotIn h k hs p q =
    if_cases (NotIn h) (any (λ j. k == j) hs) (λ _. p)
      (λ _. NotIn-append h hs (k ∷ []) p (ground arith))

module _ {P : Psi} where
  -- No fragment of ours is bound to this handle.
  abbrev pub Avoids : ℕ → Map (GroupState P) → Type 0
  Avoids h m = All (λ (kv : ℕ × GroupState P). (kv.0 == h) ≡ false) m

  on_intersection-NotIn :
      (h handle our : ℕ) (info : LocalFragmentInfo P) (f : PaiFinder P)
      → NotIn h f.requested_subspace_cap_handles
      → (our == h) ≡ false
      → NotIn h (on_intersection handle our info f).requested_subspace_cap_handles
  unfolding on_intersection
  on_intersection-NotIn h handle our info f p q =
      ground (arith, insert_handle-NotIn h our f.requested_subspace_cap_handles p q)

  check_others-NotIn :
      (h handle : ℕ) (i : GroupState P) (others : Map (GroupState P)) (f : PaiFinder P)
      → Avoids h others
      → NotIn h f.requested_subspace_cap_handles
      → NotIn h (check_others theirs handle i others f).1.requested_subspace_cap_handles
  unfolding check_others our_handle
  check_others-NotIn h handle i [] f avoids p = p
  check_others-NotIn h handle i ((other, state) ∷ rest) f (differs, avoids) p =
      if_cases (λ (r : Outcome P). NotIn h r.1.requested_subspace_cap_handles)
        (completes_with state i)
        (λ _.
          with_found_cases (λ (r : Outcome P). NotIn h r.1.requested_subspace_cap_handles)
            (fragment_info other f) f _
            (λ info _.
              check_others-NotIn h handle i rest (on_intersection handle other info f) avoids
                (on_intersection-NotIn h handle other info f p differs))
            (λ _. p))
        (λ _. check_others-NotIn h handle i rest f avoids p)

  -- The reply to a request that was not noted.
  reply_refused :
      (h n : ℕ) (f : PaiFinder P)
      → NotIn h f.requested_subspace_cap_handles
      → (received_verified_subspace_cap_reply h n f).0
        ≡ err (Error.pai subspace_cap_request_for_invalid_handle)
  unfolding received_verified_subspace_cap_reply
  reply_refused h n f p = simp p

  states-Avoids :
      (h : ℕ) (a b : P.PsiScalar) (es : List (Entered P))
      → All (λ (e : Entered P). (e.handle == h) ≡ false) es
      → Avoids h (states a b es)
  states-Avoids h a b [] avoids = tt
  states-Avoids h a b (e ∷ es) (differs, avoids) = (differs, states-Avoids h a b es avoids)

  asks :
      {x : Fragment P} {k : FragmentKind} {e : Entered P} {es : List (Entered P)}
      {os : List (Output P)} (h : ℕ) (infos : Map (LocalFragmentInfo P))
      (info : LocalFragmentInfo P)
      → IsShared x k e
      → lookup e.handle infos ≡ some info
      → info.on_intersection ≡ request_subspace_cap
      → Reacts x k (reaction_at theirs h infos) (e ∷ es) os
      → (more : List (Output P)) × (os ≡ send_message (request_subspace_capability h) ∷ more)
  unfolding our_handle
  asks {e = e} h infos info shared known requests (is_shared {os = os} _ rest) =
      let request : reaction h e.handle info ≡ send_message (request_subspace_capability h) ∷ [] =
        rw (requests, reaction) in
      (os, ap (λ r. r ++ os) (reaction_at-some theirs h infos e.handle info known ∙ request))
  asks h infos info shared known requests (not_shared differs rest) = absurd (differs shared)

module _ {P : Psi} (laws : PsiLaws P) (t : P.PsiScalar) (x : Fragment P) (k : FragmentKind)
    (e : Entered P) (es : List (Entered P)) (f : PaiFinder P) (undo_t : CanUndo P t)
    (undo_ours : CanUndo P f.scalar) where
  -- When a fragment `x` of a peer with the scalar `t` comes, `h` being the handle that it gets, our first
  -- fragment `e` is shared with it and asks for a subspace capability, no fragment of ours has the handle
  -- `h`, no capability was requested for `h`, and the information on our fragments is known: the finder
  -- succeeds, its first two outputs are the reply and a request that names `h`, and a verified reply for
  -- `h`, with any namespace, is an error. It relies on the laws of the group, and on scalars of both
  -- peers that can be undone.
  pub request_is_misdirected :
      f.our_intersection_handles.map ≡ states f.scalar t (e ∷ es)
      → let h = f.their_intersection_handles.next_handle in
        let member = P.scalar_mult (hash_into_group x) t in
        let answer = P.scalar_mult member f.scalar in
        let r = receive_bind (P.to_bytes member) (is_secondary_kind k) f in
        HasInfos theirs h f.fragments_info (e ∷ es)
        → IsShared x k e
        → (info : LocalFragmentInfo P) → lookup e.handle f.fragments_info ≡ some info
        → info.on_intersection ≡ request_subspace_cap
        → All (λ (other : Entered P). (other.handle == h) ≡ false) (e ∷ es)
        → NotIn h f.requested_subspace_cap_handles
        → (r.0 ≡ ok tt)
          × ((more : List (Output P)) × (r.1.outputs
                ≡ f.outputs
                  ++ send_message (reply_fragment h (P.to_bytes answer))
                    ∷ send_message (request_subspace_capability h)
                    ∷ more))
          × ((n : ℕ)
              → (received_verified_subspace_cap_reply h n r.1).0
                ≡ err (Error.pai subspace_cap_request_for_invalid_handle))
  unfolding bind
  request_is_misdirected entered known shared info found requests differs fresh =
      let h = f.their_intersection_handles.next_handle in
      let member = P.scalar_mult (hash_into_group x) t in
      let answer = P.scalar_mult member f.scalar in
      let s' = new_complete answer (is_secondary_kind k) in
      let r = receive_bind (P.to_bytes member) (is_secondary_kind k) f in
      let checked = receive_bind_lem laws t x k (e ∷ es) f undo_t undo_ours entered known in
      let (more, os) = asks h f.fragments_info info shared found requests checked.reacts in
      let kept : NotIn h r.1.requested_subspace_cap_handles =
        subst (λ (q : Outcome P). NotIn h q.1.requested_subspace_cap_handles)
          (sym (bind_checks laws t x k (e ∷ es) f undo_t undo_ours entered))
          (subst (λ (g : PaiFinder P). NotIn h g.requested_subspace_cap_handles)
            (sym (convert_state Error.store _))
            (check_others-NotIn h h s' (states f.scalar t (e ∷ es)) (with_bound answer s' f)
              (states-Avoids h f.scalar t (e ∷ es) differs) fresh)) in
      (
        checked.succeeds,
        (
          more,
          checked.appended
              ∙ ap (λ ys. (with_bound answer s' f).outputs ++ ys) os
              ∙ append_assoc f.outputs (send_message (reply_fragment h (P.to_bytes answer)) ∷ [])
                  (send_message (request_subspace_capability h) ∷ more),
        ),
        λ n. reply_refused h n r.1 kept,
      )
