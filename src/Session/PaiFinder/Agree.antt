-- ===== src/Session/PaiFinder/Agree.antt =====
-- The finder of src/session/pai_finder.rs against a peer that follows the protocol: what it yields when
-- a reply or a fragment comes in.
use iroh_willow.Prelude.{ℕ, ◌≡◌, refl, some, List, [], ◌∷◌, ap, ◌∙◌, Bool, sym, subst, arith}
use iroh_willow.Prelude.Map.{Map, lookup, put, lookup-put}
use iroh_willow.Session.Error.{Error, panicked, err, ok}
use iroh_willow.Session.Resource.{ResourceMap, bind, try_get, update}
use iroh_willow.Session.Storage.{Bytes}
use iroh_willow.Session.Pai.{Psi, FragmentKind, Fragment, is_secondary_kind, hash_into_group}
use iroh_willow.Session.PaiFinder.{
  GroupState, LocalFragmentInfo, Output, PaiFinder, our_handle, Outcome, out, convert, new_complete,
  is_complete, ours, reply_fragment, send_message, with_found, new_pending, theirs,
}
use iroh_willow.Session.PaiFinder.Inputs.{
  check_others, check_complete, check_for_intersection, complete_ours, receive_reply, receive_bind,
}
use iroh_willow.Session.PaiFinder.Shared.{CanUndo, Entered, PsiLaws, states}
use iroh_willow.Session.PaiFinder.Reactions.{Checked, HasInfos, reaction_at, check_others_lem}

module _ {P : Psi} where
  pub try_get-some :
      (h : ℕ) (m : ResourceMap (GroupState P)) (s : GroupState P)
      → lookup h m.map ≡ some s
      → try_get h m ≡ ok s
  unfolding try_get
  try_get-some h m s l = rw (l, try_get)

  pub update-some :
      (h : ℕ) (m : ResourceMap (GroupState P)) (s s' : GroupState P)
      → lookup h m.map ≡ some s
      → update h s' m ≡ ok (record m { map = put h s' m.map })
  unfolding update
  update-some h m s s' l = rw (l, update)

  -- The finder once the reply for one of its fragments is entered.
  abbrev pub with_reply : ℕ → GroupState P → PaiFinder P → PaiFinder P
  with_reply h s f = record f {
    our_intersection_handles = record f.our_intersection_handles {
      map = put h s f.our_intersection_handles.map;
    };
  }

  -- The finder once a fragment of the peer is entered and replied to.
  abbrev pub with_bound : P.PsiGroup → GroupState P → PaiFinder P → PaiFinder P
  with_bound g s f =
      let b = bind s f.their_intersection_handles in
      out (send_message (reply_fragment b.handle (P.to_bytes g)))
        (record f { their_intersection_handles = b.after })

  infos_ours :
      (h : ℕ) (infos : Map (LocalFragmentInfo P)) (info : LocalFragmentInfo P)
      (es : List (Entered P))
      → lookup h infos ≡ some info
      → HasInfos ours h infos es
  unfolding our_handle
  infos_ours h infos info [] l = tt
  infos_ours h infos info (e ∷ es) l = ((info, l), infos_ours h infos info es l)

  convert_ok :
      {x : Fragment P} {k : FragmentKind} {react : ℕ → List (Output P)} {es : List (Entered P)}
      {f : PaiFinder P} (r : Outcome P)
      → Checked x k react es f r
      → convert Error.store r ≡ r
  convert_ok (ok _, f) c = refl
  convert_ok (err e, f) c = cc
  convert_ok (panicked, f) c = cc

  -- Step by step: the point, our state, the update, the check.
  reply_point :
      (f : PaiFinder P) (h : ℕ) (bytes : Bytes) (g : P.PsiGroup)
      → P.from_bytes bytes ≡ some g
      → receive_reply h bytes f
        ≡ convert Error.store (
            with_found
              (try_get h f.our_intersection_handles)
              f
              (λ our_state. complete_ours h g our_state f))
  unfolding receive_reply
  reply_point f h bytes g from = rw (from, receive_reply)

  pub put_found :
      (h : ℕ) (s : GroupState P) (m : Map (GroupState P)) → lookup h (put h s m) ≡ some s
  put_found h s m = ground (arith, lookup-put h h s m)

  pub check_ours :
      (f : PaiFinder P) (h : ℕ) (g : P.PsiGroup) (b : Bool)
      → let s' = new_complete g b in
        check_for_intersection h ours (with_reply h s' f)
        ≡ check_others ours h s' f.their_intersection_handles.map (with_reply h s' f)
  unfolding check_for_intersection check_complete is_complete new_complete
  check_ours f h g b =
      let s' = new_complete g b in
      let f' = with_reply h s' f in
      ap (λ r. with_found r f' (λ i. check_complete ours h i f.their_intersection_handles.map f'))
        (try_get-some h f'.our_intersection_handles s'
          (put_found h s' f.our_intersection_handles.map))

  receive_reply_eq :
      (f : PaiFinder P) (h : ℕ) (bytes : Bytes) (g : P.PsiGroup) (s : GroupState P)
      → P.from_bytes bytes ≡ some g
      → lookup h f.our_intersection_handles.map ≡ some s
      → let s' = new_complete g s.is_secondary in
        receive_reply h bytes f
        ≡ convert Error.store
            (check_others ours h s' f.their_intersection_handles.map (with_reply h s' f))
  unfolding complete_ours
  receive_reply_eq f h bytes g s from l =
      let s' = new_complete g s.is_secondary in
      reply_point f h bytes g from
      ∙ ap (λ r. convert Error.store (with_found r f (λ our_state. complete_ours h g our_state f)))
          (try_get-some h f.our_intersection_handles s l)
      ∙ ap
          (λ r. convert Error.store (
            with_found r f (λ handles.
              check_for_intersection h ours (record f { our_intersection_handles = handles }))))
          (update-some h f.our_intersection_handles s s' l)
      ∙ ap (convert Error.store) (check_ours f h g s.is_secondary)

  pub check_theirs :
      (f : PaiFinder P) (g : P.PsiGroup) (b : Bool)
      → let s' = new_complete g b in
        let h = f.their_intersection_handles.next_handle in
        check_for_intersection h theirs (with_bound g s' f)
        ≡ check_others theirs h s' f.our_intersection_handles.map (with_bound g s' f)
  unfolding check_for_intersection check_complete is_complete new_complete bind
  check_theirs f g b =
      let s' = new_complete g b in
      let f' = with_bound g s' f in
      let h = f.their_intersection_handles.next_handle in
      ap (λ r. with_found r f' (λ i. check_complete theirs h i f.our_intersection_handles.map f'))
        (try_get-some h f'.their_intersection_handles s'
          (put_found h s' f.their_intersection_handles.map))

  receive_bind_eq :
      (f : PaiFinder P) (bytes : Bytes) (b : Bool) (g : P.PsiGroup)
      → P.from_bytes bytes ≡ some g
      → let g' = P.scalar_mult g f.scalar in
        let s' = new_complete g' b in
        receive_bind bytes b f
        ≡ convert Error.store (
            check_others theirs f.their_intersection_handles.next_handle s'
              f.our_intersection_handles.map
              (with_bound g' s' f))
  unfolding receive_bind bind
  receive_bind_eq f bytes b g from =
      let g' = P.scalar_mult g f.scalar in
      rw (from, receive_bind) (ap (convert Error.store) (check_theirs f g' b))

module _ {P : Psi} (laws : PsiLaws P) (t : P.PsiScalar) (x : Fragment P) (k : FragmentKind)
    (es : List (Entered P)) (f : PaiFinder P) (undo_t : CanUndo P t)
    (undo_ours : CanUndo P f.scalar) where
  -- Against a peer with the scalar `t`, whose fragments `es` are entered: when its reply comes for the
  -- bound fragment `x` of ours, whose information is known, the finder succeeds and enters it as
  -- complete, and then yields, in order, the reaction of `x` for each of `es` that hashes to the same
  -- point and is not secondary for both peers, and nothing else; its handles and its information on
  -- fragments stay. It relies on the laws of the group, and on scalars of both peers that can be undone.
  pub receive_reply_lem :
      (h : ℕ) (info : LocalFragmentInfo P)
      → lookup h f.our_intersection_handles.map
        ≡ some (new_pending (P.scalar_mult (hash_into_group x) f.scalar) (is_secondary_kind k))
      → lookup h f.fragments_info ≡ some info
      → f.their_intersection_handles.map ≡ states t f.scalar es
      → let member = P.scalar_mult (P.scalar_mult (hash_into_group x) f.scalar) t in
        Checked x k
          (reaction_at ours h f.fragments_info)
          es
          (with_reply h (new_complete member (is_secondary_kind k)) f)
          (receive_reply h (P.to_bytes member) f)
  unfolding new_pending
  receive_reply_lem h info bound known entered =
      let member = P.scalar_mult (P.scalar_mult (hash_into_group x) f.scalar) t in
      let s' = new_complete member (is_secondary_kind k) in
      let checked =
        check_others_lem laws t f.scalar undo_t undo_ours x k ours h f.fragments_info es
          (with_reply h s' f) refl (infos_ours h f.fragments_info info es known) in
      subst (Checked x k (reaction_at ours h f.fragments_info) es (with_reply h s' f))
        (sym (
          receive_reply_eq f h (P.to_bytes member) member _ (laws.from-to member) bound
          ∙ ap (λ m. convert Error.store (check_others ours h s' m (with_reply h s' f))) entered
          ∙ convert_ok _ checked))
        checked

  -- What a fragment of an honest peer leads to.
  pub bind_checks :
      f.our_intersection_handles.map ≡ states f.scalar t es
      → let h = f.their_intersection_handles.next_handle in
        let member = P.scalar_mult (hash_into_group x) t in
        let answer = P.scalar_mult member f.scalar in
        let s' = new_complete answer (is_secondary_kind k) in
        receive_bind (P.to_bytes member) (is_secondary_kind k) f
        ≡ convert Error.store
            (check_others theirs h s' (states f.scalar t es) (with_bound answer s' f))
  bind_checks entered =
      let h = f.their_intersection_handles.next_handle in
      let member = P.scalar_mult (hash_into_group x) t in
      let answer = P.scalar_mult member f.scalar in
      let s' = new_complete answer (is_secondary_kind k) in
      receive_bind_eq f (P.to_bytes member) (is_secondary_kind k) member (laws.from-to member)
      ∙ ap (λ m. convert Error.store (check_others theirs h s' m (with_bound answer s' f))) entered

  -- Against a peer with the scalar `t`, when our fragments `es` are bound, some of them replied to, and
  -- their information is known: when the peer's fragment `x` comes, the finder succeeds, enters it and
  -- replies, and then yields, in order, the reaction of each of `es` that was replied to, hashes to the
  -- same point and is not secondary for both peers, and nothing else; its handles and its information on
  -- fragments stay. It relies on the laws of the group, and on scalars of both peers that can be undone.
  pub receive_bind_lem :
      f.our_intersection_handles.map ≡ states f.scalar t es
      → let h = f.their_intersection_handles.next_handle in
        let member = P.scalar_mult (hash_into_group x) t in
        let answer = P.scalar_mult member f.scalar in
        HasInfos theirs h f.fragments_info es
        → Checked x k
            (reaction_at theirs h f.fragments_info)
            es
            (with_bound answer (new_complete answer (is_secondary_kind k)) f)
            (receive_bind (P.to_bytes member) (is_secondary_kind k) f)
  receive_bind_lem entered known =
      let h = f.their_intersection_handles.next_handle in
      let member = P.scalar_mult (hash_into_group x) t in
      let answer = P.scalar_mult member f.scalar in
      let s' = new_complete answer (is_secondary_kind k) in
      let checked =
        check_others_lem laws f.scalar t undo_ours undo_t x k theirs h f.fragments_info es
          (with_bound answer s' f) refl known in
      subst (Checked x k (reaction_at theirs h f.fragments_info) es (with_bound answer s' f))
        (sym (bind_checks entered ∙ convert_ok _ checked)) checked
