-- ===== src/Session/PaiFinder/Succeeds.antt =====
-- The loops of src/session/pai_finder.rs succeed when every fragment is known.
use iroh_willow.Prelude.{
  ℕ, ◌≡◌, refl, ◌⊎◌, true, List, [], ◌∷◌, ◌++◌, arith, ◌==◌, any, All, sym, subst, inl, inr, ◌&&◌,
  if_cases, Option, none, some,
}
use iroh_willow.Prelude.Map.{Map}
use iroh_willow.Session.Resource.{ResourceMap}
use iroh_willow.Session.PaiFinder.Reactions.{fragment_info-some, on_intersection_lem}
use iroh_willow.Session.Pai.{Psi}
use iroh_willow.Session.PaiFinder.{
  Scope, GroupState, LocalFragmentInfo, PaiFinder, insert_handle, our_handle, Outcome, with_found,
  is_complete, completes_with, fragment_info, ours, Output, out, new_intersection,
  sign_and_send_subspace_cap,
}
use iroh_willow.Session.PaiFinder.Inputs.{
  on_intersection, check_others, reply_read_caps, sign_subspace_caps, is_reply_read_cap,
}
use iroh_willow.Session.PaiFinder.Known.{HasKey, IsKnown, IsFine}

any_end :
    (h k : ℕ) (hs : List ℕ)
    → any (λ j. j == h) (hs ++ k ∷ []) ≡ true
    → (k ≡ h) ⊎ (any (λ j. j == h) hs ≡ true)
any_end h k [] e = ground arith
any_end h k (j ∷ hs) e = ground (arith, any_end h k hs)

insert_handle-any :
    (h k : ℕ) (hs : List ℕ)
    → any (λ j. j == h) (insert_handle k hs) ≡ true
    → (k ≡ h) ⊎ (any (λ j. j == h) hs ≡ true)
unfolding insert_handle
insert_handle-any h k hs e = ground (arith, any_end h k hs)

module _ {P : Psi} where
  -- What neither binds nor requests leaves every fragment known.
  pub IsKnown-same :
      {f f' : PaiFinder P}
      → f'.fragments_info ≡ f.fragments_info
      → f'.our_intersection_handles ≡ f.our_intersection_handles
      → ((h : ℕ)
          → any (λ k. k == h) f'.requested_subspace_cap_handles ≡ true
          → HasKey h f.our_intersection_handles.map)
      → IsKnown f
      → IsKnown f'
  IsKnown-same infos handles requested known = record {
    infos = λ h has.
        subst (λ (m : Map (LocalFragmentInfo P)). HasKey h m) (sym infos)
          (known.infos h (subst (λ (m : ResourceMap (GroupState P)). HasKey h m.map) handles has));
    requested = λ h e.
        subst (λ (m : ResourceMap (GroupState P)). HasKey h m.map) (sym handles) (requested h e);
  }

  -- A lookup of what is known succeeds.
  pub known_info :
      (h : ℕ) (f : PaiFinder P) (next : LocalFragmentInfo P → Outcome P)
      → IsKnown f
      → HasKey h f.our_intersection_handles.map
      → ((info : LocalFragmentInfo P) → IsFine (next info))
      → IsFine (with_found (fragment_info h f) f next)
  known_info h f next known has fine =
      let (info, l) = known.infos h has in
      subst (λ r. IsFine (with_found r f next)) (sym (fragment_info-some h f info l)) (fine info)

  pub out-IsKnown : {f : PaiFinder P} (o : Output P) → IsKnown f → IsKnown (out o f)
  out-IsKnown o known = record { infos = known.infos; requested = known.requested }

  pub option_cases :
      {A : Type 0} (o : Option A) {x : Outcome P} {y : A → Outcome P}
      → IsFine x
      → ((a : A) → IsFine (y a))
      → IsFine (elim o [ none ↦ x | some a ↦ y a ])
  option_cases none p q = p
  option_cases (some a) p q = q a

  asked :
      (handle our h : ℕ) (info : LocalFragmentInfo P) (f : PaiFinder P)
      → any (λ k. k == h) (on_intersection handle our info f).requested_subspace_cap_handles ≡ true
      → (our ≡ h) ⊎ (any (λ k. k == h) f.requested_subspace_cap_handles ≡ true)
  unfolding on_intersection
  asked handle our h info f e =
      ground (arith, insert_handle-any h our f.requested_subspace_cap_handles)

  on_intersection-IsKnown :
      (handle our : ℕ) (info : LocalFragmentInfo P) (f : PaiFinder P)
      → HasKey our f.our_intersection_handles.map
      → IsKnown f
      → IsKnown (on_intersection handle our info f)
  on_intersection-IsKnown handle our info f has known =
      let kept = on_intersection_lem handle our info f in
      IsKnown-same kept.3 kept.1
        (λ h e. elim (asked handle our h info f e) [
          | inl same ↦ subst (λ j. HasKey j f.our_intersection_handles.map) same has
          | inr old ↦ known.requested h old
        ])
        known

  abbrev pub KeysOf : Scope → ℕ → Map (GroupState P) → ResourceMap (GroupState P) → Type 0
  KeysOf scope handle others m =
      All (λ (kv : ℕ × GroupState P). HasKey (our_handle scope handle kv.0) m.map) others

  pub check_others-IsFine :
      (scope : Scope) (handle : ℕ) (i : GroupState P) (others : Map (GroupState P))
      (f : PaiFinder P)
      → KeysOf scope handle others f.our_intersection_handles
      → IsKnown f
      → IsFine (check_others scope handle i others f)
  unfolding check_others
  check_others-IsFine scope handle i [] f has known = (refl, known)
  check_others-IsFine scope handle i ((other, state) ∷ rest) f (here, has) known =
      if_cases IsFine (completes_with state i)
        (λ _. known_info (our_handle scope handle other) f _ known here (λ info.
          let f1 = on_intersection handle (our_handle scope handle other) info f in
          check_others-IsFine scope handle i rest f1
            (subst (KeysOf scope handle rest)
              (sym (on_intersection_lem handle (our_handle scope handle other) info f).1) has)
            (on_intersection-IsKnown handle (our_handle scope handle other) info f here known)))
        (λ _. check_others-IsFine scope handle i rest f has known)

  pub KeysOf-ours :
      (handle : ℕ) (others : Map (GroupState P)) (m : ResourceMap (GroupState P))
      → HasKey handle m.map
      → KeysOf ours handle others m
  unfolding our_handle
  KeysOf-ours handle [] m has = tt
  KeysOf-ours handle (_ ∷ others) m has = (has, KeysOf-ours handle others m has)

  pub reply_read_caps-IsFine :
      (i : GroupState P) (others : Map (GroupState P)) (f : PaiFinder P)
      → All (λ (kv : ℕ × GroupState P). HasKey kv.0 f.our_intersection_handles.map) others
      → IsKnown f
      → IsFine (reply_read_caps i others f)
  unfolding reply_read_caps
  reply_read_caps-IsFine i [] f has known = (refl, known)
  reply_read_caps-IsFine i ((our, state) ∷ rest) f (here, has) known =
      if_cases IsFine (completes_with state i)
        (λ _. known_info our f _ known here (λ info.
          if_cases IsFine (is_reply_read_cap info.on_intersection)
            (λ _.
              reply_read_caps-IsFine i rest (out (new_intersection info.authorisation our) f) has
                (out-IsKnown (new_intersection info.authorisation our) known))
            (λ _. reply_read_caps-IsFine i rest f has known)))
        (λ _. reply_read_caps-IsFine i rest f has known)

  pub sign_subspace_caps-IsFine :
      (handle : ℕ) (i : GroupState P) (others : Map (GroupState P)) (f : PaiFinder P)
      → All (λ (kv : ℕ × GroupState P). HasKey kv.0 f.our_intersection_handles.map) others
      → IsKnown f
      → IsFine (sign_subspace_caps handle i others f)
  unfolding sign_subspace_caps
  sign_subspace_caps-IsFine handle i [] f has known = (refl, known)
  sign_subspace_caps-IsFine handle i ((our, state) ∷ rest) f (here, has) known =
      if_cases IsFine (is_complete state && P.is_group_equal i.group state.group)
        (λ _. known_info our f _ known here (λ info.
          option_cases (P.subspace_cap info.authorisation)
            (sign_subspace_caps-IsFine handle i rest f has known)
            (λ cap.
              sign_subspace_caps-IsFine handle i rest
                (out (sign_and_send_subspace_cap handle cap) f) has
                (out-IsKnown (sign_and_send_subspace_cap handle cap) known))))
        (λ _. sign_subspace_caps-IsFine handle i rest f has known)
