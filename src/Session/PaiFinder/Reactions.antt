-- ===== src/Session/PaiFinder/Reactions.antt =====
-- What the finder yields when it checks a handle for intersections, in terms of the fragments.
use iroh_willow.Prelude.{
  ℕ, ◌≡◌, refl, sym, ap, subst, ◌∙◌, inl, inr, true, false, none, some, List, [], ◌∷◌, ◌++◌,
  append-nil, arith, Bool-cases, append_assoc,
}
use iroh_willow.Prelude.Map.{Map, lookup}
use iroh_willow.Session.Error.{ok}
use iroh_willow.Session.Pai.{Psi, FragmentKind, is_secondary_kind, Fragment, hash_into_group}
use iroh_willow.Session.PaiFinder.{
  Scope, GroupState, LocalFragmentInfo, Output, PaiFinder, our_handle, Outcome, new_complete,
  do_nothing, bind_read_cap, request_subspace_cap, reply_read_cap, request_subspace_capability,
  send_message, new_intersection, completes_with, fragment_info,
}
use iroh_willow.Session.PaiFinder.Inputs.{on_intersection, check_others}
use iroh_willow.Session.PaiFinder.Shared.{
  CanUndo, PsiLaws, Entered, IsShared, states, state_of, completes_with_iff,
}

module _ {P : Psi} where
  -- What an intersection of `our` fragment makes the finder yield; `asked` is the handle that a
  -- request names.
  abbrev pub reaction : ℕ → ℕ → LocalFragmentInfo P → List (Output P)
  reaction asked our info = elim info.on_intersection [
    | bind_read_cap ↦ new_intersection info.authorisation our ∷ []
    | request_subspace_cap ↦ send_message (request_subspace_capability asked) ∷ []
    | reply_read_cap ↦ []
    | do_nothing ↦ []
  ]

  abbrev pub reaction_at : Scope → ℕ → Map (LocalFragmentInfo P) → ℕ → List (Output P)
  reaction_at scope handle infos other = elim (lookup (our_handle scope handle other) infos) [
    | none ↦ []
    | some info ↦ reaction handle (our_handle scope handle other) info
  ]

  -- The reactions to the fragments that are shared, in order, and to no other.
  pub data Reacts (x : Fragment P) (k : FragmentKind) (react : ℕ → List (Output P))
      : List (Entered P) → List (Output P) → Type 0 where
    no_more : Reacts x k react [] []
    is_shared :
        {e : Entered P} {es : List (Entered P)} {os : List (Output P)}
        → IsShared x k e
        → Reacts x k react es os
        → Reacts x k react (e ∷ es) (react e.handle ++ os)
    not_shared :
        {e : Entered P} {es : List (Entered P)} {os : List (Output P)}
        → (IsShared x k e → ⊥)
        → Reacts x k react es os
        → Reacts x k react (e ∷ es) os

  -- The finder after a check: what it yielded more, and what it kept.
  pub record Checked (x : Fragment P) (k : FragmentKind) (react : ℕ → List (Output P))
      (es : List (Entered P)) (f : PaiFinder P) (r : Outcome P) : Type 0 where
    pub succeeds : r.0 ≡ ok tt
    pub yields : List (Output P)
    pub appended : r.1.outputs ≡ f.outputs ++ yields
    pub reacts : Reacts x k react es yields
    pub keeps_ours : r.1.our_intersection_handles ≡ f.our_intersection_handles
    pub keeps_theirs : r.1.their_intersection_handles ≡ f.their_intersection_handles
    pub keeps_infos : r.1.fragments_info ≡ f.fragments_info

  abbrev pub HasInfos : Scope → ℕ → Map (LocalFragmentInfo P) → List (Entered P) → Type 0
  HasInfos scope handle infos [] = Unit
  HasInfos scope handle infos (e ∷ es) =
      ((info : LocalFragmentInfo P) × (lookup (our_handle scope handle e.handle) infos ≡ some info))
      × HasInfos scope handle infos es

  pub on_intersection_lem :
      (handle our : ℕ) (info : LocalFragmentInfo P) (f : PaiFinder P)
      → let f' = on_intersection handle our info f in
        (f'.outputs ≡ f.outputs ++ reaction handle our info)
        × (f'.our_intersection_handles ≡ f.our_intersection_handles)
        × (f'.their_intersection_handles ≡ f.their_intersection_handles)
        × (f'.fragments_info ≡ f.fragments_info)
  unfolding on_intersection
  on_intersection_lem handle our info f = ground (arith, append-nil f.outputs)

  pub fragment_info-some :
      (handle : ℕ) (f : PaiFinder P) (info : LocalFragmentInfo P)
      → lookup handle f.fragments_info ≡ some info
      → fragment_info handle f ≡ ok info
  unfolding fragment_info
  fragment_info-some handle f info l = rw (l, fragment_info)

  pub reaction_at-some :
      (scope : Scope) (handle : ℕ) (infos : Map (LocalFragmentInfo P)) (other : ℕ)
      (info : LocalFragmentInfo P)
      → lookup (our_handle scope handle other) infos ≡ some info
      → reaction_at scope handle infos other ≡ reaction handle (our_handle scope handle other) info
  reaction_at-some scope handle infos other info l = rw (l, reaction_at)

  check_hit :
      (scope : Scope) (handle other : ℕ) (i state : GroupState P) (rest : Map (GroupState P))
      (f : PaiFinder P) (info : LocalFragmentInfo P)
      → completes_with state i ≡ true
      → lookup (our_handle scope handle other) f.fragments_info ≡ some info
      → check_others scope handle i ((other, state) ∷ rest) f
        ≡ check_others scope handle i rest
            (on_intersection handle (our_handle scope handle other) info f)
  unfolding check_others
  check_hit scope handle other i state rest f info c l =
      simp (c, fragment_info-some (our_handle scope handle other) f info l)

  check_miss :
      (scope : Scope) (handle other : ℕ) (i state : GroupState P) (rest : Map (GroupState P))
      (f : PaiFinder P)
      → completes_with state i ≡ false
      → check_others scope handle i ((other, state) ∷ rest) f ≡ check_others scope handle i rest f
  unfolding check_others
  check_miss scope handle other i state rest f c = simp c

abbrev pub checked_state :
    {P : Psi} → P.PsiScalar → P.PsiScalar → Fragment P → FragmentKind → GroupState P
checked_state {P} a b x k =
    new_complete (P.scalar_mult (P.scalar_mult (hash_into_group x) b) a) (is_secondary_kind k)

module _ {P : Psi} (laws : PsiLaws P) (a b : P.PsiScalar) (undo_a : CanUndo P a)
    (undo_b : CanUndo P b) (x : Fragment P) (k : FragmentKind) where
  pub check_others_lem :
      (scope : Scope) (handle : ℕ) (infos : Map (LocalFragmentInfo P)) (es : List (Entered P))
      (f : PaiFinder P)
      → f.fragments_info ≡ infos
      → HasInfos scope handle infos es
      → Checked x k
          (reaction_at scope handle infos)
          es
          f
          (check_others scope handle (checked_state a b x k) (states a b es) f)
  unfolding check_others
  check_others_lem scope handle infos [] f same has = record {
    succeeds = refl;
    yields = [];
    appended = sym (append-nil f.outputs);
    reacts = no_more;
    keeps_ours = refl;
    keeps_theirs = refl;
    keeps_infos = refl;
  }
  check_others_lem scope handle infos (e ∷ es) f same ((info, found), has) =
      let meets = completes_with_iff laws a b undo_a undo_b x k e in
      let react = reaction_at scope handle infos in
      elim (Bool-cases (completes_with (state_of a b e) (checked_state a b x k))) [
        | inl hit ↦
            let f1 = on_intersection handle (our_handle scope handle e.handle) info f in
            let (app, our_kept, their_kept, info_kept) =
              on_intersection_lem handle (our_handle scope handle e.handle) info f in
            let rest = check_others_lem scope handle infos es f1 (info_kept ∙ same) has in
            subst (Checked x k react (e ∷ es) f)
              (sym (
                check_hit scope handle e.handle (checked_state a b x k) (state_of a b e)
                  (states a b es) f info hit
                  (ap (lookup (our_handle scope handle e.handle)) same ∙ found)))
              (record {
                succeeds = rest.succeeds;
                yields = react e.handle ++ rest.yields;
                appended =
                    rest.appended
                    ∙ ap (λ os. os ++ rest.yields) app
                    ∙ append_assoc f.outputs
                        (reaction handle (our_handle scope handle e.handle) info) rest.yields
                    ∙ ap (λ r. f.outputs ++ (r ++ rest.yields))
                        (sym (reaction_at-some scope handle infos e.handle info found));
                reacts = is_shared (meets.0 hit) rest.reacts;
                keeps_ours = rest.keeps_ours ∙ our_kept;
                keeps_theirs = rest.keeps_theirs ∙ their_kept;
                keeps_infos = rest.keeps_infos ∙ info_kept;
              })
        | inr miss ↦
            let rest = check_others_lem scope handle infos es f same has in
            subst (Checked x k react (e ∷ es) f)
              (sym (
                check_miss scope handle e.handle (checked_state a b x k) (state_of a b e)
                  (states a b es) f miss))
              (record {
                succeeds = rest.succeeds;
                yields = rest.yields;
                appended = rest.appended;
                reacts = not_shared (λ shared. cc (sym miss ∙ meets.1 shared)) rest.reacts;
                keeps_ours = rest.keeps_ours;
                keeps_theirs = rest.keeps_theirs;
                keeps_infos = rest.keeps_infos;
              })
      ]
