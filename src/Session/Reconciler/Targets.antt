-- ===== src/Session/Reconciler/Targets.antt =====
-- Waiting for a target, and completing one.
use iroh_willow.Prelude.{
  ◌≡◌, ◌↔◌, ◌⊎◌, inl, inr, refl, ap, ◌∙◌, Bool, true, false, none, some, List, [], ◌∷◌, ◌++◌,
  if◌then◌else◌, any, arith, Bool-cases, Option-cases,
}
use iroh_willow.Session.Error.{Error, Result, ok, err, panicked}
use iroh_willow.Session.Challenge.{Role}
use iroh_willow.Session.Payload.{TargetId}
use iroh_willow.Session.Storage.{Storage}
use iroh_willow.Session.Target.{AoiIntersection, Target, id, init, is_nil}
use iroh_willow.Session.Reconciler.{
  Reconciler, reconciled_area, reconciled_all, same_id, find_target, put_target, remove_target,
  init_target, wait_for_target, ensure_target, unwrap_target, get_eventually, completed,
  complete_target,
}

same_id_iff : (i j : TargetId) → (same_id i j ≡ true) ↔ (i ≡ j)
unfolding same_id
same_id_iff (a, b) (c, d) = (λ e. ground arith, λ e. ground arith)

module _ {V : Type 0} where
  find-put :
      (i j : TargetId) (v : V) (m : List (TargetId × V))
      → find_target i (put_target j v m) ≡ (if same_id j i then some v else find_target i m)
  unfolding find_target put_target same_id
  find-put (a, b) (c, d) v [] = refl
  find-put (a, b) (c, d) v (((e, f), w) ∷ m) = ground (arith, find-put (a, b) (c, d) v m)

  find-remove :
      (i j : TargetId) (m : List (TargetId × V))
      → find_target i (remove_target j m) ≡ (if same_id j i then none else find_target i m)
  unfolding find_target remove_target same_id
  find-remove (a, b) (c, d) [] = ground arith
  find-remove (a, b) (c, d) (((e, f), w) ∷ m) = ground (arith, find-remove (a, b) (c, d) m)

module _ {S : Storage} (role : Role) (requested : TargetId) where
  -- Whether an intersection of the inbox is the requested target's.
  abbrev pub in_inbox : List (AoiIntersection S) → Bool
  in_inbox inbox = any (λ i. same_id (id i) requested) inbox

  find-init_target :
      (i : AoiIntersection S) (r : Reconciler S)
      → find_target requested (init_target role i r).targets ≡ (
          if same_id (id i) requested
          then some (init role i r.tokens).target
          else find_target requested r.targets)
  unfolding init_target
  find-init_target i r = find-put requested (id i) (init role i r.tokens).target r.targets

  wait_absent :
      (inbox : List (AoiIntersection S)) (r : Reconciler S)
      → in_inbox inbox ≡ false
      → find_target requested r.targets ≡ none
      → find_target requested (wait_for_target role requested inbox r).targets ≡ none
  unfolding wait_for_target
  wait_absent [] r a f = f
  wait_absent (i ∷ rest) r a f = elim (Bool-cases (same_id (id i) requested)) [
    | inl e ↦ ground arith
    | inr e ↦
        let next =
          find-init_target i r
          ∙ ap
              (λ b.
                if b then some (init role i r.tokens).target else find_target requested r.targets)
              e
          ∙ f in
        simp e (wait_absent rest (init_target role i r) (ground arith) next)
  ]

  wait_present :
      (inbox : List (AoiIntersection S)) (r : Reconciler S)
      → in_inbox inbox ≡ true
      → (t : Target S) × (find_target requested (wait_for_target role requested inbox r).targets
          ≡ some t)
  unfolding wait_for_target
  wait_present [] r a = ground arith
  wait_present (i ∷ rest) r a = elim (Bool-cases (same_id (id i) requested)) [
    | inl e ↦ (
      (init role i r.tokens).target,
      simp e (
          find-init_target i r
          ∙ ap
              (λ b.
                if b then some (init role i r.tokens).target else find_target requested r.targets)
              e),
    )
    | inr e ↦ simp e (wait_present rest (init_target role i r) (ground arith))
  ]

  ensure_known :
      (r : Reconciler S) (t : Target S)
      → find_target requested r.targets ≡ some t
      → ensure_target role requested r ≡ r
  unfolding ensure_target
  ensure_known r t e = rw (e, ensure_target)

  ensure_waited :
      (r : Reconciler S)
      → find_target requested r.targets ≡ none
      → ensure_target role requested r ≡ wait_for_target role requested r.inbox r
  unfolding ensure_target
  ensure_waited r e = rw (e, ensure_target)

  unwrap_some :
      (r : Reconciler S) (t : Target S)
      → find_target requested r.targets ≡ some t
      → unwrap_target requested r ≡ ok (t, r)
  unfolding unwrap_target
  unwrap_some r t e = rw (e, unwrap_target)

  unwrap_none :
      (r : Reconciler S)
      → find_target requested r.targets ≡ none
      → unwrap_target requested r ≡ panicked
  unfolding unwrap_target
  unwrap_none r e = rw (e, unwrap_target)

  get_from :
      (r r1 : Reconciler S) (x : Result (Target S × Reconciler S))
      → ensure_target role requested r ≡ r1
      → unwrap_target requested r1 ≡ x
      → get_eventually role requested r ≡ x
  unfolding get_eventually
  get_from r r1 x e f = ap (λ s. unwrap_target requested s) e ∙ f

  -- Looking up a target for a message returns the target as the map then holds it, if the map had
  -- it or the inbox still brings its intersection; and it panics if neither is the case and the
  -- inbox closes.
  pub get_eventually_cases :
      (r : Reconciler S)
      → ((t : Target S) × (r' : Reconciler S) × (get_eventually role requested r ≡ ok (t, r'))
          × (find_target requested r'.targets ≡ some t)
          × ((find_target requested r.targets ≡ some t) ⊎ (in_inbox r.inbox ≡ true)))
        ⊎ ((get_eventually role requested r ≡ panicked)
            × (find_target requested r.targets ≡ none)
            × (in_inbox r.inbox ≡ false))
  get_eventually_cases r = elim (Option-cases (find_target requested r.targets)) [
    | inr (t, e) ↦
        inl (t, r, get_from r r (ok (t, r)) (ensure_known r t e) (unwrap_some r t e), e, inl e)
    | inl e ↦ elim (Bool-cases (in_inbox r.inbox)) [
      | inl present ↦
          let (t, f) = wait_present r.inbox r present in
          let r1 = wait_for_target role requested r.inbox r in
          inl (t, r1, get_from r r1 _ (ensure_waited r e) (unwrap_some r1 t f), f, inr present)
      | inr absent ↦
          let r1 = wait_for_target role requested r.inbox r in
          let missing = unwrap_none r1 (wait_absent r.inbox r absent e) in
          inr (get_from r r1 panicked (ensure_waited r e) missing, e, absent)
    ]
  ]

module _ {S : Storage} where
  -- Completing a target that the map holds takes it, and no other, out of the map, and puts out its
  -- area, followed by the end of the reconciliation exactly if the map is empty then; completing
  -- any other target is an error.
  pub complete_target_cases :
      (i : TargetId) (r : Reconciler S)
      → ((t : Target S) × (r' : Reconciler S) × (find_target i r.targets ≡ some t)
          × (complete_target i r ≡ ok r')
          × ((j : TargetId)
              → find_target j r'.targets ≡ (if same_id i j then none else find_target j r.targets))
          × (r'.outputs
              ≡ r.outputs
                ++ reconciled_area t.intersection.namespace t.intersection.area
                  ∷ (if is_nil r'.targets then reconciled_all ∷ [] else [])))
        ⊎ ((find_target i r.targets ≡ none)
            × (complete_target i r ≡ err Error.invalid_message_in_current_state))
  unfolding complete_target completed
  complete_target_cases i r = elim (Option-cases (find_target i r.targets)) [
    | inl e ↦ inr (e, rw (e, complete_target))
    | inr (t, e) ↦
        inl (t, completed i t r, e, rw (e, complete_target), λ j. find-remove j i r.targets, refl)
  ]
