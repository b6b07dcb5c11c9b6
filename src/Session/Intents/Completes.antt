-- ===== src/Session/Intents/Completes.antt =====
-- What the handle of an intent of src/session/intents.rs learns by driving the intent to its end.
use iroh_willow.Prelude.{
  if◌then◌else◌, ℕ, ◌≡◌, ◌⊎◌, refl, ap, sym, subst, ◌∙◌, Bool, true, false, ◌||◌, Option, none,
  some, inl, inr, List, [], ◌∷◌, any, if_cases, arith,
}
use iroh_willow.Prelude.Map.{lookup, lookup_or}
use iroh_willow.Model.{DataModel}
use iroh_willow.Session.Error.{ok}
use iroh_willow.Session.Intents.{
  AreaOfInterest, NamespaceInterests, EventKind, reconciled, reconciled_all, IntentInfo, Sent,
  Handled, handled, no_areas, is_some, is_complete, overlaps, remaining, put_remaining,
  complete_areas, complete_area_if_matches, match_event, deliver, handle_event,
}
use iroh_willow.Session.Intents.Reconciled.{
  after_handled, after_areas, told_cases, IncludedOverlaps, unreconciled, no_areas-OnlyAt,
  after_areas-OnlyAt, reconciled_areas,
}
use iroh_willow.Session.Intents.Handle.{
  complete, partial, nothing, completion, received, progress, drive_to_completion,
}

completion_untold :
    (done p : Bool) → done ≡ false → completion false p ≡ completion done (p || false)
unfolding completion
completion_untold done p e = ground (arith, e)

or_true : (p : Bool) → true ≡ p || true
or_true p = ground arith

module _ {m : DataModel} where
  -- Whether an area that is reconciled overlaps with one of some interests.
  unfoldable pub touched : List (AreaOfInterest m) → List (AreaOfInterest m) → Bool
  touched areas xs = any (λ a. any (λ x. is_some (m.intersection x.area a.area)) xs) areas

module _ {m : DataModel} (dropped : ℕ → Bool) (k tx : ℕ) (alive : dropped tx ≡ false) where
  -- What a reconciled area leads to: the intent stays as it is and is told nothing, or something of
  -- it is overlapped.
  Effect : AreaOfInterest m → IntentInfo m → List (AreaOfInterest m) → Handled m → Type 0
  Effect a info xs h =
      ((any (overlaps a.area) xs ≡ false) × (h ≡ handled info [] (is_complete info)))
      ⊎ ((any (overlaps a.area) xs ≡ true)
          × (i : IntentInfo m) × (i.event_tx ≡ some tx)
          × (((no_areas i.interests ≡ true)
                × (h
                    ≡ handled i ((tx, reconciled k a) ∷ (tx, reconciled_all) ∷ []) (is_complete i)))
              ⊎ ((no_areas i.interests ≡ false)
                  × (h ≡ handled i ((tx, reconciled k a) ∷ []) (is_complete i)))))

  areas_of : Option (List (AreaOfInterest m)) → List (AreaOfInterest m)
  areas_of o = elim o as (λ _. List (AreaOfInterest m)) [ none ↦ [] | some v ↦ v ]

  quiet :
      (a : AreaOfInterest m) (info : IntentInfo m)
      → deliver dropped (reconciled k a) (false, info) ≡ handled info [] (is_complete info)
  unfolding deliver
  quiet a info = refl

  Effect-complete_areas :
      (a : AreaOfInterest m) (info : IntentInfo m) (o : Option (List (AreaOfInterest m)))
      → info.event_tx ≡ some tx
      → Effect a info
          (areas_of o)
          (deliver dropped (reconciled k a) (complete_areas k a.area o info))
  unfolding Effect complete_areas areas_of
  Effect-complete_areas a info none here = inl (refl, quiet a info)
  Effect-complete_areas a info (some xs) here =
      if_cases (λ q. Effect a info xs (deliver dropped (reconciled k a) q))
        (any (overlaps a.area) xs)
        (λ hit.
          let i : IntentInfo m = record info {
            interests = put_remaining k (remaining a.area xs) info.interests;
          } in
          inr (hit, i, here, told_cases dropped k tx alive a i here))
        (λ miss. inl (miss, quiet a info))

  Effect-handle_event :
      (a : AreaOfInterest m) (info : IntentInfo m)
      → info.event_tx ≡ some tx
      → Effect a info (lookup_or [] k info.interests) (handle_event dropped (reconciled k a) info)
  unfolding handle_event match_event complete_area_if_matches areas_of
  Effect-handle_event a info here = Effect-complete_areas a info (lookup k info.interests) here

  no_interests :
      (interests : NamespaceInterests m)
      → no_areas interests ≡ true
      → lookup_or {V = List (AreaOfInterest m)} [] k interests ≡ []
  unfolding no_areas
  no_interests [] e = refl
  no_interests (_ ∷ _) e = ground arith

  -- Once nothing is left, nothing is sent any more.
  after_areas_quiet :
      (areas : List (AreaOfInterest m)) (info : IntentInfo m)
      → info.event_tx ≡ some tx
      → no_areas info.interests ≡ true
      → after_areas dropped k areas info ≡ (info, [])
  unfolding after_areas after_handled Effect
  after_areas_quiet [] info here done = refl
  after_areas_quiet (a ∷ areas) info here done = elim (Effect-handle_event a info here) [
    | inl (_, eq) ↦
        ap (after_handled (after_areas dropped k areas)) eq
        ∙ ap (λ q. (q.0, q.1)) (after_areas_quiet areas info here done)
    | inr (hit, _, _, _) ↦
        let no_hit : any (overlaps a.area) (lookup_or [] k info.interests) ≡ false =
          ap (any (overlaps a.area)) (no_interests info.interests done) in
        ground (arith, hit, no_hit)
  ]

  received-own :
      (e : EventKind m) (sent : Sent m) → received tx ((tx, e) ∷ sent) ≡ e ∷ received tx sent
  unfolding received
  received-own e sent = ground arith

  abbrev Drives : Bool → List (AreaOfInterest m) → IntentInfo m → IntentInfo m × Sent m → Type 0
  Drives p areas info q =
      progress false p (received tx q.1)
      ≡ ok
          (completion (no_areas q.0.interests) (p || touched areas (lookup_or [] k info.interests)))

  progress-told_all :
      (a : AreaOfInterest m) (areas : List (AreaOfInterest m)) (p : Bool) (i : IntentInfo m)
      → i.event_tx ≡ some tx
      → no_areas i.interests ≡ true
      → let (info1, sent) = after_areas dropped k areas i in
        progress false p (received tx ((tx, reconciled k a) ∷ (tx, reconciled_all) ∷ sent))
        ≡ ok (completion (no_areas info1.interests) (p || true))
  unfolding progress received completion
  progress-told_all a areas p i there done =
      subst
        (λ q.
          progress false p (received tx ((tx, reconciled k a) ∷ (tx, reconciled_all) ∷ q.1))
          ≡ ok (completion (no_areas q.0.interests) (p || true)))
        (sym (after_areas_quiet areas i there done))
        (ap (progress false p) (received-own (reconciled k a) ((tx, reconciled_all) ∷ []))
          ∙ ap (progress false true) (received-own reconciled_all [])
          ∙ ap (λ b. ok (completion b (p || true))) (sym done))

  progress-after_areas :
      (areas : List (AreaOfInterest m)) (info : IntentInfo m) (p : Bool)
      → info.event_tx ≡ some tx
      → no_areas info.interests ≡ false
      → Drives p areas info (after_areas dropped k areas info)
  unfolding after_areas after_handled Effect touched overlaps progress received completion
  progress-after_areas [] info p here more =
      ap ok (completion_untold (no_areas info.interests) p more)
  progress-after_areas (a ∷ areas) info p here more = elim (Effect-handle_event a info here) [
    | inl (miss, eq) ↦
        subst (λ h. Drives p (a ∷ areas) info (after_handled (after_areas dropped k areas) h))
          (sym eq) (rw miss (progress-after_areas areas info p here more))
    | inr (hit, i, there, inl (done, eq)) ↦
        subst (λ h. Drives p (a ∷ areas) info (after_handled (after_areas dropped k areas) h))
          (sym eq) (rw hit (progress-told_all a areas p i there done))
    | inr (hit, i, there, inr (some_left, eq)) ↦
        subst (λ h. Drives p (a ∷ areas) info (after_handled (after_areas dropped k areas) h))
          (sym eq)
          (rw hit (
            ap (progress false p) (received-own (reconciled k a) (after_areas dropped k areas i).1)
            ∙ progress-after_areas areas i true there some_left
            ∙ ap (λ b. ok (completion (no_areas (after_areas dropped k areas i).0.interests) b))
                (or_true p)))
  ]

  -- An intent whose receiver lives, with at least one area of interest, all of them in one namespace,
  -- is driven to its end after areas of that namespace were reconciled: it is complete if each of its
  -- areas is included in a reconciled one, else partial if a reconciled area overlaps with one of them,
  -- and else nothing. It relies on an included area overlapping.
  pub drive_to_completion-after_areas :
      IncludedOverlaps m
      → (areas xs : List (AreaOfInterest m)) (info : IntentInfo m) → info.event_tx ≡ some tx
      → info.interests ≡ (k, xs) ∷ []
      → no_areas xs ≡ false
      → drive_to_completion (received tx (after_areas dropped k areas info).1)
        ≡ ok (
            if no_areas (unreconciled areas xs)
            then complete
            else if touched areas xs
            then partial
            else nothing)
  unfolding drive_to_completion completion no_areas
  drive_to_completion-after_areas law areas xs info here at more =
      let info1 = (after_areas dropped k areas info).0 in
      let own : lookup_or [] k info.interests ≡ xs = rw at (ground arith) in
      let left : no_areas info1.interests ≡ no_areas (unreconciled areas xs) =
        no_areas-OnlyAt k info1.interests
          (after_areas-OnlyAt dropped k tx alive law areas info here (inr (xs, at, more)))
        ∙ ap no_areas (reconciled_areas dropped k tx alive law areas info here).0
        ∙ ap (λ ys. no_areas (unreconciled areas ys)) own in
      progress-after_areas areas info false here (rw at refl)
      ∙ ap (λ b. ok (completion b (touched areas (lookup_or [] k info.interests)))) left
      ∙ ap (λ ys. ok (completion (no_areas (unreconciled areas xs)) (touched areas ys))) own
