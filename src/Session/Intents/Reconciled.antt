-- ===== src/Session/Intents/Reconciled.antt =====
-- What an intent of src/session/intents.rs learns of the areas that are reconciled.
use iroh_willow.Prelude.{
  ℕ, suc, ◌+◌, ◌≡◌, ◌⊎◌, refl, ap, sym, subst, ◌∙◌, Bool, true, false, Option, none, some,
  Bool-cases, inl, inr, List, [], ◌∷◌, ◌++◌, any, if◌then◌else◌, if_cases, arith,
}
use iroh_willow.Prelude.Map.{lookup, remove, lookup_or, lookup_or-put_self, lookup-remove}
use iroh_willow.Model.{DataModel}
use iroh_willow.Session.Intents.{
  AreaOfInterest, NamespaceInterests, EventKind, capability_intersection, interest_intersection,
  reconciled, reconciled_all, abort, IntentInfo, Sent, Handled, receiver_dropped, handled, no_areas,
  is_some, is_complete, overlaps, remaining, put_remaining, complete_areas,
  complete_area_if_matches, match_event, is_reconciled, send_on, send_all_done, after_send, deliver,
  handle_event,
}

no_areas_nil : {A : Type 0} (xs : List A) → no_areas xs ≡ true → xs ≡ []
unfolding no_areas
no_areas_nil [] e = refl
no_areas_nil (x ∷ xs) e = ground arith

-- An area that another one includes overlaps with it.
abbrev pub IncludedOverlaps : DataModel → Type 0
IncludedOverlaps m =
    (a b : m.Area) → m.includes_area a b ≡ true → is_some (m.intersection b a) ≡ true

module _ {m : DataModel} where
  unfoldable pub after_handled :
      (IntentInfo m → IntentInfo m × Sent m) → Handled m → IntentInfo m × Sent m
  after_handled f (receiver_dropped info sent) = (info, sent)
  after_handled f (handled info sent _) = ((f info).0, sent ++ (f info).1)

  -- An intent after some areas of a namespace were reconciled, and what it was sent.
  unfoldable pub after_areas :
      (ℕ → Bool) → ℕ → List (AreaOfInterest m) → IntentInfo m → IntentInfo m × Sent m
  after_areas dropped namespace [] info = (info, [])
  after_areas dropped namespace (a ∷ areas) info =
      after_handled (after_areas dropped namespace areas)
        (handle_event dropped (reconciled namespace a) info)

  -- Whether one of some reconciled areas includes an area.
  abbrev pub is_included : List (AreaOfInterest m) → AreaOfInterest m → Bool
  is_included areas x = any (λ a. m.includes_area a.area x.area) areas

  -- The areas that no reconciled area includes.
  unfoldable pub unreconciled :
      List (AreaOfInterest m) → List (AreaOfInterest m) → List (AreaOfInterest m)
  unreconciled areas [] = []
  unreconciled areas (x ∷ xs) =
      let rest = unreconciled areas xs in if is_included areas x then rest else x ∷ rest

  unreconciled_none : (xs : List (AreaOfInterest m)) → unreconciled [] xs ≡ xs
  unfolding unreconciled
  unreconciled_none [] = refl
  unreconciled_none (x ∷ xs) = ap (◌∷◌ x) (unreconciled_none xs)

  -- Taking away what one more area includes.
  unreconciled-cons :
      (a : AreaOfInterest m) (areas xs : List (AreaOfInterest m))
      → unreconciled areas (remaining a.area xs) ≡ unreconciled (a ∷ areas) xs
  unfolding unreconciled remaining
  unreconciled-cons a areas [] = refl
  unreconciled-cons a areas (x ∷ xs) = ground (arith, unreconciled-cons a areas xs)

  -- Interests in one namespace at most, which are no empty entry.
  abbrev pub OnlyAt : ℕ → NamespaceInterests m → Type 0
  OnlyAt k interests =
      (interests ≡ [])
      ⊎ ((xs : List (AreaOfInterest m)) × (interests ≡ (k, xs) ∷ []) × (no_areas xs ≡ false))

  OnlyAt-put_remaining :
      (k : ℕ) (rest : List (AreaOfInterest m)) (interests : NamespaceInterests m)
      → OnlyAt k interests
      → OnlyAt k (put_remaining k rest interests)
  unfolding put_remaining no_areas
  OnlyAt-put_remaining k rest interests (inl none_at) = elim (Bool-cases (no_areas rest)) [
    | inl e ↦ inl (rw (none_at, e) refl)
    | inr e ↦ inr (rest, rw (none_at, e) refl, e)
  ]
  OnlyAt-put_remaining k rest interests (inr (xs, at, _)) = elim (Bool-cases (no_areas rest)) [
    | inl e ↦ inl (rw (at, e) (ground arith))
    | inr e ↦ inr (rest, rw (at, e) (ground arith), e)
  ]

  pub no_areas-OnlyAt :
      (k : ℕ) (interests : NamespaceInterests m)
      → OnlyAt k interests
      → no_areas interests ≡ no_areas (lookup_or {V = List (AreaOfInterest m)} [] k interests)
  unfolding no_areas
  no_areas-OnlyAt k interests (inl none_at) = rw none_at refl
  no_areas-OnlyAt k interests (inr (xs, at, e)) = rw at (ground (arith, e))

  unfoldable pub times_all : Sent m → ℕ
  times_all [] = 0
  times_all ((_, reconciled_all) ∷ sent) = suc (times_all sent)
  times_all ((_, capability_intersection _ _) ∷ sent) = times_all sent
  times_all ((_, interest_intersection _ _) ∷ sent) = times_all sent
  times_all ((_, reconciled _ _) ∷ sent) = times_all sent
  times_all ((_, abort _) ∷ sent) = times_all sent

  -- 1 if nothing is left to reconcile, else 0.
  unfoldable pub all_done : IntentInfo m → ℕ
  all_done info = if no_areas info.interests then 1 else 0

  times_all-append : (s t : Sent m) → times_all (s ++ t) ≡ times_all s + times_all t
  unfolding times_all
  times_all-append [] t = omega arith
  times_all-append ((_, reconciled_all) ∷ s) t = omega (arith, times_all-append s t)
  times_all-append ((_, capability_intersection _ _) ∷ s) t = times_all-append s t
  times_all-append ((_, interest_intersection _ _) ∷ s) t = times_all-append s t
  times_all-append ((_, reconciled _ _) ∷ s) t = times_all-append s t
  times_all-append ((_, abort _) ∷ s) t = times_all-append s t

  keep_all :
      IncludedOverlaps m
      → (area : m.Area) (xs : List (AreaOfInterest m)) → any (overlaps area) xs ≡ false
      → remaining area xs ≡ xs
  unfolding overlaps remaining
  keep_all law area [] e = refl
  keep_all law area (x ∷ xs) e = ground (arith, law area x.area, keep_all law area xs)

  removed : (k : ℕ) (interests : NamespaceInterests m) → lookup k (remove k interests) ≡ none
  removed k interests = ground (arith, lookup-remove k k interests)

  absent :
      (o : Option (List (AreaOfInterest m)))
      → o ≡ none
      → (elim o as (λ _. List (AreaOfInterest m)) [ none ↦ [] | some v ↦ v ]) ≡ []
  absent o e = ap (λ q. elim q as (λ _. List (AreaOfInterest m)) [ none ↦ [] | some v ↦ v ]) e

  lookup_or-put_remaining :
      (k : ℕ) (rest : List (AreaOfInterest m)) (interests : NamespaceInterests m)
      → lookup_or [] k (put_remaining k rest interests) ≡ rest
  unfolding put_remaining
  lookup_or-put_remaining k rest interests =
      if_cases (λ is. lookup_or [] k is ≡ rest) (no_areas rest)
        (λ e.
          absent (lookup k (remove k interests)) (removed k interests) ∙ sym (no_areas_nil rest e))
        (λ _. lookup_or-put_self [] k rest interests)

  present :
      (k : ℕ) (interests : NamespaceInterests m) (xs : List (AreaOfInterest m))
      → lookup k interests ≡ some xs
      → no_areas interests ≡ false
  unfolding no_areas
  present k [] xs e = ground arith
  present k (_ ∷ _) xs e = refl

  module _ (dropped : ℕ → Bool) (k tx : ℕ) (alive : dropped tx ≡ false) where
    -- What one reconciled area does to an intent whose receiver lives.
    Step : AreaOfInterest m → IntentInfo m → Handled m → Type 0
    Step a info h =
        (i : IntentInfo m) × (s : Sent m) × (h ≡ handled i s (is_complete i))
        × (times_all s + all_done info ≡ all_done i)
        × (lookup_or [] k i.interests ≡ remaining a.area (lookup_or [] k info.interests))
        × (i.event_tx ≡ some tx)
        × (OnlyAt k info.interests → OnlyAt k i.interests)

    sent_alive :
        (i : IntentInfo m) (e : EventKind m)
        → i.event_tx ≡ some tx
        → send_on dropped i.event_tx e ≡ some ((tx, e) ∷ [])
    unfolding send_on
    sent_alive i e here =
        ap (λ o. send_on dropped o e) here ∙ ap (λ b. if b then none else some ((tx, e) ∷ [])) alive

    -- An intent that a reconciled area overlaps is told of it, and that all is reconciled if nothing is
    -- left.
    pub told_cases :
        (a : AreaOfInterest m) (i : IntentInfo m)
        → i.event_tx ≡ some tx
        → ((no_areas i.interests ≡ true)
            × (deliver dropped (reconciled k a) (true, i)
                ≡ handled i ((tx, reconciled k a) ∷ (tx, reconciled_all) ∷ []) (is_complete i)))
          ⊎ ((no_areas i.interests ≡ false)
              × (deliver dropped (reconciled k a) (true, i)
                  ≡ handled i ((tx, reconciled k a) ∷ []) (is_complete i)))
    unfolding deliver after_send send_all_done is_reconciled
    told_cases a i here =
        let e : EventKind m = reconciled k a in
        let first : send_on dropped i.event_tx e ≡ some ((tx, e) ∷ []) = sent_alive i e here in
        let after : Bool → Handled m = λ b.
          if b
          then send_all_done dropped ((tx, e) ∷ []) i (send_on dropped i.event_tx reconciled_all)
          else handled i ((tx, e) ∷ []) (is_complete i) in
        elim (Bool-cases (no_areas i.interests)) [
          | inl done ↦ inl (
            done,
            ap (after_send dropped e i) first
                ∙ ap after done
                ∙ ap (send_all_done dropped ((tx, e) ∷ []) i) (sent_alive i reconciled_all here),
          )
          | inr more ↦ inr (more, ap (after_send dropped e i) first ∙ ap after more)
        ]

    Step-hit :
        (a : AreaOfInterest m) (xs : List (AreaOfInterest m)) (info : IntentInfo m)
        → info.event_tx ≡ some tx
        → lookup k info.interests ≡ some xs
        → Step a info (
            deliver dropped (reconciled k a) (
              true,
              record info { interests = put_remaining k (remaining a.area xs) info.interests },
            ))
    unfolding Step times_all all_done
    Step-hit a xs info here found =
        let i : IntentInfo m = record info {
          interests = put_remaining k (remaining a.area xs) info.interests;
        } in
        let left : lookup_or [] k i.interests ≡ remaining a.area (lookup_or [] k info.interests) =
          lookup_or-put_remaining k (remaining a.area xs) info.interests
          ∙ ap
              (λ o.
                remaining a.area
                  (elim o as (λ _. List (AreaOfInterest m)) [ none ↦ [] | some v ↦ v ]))
              (sym found) in
        let before : no_areas info.interests ≡ false = present k info.interests xs found in
        elim (told_cases a i here) [
          | inl (done, told) ↦ (
            i,
            (tx, reconciled k a) ∷ (tx, reconciled_all) ∷ [],
            told,
            rw (before, done) (omega arith),
            left,
            here,
            OnlyAt-put_remaining k (remaining a.area xs) info.interests,
          )
          | inr (more, told) ↦ (
            i,
            (tx, reconciled k a) ∷ [],
            told,
            rw (before, more) (omega arith),
            left,
            here,
            OnlyAt-put_remaining k (remaining a.area xs) info.interests,
          )
        ]

    Step-miss :
        (a : AreaOfInterest m) (info : IntentInfo m)
        → info.event_tx ≡ some tx
        → lookup_or [] k info.interests ≡ remaining a.area (lookup_or [] k info.interests)
        → Step a info (deliver dropped (reconciled k a) (false, info))
    unfolding Step deliver times_all
    Step-miss a info here same = (info, [], refl, omega arith, same, here, λ only. only)

    abbrev areas_or_none : Option (List (AreaOfInterest m)) → List (AreaOfInterest m)
    areas_or_none o = elim o as (λ _. List (AreaOfInterest m)) [ none ↦ [] | some v ↦ v ]

    none_remain : (a : m.Area) → [] ≡ remaining {m = m} a []
    unfolding remaining
    none_remain a = refl

    Step-cases :
        IncludedOverlaps m
        → (a : AreaOfInterest m) (info : IntentInfo m) (o : Option (List (AreaOfInterest m)))
        → info.event_tx ≡ some tx
        → lookup k info.interests ≡ o
        → Step a info (deliver dropped (reconciled k a) (complete_areas k a.area o info))
    unfolding complete_areas
    Step-cases law a info none here found = Step-miss a info here (
        subst (λ o. areas_or_none o ≡ remaining a.area (areas_or_none o)) (sym found)
          (none_remain a.area))
    Step-cases law a info (some xs) here found =
        if_cases (λ q. Step a info (deliver dropped (reconciled k a) q)) (any (overlaps a.area) xs)
          (λ _. Step-hit a xs info here found)
          (λ e. Step-miss a info here (
            subst (λ o. areas_or_none o ≡ remaining a.area (areas_or_none o)) (sym found)
              (sym (keep_all law a.area xs e))))

    step_of :
        IncludedOverlaps m
        → (a : AreaOfInterest m) (info : IntentInfo m) → info.event_tx ≡ some tx
        → (i : IntentInfo m) × (s : Sent m) × (handle_event dropped (reconciled k a) info
            ≡ handled i s (is_complete i))
          × (times_all s + all_done info ≡ all_done i)
          × (lookup_or [] k i.interests ≡ remaining a.area (lookup_or [] k info.interests))
          × (i.event_tx ≡ some tx)
          × (OnlyAt k info.interests → OnlyAt k i.interests)
    unfolding Step handle_event match_event complete_area_if_matches
    step_of law a info here = Step-cases law a info (lookup k info.interests) here refl

    go_on :
        (a : AreaOfInterest m) (areas : List (AreaOfInterest m)) (info i : IntentInfo m)
        (s : Sent m)
        → times_all s + all_done info ≡ all_done i
        → lookup_or [] k i.interests ≡ remaining a.area (lookup_or [] k info.interests)
        → let (info1, sent) = after_areas dropped k areas i in
          (lookup_or [] k info1.interests ≡ unreconciled areas (lookup_or [] k i.interests))
            × (times_all sent + all_done i ≡ all_done info1)
          → let (info1, sent) =
              after_handled (after_areas dropped k areas) (handled i s (is_complete i)) in
            (lookup_or [] k info1.interests
              ≡ unreconciled (a ∷ areas) (lookup_or [] k info.interests))
            × (times_all sent + all_done info ≡ all_done info1)
    unfolding after_handled
    go_on a areas info i s told left rest = (
      rest.0
          ∙ ap (unreconciled areas) left
          ∙ unreconciled-cons a areas (lookup_or [] k info.interests),
      omega (arith, times_all-append s (after_areas dropped k areas i).1, told, rest.1),
    )

    -- Interests in one namespace stay there.
    pub after_areas-OnlyAt :
        IncludedOverlaps m
        → (areas : List (AreaOfInterest m)) (info : IntentInfo m) → info.event_tx ≡ some tx
        → OnlyAt k info.interests
        → OnlyAt k (after_areas dropped k areas info).0.interests
    unfolding after_areas after_handled
    after_areas-OnlyAt law [] info here only = only
    after_areas-OnlyAt law (a ∷ areas) info here only =
        let (i, s, eq, _, _, same, keeps) = step_of law a info here in
        subst (λ h. OnlyAt k (after_handled (after_areas dropped k areas) h).0.interests) (sym eq)
          (after_areas-OnlyAt law areas i same (keeps only))

    -- An intent whose receiver lives, after some areas of a namespace were reconciled: of the areas of
    -- the namespace those are left that no reconciled area includes, and it was told that all is
    -- reconciled once if the last areas of any namespace went, and else never.
    pub reconciled_areas :
        IncludedOverlaps m
        → (areas : List (AreaOfInterest m)) (info : IntentInfo m) → info.event_tx ≡ some tx
        → let (info1, sent) = after_areas dropped k areas info in
          (lookup_or [] k info1.interests ≡ unreconciled areas (lookup_or [] k info.interests))
          × (times_all sent + all_done info ≡ all_done info1)
    unfolding after_areas times_all
    reconciled_areas law [] info here =
        (sym (unreconciled_none (lookup_or [] k info.interests)), omega arith)
    reconciled_areas law (a ∷ areas) info here =
        let (i, s, eq, told, left, same, _) = step_of law a info here in
        let rest = reconciled_areas law areas i same in
        let Q : IntentInfo m × Sent m → Type 0 = λ q.
          (lookup_or [] k q.0.interests ≡ unreconciled (a ∷ areas) (lookup_or [] k info.interests))
          × (times_all q.1 + all_done info ≡ all_done q.0) in
        subst (λ h. Q (after_handled (after_areas dropped k areas) h)) (sym eq)
          (go_on a areas info i s told left rest)
