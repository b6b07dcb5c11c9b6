-- ===== src/Caps/Best.antt =====
-- Selecting a capability: the best covered one, and what inserting another changes.
use iroh_willow.Prelude.{
  ◌≡◌, inl, inr, refl, sym, ap, ◌∙◌, subst, Bool, true, Option, none, some, List, [], ◌∷◌, ◌++◌,
  keep, keep-append, All, if◌then◌else◌, if_cases, Bool-cases, arith,
}
use iroh_willow.Prelude.Map.{lookup_or, put, lookup_or-put_self}
use iroh_willow.Caps.Meadowcap.{Meadowcap, AreaOrder, ReadAuthorisation, is_wider_than}
use iroh_willow.Caps.Interest.{CapSelector, is_covered_by}
use iroh_willow.Caps.CapsStore.{CapsStore, widest_of, get_write_cap, get_read_cap}
use iroh_willow.Caps.Interest.{write}
use iroh_willow.Caps.CapsStore.{insert_cap}
use iroh_willow.Caps.Selection.{NotWider, prefer, widest_of_max, widest_of-append, widest_of-All}

-- The area of a capability is at least as wide as another's.
abbrev pub Covers : (M : Meadowcap) → M.Cap → M.Cap → Type 0
Covers M a b = M.includes_area (M.granted_area a) (M.granted_area b) ≡ true

module _ {M : Meadowcap} (order : AreaOrder M) where
  -- Where the inclusion of areas is a preorder, being wider is inclusion: the number of delegations
  -- is of no account.
  wider-includes :
      (a b : M.Cap) → is_wider_than M a b ≡ M.includes_area (M.granted_area a) (M.granted_area b)
  unfolding is_wider_than
  wider-includes a b = elim (Bool-cases (M.includes_area (M.granted_area a) (M.granted_area b))) [
    | inl e ↦ ground arith
    | inr e ↦ elim (Bool-cases (M.same_area (M.granted_area a) (M.granted_area b))) [
      | inl same ↦ let contrary = order.same_includes _ _ same in ground arith
      | inr differ ↦ ground arith
    ]
  ]

  wider_trans :
      (a b c : M.Cap)
      → is_wider_than M a b ≡ true
      → is_wider_than M b c ≡ true
      → is_wider_than M a c ≡ true
  wider_trans a b c x y =
      wider-includes a c
      ∙ order.includes_trans _ _ _ (sym (wider-includes a b) ∙ x) (sym (wider-includes b c) ∙ y)

module _ {A : Type 0} (P : A → Type 0) (p : A → Bool) where
  All-kept : (xs : List A) → All P (keep p xs) → All (λ x. p x ≡ true → P x) xs
  All-kept [] h = tt
  All-kept (x ∷ xs) h = elim (Bool-cases (p x)) [
    | inl e ↦
        let h' = subst (λ b. All P (if b then x ∷ keep p xs else keep p xs)) e h in
        (λ _. h'.0, All-kept xs h'.1)
    | inr e ↦
        let h' = subst (λ b. All P (if b then x ∷ keep p xs else keep p xs)) e h in
        (λ f. cc (e, f), All-kept xs h')
  ]

keep-All : {A : Type 0} (p : A → Bool) (xs : List A) → All (λ x. p x ≡ true) (keep p xs)
keep-All p [] = tt
keep-All p (x ∷ xs) =
    if_cases (λ ys. All (λ y. p y ≡ true) ys) (p x) (λ e. (e, keep-All p xs)) (λ e. keep-All p xs)

All-map :
    {A : Type 0} (P Q : A → Type 0) (xs : List A) → ((x : A) → P x → Q x) → All P xs → All Q xs
All-map P Q [] f h = tt
All-map P Q (x ∷ xs) f h = (f x h.0, All-map P Q xs f h.1)

covered_namespace :
    {M : Meadowcap} (selector : CapSelector M) (cap : M.Cap)
    → is_covered_by selector cap ≡ true
    → selector.namespace_id ≡ M.granted_namespace cap
unfolding is_covered_by
covered_namespace selector cap covered = ground arith

module _ {M : Meadowcap} (order : AreaOrder M) where
  prefer_lem :
      (cap : M.Cap) (o : Option M.Cap)
      → prefer (is_wider_than M) cap o
        ≡ prefer (λ a b. M.includes_area (M.granted_area a) (M.granted_area b)) cap o
  prefer_lem cap none = refl
  prefer_lem cap (some old) = ap (λ b. some (if b then cap else old)) (wider-includes order cap old)

  -- The read capability that a selector gives is covered by the selector, and no stored one that is
  -- covered by it has a strictly wider area.
  pub get_read_cap_best :
      (selector : CapSelector M) (s : CapsStore M) (auth : ReadAuthorisation M)
      → get_read_cap selector s ≡ some auth
      → (is_covered_by selector auth.read_cap ≡ true)
        × All
            (λ c.
              is_covered_by selector c.read_cap ≡ true
              → Covers M c.read_cap auth.read_cap
              → Covers M auth.read_cap c.read_cap)
            (lookup_or [] selector.namespace_id s.read_caps)
  unfolding get_read_cap
  get_read_cap_best selector s auth e =
      let wider = λ (a b : ReadAuthorisation M). is_wider_than M a.read_cap b.read_cap in
      let fits = λ (c : ReadAuthorisation M). is_covered_by selector c.read_cap in
      let stored = lookup_or [] selector.namespace_id s.read_caps in
      let trans =
        λ (a b c : ReadAuthorisation M). wider_trans order a.read_cap b.read_cap c.read_cap in
      (
        widest_of-All wider trans (λ c. fits c ≡ true) (keep fits stored) auth
            (keep-All fits stored) e,
        All-kept
            (λ (c : ReadAuthorisation M).
              Covers M c.read_cap auth.read_cap → Covers M auth.read_cap c.read_cap)
            fits stored
            (All-map (λ c. NotWider wider trans auth c)
              (λ (c : ReadAuthorisation M).
                Covers M c.read_cap auth.read_cap → Covers M auth.read_cap c.read_cap)
              (keep fits stored)
              (λ c h covers.
                sym (wider-includes order auth.read_cap c.read_cap)
                ∙ h (wider-includes order c.read_cap auth.read_cap ∙ covers))
              (widest_of_max wider trans (keep fits stored) auth e)),
      )

  -- Inserting a write capability that a selector covers: the selector then gives the new one if its
  -- area includes the area of the one that it gave before, whatever the numbers of
  -- their delegations, or if it gave none; otherwise it gives what it gave before.
  pub get_write_cap-insert_cap :
      (selector : CapSelector M) (s : CapsStore M) (cap : M.Cap)
      → is_covered_by selector cap ≡ true
      → get_write_cap selector (insert_cap (write cap) s)
        ≡ prefer
            (λ a b. M.includes_area (M.granted_area a) (M.granted_area b))
            cap
            (get_write_cap selector s)
  unfolding get_write_cap insert_cap
  get_write_cap-insert_cap selector s cap covered =
      let fits = λ (c : M.Cap). is_covered_by selector c in
      let wider = is_wider_than M in
      let trans = wider_trans order in
      let k = M.granted_namespace cap in
      let old = lookup_or [] k s.write_caps in
      let same = covered_namespace selector cap covered in
      ap (λ n. widest_of wider (keep fits (lookup_or [] n (put k (old ++ cap ∷ []) s.write_caps))))
        same
      ∙ ap (λ cs. widest_of wider (keep fits cs))
          (lookup_or-put_self [] k (old ++ cap ∷ []) s.write_caps)
      ∙ ap (widest_of wider) (
          keep-append fits old (cap ∷ [])
          ∙ ap (λ b. keep fits old ++ (if b then cap ∷ [] else [])) covered)
      ∙ widest_of-append wider trans (keep fits old) cap
      ∙ prefer_lem cap (widest_of wider (keep fits old))
      ∙ ap
          (λ n.
            prefer (λ a b. M.includes_area (M.granted_area a) (M.granted_area b)) cap
              (widest_of wider (keep fits (lookup_or [] n s.write_caps))))
          (sym same)
