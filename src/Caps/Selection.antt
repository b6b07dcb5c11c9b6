-- ===== src/Caps/Selection.antt =====
-- Which capability a selector gives.
use iroh_willow.Prelude.{
  ◌≡◌, refl, ap, subst, Bool, true, Option, none, some, List, [], ◌∷◌, ◌++◌, All, if◌then◌else◌,
  if_cases, arith,
}
use iroh_willow.Caps.CapsStore.{widest_from, widest_of}

-- The new one if it is wider than the old one, or if there is no old one.
abbrev pub prefer : {A : Type 0} → (A → A → Bool) → A → Option A → Option A
prefer wider new none = some new
prefer wider new (some old) = some (if wider new old then new else old)

module _ {A : Type 0} (wider : A → A → Bool)
    (trans : (a b c : A) → wider a b ≡ true → wider b c ≡ true → wider a c ≡ true) where
  -- None is strictly wider than `r`.
  abbrev pub NotWider : A → A → Type 0
  NotWider r c = wider c r ≡ true → wider r c ≡ true

  seen_lem : (c prev : A) (xs : List A) → NotWider prev c → NotWider (widest_from wider prev xs) c
  unfolding widest_from
  seen_lem c prev [] h = h
  seen_lem c prev (next ∷ rest) h =
      if_cases (λ r. NotWider r c) (wider next prev)
        (λ e. seen_lem c next rest (λ cn. trans next prev c e (h (trans c next prev cn e))))
        (λ e. seen_lem c prev rest h)

  widest_from_max : (prev : A) (xs : List A) → All (λ c. NotWider (widest_from wider prev xs) c) xs
  unfolding widest_from
  widest_from_max prev [] = tt
  widest_from_max prev (next ∷ rest) =
      if_cases (λ r. All (λ c. NotWider r c) (next ∷ rest)) (wider next prev)
        (λ e. (seen_lem next next rest (λ h. h), widest_from_max next rest))
        (λ e. (seen_lem next prev rest (λ h. ground arith), widest_from_max prev rest))

  widest_from-append :
      (prev : A) (xs : List A) (y : A)
      → widest_from wider prev (xs ++ y ∷ [])
        ≡ (if wider y (widest_from wider prev xs) then y else widest_from wider prev xs)
  unfolding widest_from
  widest_from-append prev [] y = refl
  widest_from-append prev (next ∷ rest) y =
      if_cases
        (λ r.
          (if wider next prev
            then widest_from wider next (rest ++ y ∷ [])
            else widest_from wider prev (rest ++ y ∷ []))
          ≡ (if wider y r then y else r))
        (wider next prev) (λ e. simp e (widest_from-append next rest y))
        (λ e. simp e (widest_from-append prev rest y))

  widest_from-All :
      (P : A → Type 0) (prev : A) (xs : List A) → P prev → All P xs → P (widest_from wider prev xs)
  unfolding widest_from
  widest_from-All P prev [] p h = p
  widest_from-All P prev (next ∷ rest) p h =
      if_cases P (wider next prev) (λ e. widest_from-All P next rest h.0 h.1)
        (λ e. widest_from-All P prev rest p h.1)

  pub widest_of_max :
      (xs : List A) (r : A) → widest_of wider xs ≡ some r → All (λ c. NotWider r c) xs
  unfolding widest_of
  widest_of_max [] r e = tt
  widest_of_max (first ∷ rest) r e =
      let same : widest_from wider first rest ≡ r = cc e in
      subst (λ s. All (λ c. NotWider s c) (first ∷ rest)) same
        (seen_lem first first rest (λ h. h), widest_from_max first rest)

  pub widest_of-append :
      (xs : List A) (y : A) → widest_of wider (xs ++ y ∷ []) ≡ prefer wider y (widest_of wider xs)
  unfolding widest_of widest_from
  widest_of-append [] y = refl
  widest_of-append (x ∷ xs) y = ap some (widest_from-append x xs y)

  pub widest_of-All :
      (P : A → Type 0) (xs : List A) (r : A) → All P xs → widest_of wider xs ≡ some r → P r
  unfolding widest_of
  widest_of-All P [] r h e = cc e
  widest_of-All P (first ∷ rest) r h e =
      let same : widest_from wider first rest ≡ r = cc e in
      subst (λ s. P s) same (widest_from-All P first rest h.0 h.1)
