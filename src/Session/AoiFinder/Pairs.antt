-- ===== src/Session/AoiFinder/Pairs.antt =====
-- Which pairs of areas of interest src/session/aoi_finder.rs finds.
use iroh_willow.Prelude.{
  ℕ, suc, ◌+◌, ◌%◌, ◌^◌, ◌<◌, ◌==◌, ◌≡◌, refl, ap, Bool, true, false, ◌&&◌, Option, none, some,
  List, [], ◌∷◌, ◌++◌, length, if◌then◌else◌, arith,
}
use iroh_willow.Prelude.Map.{Map, lookup, put, lookup-put, IsDistinct}
use iroh_willow.Session.Resource.{ResourceMap, bind, empty_map}
use iroh_willow.Session.Resource.Laws.{IsValid, bind_lem, lookup-KeysBelow}
use iroh_willow.Session.AoiFinder.{
  Interest, Scope, ours, theirs, AoiInfo, Found, AoiResources, no_resources, found_at, intersecting,
  bind_validated,
}

abbrev is_some : {A : Type 0} → Option A → Bool
is_some none = false
is_some (some _) = true

-- That two areas intersect does not depend on their order.
abbrev pub Symmetric : Interest → Type 0
Symmetric I = (a b : I.Aoi) → is_some (I.intersection a b) ≡ is_some (I.intersection b a)

module _ {I : Interest} where
  -- How often a pair of handles was found.
  unfoldable pub times_found : ℕ → ℕ → List (Found I) → ℕ
  times_found i j [] = 0
  times_found i j (f ∷ fs) =
      if f.our_handle == i && f.their_handle == j
      then suc (times_found i j fs)
      else times_found i j fs

  -- 1 if two areas are of one namespace and intersect, else 0.
  abbrev pub meets : Option (AoiInfo I) → Option (AoiInfo I) → ℕ
  meets (some a) (some b) =
      if a.namespace == b.namespace && is_some (I.intersection a.aoi b.aoi) then 1 else 0
  meets _ _ = 0

  times_found-append :
      (i j : ℕ) (fs gs : List (Found I))
      → times_found i j (fs ++ gs) ≡ times_found i j fs + times_found i j gs
  unfolding times_found
  times_found-append i j [] gs = omega arith
  times_found-append i j (f ∷ fs) gs = ground (arith, times_found-append i j fs gs)

  times_found-ours :
      (i j h ns : ℕ) (aoi : I.Aoi) (m : Map (AoiInfo I))
      → IsDistinct m
      → times_found i j (intersecting ours h ns aoi m)
        ≡ (if h == i then meets (lookup j m) (some (record { aoi = aoi; namespace = ns })) else 0)
  unfolding times_found intersecting found_at
  times_found-ours i j h ns aoi [] d = ground arith
  times_found-ours i j h ns aoi ((k, info) ∷ m) d =
      ground (arith, times_found-ours i j h ns aoi m d.1)

  times_found-theirs :
      (i j h ns : ℕ) (aoi : I.Aoi) (m : Map (AoiInfo I))
      → IsDistinct m
      → times_found i j (intersecting theirs h ns aoi m)
        ≡ (if h == j then meets (lookup i m) (some (record { aoi = aoi; namespace = ns })) else 0)
  unfolding times_found intersecting found_at
  times_found-theirs i j h ns aoi [] d = ground arith
  times_found-theirs i j h ns aoi ((k, info) ∷ m) d =
      ground (arith, times_found-theirs i j h ns aoi m d.1)

  meets_flip : Symmetric I → (a b : Option (AoiInfo I)) → meets a b ≡ meets b a
  meets_flip law none none = refl
  meets_flip law none (some b) = refl
  meets_flip law (some a) none = refl
  meets_flip law (some a) (some b) = ground (arith, law a.aoi b.aoi)

  abbrev pub pair : ℕ → ℕ → AoiResources I → ℕ
  pair i j r = meets (lookup i r.our_handles.map) (lookup j r.their_handles.map)

  abbrev pub Valid : AoiResources I → Type 0
  Valid r = IsValid r.our_handles × IsValid r.their_handles

  meets-put_left :
      (i h : ℕ) (a : AoiInfo I) (m : Map (AoiInfo I)) (o : Option (AoiInfo I))
      → lookup h m ≡ none
      → (if h == i then meets (some a) o else 0) + meets (lookup i m) o
        ≡ meets (lookup i (put h a m)) o
  meets-put_left i h a m none fresh = ground (arith, lookup-put h i a m)
  meets-put_left i h a m (some b) fresh = ground (arith, lookup-put h i a m)

  meets-put_right :
      (j h : ℕ) (b : AoiInfo I) (m : Map (AoiInfo I)) (o : Option (AoiInfo I))
      → lookup h m ≡ none
      → (if h == j then meets o (some b) else 0) + meets o (lookup j m)
        ≡ meets o (lookup j (put h b m))
  meets-put_right j h b m none fresh = ground (arith, lookup-put h j b m)
  meets-put_right j h b m (some a) fresh = ground (arith, lookup-put h j b m)

  step_ours :
      Symmetric I
      → (i j ns : ℕ) (aoi : I.Aoi) (r : AoiResources I) → Valid r
      → times_found i j (bind_validated ours ns aoi r).1 + pair i j r
        ≡ pair i j (bind_validated ours ns aoi r).0
  unfolding bind_validated bind
  step_ours law i j ns aoi r v =
      let h : ℕ = r.our_handles.next_handle in
      let a : AoiInfo I = record { aoi = aoi; namespace = ns } in
      let fresh : lookup h r.our_handles.map ≡ none =
        lookup-KeysBelow h h r.our_handles.map v.0.below (omega arith) in
      let flip : (if h == i then meets (lookup j r.their_handles.map) (some a) else 0)
          ≡ (if h == i then meets (some a) (lookup j r.their_handles.map) else 0) =
        ap (λ n. if h == i then n else 0)
          (meets_flip law (lookup j r.their_handles.map) (some a)) in
      omega (
        arith,
        times_found-ours i j h ns aoi r.their_handles.map v.1.distinct,
        flip,
        meets-put_left i h a r.our_handles.map (lookup j r.their_handles.map) fresh,
      )

  step_theirs :
      (i j ns : ℕ) (aoi : I.Aoi) (r : AoiResources I)
      → Valid r
      → times_found i j (bind_validated theirs ns aoi r).1 + pair i j r
        ≡ pair i j (bind_validated theirs ns aoi r).0
  unfolding bind_validated bind
  step_theirs i j ns aoi r v =
      let h : ℕ = r.their_handles.next_handle in
      let b : AoiInfo I = record { aoi = aoi; namespace = ns } in
      let fresh : lookup h r.their_handles.map ≡ none =
        lookup-KeysBelow h h r.their_handles.map v.1.below (omega arith) in
      omega (
        arith,
        times_found-theirs i j h ns aoi r.our_handles.map v.0.distinct,
        meets-put_right j h b r.their_handles.map (lookup i r.our_handles.map) fresh,
      )

  -- Both counters have room for some bindings.
  abbrev pub Room : ℕ → AoiResources I → Type 0
  Room n r = (r.our_handles.next_handle + n < 2 ^ 64) × (r.their_handles.next_handle + n < 2 ^ 64)

  bind_room :
      (m : ResourceMap (AoiInfo I)) (n : ℕ) (a : AoiInfo I)
      → m.next_handle + suc n < 2 ^ 64
      → (bind a m).after.next_handle + n < 2 ^ 64
  unfolding bind
  bind_room m n a room =
      let next : (m.next_handle + 1) % 2 ^ 64 ≡ m.next_handle + 1 = omega (arith, room) in
      omega (arith, next, room)

  bind_validated-Valid :
      (scope : Scope) (ns n : ℕ) (aoi : I.Aoi) (r : AoiResources I)
      → Valid r
      → Room (suc n) r
      → Valid (bind_validated scope ns aoi r).0 × Room n (bind_validated scope ns aoi r).0
  unfolding bind_validated
  bind_validated-Valid ours ns n aoi r v room = (
    (
      (bind_lem r.our_handles (record { aoi = aoi; namespace = ns }) v.0 (omega (arith, room.0))).0,
      v.1,
    ),
    (
      bind_room r.our_handles n (record { aoi = aoi; namespace = ns }) room.0,
      omega (arith, room.1),
    ),
  )
  bind_validated-Valid theirs ns n aoi r v room = (
    (
      v.0,
      (bind_lem r.their_handles (record { aoi = aoi; namespace = ns }) v.1
          (omega (arith, room.1))).0,
    ),
    (
      omega (arith, room.0),
      bind_room r.their_handles n (record { aoi = aoi; namespace = ns }) room.1,
    ),
  )

  -- A sequence of bindings of areas of either side.
  unfoldable pub bind_all :
      List (Scope × ℕ × I.Aoi) → AoiResources I → AoiResources I × List (Found I)
  bind_all [] r = (r, [])
  bind_all ((scope, ns, aoi) ∷ rest) r =
      let (r1, found) = bind_validated scope ns aoi r in
      let (r2, later) = bind_all rest r1 in (r2, found ++ later)

  step :
      Symmetric I
      → (i j : ℕ) (scope : Scope) (ns : ℕ) (aoi : I.Aoi) (r : AoiResources I) → Valid r
      → times_found i j (bind_validated scope ns aoi r).1 + pair i j r
        ≡ pair i j (bind_validated scope ns aoi r).0
  step law i j ours ns aoi r v = step_ours law i j ns aoi r v
  step law i j theirs ns aoi r v = step_theirs i j ns aoi r v

  bind_all_lem :
      Symmetric I
      → (i j : ℕ) (binds : List (Scope × ℕ × I.Aoi)) (r : AoiResources I) → Valid r
      → Room (length binds) r
      → times_found i j (bind_all binds r).1 + pair i j r ≡ pair i j (bind_all binds r).0
  unfolding bind_all times_found
  bind_all_lem law i j [] r v room = omega arith
  bind_all_lem law i j ((scope, ns, aoi) ∷ rest) r v room =
      let (r1, found) = bind_validated scope ns aoi r in
      let next = bind_validated-Valid scope ns (length rest) aoi r v room in
      omega (
        arith,
        times_found-append i j found (bind_all rest r1).1,
        step law i j scope ns aoi r v,
        bind_all_lem law i j rest r1 next.0 next.1,
      )

module _ (I : Interest) where
  -- After any sequence of bindings of areas of interest by either peer, in any order, a pair of a
  -- handle of ours and a handle of theirs was found exactly once if the two areas are of one
  -- namespace and intersect, and never otherwise. It relies on the order of two areas not mattering
  -- for whether they intersect, and on there being fewer bindings than handles.
  pub pairs_found_once :
      Symmetric I
      → (i j : ℕ) (binds : List (Scope × ℕ × I.Aoi)) → length binds < 2 ^ 64
      → let (r, found) = bind_all {I = I} binds no_resources in
        times_found i j found ≡ meets (lookup i r.our_handles.map) (lookup j r.their_handles.map)
  unfolding no_resources empty_map
  pairs_found_once law i j binds room = omega (
    arith,
    bind_all_lem {I = I} law i j binds no_resources
        (record { below = tt; distinct = tt }, record { below = tt; distinct = tt })
        (omega (arith, room), omega (arith, room)),
  )
