-- ===== src/Session/Resource/Laws.antt =====
-- What binding, finding, updating and waiting for a resource do.
use iroh_willow.Prelude.{
  ℕ, ◌+◌, ◌%◌, ◌^◌, ◌≤◌, ◌<◌, ◌≡◌, ◌≢◌, ◌↔◌, refl, ap, sym, subst, ◌∙◌, Bool, true, false, none,
  some, List, [], ◌∷◌, ◌++◌, ◌==◌, All, arith, ◌⊎◌, inl, inr, Option-cases, Bool-cases,
}
use iroh_willow.Prelude.Map.{
  Map, lookup, put, lookup_or, lookup-put, lookup-remove, IsDistinct, put-IsDistinct,
  lookup_or-put_self,
}
use iroh_willow.Session.Error.{ok, err, Error}
use iroh_willow.Session.Resource.{
  ResourceMap, pending, Bound, bind, try_get, poll_get_eventually, update, find_handle, bind_if_new,
}

module _ {R : Type 0} where
  -- Every bound handle was given out: it is below the next one.
  abbrev pub KeysBelow : ℕ → Map R → Type 0
  KeysBelow n m = All (λ (kv : ℕ × R). kv.0 < n) m

  -- The handles are below the counter, which has not run over.
  pub record IsValid (m : ResourceMap R) : Type 0 where
    pub below : KeysBelow m.next_handle m.map
    pub distinct : IsDistinct m.map

  pub lookup-KeysBelow : (n k : ℕ) (m : Map R) → KeysBelow n m → n ≤ k → lookup k m ≡ none
  lookup-KeysBelow n k [] h l = refl
  lookup-KeysBelow n k ((j, v) ∷ m) h l = ground (arith, lookup-KeysBelow n k m h.1)

  put-KeysBelow :
      (n k : ℕ) (v : R) (m : Map R) → KeysBelow n m → n ≤ k → KeysBelow (k + 1) (put k v m)
  put-KeysBelow n k v [] h l = (omega arith, tt)
  put-KeysBelow n k v ((j, w) ∷ m) h l =
      let differs : (j == k) ≡ false = ground arith in
      rw differs (omega arith, put-KeysBelow n k v m h.1 l)

  -- Binding a resource, while the 64-bit counter has room, gives out the next handle, keeps the
  -- map valid, resolves the new handle to the resource, leaves every other handle as it was, and
  -- wakes exactly those who wait for the new handle.
  pub bind_lem :
      (m : ResourceMap R) (r : R)
      → IsValid m
      → m.next_handle + 1 < 2 ^ 64
      → let b = bind r m in
        IsValid b.after
        × (try_get b.handle b.after ≡ ok r)
        × ((h : ℕ) → h ≢ b.handle → try_get h b.after ≡ try_get h m)
        × (try_get b.handle m ≡ err Error.missing_resource)
        × (b.woken ≡ lookup_or [] b.handle m.wakers)
        × (lookup b.handle b.after.wakers ≡ none)
  unfolding bind try_get
  bind_lem m r v room =
      let next : (m.next_handle + 1) % 2 ^ 64 ≡ m.next_handle + 1 = omega arith in
      (
        record {
          below = rw next (put-KeysBelow m.next_handle m.next_handle r m.map v.below (omega arith));
          distinct = put-IsDistinct m.next_handle r m.map v.distinct;
        },
        ground (arith, lookup-put m.next_handle m.next_handle r m.map),
        λ h other. ground (arith, lookup-put m.next_handle h r m.map),
        rw (lookup-KeysBelow m.next_handle m.next_handle m.map v.below (omega arith), try_get),
        refl,
        ground (arith, lookup-remove m.next_handle m.next_handle m.wakers),
      )

  poll_get_eventually_pending :
      (h w : ℕ) (m : ResourceMap R)
      → lookup h m.map ≡ none
      → poll_get_eventually h w m
        ≡ (pending, record m { wakers = put h (lookup_or [] h m.wakers ++ w ∷ []) m.wakers })
  unfolding poll_get_eventually
  poll_get_eventually_pending h w m e = rw (e, poll_get_eventually)

  -- Whoever waits for the next handle stays pending and is woken, after those who waited before,
  -- by the binding that gives this handle out; waiting does not change what is bound.
  pub waiting_is_woken :
      (m : ResourceMap R) (r : R) (w : ℕ)
      → IsValid m
      → let (polled, m') = poll_get_eventually m.next_handle w m in
        (polled ≡ pending)
        × ((bind r m').handle ≡ m.next_handle)
        × ((bind r m').woken ≡ lookup_or [] m.next_handle m.wakers ++ w ∷ [])
        × ((bind r m').after.map ≡ (bind r m).after.map)
  unfolding bind
  waiting_is_woken m r w v =
      let free = lookup-KeysBelow m.next_handle m.next_handle m.map v.below (omega arith) in
      let e = poll_get_eventually_pending m.next_handle w m free in
      let waiters : List ℕ = lookup_or [] m.next_handle m.wakers ++ w ∷ [] in
      (
        ap (λ p. p.0) e,
        ap (λ p. (bind r p.1).handle) e,
        ap (λ p. (bind r p.1).woken) e ∙ lookup_or-put_self [] m.next_handle waiters m.wakers,
        ap (λ p. (bind r p.1).after.map) e,
      )

  -- Updating resolves a bound handle to the new resource and leaves the others; a handle that is
  -- not bound is an error.
  pub update_lem :
      (m : ResourceMap R) (h : ℕ) (r : R)
      → ((lookup h m.map ≡ none) × (update h r m ≡ err Error.missing_resource))
        ⊎ ((m' : ResourceMap R) × (update h r m ≡ ok m')
            × (try_get h m' ≡ ok r)
            × ((j : ℕ) → j ≢ h → try_get j m' ≡ try_get j m)
            × (m'.next_handle ≡ m.next_handle))
  unfolding update try_get
  update_lem m h r = elim (Option-cases (lookup h m.map)) [
    | inl e ↦ inl (e, rw (e, update))
    | inr (old, e) ↦ inr (
      record m { map = put h r m.map },
      rw (e, update),
      ground (arith, lookup-put h h r m.map),
      λ j other. ground (arith, lookup-put h j r m.map),
      refl,
    )
  ]

  module _ (eq : R → R → Bool) (eq_decides : (a b : R) → (eq a b ≡ true) ↔ (a ≡ b)) where
    pub lookup-find_handle :
        (r : R) (m : Map R) (h : ℕ)
        → find_handle eq r m ≡ some h
        → IsDistinct m
        → lookup h m ≡ some r
    unfolding find_handle
    lookup-find_handle r [] h e d = cc
    lookup-find_handle r ((j, v) ∷ m) h e d = elim (Bool-cases (eq v r)) [
      | inl same ↦ let v_r = (eq_decides v r).0 same in ground arith
      | inr differs ↦ let ih = lookup-find_handle r m h (ground arith) d.1 in ground arith
    ]

    find_handle-put :
        (r : R) (m : Map R) (h : ℕ)
        → find_handle eq r m ≡ none
        → lookup h m ≡ none
        → find_handle eq r (put h r m) ≡ some h
    unfolding find_handle
    find_handle-put r [] h e d = let same = (eq_decides r r).1 refl in ground arith
    find_handle-put r ((j, v) ∷ m) h e d = ground (arith, find_handle-put r m h)

    -- What binding a resource only if it is new promises of its outcome.
    abbrev pub Rebinds : ResourceMap R → R → Bound R → Type 0
    Rebinds m r b =
        IsValid b.after
        × (try_get b.handle b.after ≡ ok r)
        × ((h : ℕ) (s : R) → try_get h m ≡ ok s → try_get h b.after ≡ ok s)
        × (bind_if_new eq r b.after
            ≡ (record { handle = b.handle; woken = []; after = b.after }, false))

    pub bind_if_new_known :
        (m : ResourceMap R) (r : R) (h : ℕ)
        → find_handle eq r m.map ≡ some h
        → bind_if_new eq r m ≡ (record { handle = h; woken = []; after = m }, false)
    unfolding bind_if_new
    bind_if_new_known m r h e = rw (e, bind_if_new)

    pub bind_if_new_fresh :
        (m : ResourceMap R) (r : R)
        → find_handle eq r m.map ≡ none
        → bind_if_new eq r m ≡ (bind r m, true)
    unfolding bind_if_new
    bind_if_new_fresh m r e = rw (e, bind_if_new)

    try_get_lem : (m : ResourceMap R) (r : R) (h : ℕ) → lookup h m.map ≡ some r → try_get h m ≡ ok r
    unfolding try_get
    try_get_lem m r h e = rw (e, try_get)

    bind-Rebinds :
        (m : ResourceMap R) (r : R)
        → IsValid m
        → m.next_handle + 1 < 2 ^ 64
        → find_handle eq r m.map ≡ none
        → Rebinds m r (bind r m)
    bind-Rebinds m r v room new =
        let (valid, got, others, missing, _, _) = bind_lem m r v room in
        let free = lookup-KeysBelow m.next_handle m.next_handle m.map v.below (omega arith) in
        (
          valid,
          got,
          λ h s e. others h (λ same. cc (ap (λ k. try_get k m) same, e, missing)) ∙ e,
          bind_if_new_known (bind r m).after r (bind r m).handle
              (unfold bind in find_handle-put r m.map m.next_handle new free),
        )

    -- While the counter has room, binding a resource only if it is new gives a handle that
    -- resolves to it, keeps the map valid and every handle that was bound, and doing it again
    -- gives the same handle, not new, and changes nothing.
    pub bind_if_new-Rebinds :
        (m : ResourceMap R) (r : R)
        → IsValid m
        → m.next_handle + 1 < 2 ^ 64
        → Rebinds m r (bind_if_new eq r m).0
    bind_if_new-Rebinds m r v room = elim (Option-cases (find_handle eq r m.map)) [
      | inl new ↦
          subst (λ p. Rebinds m r p.0) (sym (bind_if_new_fresh m r new))
            (bind-Rebinds m r v room new)
      | inr (h, known) ↦
          subst (λ p. Rebinds m r p.0) (sym (bind_if_new_known m r h known))
            (
              v,
              try_get_lem m r h (lookup-find_handle r m.map h known v.distinct),
              λ j s e. e,
              bind_if_new_known m r h known,
            )
    ]
