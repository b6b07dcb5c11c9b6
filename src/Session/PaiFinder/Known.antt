-- ===== src/Session/PaiFinder/Known.antt =====
-- The finder of src/session/pai_finder.rs knows every fragment that it bound, after any inputs.
use iroh_willow.Prelude.{
  ℕ, ◌≡◌, sym, ◌∙◌, inl, inr, Bool, true, some, [], ◌∷◌, arith, ◌==◌, if◌then◌else◌, Bool-cases,
  keep, any, All, ◌+◌, List, map, if_cases, ap, ==_iff,
}
use iroh_willow.Prelude.Map.{Map, lookup, put, lookup-put}
use iroh_willow.Session.Error.{ok}
use iroh_willow.Session.Resource.{empty_map, bind}
use iroh_willow.Session.Pai.{
  Psi, FragmentKind, Fragment, FragmentSet, get_fragment_kit, into_fragment_set, primary, secondary,
  pair, triple, complete_set, selective_set,
}
use iroh_willow.Session.PaiFinder.{
  PaiFinder, Outcome, new, submit_fragment, last_index, submit_fragments, submit_set,
  submit_authorisation, submit_all,
}

module _ {V : Type 0} where
  abbrev pub HasKey : ℕ → Map V → Type 0
  HasKey h m = (v : V) × (lookup h m ≡ some v)

  pub HasKey-put : (h k : ℕ) (v : V) (m : Map V) → HasKey h m → HasKey h (put k v m)
  HasKey-put h k v m (w, l) = elim (Bool-cases (k == h)) [
    | inl e ↦ (v, lookup-put k h v m ∙ rw (e, if◌then◌else◌))
    | inr e ↦ (w, lookup-put k h v m ∙ rw (e, if◌then◌else◌) l)
  ]

  pub HasKey-put_self : (k : ℕ) (v : V) (m : Map V) → HasKey k (put k v m)
  HasKey-put_self k v m = (v, ground (arith, lookup-put k k v m))

  -- Writing a key that was there gives no new one.
  pub HasKey-put_same :
      (h k : ℕ) (w v : V) (m : Map V) → lookup k m ≡ some w → HasKey h (put k v m) → HasKey h m
  HasKey-put_same h k w v m old (u, l) = elim (Bool-cases (k == h)) [
    | inl e ↦ (w, ap (λ j. lookup j m) (sym ((==_iff k h).0 e)) ∙ old)
    | inr e ↦ (u, sym (lookup-put k h v m ∙ rw (e, if◌then◌else◌)) ∙ l)
  ]

  HasKey-cons : (h k : ℕ) (v : V) (m : Map V) → HasKey h m → HasKey h ((k, v) ∷ m)
  HasKey-cons h k v m (w, l) = elim (Bool-cases (k == h)) [
    | inl e ↦ (v, ground arith)
    | inr e ↦ (w, ground arith)
  ]

  within :
      (j : ℕ) (w : V) (m : Map V) (xs : Map V)
      → All (λ (kv : ℕ × V). HasKey kv.0 m) xs
      → All (λ (kv : ℕ × V). HasKey kv.0 ((j, w) ∷ m)) xs
  within j w m [] h = tt
  within j w m ((k, v) ∷ xs) (h, hs) = (HasKey-cons k j w m h, within j w m xs hs)

  -- Each entry of a map has its key there.
  pub own_keys : (m : Map V) → All (λ (kv : ℕ × V). HasKey kv.0 m) m
  own_keys [] = tt
  own_keys ((k, v) ∷ m) = ((v, ground arith), within k v m m (own_keys m))

-- A key of a map after a write is the one written, or was there before.
HasKey-put_cases :
    {V W : Type 0} (h k : ℕ) (v : V) (w : W) (m : Map V) (n : Map W)
    → HasKey h (put k v m)
    → (HasKey h m → HasKey h n)
    → HasKey h (put k w n)
HasKey-put_cases h k v w m n (u, l) keep = elim (Bool-cases (k == h)) [
  | inl e ↦ (w, lookup-put k h w n ∙ rw (e, if◌then◌else◌))
  | inr e ↦
      let before : HasKey h m = (u, sym (lookup-put k h v m ∙ rw (e, if◌then◌else◌)) ∙ l) in
      HasKey-put h k w n (keep before)
]

module _ {P : Psi} where
  -- Every fragment of ours has its information, and every request is for a fragment of ours.
  pub record IsKnown (f : PaiFinder P) : Type 0 where
    pub infos : (h : ℕ) → HasKey h f.our_intersection_handles.map → HasKey h f.fragments_info
    pub requested :
        (h : ℕ)
        → any (λ k. k == h) f.requested_subspace_cap_handles ≡ true
        → HasKey h f.our_intersection_handles.map

  -- An operation that succeeds and leaves every fragment known.
  abbrev pub IsFine : Outcome P → Type 0
  IsFine r = (r.0 ≡ ok tt) × IsKnown r.1

  pub new-IsKnown : (s : P.PsiScalar) → IsKnown (new s)
  unfolding new empty_map
  new-IsKnown s = record { infos = λ h (v, l). cc l; requested = λ h e. cc e }

  pub submit_fragment-IsKnown :
      (a : P.Authorisation) (x : Fragment P) (k : FragmentKind) (b : Bool) (f : PaiFinder P)
      → IsKnown f
      → IsKnown (submit_fragment a x k b f)
  unfolding submit_fragment bind
  submit_fragment-IsKnown a x k b f known = record {
    infos = λ h has.
        HasKey-put_cases h f.our_intersection_handles.next_handle _ _ f.our_intersection_handles.map
          f.fragments_info has (known.infos h);
    requested = λ h e.
        HasKey-put h f.our_intersection_handles.next_handle _ f.our_intersection_handles.map
          (known.requested h e);
  }

  submit_fragments-IsKnown :
      (a : P.Authorisation) (k : FragmentKind) (i last : ℕ) (xs : List (Fragment P))
      (f : PaiFinder P)
      → IsKnown f
      → IsKnown (submit_fragments a k i last xs f)
  unfolding submit_fragments
  submit_fragments-IsKnown a k i last [] f known = known
  submit_fragments-IsKnown a k i last (x ∷ xs) f known =
      submit_fragments-IsKnown a k (i + 1) last xs (submit_fragment a x k (i == last) f)
        (submit_fragment-IsKnown a x k (i == last) f known)

  submit_set-IsKnown :
      (a : P.Authorisation) (xs : FragmentSet P) (f : PaiFinder P)
      → IsKnown f
      → IsKnown (submit_set a xs f)
  unfolding submit_set
  submit_set-IsKnown a (complete_set pairs) f known =
      submit_fragments-IsKnown a primary 0 (last_index pairs) (map pair pairs) f known
  submit_set-IsKnown a (selective_set triples pairs) f known =
      submit_fragments-IsKnown a secondary 0 (last_index pairs) (map pair pairs) _
        (submit_fragments-IsKnown a primary 0 (last_index triples) (map triple triples) f known)

  pub submit_authorisation-IsKnown :
      (a : P.Authorisation) (f : PaiFinder P) → IsKnown f → IsKnown (submit_authorisation a f)
  unfolding submit_authorisation
  submit_authorisation-IsKnown a f known =
      if_cases IsKnown (any (P.same_authorisation a) f.submitted) (λ _. known)
        (λ _.
          submit_set-IsKnown a (into_fragment_set (get_fragment_kit a)) _
            (record { infos = known.infos; requested = known.requested }))

  pub submit_all-IsKnown :
      (all : List P.Authorisation) (f : PaiFinder P) → IsKnown f → IsKnown (submit_all all f)
  unfolding submit_all
  submit_all-IsKnown [] f known = known
  submit_all-IsKnown (a ∷ all) f known =
      submit_all-IsKnown all (submit_authorisation a f) (submit_authorisation-IsKnown a f known)
