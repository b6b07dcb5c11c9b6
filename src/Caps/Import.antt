-- ===== src/Caps/Import.antt =====
-- Importing capabilities, on every branch.
use iroh_willow.Prelude.{
  ◌≡◌, ◌⊎◌, inl, inr, refl, ap, true, false, List, [], ◌∷◌, ◌++◌, All, if◌then◌else◌, if_cases,
}
use iroh_willow.Caps.Meadowcap.{Meadowcap}
use iroh_willow.Caps.Interest.{CapabilityPack, pack_receiver, validate}
use iroh_willow.Caps.CapsStore.{CapsStore, SecretStore, insert_cap, has_user}
use iroh_willow.Caps.Auth.{
  AuthError, AuthResult, fine, fails, missing_user_secret, invalid_pack, import_caps,
  insert_caps_unchecked,
}

module _ {M : Meadowcap} (secrets : SecretStore M) where
  -- A pack that is valid and for a user whose secret is stored.
  abbrev pub IsUsable : CapabilityPack M → Type 0
  IsUsable cap = (validate cap ≡ true) × (has_user (pack_receiver cap) secrets ≡ true)

  -- A pack that is refused, with the error.
  abbrev pub IsRefused : CapabilityPack M → AuthError → Type 0
  IsRefused cap e =
      ((validate cap ≡ false) × (e ≡ invalid_pack))
      ⊎ ((validate cap ≡ true)
          × (has_user (pack_receiver cap) secrets ≡ false)
          × (e ≡ missing_user_secret (pack_receiver cap)))

  -- How an import ends: all packs are usable and inserted, or those before the first one that is
  -- refused.
  abbrev pub Imported :
      List (CapabilityPack M) → CapsStore M → AuthResult (Unit {0}) × CapsStore M → Type 0
  Imported caps s out =
      (All IsUsable caps × (out ≡ (fine tt, insert_caps_unchecked caps s)))
      ⊎ ((before : List (CapabilityPack M)) × (cap : CapabilityPack M) × (after : List
            (CapabilityPack M))
          × (e : AuthError) × (caps ≡ before ++ cap ∷ after)
          × All IsUsable before
          × IsRefused cap e
          × (out ≡ (fails e, insert_caps_unchecked before s)))

  Imported-cons :
      (cap : CapabilityPack M) (rest : List (CapabilityPack M)) (s : CapsStore M)
      (out : AuthResult (Unit {0}) × CapsStore M)
      → IsUsable cap
      → Imported rest (insert_cap cap s) out
      → Imported (cap ∷ rest) s out
  unfolding insert_caps_unchecked
  Imported-cons cap rest s out u (inl (all, e)) = inl ((u, all), e)
  Imported-cons cap rest s out u (inr (before, bad, after, e, split, all, refused, result)) =
      inr (cap ∷ before, bad, after, e, ap (λ cs. cap ∷ cs) split, (u, all), refused, result)

  -- An import succeeds exactly if every pack is valid and for a user whose secret is stored, and
  -- then inserts them all, in order; otherwise it fails with the error of the first pack that is
  -- not, and the packs before that one stay inserted.
  pub import_caps_lem :
      (caps : List (CapabilityPack M)) (s : CapsStore M)
      → Imported caps s (import_caps caps secrets s)
  unfolding import_caps insert_caps_unchecked
  import_caps_lem [] s = inl (tt, refl)
  import_caps_lem (cap ∷ rest) s =
      let Out : Type 0 = AuthResult (Unit {0}) × CapsStore M in
      let P : Out → Type 0 = λ out. Imported (cap ∷ rest) s out in
      let later : Out = import_caps rest secrets (insert_cap cap s) in
      let unknown : Out = (fails (missing_user_secret (pack_receiver cap)), s) in
      let invalid : Out = (fails invalid_pack, s) in
      if_cases P {x = if has_user (pack_receiver cap) secrets then later else unknown} {y = invalid}
        (validate cap)
        (λ valid.
          if_cases P {x = later} {y = unknown} (has_user (pack_receiver cap) secrets)
            (λ usable.
              Imported-cons cap rest s later (valid, usable)
                (import_caps_lem rest (insert_cap cap s)))
            (λ missing. inr ([], cap, rest, _, refl, tt, inr (valid, missing, refl), refl)))
        (λ e. inr ([], cap, rest, invalid_pack, refl, tt, inl (e, refl), refl))
