-- ===== src/Wgps/Channels/Ids.antt =====
-- Channel identifiers, both ways.
use iroh_willow.Prelude.{
  ℕ, ◌≡◌, ◌↔◌, refl, sym, ap, ◌∙◌, Option, some, ◌==◌, if_cases, ==_iff, Option-cases, inl, inr,
}
use iroh_willow.Wgps.Channels.{
  LogicalChannel, intersection, area_of_interest, capability, static_token, reconciliation,
  data_channel, Channel, control, logical, logical_id, logical_from_id, channel_id, channel_from_id,
}

logical_from_id-logical_id : (c : LogicalChannel) → logical_from_id (logical_id c) ≡ some c
unfolding logical_id logical_from_id
logical_from_id-logical_id intersection = refl
logical_from_id-logical_id capability = refl
logical_from_id-logical_id area_of_interest = refl
logical_from_id-logical_id static_token = refl
logical_from_id-logical_id reconciliation = refl
logical_from_id-logical_id data_channel = refl

some_id : (c d : LogicalChannel) → some d ≡ some c → logical_id c ≡ logical_id d
some_id c d e = let same : d ≡ c = cc e in sym (ap logical_id same)

logical_id_read : (n : ℕ) (c : LogicalChannel) → logical_from_id n ≡ some c → logical_id c ≡ n
unfolding logical_id logical_from_id
logical_id_read n c =
    let P : Option LogicalChannel → Type 0 = λ o. o ≡ some c → logical_id c ≡ n in
    if_cases P (n == 2) (λ e f. some_id c intersection f ∙ sym ((==_iff n 2).0 e))
      λ _.
        if_cases P (n == 3) (λ e f. some_id c area_of_interest f ∙ sym ((==_iff n 3).0 e))
          λ _.
            if_cases P (n == 4) (λ e f. some_id c capability f ∙ sym ((==_iff n 4).0 e))
              λ _.
                if_cases P (n == 5) (λ e f. some_id c static_token f ∙ sym ((==_iff n 5).0 e))
                  λ _.
                    if_cases P (n == 6) (λ e f. some_id c reconciliation f ∙ sym ((==_iff n 6).0 e))
                      λ _.
                        if_cases P (n == 7)
                          (λ e f. some_id c data_channel f ∙ sym ((==_iff n 7).0 e)) λ _ f. cc f

channel_id_read : (n : ℕ) (c : Channel) → channel_from_id n ≡ some c → channel_id c ≡ n
unfolding channel_id channel_from_id
channel_id_read n c =
    if_cases (λ (o : Option Channel). o ≡ some c → channel_id c ≡ n) (n == 0)
      (λ e f. let same : control ≡ c = cc f in sym (ap channel_id same) ∙ sym ((==_iff n 0).0 e))
      (λ _. elim (Option-cases (logical_from_id n)) [
        | inl e ↦ rw e (λ f. cc f)
        | inr (d, e) ↦ rw e (λ f.
            let same : logical d ≡ c = cc f in sym (ap channel_id same) ∙ logical_id_read n d e)
      ])

channel_from_id-channel_id : (c : Channel) → channel_from_id (channel_id c) ≡ some c
unfolding channel_id channel_from_id logical_id logical_from_id
channel_from_id-channel_id control = refl
channel_from_id-channel_id (logical intersection) = refl
channel_from_id-channel_id (logical capability) = refl
channel_from_id-channel_id (logical area_of_interest) = refl
channel_from_id-channel_id (logical static_token) = refl
channel_from_id-channel_id (logical reconciliation) = refl
channel_from_id-channel_id (logical data_channel) = refl

-- An identifier is read as a channel exactly if it is that channel's identifier: what is written is
-- read back, nothing else is accepted, and no two channels share an identifier.
pub channel_from_id_iff : (n : ℕ) (c : Channel) → (channel_from_id n ≡ some c) ↔ (channel_id c ≡ n)
channel_from_id_iff n c =
    (channel_id_read n c, λ e. ap channel_from_id (sym e) ∙ channel_from_id-channel_id c)
