-- ===== src/Wgps/Channels/Tests.antt =====
-- Channel identifiers at concrete inputs.
use iroh_willow.Prelude.{◌≡◌, refl, none, [], ◌∷◌, map}
use iroh_willow.Wgps.Channels.{
  logical_channels, all_channels, logical_id, logical_from_id, channel_id, channel_from_id, channel,
}

program : Unit {0}
unfolding logical_channels all_channels logical_id logical_from_id channel_id channel_from_id
    channel
program = tt

ids : map channel_id all_channels ≡ 0 ∷ 2 ∷ 4 ∷ 3 ∷ 5 ∷ 6 ∷ 7 ∷ []
unfolding program
ids = refl

unused : channel_from_id 1 ≡ none
unfolding program
unused = refl
