-- ===== src/Wgps/Channels.antt =====
-- The channels of src/proto/wgps/channels.rs: their identifiers, a byte each, and the channel of
-- every message. A message is its kind.
pub mod Ids
mod Tests
use iroh_willow.Prelude.{ℕ, Option, none, some, List, [], ◌∷◌, map, ◌==◌, if◌then◌else◌}

pub data LogicalChannel : Type 0 where
  intersection capability area_of_interest static_token reconciliation data_channel : LogicalChannel

pub data Channel : Type 0 where
  control : Channel
  logical : LogicalChannel → Channel

pub data Kind : Type 0 where
  commitment_reveal pai_reply_fragment pai_bind_fragment pai_request_subspace_capability : Kind
  pai_reply_subspace_capability setup_bind_static_token setup_bind_read_capability : Kind
  setup_bind_area_of_interest reconciliation_send_fingerprint reconciliation_announce_entries : Kind
  reconciliation_send_entry reconciliation_send_payload reconciliation_terminate_payload : Kind
  data_send_entry data_send_payload data_set_metadata control_issue_guarantee control_absolve : Kind
  control_plead control_announce_dropping control_apologise control_free_handle : Kind

-- In the order of the declaration.
unfoldable pub logical_channels : List LogicalChannel
logical_channels =
    intersection ∷ capability ∷ area_of_interest ∷ static_token ∷ reconciliation ∷ data_channel ∷ []

unfoldable pub all_channels : List Channel
all_channels = control ∷ map logical logical_channels

unfoldable pub logical_id : LogicalChannel → ℕ
logical_id intersection = 2
logical_id area_of_interest = 3
logical_id capability = 4
logical_id static_token = 5
logical_id reconciliation = 6
logical_id data_channel = 7

-- `none` is the error `InvalidChannelId`.
unfoldable pub logical_from_id : ℕ → Option LogicalChannel
logical_from_id id =
    if id == 2
    then some intersection
    else if id == 3
    then some area_of_interest
    else if id == 4
    then some capability
    else if id == 5
    then some static_token
    else if id == 6
    then some reconciliation
    else if id == 7
    then some data_channel
    else none

unfoldable pub channel_id : Channel → ℕ
channel_id control = 0
channel_id (logical c) = logical_id c

unfoldable pub channel_from_id : ℕ → Option Channel
channel_from_id id =
    if id == 0
    then some control
    else elim (logical_from_id id) [ none ↦ none | some c ↦ some (logical c) ]

unfoldable pub channel : Kind → Channel
channel pai_bind_fragment = logical intersection
channel pai_reply_fragment = logical intersection
channel setup_bind_read_capability = logical capability
channel setup_bind_area_of_interest = logical area_of_interest
channel setup_bind_static_token = logical static_token
channel reconciliation_send_fingerprint = logical reconciliation
channel reconciliation_announce_entries = logical reconciliation
channel reconciliation_send_entry = logical reconciliation
channel reconciliation_send_payload = logical reconciliation
channel reconciliation_terminate_payload = logical reconciliation
channel data_send_entry = logical data_channel
channel data_send_payload = logical data_channel
channel data_set_metadata = logical data_channel
channel commitment_reveal = control
channel pai_request_subspace_capability = control
channel pai_reply_subspace_capability = control
channel control_issue_guarantee = control
channel control_absolve = control
channel control_plead = control
channel control_announce_dropping = control
channel control_apologise = control
channel control_free_handle = control
