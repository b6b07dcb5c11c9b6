-- ===== src/Session/Data.antt =====
-- The data channel of src/session/data.rs: `DataSender` sends new entries with their payloads,
-- `DataReceiver` takes them in. The static tokens are those that a session shares; what is sent,
-- subscribed and ingested is recorded in order. The entry store's ingestion is recorded, not run.
pub mod Delivery
pub mod Received
pub mod Refused
mod Tests
use iroh_willow.Prelude.{if◌then◌else◌, ℕ, List, [], ◌∷◌, ◌++◌, Option, none, some}
use iroh_willow.Session.Error.{Error, Result, ok, err, panicked}
use iroh_willow.Session.Resource.{PollResource, ready, pending}
use iroh_willow.Session.Payload.{
  CurrentPayload, set, recv_chunk, is_complete, finalize, ensure_none,
}
use iroh_willow.Session.StaticTokens.{Tokens, bind_and_send_ours, authorise_entry_eventually}
use iroh_willow.Session.Storage.{Storage, Bytes, Message}

pub data DataMessage (S : Storage) : Type 0 where
  -- The entry, the handle of its static token, its dynamic token, and the offset.
  data_send_entry : S.Entry → ℕ → S.DynamicToken → ℕ → DataMessage S
  data_send_payload : Bytes → DataMessage S
  data_set_metadata : DataMessage S

-- What goes over the channel of the static tokens, and over that of the data.
pub data Sent (S : Storage) : Type 0 where
  setup : Message S → Sent S
  message : DataMessage S → Sent S

pub record DataSender (S : Storage) : Type 0 where
  pub static_tokens : Tokens S
  -- The areas of the entry streams that run.
  pub entry_stream : List (S.Namespace × S.Area)
  pub sent : List (Sent S)

-- What the loop of the sender is woken by: its inbox, or the merged streams.
pub data Tick (S : Storage) : Type 0 where
  aoi_intersection : S.Namespace → S.Area → Tick S
  inbox_closed : Tick S
  ingested_event : S.Entry × S.StaticToken × S.DynamicToken → Tick S
  other_event : Tick S
  streams_ended : Tick S

pub data Turn (S : Storage) : Type 0 where
  goes_on : DataSender S → Turn S
  breaks : DataSender S → Turn S
  panics : Turn S

pub record DataReceiver (S : Storage) : Type 0 where
  pub current_payload : CurrentPayload S
  pub static_tokens : Tokens S
  pub ingested : List (S.Entry × S.StaticToken × S.DynamicToken)

module _ {S : Storage} where
  unfoldable pub data_payload_messages : List Bytes → List (Sent S)
  data_payload_messages [] = []
  data_payload_messages (bytes ∷ rest) =
      message (data_send_payload bytes) ∷ data_payload_messages rest

  -- The chunks of the payload, if it is stored.
  unfoldable pub send_chunked : S.Digest → List (Sent S)
  send_chunked digest = elim (S.payload_chunks digest) [
    | none ↦ []
    | some chunks ↦ data_payload_messages chunks
  ]

  unfoldable pub setups : List (Message S) → List (Sent S)
  setups [] = []
  setups (m ∷ ms) = setup m ∷ setups ms

  unfoldable pub send_entry :
      S.Entry × S.StaticToken × S.DynamicToken → Tokens S → List (Sent S) × Tokens S
  send_entry (entry, static, dynamic) tokens =
      let (handle, bound, after) = bind_and_send_ours static tokens in
      (
        setups bound
            ++ (message (data_send_entry entry handle dynamic 0)
                ∷ send_chunked (S.payload_digest entry)),
        after,
      )

  -- The streams are only asked while there are any.
  unfoldable pub on_stream : Tick S → DataSender S → Turn S
  on_stream (ingested_event authorised) d =
      let (messages, tokens) = send_entry authorised d.static_tokens in
      goes_on (record d { static_tokens = tokens; sent = d.sent ++ messages })
  on_stream other_event d = panics
  on_stream streams_ended d = breaks (record d { entry_stream = [] })
  on_stream (aoi_intersection namespace area) d = goes_on d
  on_stream inbox_closed d = goes_on d

  unfoldable pub turn : Tick S → DataSender S → Turn S
  turn inbox_closed d = breaks d
  turn (aoi_intersection namespace area) d =
      goes_on (record d { entry_stream = d.entry_stream ++ (namespace, area) ∷ [] })
  turn tick d = elim d.entry_stream [ [] ↦ goes_on d | _ ∷ _ ↦ on_stream tick d ]

  unfoldable pub run_sender : List (Tick S) → DataSender S → Result (DataSender S)
  run_sender [] d = ok d
  run_sender (tick ∷ ticks) d = elim (turn tick d) [
    | goes_on d1 ↦ run_sender ticks d1
    | breaks d1 ↦ ok d1
    | panics ↦ panicked
  ]

  -- An authorised entry: first the store, then the payload that follows.
  unfoldable pub ingest_sent :
      ℕ
      → S.Entry × S.StaticToken × S.DynamicToken
      → DataReceiver S
      → Result (Unit {0}) × DataReceiver S
  ingest_sent offset (entry, static, dynamic) r =
      let (result, payload) =
        set (S.payload_digest entry) (S.payload_length entry) none (some offset)
          r.current_payload in
      (
        result,
        record r {
          current_payload = payload;
          ingested = r.ingested ++ (entry, static, dynamic) ∷ [];
        },
      )

  unfoldable pub ingest_authorised :
      ℕ
      → Result (S.Entry × S.StaticToken × S.DynamicToken)
      → DataReceiver S
      → Result (Unit {0}) × DataReceiver S
  ingest_authorised offset (ok authorised) r = ingest_sent offset authorised r
  ingest_authorised offset (err e) r = (err e, r)
  ingest_authorised offset panicked r = (panicked, r)

  -- `pending` while the static token is not bound.
  unfoldable pub authorise_sent :
      S.Entry
      → ℕ
      → S.DynamicToken
      → ℕ
      → ℕ
      → DataReceiver S
      → PollResource (Result (Unit {0})) × DataReceiver S
  authorise_sent entry handle dynamic offset waker r =
      let (polled, tokens) =
        authorise_entry_eventually entry handle dynamic waker r.static_tokens in
      let r1 = record r { static_tokens = tokens } in
      elim polled [
        | pending ↦ (pending, r1)
        | ready authorised ↦
            let done = ingest_authorised offset authorised r1 in (ready done.0, done.1)
      ]

  unfoldable pub on_send_entry :
      S.Entry
      → ℕ
      → S.DynamicToken
      → ℕ
      → ℕ
      → DataReceiver S
      → PollResource (Result (Unit {0})) × DataReceiver S
  on_send_entry entry handle dynamic offset waker r = elim (ensure_none r.current_payload) [
    | err e ↦ (ready (err e), r)
    | panicked ↦ (ready panicked, r)
    | ok _ ↦ authorise_sent entry handle dynamic offset waker r
  ]

  -- What follows a chunk: the import is finished once enough has come.
  unfoldable pub after_chunk :
      Result (Unit {0}) × CurrentPayload S → Result (Unit {0}) × CurrentPayload S
  after_chunk (ok _, p) = if is_complete p then finalize p else (ok tt, p)
  after_chunk (err e, p) = (err e, p)
  after_chunk (panicked, p) = (panicked, p)

  unfoldable pub on_send_payload : Bytes → DataReceiver S → Result (Unit {0}) × DataReceiver S
  on_send_payload bytes r =
      let (result, payload) = after_chunk (recv_chunk bytes r.current_payload) in
      (result, record r { current_payload = payload })

  unfoldable pub on_message :
      ℕ → DataMessage S → DataReceiver S → PollResource (Result (Unit {0})) × DataReceiver S
  on_message waker (data_send_entry entry handle dynamic offset) r =
      on_send_entry entry handle dynamic offset waker r
  on_message waker (data_send_payload bytes) r =
      let (result, after) = on_send_payload bytes r in (ready result, after)
  on_message waker data_set_metadata r = (ready (ok tt), r)
