-- ===== src/Session/Data/Delivery.antt =====
-- The receiver of src/session/data.rs over the messages of one entry.
use iroh_willow.Prelude.{
  ℕ, ◌+◌, ◌-◌, ◌%◌, ◌^◌, ◌≤◌, ◌<◌, ◌≡◌, ap, true, Option, none, some, List, [], ◌∷◌, ◌++◌, length,
  arith, false, leb,
}
use iroh_willow.Prelude.Map.{lookup}
use iroh_willow.Session.Error.{Result, panicked, err, ok}
use iroh_willow.Session.Resource.{PollResource, poll_get_eventually, ready, pending, ResourceMap}
use iroh_willow.Session.Payload.{
  CurrentPayloadInner, CurrentPayload, set, is_active, ensure_none, or_else, recv_chunk,
  is_complete, finalize,
}
use iroh_willow.Session.StaticTokens.{Tokens, bind_theirs, authorise_entry_eventually}
use iroh_willow.Session.Storage.{Storage, Bytes, bind_static_token}
use iroh_willow.Session.Data.{
  Sent, DataReceiver, ingest_sent, ingest_authorised, authorise_sent, on_send_entry, on_message,
  data_send_entry, setup, message, after_chunk, on_send_payload, data_send_payload,
}

-- The chunks reach the length of the payload with the last one, and not before.
abbrev pub Fills : ℕ → ℕ → List Bytes → Type 0
Fills len got [] = ⊥
Fills len got (c ∷ []) = (len ≤ got + length c) × (got + length c < 2 ^ 64)
Fills len got (c ∷ d ∷ cs) = (got + length c < len) × Fills len (got + length c) (d ∷ cs)

abbrev pub Received : Storage → Type 0
Received S = PollResource (Result (Unit {0})) × DataReceiver S

poll_known :
    {R : Type 0} (h w : ℕ) (m : ResourceMap R) (r : R)
    → lookup h m.map ≡ some r
    → poll_get_eventually h w m ≡ (ready r, m)
unfolding poll_get_eventually
poll_known h w m r l = rw (l, poll_get_eventually)

module _ {S : Storage} where
  -- A static token arrives on its own channel.
  abbrev pub receive_one : ℕ → Sent S → DataReceiver S → Received S
  receive_one waker (setup (bind_static_token token)) r =
      (ready (ok tt), record r { static_tokens = (bind_theirs token r.static_tokens).1 })
  receive_one waker (setup _) r = (ready (ok tt), r)
  receive_one waker (message m) r = on_message waker m r

  abbrev pub goes_well : Received S → (DataReceiver S → Received S) → Received S
  goes_well (ready (ok _), r) next = next r
  goes_well (ready (err e), r) next = (ready (err e), r)
  goes_well (ready panicked, r) next = (ready panicked, r)
  goes_well (pending, r) next = (pending, r)

  abbrev pub receive_all : ℕ → List (Sent S) → DataReceiver S → Received S
  receive_all waker [] r = (ready (ok tt), r)
  receive_all waker (m ∷ ms) r = goes_well (receive_one waker m r) (receive_all waker ms)

  abbrev pub receiver :
      CurrentPayload S → Tokens S → List (S.Entry × S.StaticToken × S.DynamicToken) → DataReceiver S
  receiver payload tokens ingested = record {
    current_payload = payload;
    static_tokens = tokens;
    ingested = ingested;
  }

  pub receive_step :
      (waker : ℕ) (m : Sent S) (ms : List (Sent S)) (r r' : DataReceiver S)
      → receive_one waker m r ≡ (ready (ok tt), r')
      → receive_all waker (m ∷ ms) r ≡ receive_all waker ms r'
  receive_step waker m ms r r' e = ap (λ q. goes_well q (receive_all waker ms)) e

  -- The payload of an entry, after some of its chunks.
  abbrev pub payload_of : S.Entry → ℕ → Option (List Bytes) → CurrentPayloadInner S
  payload_of entry got writer = record {
    payload_digest = S.payload_digest entry;
    expected_length = (S.payload_length entry + (2 ^ 64 - 0)) % 2 ^ 64;
    received_length = got;
    total_length = S.payload_length entry;
    offset = 0;
    writer = writer;
  }

  pub authorise_known :
      (entry : S.Entry) (static : S.StaticToken) (dynamic : S.DynamicToken) (h w : ℕ)
      (tokens : Tokens S)
      → lookup h tokens.theirs.map ≡ some static
      → S.authorises entry static dynamic ≡ true
      → authorise_entry_eventually entry h dynamic w tokens
        ≡ (ready (ok (entry, static, dynamic)), tokens)
  unfolding authorise_entry_eventually
  authorise_known entry static dynamic h w tokens bound valid =
      ground (arith, poll_known h w tokens.theirs static bound)

  pub entry_received :
      (waker h : ℕ) (entry : S.Entry) (static : S.StaticToken) (dynamic : S.DynamicToken)
      (tokens : Tokens S) (done : List (S.Entry × S.StaticToken × S.DynamicToken))
      → lookup h tokens.theirs.map ≡ some static
      → S.authorises entry static dynamic ≡ true
      → receive_one waker (message (data_send_entry entry h dynamic 0)) (receiver none tokens done)
        ≡ (
          ready (ok tt),
          receiver (some (payload_of entry 0 none)) tokens (done ++ (entry, static, dynamic) ∷ []),
        )
  unfolding on_message on_send_entry authorise_sent ingest_authorised ingest_sent ensure_none
      is_active set
  entry_received waker h entry static dynamic tokens done bound valid =
      ground (arith, authorise_known entry static dynamic h waker tokens bound valid)

  module _ (waker : ℕ) (entry : S.Entry) (tokens : Tokens S)
      (done : List (S.Entry × S.StaticToken × S.DynamicToken))
      (short : S.payload_length entry < 2 ^ 64) where
    chunk_received :
        (got : ℕ) (w : Option (List Bytes)) (c : Bytes)
        → S.takes_chunk (S.payload_digest entry) (S.payload_length entry) 0 (or_else [] w) ≡ true
        → recv_chunk c (some (payload_of entry got w)) ≡ (
          ok tt,
          some (payload_of entry ((got + length c) % 2 ^ 64) (some (or_else [] w ++ c ∷ []))),
        )
    unfolding recv_chunk
    chunk_received got w c takes = simp takes

    pub more_to_come :
        (got : ℕ) (w : Option (List Bytes)) (c : Bytes)
        → S.takes_chunk (S.payload_digest entry) (S.payload_length entry) 0 (or_else [] w) ≡ true
        → got + length c < S.payload_length entry
        → receive_one waker
            (message (data_send_payload c))
            (receiver (some (payload_of entry got w)) tokens done)
          ≡ (
            ready (ok tt),
            receiver
                (some (payload_of entry (got + length c) (some (or_else [] w ++ c ∷ []))))
                tokens
                done,
          )
    unfolding on_message on_send_payload after_chunk is_complete
    more_to_come got w c takes more =
        let sum : (got + length c) % 2 ^ 64 ≡ got + length c = omega arith in
        let rest : leb ((S.payload_length entry + (2 ^ 64 - 0)) % 2 ^ 64) (got + length c) ≡ false =
          ground arith in
        simp (chunk_received got w c takes, sum, rest)

    pub all_come :
        (got : ℕ) (w : Option (List Bytes)) (c : Bytes)
        → S.takes_chunk (S.payload_digest entry) (S.payload_length entry) 0 (or_else [] w) ≡ true
        → S.payload_length entry ≤ got + length c
        → got + length c < 2 ^ 64
        → S.imports (S.payload_digest entry) (S.payload_length entry) 0 (or_else [] w ++ c ∷ [])
          ≡ true
        → receive_one waker
            (message (data_send_payload c))
            (receiver (some (payload_of entry got w)) tokens done)
          ≡ (ready (ok tt), receiver none tokens done)
    unfolding on_message on_send_payload after_chunk is_complete finalize
    all_come got w c takes full room imports =
        let sum : (got + length c) % 2 ^ 64 ≡ got + length c = omega arith in
        let enough : leb ((S.payload_length entry + (2 ^ 64 - 0)) % 2 ^ 64) (got + length c)
            ≡ true =
          ground arith in
        simp (chunk_received got w c takes, sum, enough, imports)
