-- ===== src/Session/Storage.antt =====
-- What a session uses of the entry store, the payload store and the tokens: the `Storage` trait of
-- src/store/traits.rs and the payload store, at one moment, and the messages of a reconciliation
-- (src/proto/wgps/messages.rs). Reading the store and sending a message do not fail here.
use iroh_willow.Prelude.{ℕ, Bool, Option, List}

abbrev pub Bytes : Type 0
Bytes = List ℕ

pub data SplitAction (Fingerprint : Type 0) : Type 0 where
  split_fingerprint : Fingerprint → SplitAction Fingerprint
  split_entries : ℕ → SplitAction Fingerprint

pub record Storage : Type 1 where
  pub Namespace : Type 0
  pub Area : Type 0
  pub Range : Type 0
  pub Fingerprint : Type 0
  pub Entry : Type 0
  pub Digest : Type 0
  pub StaticToken : Type 0
  pub DynamicToken : Type 0
  pub to_range : Area → Range
  pub fingerprint : Namespace → Range → Fingerprint
  pub same_fingerprint : Fingerprint → Fingerprint → Bool
  pub is_empty_fingerprint : Fingerprint → Bool
  pub split_range : Namespace → Range → List (Range × SplitAction Fingerprint)
  pub get_authorised_entries : Namespace → Range → List (Entry × StaticToken × DynamicToken)
  pub payload_digest : Entry → Digest
  pub payload_length : Entry → ℕ
  -- The chunks that sending a stored payload produces, if there is one.
  pub payload_chunks : Digest → Option (List Bytes)
  pub same_token : StaticToken → StaticToken → Bool
  -- `AuthorisedEntry::new`.
  pub authorises : Entry → StaticToken → DynamicToken → Bool
  -- Whether the import of a payload, of a digest, a total length and an offset, takes another chunk
  -- after those received, and whether it succeeds with those received.
  pub takes_chunk : Digest → ℕ → ℕ → List Bytes → Bool
  pub imports : Digest → ℕ → ℕ → List Bytes → Bool

pub data Message (S : Storage) : Type 0 where
  bind_static_token : S.StaticToken → Message S
  -- The range, its fingerprint, the handles of the sender and the receiver, and what it covers.
  send_fingerprint : S.Range → S.Fingerprint → ℕ → ℕ → Option ℕ → Message S
  -- The range, whether it is empty, whether a response is wanted, whether the entries will be
  -- sorted, the handles, and what it covers.
  announce_entries : S.Range → Bool → Bool → Bool → ℕ → ℕ → Option ℕ → Message S
  -- The entry, the available length of its payload, and its tokens.
  send_entry : S.Entry → ℕ → ℕ → S.DynamicToken → Message S
  send_payload : Bytes → Message S
  terminate_payload : Bool → Message S
