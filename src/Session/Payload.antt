-- ===== src/Session/Payload.antt =====
-- `CurrentPayload` of src/session/payload.rs, the payload that is being received, and
-- `EntryState` of src/session/reconciler.rs on top of it. The writer is the list of the chunks that
-- were handed to the import. Each operation returns its result and the state afterwards.
use iroh_willow.Prelude.{
  ℕ, ◌+◌, ◌-◌, ◌%◌, ◌^◌, Bool, true, false, Option, none, some, List, [], ◌∷◌, ◌++◌, if◌then◌else◌,
  leb, length,
}
use iroh_willow.Session.Error.{Error, Result, ok, err, panicked}
use iroh_willow.Session.Storage.{Storage, Bytes}

pub record CurrentPayloadInner (S : Storage) : Type 0 where
  pub payload_digest : S.Digest
  pub expected_length : ℕ
  pub received_length : ℕ
  pub total_length : ℕ
  pub offset : ℕ
  pub writer : Option (List Bytes)

abbrev pub or_else : {A : Type 0} → A → Option A → A
or_else d none = d
or_else d (some a) = a

abbrev pub CurrentPayload : Storage → Type 0
CurrentPayload S = Option (CurrentPayloadInner S)

module _ {S : Storage} where
  unfoldable pub set :
      S.Digest → ℕ → Option ℕ → Option ℕ → CurrentPayload S → Result (Unit {0}) × CurrentPayload S
  set digest total_length available offset (some p) =
      (err Error.invalid_message_in_current_state, some p)
  set digest total_length available offset none =
      let start = or_else 0 offset in
      (
        ok tt,
        some (record {
          payload_digest = digest;
          expected_length = (or_else total_length available + (2 ^ 64 - start)) % 2 ^ 64;
          received_length = 0;
          total_length = total_length;
          offset = start;
          writer = none;
        }),
      )

  -- Its errors are of type `anyhow::Error`, which its caller turns into the store's.
  unfoldable pub recv_chunk : Bytes → CurrentPayload S → Result (Unit {0}) × CurrentPayload S
  recv_chunk chunk none = (err Error.store, none)
  recv_chunk chunk (some p) =
      let chunks = or_else [] p.writer in
      if S.takes_chunk p.payload_digest p.total_length p.offset chunks
      then (
        ok tt,
        some (record p {
          writer = some (chunks ++ chunk ∷ []);
          received_length = (p.received_length + length chunk) % 2 ^ 64;
        }),
      )
      else (err Error.store, some (record p { writer = some chunks }))

  unfoldable pub is_complete : CurrentPayload S → Bool
  is_complete none = false
  is_complete (some p) = leb p.expected_length p.received_length

  unfoldable pub finalize : CurrentPayload S → Result (Unit {0}) × CurrentPayload S
  finalize none = (err Error.invalid_message_in_current_state, none)
  finalize (some p) = elim p.writer [
    | none ↦ (ok tt, none)
    | some chunks ↦
        if S.imports p.payload_digest p.total_length p.offset chunks
        then (ok tt, none)
        else (err Error.payload_store, none)
  ]

  unfoldable pub is_active : CurrentPayload S → Bool
  is_active none = false
  is_active (some p) = elim p.writer [ none ↦ false | some _ ↦ true ]

  unfoldable pub ensure_none : CurrentPayload S → Result (Unit {0})
  ensure_none p = if is_active p then err Error.invalid_message_in_current_state else ok tt

-- The handles of a target: ours and theirs.
abbrev pub TargetId : Type 0
TargetId = ℕ × ℕ

pub record EntryStateInner (S : Storage) : Type 0 where
  pub target : TargetId
  pub current_payload : CurrentPayload S

abbrev pub EntryState : Storage → Type 0
EntryState S = Option (EntryStateInner S)

module _ {S : Storage} where
  unfoldable pub is_idle : EntryState S → Bool
  is_idle none = true
  is_idle (some _) = false

  unfoldable pub received_announcement :
      TargetId → Bool → EntryState S → Result (Unit {0}) × EntryState S
  received_announcement target is_empty (some e) =
      (err Error.invalid_message_in_current_state, some e)
  received_announcement target is_empty none =
      (ok tt, if is_empty then none else some (record { target = target; current_payload = none }))

  -- `ensure_none`, then `set`.
  unfoldable pub received_send_entry :
      S.Digest → ℕ → ℕ → EntryState S → Result (Unit {0}) × EntryState S
  received_send_entry digest total available none =
      (err Error.invalid_message_in_current_state, none)
  received_send_entry digest total available (some e) = elim (ensure_none e.current_payload) [
    | err x ↦ (err x, some e)
    | panicked ↦ (panicked, some e)
    | ok _ ↦
        let (r, p) = set digest total (some available) none e.current_payload in
        (r, some (record e { current_payload = p }))
  ]

  unfoldable pub received_send_payload : Bytes → EntryState S → Result (Unit {0}) × EntryState S
  received_send_payload bytes none = (err Error.invalid_message_in_current_state, none)
  received_send_payload bytes (some e) =
      let (r, p) = recv_chunk bytes e.current_payload in
      (r, some (record e { current_payload = p }))

  -- What follows finalizing the payload.
  unfoldable pub terminated :
      Bool
      → EntryStateInner S
      → Result (Unit {0}) × CurrentPayload S
      → Result (Option TargetId) × EntryState S
  terminated is_final e (err x, p) = (err x, some (record e { current_payload = p }))
  terminated is_final e (panicked, p) = (panicked, some (record e { current_payload = p }))
  terminated true e (ok _, p) = (ok (some e.target), none)
  terminated false e (ok _, p) = (ok none, some (record e { current_payload = p }))

  unfoldable pub received_terminate_payload :
      Bool → EntryState S → Result (Option TargetId) × EntryState S
  received_terminate_payload is_final none = (err Error.invalid_message_in_current_state, none)
  received_terminate_payload is_final (some e) = terminated is_final e (finalize e.current_payload)
