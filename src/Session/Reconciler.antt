-- ===== src/Session/Reconciler.antt =====
-- `Reconciler` and `TargetMap` of src/session/reconciler.rs. The inbox is the list of the
-- intersections that still come before it closes; what is sent, put out and ingested is recorded in
-- order. A message that must wait for a static token is `pending`. The entry store's ingestion is
-- recorded, not run.
pub mod Entries
pub mod Targets
mod Tests
use iroh_willow.Prelude.{
  ℕ, Bool, true, false, ◌&&◌, Option, none, some, List, [], ◌∷◌, ◌++◌, if◌then◌else◌, ◌==◌,
}
use iroh_willow.Session.Error.{Error, Result, ok, err, panicked, ◌>>=◌}
use iroh_willow.Session.Resource.{PollResource, ready, pending}
use iroh_willow.Session.Challenge.{Role}
use iroh_willow.Session.Payload.{
  TargetId, EntryState, is_idle, received_announcement, received_send_entry, received_send_payload,
  received_terminate_payload,
}
use iroh_willow.Session.StaticTokens.{Tokens, authorise_entry_eventually}
use iroh_willow.Session.Storage.{
  Storage, Bytes, Message, bind_static_token, send_fingerprint, announce_entries, send_entry,
  send_payload, terminate_payload,
}
use iroh_willow.Session.Target.{
  AoiIntersection, Target, Sent, id, init, is_nil, is_target_complete, received_send_fingerprint,
  received_announce_entries,
}

pub data Output (S : Storage) : Type 0 where
  reconciled_area : S.Namespace → S.Area → Output S
  reconciled_all : Output S

pub record Reconciler (S : Storage) : Type 0 where
  pub targets : List (TargetId × Target S)
  pub inbox : List (AoiIntersection S)
  pub entry_state : EntryState S
  pub tokens : Tokens S
  pub sent : List (Message S)
  pub outputs : List (Output S)
  pub ingested : List (S.Entry × S.StaticToken × S.DynamicToken)

unfoldable pub same_id : TargetId → TargetId → Bool
same_id (a, b) (c, d) = (a == c) && (b == d)

-- The hash map of targets.
module _ {V : Type 0} where
  unfoldable pub find_target : TargetId → List (TargetId × V) → Option V
  find_target i [] = none
  find_target i ((j, v) ∷ m) = if same_id j i then some v else find_target i m

  unfoldable pub put_target : TargetId → V → List (TargetId × V) → List (TargetId × V)
  put_target i v [] = (i, v) ∷ []
  put_target i v ((j, w) ∷ m) = if same_id j i then (i, v) ∷ m else (j, w) ∷ put_target i v m

  unfoldable pub remove_target : TargetId → List (TargetId × V) → List (TargetId × V)
  remove_target i [] = []
  remove_target i ((j, w) ∷ m) =
      if same_id j i then remove_target i m else (j, w) ∷ remove_target i m

module _ {S : Storage} where
  unfoldable pub init_target : Role → AoiIntersection S → Reconciler S → Reconciler S
  init_target role i r =
      let out = init role i r.tokens in
      record r {
        targets = put_target (id i) out.target r.targets;
        tokens = out.tokens;
        sent = r.sent ++ out.messages;
      }

  -- The loop over the inbox; the state is given the rest of the inbox.
  unfoldable pub wait_for_target :
      Role → TargetId → List (AoiIntersection S) → Reconciler S → Reconciler S
  wait_for_target role requested [] r = record r { inbox = [] }
  wait_for_target role requested (i ∷ rest) r =
      let r1 = init_target role i r in
      let later = wait_for_target role requested rest r1 in
      if same_id (id i) requested then record r1 { inbox = rest } else later

  unfoldable pub ensure_target : Role → TargetId → Reconciler S → Reconciler S
  ensure_target role requested r = elim (find_target requested r.targets) [
    | some _ ↦ r
    | none ↦ wait_for_target role requested r.inbox r
  ]

  -- The `unwrap`: it panics if the inbox closed without the target.
  unfoldable pub unwrap_target : TargetId → Reconciler S → Result (Target S × Reconciler S)
  unwrap_target requested r = elim (find_target requested r.targets) [
    | some t ↦ ok (t, r)
    | none ↦ panicked
  ]

  unfoldable pub get_eventually : Role → TargetId → Reconciler S → Result (Target S × Reconciler S)
  get_eventually role requested r = unwrap_target requested (ensure_target role requested r)

  unfoldable pub completed : TargetId → Target S → Reconciler S → Reconciler S
  completed i t r =
      let left = remove_target i r.targets in
      record r {
        targets = left;
        outputs =
            r.outputs
            ++ reconciled_area t.intersection.namespace t.intersection.area
              ∷ (if is_nil left then reconciled_all ∷ [] else []);
      }

  unfoldable pub complete_target : TargetId → Reconciler S → Result (Reconciler S)
  complete_target i r = elim (find_target i r.targets) [
    | none ↦ err Error.invalid_message_in_current_state
    | some t ↦ ok (completed i t r)
  ]

  -- What follows the target's own part of a message: its new state, and completion.
  unfoldable pub apply_sent : TargetId → Sent S → Reconciler S → Result (Reconciler S)
  apply_sent i out r =
      let r1 = record r {
        targets = put_target i out.target r.targets;
        tokens = out.tokens;
        sent = r.sent ++ out.messages;
      } in
      if is_target_complete out.target && is_idle r.entry_state then complete_target i r1 else ok r1

  -- The entry state after one of its operations, when that succeeded.
  unfoldable pub with_entry_state :
      {A : Type 0} → Result A × EntryState S → Reconciler S → Result (A × Reconciler S)
  with_entry_state (ok a, e) r = ok (a, record r { entry_state = e })
  with_entry_state (err x, e) r = err x
  with_entry_state (panicked, e) r = panicked

  unfoldable pub complete_entries : Option TargetId → Reconciler S → Result (Reconciler S)
  complete_entries none r = ok r
  complete_entries (some i) r = elim (find_target i r.targets) [
    | none ↦ panicked
    | some t ↦ if is_target_complete t then complete_target (id t.intersection) r else ok r
  ]

  -- The entry of a `SendEntry` message once it is authorised: first the entry state, then the store.
  unfoldable pub ingest_sent_entry :
      ℕ → S.Entry × S.StaticToken × S.DynamicToken → Reconciler S → Result (Reconciler S)
  ingest_sent_entry available (entry, static, dynamic) r = do
    (_, r1) ←
        with_entry_state
          (received_send_entry (S.payload_digest entry) (S.payload_length entry) available
            r.entry_state)
          r
    ok (record r1 { ingested = r1.ingested ++ (entry, static, dynamic) ∷ [] })

  -- The handles of a message are (receiver, sender). A bound static token is no reconciliation
  -- message: it comes on a channel of its own.
  unfoldable pub received_message :
      Role → ℕ → ℕ → Message S → Reconciler S → PollResource (Result (Reconciler S))
  received_message role max_eager waker (bind_static_token _) r = ready (err Error.wrong_channel)
  received_message role max_eager waker (send_fingerprint range f sender receiver covers) r =
      let i : TargetId = (receiver, sender) in
      ready do
        (t, r1) ← get_eventually role i r
        out ← received_send_fingerprint max_eager range f covers r1.tokens t
        apply_sent i out r1
  received_message role max_eager waker
        (announce_entries range is_empty want_response _ sender receiver covers) r =
      let i : TargetId = (receiver, sender) in
      ready do
        (_, r0) ← with_entry_state (received_announcement i is_empty r.entry_state) r
        (t, r1) ← get_eventually role i r0
        out ← received_announce_entries max_eager range want_response covers r1.tokens t
        apply_sent i out r1
  received_message role max_eager waker (send_entry entry available handle dynamic) r =
      let (polled, tokens) = authorise_entry_eventually entry handle dynamic waker r.tokens in
      elim polled [
        | pending ↦ pending
        | ready authorised ↦
            ready do a ← authorised; ingest_sent_entry available a (record r { tokens = tokens })
      ]
  received_message role max_eager waker (send_payload bytes) r =
      ready do (_, r1) ← with_entry_state (received_send_payload bytes r.entry_state) r; ok r1
  received_message role max_eager waker (terminate_payload is_final) r = ready do
    (finished, r1) ← with_entry_state (received_terminate_payload is_final r.entry_state) r
    complete_entries finished r1
