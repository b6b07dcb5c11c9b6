-- ===== src/Session/Target.antt =====
-- `Target` of src/session/reconciler.rs: the reconciliation of one pair of overlapping areas of
-- interest. A set of range numbers is a list; each operation returns the messages that it sends, in
-- order, and the state afterwards.
pub mod Ranges
pub mod Answers
pub mod Received
pub mod Delivery
mod Tests
use iroh_willow.Prelude.{
  ℕ, ◌+◌, ◌%◌, ◌^◌, Bool, true, false, Option, none, some, List, [], ◌∷◌, ◌++◌, if◌then◌else◌, leb,
  ◌==◌, any,
}
use iroh_willow.Session.Error.{Error, Result, ok, err, ◌>>=◌}
use iroh_willow.Session.Challenge.{Role, alfie, betty}
use iroh_willow.Session.Payload.{TargetId}
use iroh_willow.Session.StaticTokens.{Tokens, bind_and_send_ours}
use iroh_willow.Session.Storage.{
  Storage, Bytes, SplitAction, split_fingerprint, split_entries, Message, send_fingerprint,
  announce_entries, send_entry, send_payload, terminate_payload,
}

pub record AoiIntersection (S : Storage) : Type 0 where
  pub our_handle : ℕ
  pub their_handle : ℕ
  pub area : S.Area
  pub namespace : S.Namespace

pub record Target (S : Storage) : Type 0 where
  pub intersection : AoiIntersection S
  pub our_uncovered_ranges : List ℕ
  pub started : Bool
  pub our_range_counter : ℕ
  pub their_range_counter : ℕ

-- What an operation leaves: the messages sent, the static tokens and the target.
pub record Sent (S : Storage) : Type 0 where
  pub messages : List (Message S)
  pub tokens : Tokens S
  pub target : Target S

unfoldable pub insert_number : ℕ → List ℕ → List ℕ
insert_number n ns = if any (λ m. m == n) ns then ns else n ∷ ns

unfoldable pub remove_number : ℕ → List ℕ → List ℕ
remove_number n [] = []
remove_number n (m ∷ ns) = if m == n then remove_number n ns else m ∷ remove_number n ns

unfoldable pub is_nil : {A : Type 0} → List A → Bool
is_nil [] = true
is_nil (_ ∷ _) = false

module _ {S : Storage} where
  unfoldable pub id : AoiIntersection S → TargetId
  id i = (i.our_handle, i.their_handle)

  unfoldable pub is_target_complete : Target S → Bool
  is_target_complete t = if t.started then is_nil t.our_uncovered_ranges else false

  -- The counters are u64.
  unfoldable pub mark_our_next_range_pending : Target S → Target S
  mark_our_next_range_pending t = record t {
    our_range_counter = (t.our_range_counter + 1) % 2 ^ 64;
    our_uncovered_ranges = insert_number t.our_range_counter t.our_uncovered_ranges;
  }

  unfoldable pub mark_our_range_covered : ℕ → Target S → Result (Target S)
  mark_our_range_covered n t =
      if any (λ m. m == n) t.our_uncovered_ranges
      then ok (record t { our_uncovered_ranges = remove_number n t.our_uncovered_ranges })
      else err Error.invalid_state

  unfoldable pub next_range_count_theirs : Target S → ℕ × Target S
  next_range_count_theirs t = (
    t.their_range_counter,
    record t { their_range_counter = (t.their_range_counter + 1) % 2 ^ 64 },
  )

  unfoldable pub send_range_fingerprint :
      S.Range → S.Fingerprint → Option ℕ → Tokens S → Target S → Sent S
  send_range_fingerprint range fingerprint covers tokens t = record {
    messages =
        send_fingerprint range fingerprint t.intersection.our_handle t.intersection.their_handle
          covers
        ∷ [];
    tokens = tokens;
    target = mark_our_next_range_pending t;
  }

  unfoldable pub payload_messages : List Bytes → List (Message S)
  payload_messages [] = []
  payload_messages (chunk ∷ chunks) = send_payload chunk ∷ payload_messages chunks

  -- `send_payload_chunked` from offset 0: nothing if the payload is not stored.
  unfoldable pub send_payload_chunked : S.Digest → List (Message S)
  send_payload_chunked digest = elim (S.payload_chunks digest) [
    | none ↦ []
    | some chunks ↦ payload_messages chunks
  ]

  -- The loop over the entries: the token if it is new, the entry, its payload if it is not too long
  -- for sending eagerly, and the end of the payload, final for the last entry.
  unfoldable pub send_entries :
      ℕ → List (S.Entry × S.StaticToken × S.DynamicToken) → Tokens S → List (Message S) × Tokens S
  send_entries max_eager [] tokens = ([], tokens)
  send_entries max_eager ((entry, static, dynamic) ∷ rest) tokens =
      let (handle, bound, tokens1) = bind_and_send_ours static tokens in
      let len = S.payload_length entry in
      let payload =
        if leb len max_eager then send_payload_chunked (S.payload_digest entry) else [] in
      let (later, last) = send_entries max_eager rest tokens1 in
      (
        bound
            ++ send_entry entry len handle dynamic
              ∷ (payload ++ terminate_payload (is_nil rest) ∷ later),
        last,
      )

  unfoldable pub announce_and_send_entries :
      ℕ → S.Range → Bool → Option ℕ → Bool → Tokens S → Target S → Sent S
  announce_and_send_entries max_eager range want_response covers is_empty tokens t =
      let marked = if want_response then mark_our_next_range_pending t else t in
      let entries =
        if is_empty then [] else S.get_authorised_entries t.intersection.namespace range in
      let (later, last) = send_entries max_eager entries tokens in
      record {
        messages =
            announce_entries range (is_nil entries) want_response false t.intersection.our_handle
              t.intersection.their_handle covers
            ∷ later;
        tokens = last;
        target = marked;
      }

  unfoldable pub initiate : Tokens S → Target S → Sent S
  initiate tokens t =
      let range = S.to_range t.intersection.area in
      send_range_fingerprint range (S.fingerprint t.intersection.namespace range) none tokens t

  unfoldable pub init : Role → AoiIntersection S → Tokens S → Sent S
  init role i tokens =
      let t : Target S = record {
        intersection = i;
        our_uncovered_ranges = [];
        started = false;
        our_range_counter = 0;
        their_range_counter = 0;
      } in
      elim role [
        | alfie ↦ initiate tokens t
        | betty ↦ record { messages = []; tokens = tokens; target = t }
      ]

  -- One part of a split range.
  unfoldable pub send_part :
      ℕ → S.Range → SplitAction S.Fingerprint → Option ℕ → Tokens S → Target S → Sent S
  send_part max_eager range (split_entries count) covers tokens t =
      announce_and_send_entries max_eager range true covers (count == 0) tokens t
  send_part max_eager range (split_fingerprint f) covers tokens t =
      send_range_fingerprint range f covers tokens t

  -- The loop over the parts of a split range: the last part covers the received range.
  unfoldable pub send_parts :
      ℕ → ℕ → List (S.Range × SplitAction S.Fingerprint) → Tokens S → Target S → Sent S
  send_parts max_eager range_count [] tokens t = record {
    messages = [];
    tokens = tokens;
    target = t;
  }
  send_parts max_eager range_count ((range, action) ∷ rest) tokens t =
      let covers = if is_nil rest then some range_count else none in
      let first = send_part max_eager range action covers tokens t in
      let later = send_parts max_eager range_count rest first.tokens first.target in
      record {
        messages = first.messages ++ later.messages;
        tokens = later.tokens;
        target = later.target;
      }

  -- `started`, and the range that the message covers, if any.
  unfoldable pub cover : Option ℕ → Target S → Result (Target S)
  cover none t = ok (record t { started = true })
  cover (some n) t = mark_our_range_covered n (record t { started = true })

  unfoldable pub answer_fingerprint : ℕ → S.Range → S.Fingerprint → Tokens S → Target S → Sent S
  answer_fingerprint max_eager range theirs tokens t0 =
      let (range_count, t) = next_range_count_theirs t0 in
      if S.same_fingerprint (S.fingerprint t.intersection.namespace range) theirs
      then announce_and_send_entries max_eager range false (some range_count) true tokens t
      else if S.is_empty_fingerprint theirs
      then announce_and_send_entries max_eager range true (some range_count) false tokens t
      else send_parts max_eager range_count (S.split_range t.intersection.namespace range) tokens t

  unfoldable pub received_send_fingerprint :
      ℕ → S.Range → S.Fingerprint → Option ℕ → Tokens S → Target S → Result (Sent S)
  received_send_fingerprint max_eager range theirs covers tokens t = do
    t1 ← cover covers t
    ok (answer_fingerprint max_eager range theirs tokens t1)

  unfoldable pub answer_announce : ℕ → S.Range → Bool → Tokens S → Target S → Sent S
  answer_announce max_eager range want_response tokens t0 =
      if want_response
      then (let (range_count, t) = next_range_count_theirs t0 in
          announce_and_send_entries max_eager range false (some range_count) false tokens t)
      else record { messages = []; tokens = tokens; target = t0 }

  unfoldable pub received_announce_entries :
      ℕ → S.Range → Bool → Option ℕ → Tokens S → Target S → Result (Sent S)
  received_announce_entries max_eager range want_response covers tokens t = do
    t1 ← cover covers t
    ok (answer_announce max_eager range want_response tokens t1)
