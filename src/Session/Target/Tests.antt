-- ===== src/Session/Target/Tests.antt =====
-- The theorems on targets and on the reconciler at concrete inputs.
use iroh_willow.Prelude.{◌≡◌, refl, true, false, none, some, [], ◌∷◌}
use iroh_willow.Session.Error.{Error, ok, ◌>>=◌}
use iroh_willow.Session.Resource.{bind, find_handle, bind_if_new}
use iroh_willow.Session.Storage.{
  send_fingerprint, announce_entries, bind_static_token, send_entry, terminate_payload,
}
use iroh_willow.Session.StaticTokens.{bind_and_send_ours}
use iroh_willow.Session.Target.{
  is_nil, send_parts, send_part, send_range_fingerprint, mark_our_next_range_pending, insert_number,
  remove_number, mark_our_range_covered, cover, next_range_count_theirs, answer_fingerprint,
  answer_announce, announce_and_send_entries, send_entries, send_payload_chunked, payload_messages,
  received_send_fingerprint, received_announce_entries,
}
use iroh_willow.Session.Target.Answers.{Answers}
use iroh_willow.Session.Toy.{toy, tokens, target}

program : Unit {0}
unfolding is_nil send_parts send_part send_range_fingerprint mark_our_next_range_pending
    insert_number remove_number mark_our_range_covered cover next_range_count_theirs
    answer_fingerprint answer_announce announce_and_send_entries send_entries send_payload_chunked
    payload_messages received_send_fingerprint received_announce_entries bind find_handle
    bind_if_new bind_and_send_ours
program = tt

-- A fingerprint that differs: the range is split, and its last part covers it.
fingerprint_run :
    (do out ← received_send_fingerprint {S = toy} 0 10 9 (some 1) tokens target; ok out.messages)
    ≡ ok (
        send_fingerprint 10 7 4 6 none
        ∷ announce_entries 11 false true false 4 6 (some 5)
        ∷ bind_static_token 1
        ∷ send_entry 11 2 0 2
        ∷ terminate_payload false
        ∷ send_entry 12 2 0 3
        ∷ terminate_payload true
        ∷ [])
unfolding program
fingerprint_run = refl
