-- ===== src/Session/Data/Tests.antt =====
-- The theorems on the data channel at concrete inputs.
use iroh_willow.Prelude.{ℕ, ◌≡◌, refl, inl, none, List, [], ◌∷◌, ◌++◌}
use iroh_willow.Session.Error.{Error, ok, err}
use iroh_willow.Session.Resource.{ready, bind, find_handle, bind_if_new}
use iroh_willow.Session.StaticTokens.{Tokens, bind_and_send_ours}
use iroh_willow.Session.Storage.{Storage, bind_static_token}
use iroh_willow.Session.Toy.{toy, tokens}
use iroh_willow.Session.Data.{
  data_payload_messages, send_chunked, setups, send_entry, on_stream, turn, run_sender,
  data_send_entry, data_send_payload, setup, message, aoi_intersection, inbox_closed,
  ingested_event, other_event,
}
use iroh_willow.Session.Data.Delivery.{receive_all, receiver}
use iroh_willow.Session.Data.Refused.{entry_message, entry_after_missing_payload}

abbrev two : List (ℕ × ℕ × ℕ)
two = (10, 1, 2) ∷ (11, 1, 3) ∷ []

abbrev chunks_of : ℕ → List (List ℕ)
chunks_of d = (d ∷ []) ∷ (0 ∷ []) ∷ []

-- Nothing is stored.
abbrev no_payloads : Storage
no_payloads = record toy { payload_chunks = λ d. none }

abbrev bound_tokens : Tokens no_payloads
bound_tokens = record {
  ours = record { next_handle = 0; map = []; wakers = [] };
  theirs = record { next_handle = 1; map = (0, 1) ∷ []; wakers = [] };
}

entry_after_missing_payload_example :
    let r =
      receive_all {S = no_payloads} 7
        (entry_message 7 bound_tokens (10, 1, 2) 0
          ∷ (send_chunked 10 ++ entry_message 7 bound_tokens (11, 1, 3) 0 ∷ []))
        (receiver none bound_tokens []) in
    (r.0 ≡ ready (err Error.invalid_message_in_current_state))
    × (r.1.ingested ≡ [] ++ (10, 1, 2) ∷ (11, 1, 3) ∷ [])
entry_after_missing_payload_example =
    entry_after_missing_payload {S = no_payloads} 7 bound_tokens (10, 1, 2) (11, 1, 3) 0 0 [] []
      (refl, refl) (refl, refl) (inl refl)

program : Unit {0}
unfolding run_sender turn on_stream send_entry setups send_chunked data_payload_messages
    bind_and_send_ours bind_if_new find_handle bind
program = tt

-- An event is only taken while a stream runs; the token is sent once.
sender_run :
    run_sender
      (ingested_event (9, 1, 2)
        ∷ aoi_intersection 0 10
        ∷ ingested_event (10, 1, 2)
        ∷ ingested_event (11, 1, 3)
        ∷ inbox_closed
        ∷ other_event
        ∷ [])
      (record { static_tokens = tokens; entry_stream = []; sent = [] })
    ≡ ok (record {
      static_tokens = (bind_and_send_ours 1 tokens).2;
      entry_stream = (0, 10) ∷ [];
      sent =
          setup (bind_static_token 1)
          ∷ message (data_send_entry 10 0 2 0)
          ∷ message (data_send_payload (10 ∷ []))
          ∷ message (data_send_payload (0 ∷ []))
          ∷ message (data_send_entry 11 0 3 0)
          ∷ message (data_send_payload (11 ∷ []))
          ∷ message (data_send_payload (0 ∷ []))
          ∷ [];
    })
unfolding program
sender_run = refl
