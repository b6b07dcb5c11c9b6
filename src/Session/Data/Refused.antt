-- ===== src/Session/Data/Refused.antt =====
-- What src/session/data.rs does about an entry that comes without its payload.
use iroh_willow.Prelude.{
  ℕ, ◌≡◌, ap, ◌∙◌, ◌⊎◌, inl, inr, true, none, some, List, [], ◌∷◌, ◌++◌, append_assoc, arith,
}
use iroh_willow.Prelude.Map.{lookup}
use iroh_willow.Session.Error.{Error, err}
use iroh_willow.Session.Resource.{ready}
use iroh_willow.Session.Payload.{set, is_active, ensure_none}
use iroh_willow.Session.StaticTokens.{Tokens}
use iroh_willow.Session.Storage.{Storage}
use iroh_willow.Session.Data.{
  Sent, data_payload_messages, send_chunked, ingest_sent, ingest_authorised, authorise_sent,
  on_send_entry, on_message, data_send_entry, message,
}
use iroh_willow.Session.Data.Delivery.{
  receive_one, goes_well, receive_all, receiver, receive_step, payload_of, authorise_known,
  entry_received,
}

module _ {S : Storage} (waker : ℕ) (tokens : Tokens S) where
  -- An entry whose static token has arrived, and authorises it.
  abbrev pub IsAuthorised : S.Entry × S.StaticToken × S.DynamicToken → ℕ → Type 0
  IsAuthorised (entry, static, dynamic) handle =
      (lookup handle tokens.theirs.map ≡ some static) × (S.authorises entry static dynamic ≡ true)

  abbrev pub entry_message : S.Entry × S.StaticToken × S.DynamicToken → ℕ → Sent S
  entry_message (entry, static, dynamic) handle = message (data_send_entry entry handle dynamic 0)

  nothing_sent :
      (entry : S.Entry)
      → (S.payload_chunks (S.payload_digest entry) ≡ none)
        ⊎ (S.payload_chunks (S.payload_digest entry) ≡ some [])
      → send_chunked {S = S} (S.payload_digest entry) ≡ []
  unfolding send_chunked data_payload_messages
  nothing_sent entry (inl e) = rw (e, send_chunked)
  nothing_sent entry (inr e) = rw (e, send_chunked)

  second_entry :
      (a : S.Entry × S.StaticToken × S.DynamicToken) (handle : ℕ) (waiting : S.Entry)
      (done : List (S.Entry × S.StaticToken × S.DynamicToken))
      → IsAuthorised a handle
      → receive_one waker
          (entry_message a handle)
          (receiver (some (payload_of waiting 0 none)) tokens done)
        ≡ (
          ready (err Error.invalid_message_in_current_state),
          receiver (some (payload_of waiting 0 none)) tokens (done ++ a ∷ []),
        )
  unfolding on_message on_send_entry authorise_sent ingest_authorised ingest_sent ensure_none
      is_active set
  second_entry (entry, static, dynamic) handle waiting done (bound, valid) =
      ground (arith, authorise_known entry static dynamic handle waker tokens bound valid)

  -- An entry arrives while nothing is awaited, no chunk of its payload is sent, since it is not stored or
  -- has none, and another entry follows; both have static tokens that have arrived and authorise them.
  -- Then both are ingested, and the second one is an error, with which the receiver ends.
  pub entry_after_missing_payload :
      (a b : S.Entry × S.StaticToken × S.DynamicToken) (handle_a handle_b : ℕ)
      (done : List (S.Entry × S.StaticToken × S.DynamicToken)) (ms : List (Sent S))
      → IsAuthorised a handle_a
      → IsAuthorised b handle_b
      → (S.payload_chunks (S.payload_digest a.0) ≡ none)
        ⊎ (S.payload_chunks (S.payload_digest a.0) ≡ some [])
      → let r =
          receive_all waker
            (entry_message a handle_a
              ∷ (send_chunked (S.payload_digest a.0) ++ entry_message b handle_b ∷ ms))
            (receiver none tokens done) in
        (r.0 ≡ ready (err Error.invalid_message_in_current_state))
        × (r.1.ingested ≡ done ++ a ∷ b ∷ [])
  entry_after_missing_payload a b handle_a handle_b done ms known_a known_b missing =
      let started = receiver (some (payload_of a.0 0 none)) tokens (done ++ a ∷ []) in
      let all =
        receive_step waker (entry_message a handle_a)
          (send_chunked (S.payload_digest a.0) ++ entry_message b handle_b ∷ ms) _ _
          (entry_received waker handle_a a.0 a.1 a.2 tokens done known_a.0 known_a.1)
        ∙ ap (λ xs. receive_all waker (xs ++ entry_message b handle_b ∷ ms) started)
            (nothing_sent a.0 missing)
        ∙ ap (λ q. goes_well q (receive_all waker ms))
            (second_entry b handle_b a.0 (done ++ a ∷ []) known_b) in
      (ap (λ q. q.0) all, ap (λ q. q.1.ingested) all ∙ append_assoc done (a ∷ []) (b ∷ []))
