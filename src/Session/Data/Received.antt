-- ===== src/Session/Data/Received.antt =====
-- What src/session/data.rs sends for new entries against what it receives.
use iroh_willow.Prelude.{
  ℕ, ◌+◌, ◌^◌, ◌≤◌, ◌<◌, ◌≡◌, ap, ◌∙◌, ◌↔◌, ◌⊎◌, inl, inr, true, none, some, List, [], ◌∷◌, ◌++◌,
  Option-cases, refl, sym, subst, arith, ◌%◌,
}
use iroh_willow.Prelude.Map.{lookup, put, lookup-put}
use iroh_willow.Session.Resource.{ResourceMap, bind, find_handle}
use iroh_willow.Session.Resource.Laws.{
  IsValid, bind_lem, lookup-find_handle, bind_if_new_known, bind_if_new_fresh,
}
use iroh_willow.Session.StaticTokens.{Tokens, bind_theirs, bind_and_send_ours}
use iroh_willow.Session.Storage.{Storage, Bytes, Message, bind_static_token}
use iroh_willow.Session.Target.Delivery.{ImportsPayloads}
use iroh_willow.Session.Data.{Sent, send_entry}
use iroh_willow.Session.Data.Delivery.{Fills, receiver}

-- The receiver has bound the static tokens that the sender has announced.
pub record InStep {R : Type 0} (sender receiver : ResourceMap R) : Type 0 where
  pub valid : IsValid sender
  pub same_map : receiver.map ≡ sender.map
  pub same_next : receiver.next_handle ≡ sender.next_handle

-- The entry's token authorises it, and its payload is stored, shorter than 2^64, and sent as chunks that
-- reach its length with the last one and not before.
abbrev pub IsSendable : (S : Storage) → S.Entry × S.StaticToken × S.DynamicToken → Type 0
IsSendable S (entry, static, dynamic) =
    (S.authorises entry static dynamic ≡ true)
    × (S.payload_length entry < 2 ^ 64)
    × ((chunks : List Bytes) × (S.payload_chunks (S.payload_digest entry) ≡ some chunks)
        × Fills (S.payload_length entry) 0 chunks)

module _ {S : Storage} where
  abbrev pub send_all : List (S.Entry × S.StaticToken × S.DynamicToken) → Tokens S → List (Sent S)
  send_all [] tokens = []
  send_all (a ∷ rest) tokens = (send_entry a tokens).0 ++ send_all rest (send_entry a tokens).1

module _ {S : Storage} (importing : ImportsPayloads S) (waker : ℕ) where
  module _ (eq_decides : (a b : S.StaticToken) → (S.same_token a b ≡ true) ↔ (a ≡ b)) where
    -- The messages with a token, and what they do to the receiver's tokens: there is none, or one that
    -- binds it.
    abbrev pub Arrived : S.StaticToken → Tokens S → List (Message S) → Tokens S → Type 0
    Arrived static before ms after =
        ((ms ≡ []) × (after ≡ before))
        ⊎ ((ms ≡ bind_static_token static ∷ []) × (after ≡ (bind_theirs static before).1))

    -- The receiver's tokens once those that an entry needs have arrived.
    abbrev pub Prepared :
        S.StaticToken → ℕ → Tokens S → ℕ × List (Message S) × Tokens S → Tokens S → Type 0
    Prepared static next before sent after =
        Arrived static before sent.1 after
        × InStep sent.2.ours after.theirs
        × (lookup sent.0 after.theirs.map ≡ some static)
        × (sent.2.ours.next_handle ≤ next + 1)

    send_new :
        (static : S.StaticToken) (t : Tokens S)
        → find_handle S.same_token static t.ours.map ≡ none
        → let b = bind static t.ours in
          bind_and_send_ours static t
          ≡ (b.handle, bind_static_token static ∷ [], record t { ours = b.after })
    unfolding bind_and_send_ours
    send_new static t e = simp (bind_if_new_fresh S.same_token eq_decides t.ours static e)

    send_known :
        (static : S.StaticToken) (t : Tokens S) (h : ℕ)
        → find_handle S.same_token static t.ours.map ≡ some h
        → bind_and_send_ours static t ≡ (h, [], t)
    unfolding bind_and_send_ours
    send_known static t h e = simp (bind_if_new_known S.same_token eq_decides t.ours static h e)

    pub prepare :
        (static : S.StaticToken) (sender before : Tokens S)
        → InStep sender.ours before.theirs
        → sender.ours.next_handle + 1 < 2 ^ 64
        → (after : Tokens S) × Prepared static sender.ours.next_handle before
            (bind_and_send_ours static sender)
            after
    unfolding bind_theirs bind
    prepare static sender before in_step room =
        elim (Option-cases (find_handle S.same_token static sender.ours.map)) [
          | inl new ↦
              let after = record before { theirs = (bind static before.theirs).after } in
              let (valid, _, _, _, _, _) = bind_lem sender.ours static in_step.valid room in
              (
                after,
                subst (λ p. Prepared static sender.ours.next_handle before p after)
                    (sym (send_new static sender new))
                    (
                      inr (refl, refl),
                      record {
                        valid = valid;
                        same_map =
                            ap (λ n. put n static before.theirs.map) in_step.same_next
                            ∙ ap (put sender.ours.next_handle static) in_step.same_map;
                        same_next = ap (λ (n : ℕ). (n + 1) % 2 ^ 64) in_step.same_next;
                      },
                      ground (
                        arith,
                        lookup-put before.theirs.next_handle sender.ours.next_handle static
                            before.theirs.map,
                      ),
                      omega arith,
                    ),
              )
          | inr (h, known) ↦ (
            before,
            subst (λ p. Prepared static sender.ours.next_handle before p before)
                (sym (send_known static sender h known))
                (
                  inl (refl, refl),
                  in_step,
                  ap (lookup h) in_step.same_map
                      ∙ lookup-find_handle S.same_token eq_decides static sender.ours.map h known
                          in_step.valid.distinct,
                  omega arith,
                ),
          )
        ]
