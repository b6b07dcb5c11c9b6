-- ===== src/Session/StaticTokens.antt =====
-- `StaticTokens` of src/session/static_tokens.rs: the static tokens that each peer has bound.
use iroh_willow.Prelude.{ℕ, List, [], ◌∷◌, if◌then◌else◌}
use iroh_willow.Session.Error.{Error, Result, ok, err}
use iroh_willow.Session.Resource.{
  ResourceMap, PollResource, ready, pending, bind, bind_if_new, poll_get_eventually,
}
use iroh_willow.Session.Storage.{Storage, Message, bind_static_token}

pub record Tokens (S : Storage) : Type 0 where
  pub ours : ResourceMap S.StaticToken
  pub theirs : ResourceMap S.StaticToken

module _ {S : Storage} where
  unfoldable pub bind_theirs : S.StaticToken → Tokens S → List ℕ × Tokens S
  bind_theirs token t = let b = bind token t.theirs in (b.woken, record t { theirs = b.after })

  -- The handle, the messages sent, and the tokens afterwards.
  unfoldable pub bind_and_send_ours : S.StaticToken → Tokens S → ℕ × List (Message S) × Tokens S
  bind_and_send_ours token t =
      let (b, is_new) = bind_if_new S.same_token token t.ours in
      (b.handle, if is_new then bind_static_token token ∷ [] else [], record t { ours = b.after })

  -- `pending` as long as the remote has not bound the handle; the entry comes with its tokens.
  unfoldable pub authorise_entry_eventually :
      S.Entry
      → ℕ
      → S.DynamicToken
      → ℕ
      → Tokens S
      → PollResource (Result (S.Entry × S.StaticToken × S.DynamicToken)) × Tokens S
  authorise_entry_eventually entry handle dynamic waker t =
      let (polled, theirs) = poll_get_eventually handle waker t.theirs in
      elim polled [
        | pending ↦ (pending, record t { theirs = theirs })
        | ready static ↦ (
          ready (
              if S.authorises entry static dynamic
              then ok (entry, static, dynamic)
              else err Error.unauthorised_write),
          record t { theirs = theirs },
        )
      ]
