-- ===== src/Session/InStore/Coverage.antt =====
-- The ranges that the answer to a fingerprint speaks of (src/session/reconciler.rs).
use iroh_willow.Prelude.{
  ℕ, ◌≡◌, refl, ap, sym, subst, ◌∙◌, Bool, true, false, Option, none, some, List, [], ◌∷◌, ◌++◌,
  map, if◌then◌else◌, if_cases, leb, ◌==◌, arith,
}
use iroh_willow.Session.Error.{Result, ok, err, panicked, ◌>>=◌, OnOk}
use iroh_willow.Session.Storage.{
  Bytes, Storage, SplitAction, split_fingerprint, split_entries, Message, bind_static_token,
  send_fingerprint, announce_entries, send_entry, send_payload, terminate_payload,
}
use iroh_willow.Session.Resource.{bind_if_new}
use iroh_willow.Session.StaticTokens.{Tokens, bind_and_send_ours}
use iroh_willow.Session.Target.{
  Target, Sent, send_range_fingerprint, payload_messages, send_payload_chunked, send_entries,
  announce_and_send_entries, send_part, send_parts, answer_fingerprint, is_nil,
  next_range_count_theirs, received_send_fingerprint, cover,
}
use iroh_willow.Model.{DataModel}
use iroh_willow.Store.Memory.{EntryStore}
use iroh_willow.Store.Ranges.{Ranges, Laws}
use iroh_willow.Store.Fingerprint.{Fingerprint}
use iroh_willow.Store.Split.{Range3d, SplitOpts, split_range}
use iroh_willow.Store.Split.Halves.{covers, Partitions}
use iroh_willow.Store.Split.Partition.{parts_of, split_range-Partitions}
use iroh_willow.Session.InStore.{Outside, storage_of, parts_or_none}

module _ {S : Storage} where
  -- The ranges of the messages that have one.
  unfoldable pub ranges_in : List (Message S) → List S.Range
  ranges_in [] = []
  ranges_in (send_fingerprint r _ _ _ _ ∷ ms) = r ∷ ranges_in ms
  ranges_in (announce_entries r _ _ _ _ _ _ ∷ ms) = r ∷ ranges_in ms
  ranges_in (bind_static_token _ ∷ ms) = ranges_in ms
  ranges_in (send_entry _ _ _ _ ∷ ms) = ranges_in ms
  ranges_in (send_payload _ ∷ ms) = ranges_in ms
  ranges_in (terminate_payload _ ∷ ms) = ranges_in ms

  ranges_in-append :
      (ms ns : List (Message S)) → ranges_in (ms ++ ns) ≡ ranges_in ms ++ ranges_in ns
  unfolding ranges_in
  ranges_in-append [] ns = refl
  ranges_in-append (send_fingerprint r _ _ _ _ ∷ ms) ns = ap (λ rs. r ∷ rs) (ranges_in-append ms ns)
  ranges_in-append (announce_entries r _ _ _ _ _ _ ∷ ms) ns =
      ap (λ rs. r ∷ rs) (ranges_in-append ms ns)
  ranges_in-append (bind_static_token _ ∷ ms) ns = ranges_in-append ms ns
  ranges_in-append (send_entry _ _ _ _ ∷ ms) ns = ranges_in-append ms ns
  ranges_in-append (send_payload _ ∷ ms) ns = ranges_in-append ms ns
  ranges_in-append (terminate_payload _ ∷ ms) ns = ranges_in-append ms ns

module _ (S : Storage) where
  payload_messages_none : (chunks : List Bytes) → ranges_in (payload_messages {S = S} chunks) ≡ []
  unfolding payload_messages ranges_in
  payload_messages_none [] = refl
  payload_messages_none (chunk ∷ chunks) = payload_messages_none chunks

  payload_none :
      (o : Option (List Bytes))
      → ranges_in
          (elim o as (λ _. List (Message S)) [ none ↦ [] | some chunks ↦ payload_messages chunks ])
        ≡ []
  unfolding ranges_in
  payload_none none = refl
  payload_none (some chunks) = payload_messages_none chunks

  eager_none :
      (max_eager len : ℕ) (digest : S.Digest)
      → ranges_in {S = S} (if leb len max_eager then send_payload_chunked digest else []) ≡ []
  unfolding ranges_in send_payload_chunked
  eager_none max_eager len digest =
      if_cases (λ ms. ranges_in {S = S} ms ≡ []) (leb len max_eager)
        (λ _. payload_none (S.payload_chunks digest)) (λ _. refl)

  bound_none :
      (token : S.StaticToken) (tokens : Tokens S)
      → ranges_in (bind_and_send_ours token tokens).1 ≡ []
  unfolding bind_and_send_ours ranges_in
  bound_none token tokens =
      if_cases (λ ms. ranges_in {S = S} ms ≡ []) {x = bind_static_token token ∷ []} {y = []}
        (bind_if_new S.same_token token tokens.ours).1 (λ _. refl) (λ _. refl)

  send_entries_none :
      (max_eager : ℕ) (es : List (S.Entry × S.StaticToken × S.DynamicToken)) (tokens : Tokens S)
      → ranges_in (send_entries max_eager es tokens).0 ≡ []
  unfolding send_entries ranges_in
  send_entries_none max_eager [] tokens = refl
  send_entries_none max_eager ((entry, static, dynamic) ∷ rest) tokens =
      let (handle, bound, tokens1) = bind_and_send_ours static tokens in
      let payload : List (Message S) =
        if leb (S.payload_length entry) max_eager
        then send_payload_chunked (S.payload_digest entry)
        else [] in
      let later : List (Message S) = (send_entries max_eager rest tokens1).0 in
      ranges_in-append bound _
      ∙ ap (λ rs. rs ++ ranges_in (payload ++ terminate_payload (is_nil rest) ∷ later))
          (bound_none static tokens)
      ∙ ranges_in-append payload (terminate_payload (is_nil rest) ∷ later)
      ∙ ap (λ rs. rs ++ ranges_in later)
          (eager_none max_eager (S.payload_length entry) (S.payload_digest entry))
      ∙ send_entries_none max_eager rest tokens1

  ranges_in-announce :
      (max_eager : ℕ) (range : S.Range) (want : Bool) (covers : Option ℕ) (is_empty : Bool)
      (tokens : Tokens S) (t : Target S)
      → ranges_in (announce_and_send_entries max_eager range want covers is_empty tokens t).messages
        ≡ range ∷ []
  unfolding announce_and_send_entries ranges_in
  ranges_in-announce max_eager range want covers is_empty tokens t =
      ap (λ rs. range ∷ rs) (send_entries_none max_eager _ tokens)

  ranges_in-part :
      (max_eager : ℕ) (range : S.Range) (action : SplitAction S.Fingerprint) (covers : Option ℕ)
      (tokens : Tokens S) (t : Target S)
      → ranges_in (send_part max_eager range action covers tokens t).messages ≡ range ∷ []
  unfolding send_part send_range_fingerprint ranges_in
  ranges_in-part max_eager range (split_entries n) covers tokens t =
      ranges_in-announce max_eager range true covers (n == 0) tokens t
  ranges_in-part max_eager range (split_fingerprint f) covers tokens t = refl

  ranges_in-parts :
      (max_eager n : ℕ) (parts : List (S.Range × SplitAction S.Fingerprint)) (tokens : Tokens S)
      (t : Target S)
      → ranges_in (send_parts max_eager n parts tokens t).messages ≡ map (λ p. p.0) parts
  unfolding send_parts ranges_in
  ranges_in-parts max_eager n [] tokens t = refl
  ranges_in-parts max_eager n ((range, action) ∷ rest) tokens t =
      let covers : Option ℕ = if is_nil rest then some n else none in
      let first : Sent S = send_part max_eager range action covers tokens t in
      ranges_in-append first.messages _
      ∙ ap (λ rs. rs ++ ranges_in (send_parts max_eager n rest first.tokens first.target).messages)
          (ranges_in-part max_eager range action covers tokens t)
      ∙ ap (λ rs. range ∷ rs) (ranges_in-parts max_eager n rest first.tokens first.target)

  -- The answer to a fingerprint speaks of its range, or of the parts of its range.
  pub ranges_in-answer :
      (P : List S.Range → Type 0) (max_eager : ℕ) (range : S.Range) (theirs : S.Fingerprint)
      (tokens : Tokens S) (t : Target S)
      → P (range ∷ [])
      → P (map (λ p. p.0) (S.split_range t.intersection.namespace range))
      → P (ranges_in (answer_fingerprint max_eager range theirs tokens t).messages)
  unfolding answer_fingerprint next_range_count_theirs
  ranges_in-answer P max_eager range theirs tokens t whole split =
      let (n, t1) = next_range_count_theirs t in
      let Q : Sent S → Type 0 = λ out. P (ranges_in out.messages) in
      if_cases Q (S.same_fingerprint (S.fingerprint t.intersection.namespace range) theirs)
        (λ _.
          subst P (sym (ranges_in-announce max_eager range false (some n) true tokens t1)) whole)
        (λ _.
          if_cases Q (S.is_empty_fingerprint theirs)
            (λ _.
              subst P (sym (ranges_in-announce max_eager range true (some n) false tokens t1))
                whole)
            (λ _.
              subst P
                (sym (
                  ranges_in-parts max_eager n (S.split_range t.intersection.namespace range) tokens
                    t1))
                split))

covered_first :
    {A B : Type 0} (P : B → Type 0) (f : A → B) (r : Result A)
    → ((a : A) → P (f a))
    → OnOk P (r >>= (λ a. ok (f a)))
unfolding OnOk
covered_first P f (ok a) h = h a
covered_first P f (err e) h = tt
covered_first P f panicked h = tt

module _ {m : DataModel} (d : Ranges m) where
  covers_whole : (r : Range3d d) → Partitions d r (r ∷ [])
  unfolding covers
  covers_whole r e = omega arith

  split_parts :
      Laws d
      → (namespace : ℕ) (r : Range3d d) (opts : SplitOpts) (s : EntryStore m)
      → Partitions d r (map (λ p. p.0) (parts_or_none d (split_range d namespace r opts s)))
  unfolding parts_or_none parts_of
  split_parts laws namespace r opts s =
      let (parts, made, whole) = split_range-Partitions d laws namespace r opts s in
      subst (λ q. Partitions d r (map (λ p. p.0) (parts_or_none d q))) (sym made) whole

  -- The answer of a target over the in-memory store to a fingerprint, if it is not an error, speaks
  -- of each entry of the received range in exactly one range, and of no other entry.
  pub answer-Partitions :
      Laws d
      → (o : Outside d) (opts : SplitOpts) (s : EntryStore m) (max_eager : ℕ) (range : Range3d d)
        (theirs : Fingerprint) (covers : Option ℕ) (tokens : Tokens (storage_of d o opts s))
        (t : Target (storage_of d o opts s))
      → OnOk
          (λ out. Partitions d range (ranges_in out.messages))
          (received_send_fingerprint max_eager range theirs covers tokens t)
  unfolding received_send_fingerprint OnOk
  answer-Partitions laws o opts s max_eager range theirs covers tokens t =
      covered_first (λ out. Partitions d range (ranges_in out.messages))
        (λ t1. answer_fingerprint max_eager range theirs tokens t1) (cover covers t)
        (λ t1.
          ranges_in-answer (storage_of d o opts s) (Partitions d range) max_eager range theirs
            tokens t1 (covers_whole range)
            (split_parts laws t1.intersection.namespace range opts s))
