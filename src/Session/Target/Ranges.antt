-- ===== src/Session/Target/Ranges.antt =====
-- Range numbers: those that messages cover, and those that are pending for what was asked.
use iroh_willow.Prelude.{
  ℕ, zero, suc, sym, ◌+◌, ◌%◌, ◌^◌, ◌<◌, ◌≡◌, refl, ap, ◌∙◌, Bool, true, false, Option, none, some,
  List, [], ◌∷◌, ◌++◌, if◌then◌else◌, leb, ◌==◌, any, All, arith, if_cases,
}
use iroh_willow.Session.Resource.{bind_if_new}
use iroh_willow.Session.StaticTokens.{Tokens, bind_and_send_ours}
use iroh_willow.Session.Storage.{
  Storage, Bytes, Message, bind_static_token, send_fingerprint, announce_entries, send_entry,
  send_payload, terminate_payload,
}
use iroh_willow.Session.Target.{
  Target, insert_number, mark_our_next_range_pending, payload_messages, send_payload_chunked,
  send_entries, announce_and_send_entries,
}

-- The numbers of the ranges that messages cover.
abbrev pub covered : {S : Storage} → List (Message S) → List ℕ
covered [] = []
covered (send_fingerprint _ _ _ _ (some n) ∷ ms) = n ∷ covered ms
covered (announce_entries _ _ _ _ _ _ (some n) ∷ ms) = n ∷ covered ms
covered (_ ∷ ms) = covered ms

-- How many messages ask for an answer: fingerprints, and announcements that want a response.
abbrev pub requests : {S : Storage} → List (Message S) → ℕ
requests [] = 0
requests (send_fingerprint _ _ _ _ _ ∷ ms) = 1 + requests ms
requests (announce_entries _ _ true _ _ _ _ ∷ ms) = 1 + requests ms
requests (_ ∷ ms) = requests ms

pub covered-append :
    {S : Storage} (xs ys : List (Message S)) → covered (xs ++ ys) ≡ covered xs ++ covered ys
covered-append [] ys = refl
covered-append (bind_static_token _ ∷ xs) ys = covered-append xs ys
covered-append (send_fingerprint _ _ _ _ none ∷ xs) ys = covered-append xs ys
covered-append (send_fingerprint _ _ _ _ (some n) ∷ xs) ys =
    ap (λ ns. n ∷ ns) (covered-append xs ys)
covered-append (announce_entries _ _ _ _ _ _ none ∷ xs) ys = covered-append xs ys
covered-append (announce_entries _ _ _ _ _ _ (some n) ∷ xs) ys =
    ap (λ ns. n ∷ ns) (covered-append xs ys)
covered-append (send_entry _ _ _ _ ∷ xs) ys = covered-append xs ys
covered-append (send_payload _ ∷ xs) ys = covered-append xs ys
covered-append (terminate_payload _ ∷ xs) ys = covered-append xs ys

pub requests-append :
    {S : Storage} (xs ys : List (Message S)) → requests (xs ++ ys) ≡ requests xs + requests ys
requests-append [] ys = omega arith
requests-append (bind_static_token _ ∷ xs) ys = requests-append xs ys
requests-append (send_fingerprint _ _ _ _ _ ∷ xs) ys = omega (arith, requests-append xs ys)
requests-append (announce_entries _ _ true _ _ _ _ ∷ xs) ys = omega (arith, requests-append xs ys)
requests-append (announce_entries _ _ false _ _ _ _ ∷ xs) ys = requests-append xs ys
requests-append (send_entry _ _ _ _ ∷ xs) ys = requests-append xs ys
requests-append (send_payload _ ∷ xs) ys = requests-append xs ys
requests-append (terminate_payload _ ∷ xs) ys = requests-append xs ys

-- Messages that are about no range.
abbrev IsQuiet : {S : Storage} → List (Message S) → Type 0
IsQuiet ms = (covered ms ≡ []) × (requests ms ≡ 0)

IsQuiet-append :
    {S : Storage} (xs ys : List (Message S)) → IsQuiet xs → IsQuiet ys → IsQuiet (xs ++ ys)
IsQuiet-append xs ys (c, r) (c', r') = (
  covered-append xs ys ∙ ap (λ ns. ns ++ covered ys) c ∙ c',
  omega (arith, requests-append xs ys, r, r'),
)

IsQuiet-payload_messages :
    (S : Storage) (chunks : List Bytes) → IsQuiet (payload_messages {S = S} chunks)
unfolding payload_messages
IsQuiet-payload_messages S [] = (refl, refl)
IsQuiet-payload_messages S (c ∷ chunks) = IsQuiet-payload_messages S chunks

IsQuiet-send_payload_chunked :
    (S : Storage) (d : S.Digest) → IsQuiet (send_payload_chunked {S = S} d)
unfolding send_payload_chunked
IsQuiet-send_payload_chunked S d =
    elim (S.payload_chunks d)
      as (λ o. IsQuiet (elim o [ none ↦ [] | some chunks ↦ payload_messages {S = S} chunks ])) [
        | none ↦ (refl, refl)
        | some chunks ↦ IsQuiet-payload_messages S chunks
      ]

-- Some numbers together with the `n` numbers from `k` on.
unfoldable pub next_numbers : ℕ → ℕ → List ℕ → List ℕ
next_numbers k zero ns = ns
next_numbers k (suc n) ns = next_numbers (k + 1) n (k ∷ ns)

next_numbers_add :
    (k a b : ℕ) (ns : List ℕ)
    → next_numbers k (a + b) ns ≡ next_numbers (k + a) b (next_numbers k a ns)
unfolding next_numbers
next_numbers_add k zero b ns =
    let none : zero + b ≡ b = omega arith in
    let same : k ≡ k + 0 = omega arith in
    ap (λ n. next_numbers k n ns) none ∙ ap (λ j. next_numbers j b ns) same
next_numbers_add k (suc a) b ns =
    let more : suc a + b ≡ suc (a + b) = omega arith in
    let same : k + 1 + a ≡ k + suc a = omega arith in
    ap (λ n. next_numbers k n ns) more
    ∙ next_numbers_add (k + 1) a b (k ∷ ns)
    ∙ ap (λ j. next_numbers j b (next_numbers (k + 1) a (k ∷ ns))) same

below_not_any : (n : ℕ) (ns : List ℕ) → All (λ m. m < n) ns → any (λ m. m == n) ns ≡ false
below_not_any n [] h = refl
below_not_any n (m ∷ ns) h =
    let differs : (m == n) ≡ false = ground arith in simp differs (below_not_any n ns h.1)

below_more : (n : ℕ) (ns : List ℕ) → All (λ m. m < n) ns → All (λ m. m < n + 1) ns
below_more n [] h = tt
below_more n (m ∷ ns) h = (omega arith, below_more n ns h.1)

module _ {S : Storage} where
  IsQuiet-bind :
      (token : S.StaticToken) (tokens : Tokens S) → IsQuiet (bind_and_send_ours token tokens).1
  unfolding bind_and_send_ours
  IsQuiet-bind token tokens =
      if_cases (λ (ms : List (Message S)). IsQuiet ms) {x = bind_static_token token ∷ []} {y = []}
        (bind_if_new S.same_token token tokens.ours).1 (λ e. (refl, refl)) (λ e. (refl, refl))

  pub IsQuiet-send_entries :
      (max_eager : ℕ) (entries : List (S.Entry × S.StaticToken × S.DynamicToken))
      (tokens : Tokens S)
      → IsQuiet (send_entries max_eager entries tokens).0
  unfolding send_entries
  IsQuiet-send_entries max_eager [] tokens = (refl, refl)
  IsQuiet-send_entries max_eager ((entry, static, dynamic) ∷ rest) tokens =
      let later = IsQuiet-send_entries max_eager rest (bind_and_send_ours static tokens).2 in
      let digest = S.payload_digest entry in
      let payload =
        if_cases (λ (ms : List (Message S)). IsQuiet ms) (leb (S.payload_length entry) max_eager)
          (λ e. IsQuiet-send_payload_chunked S digest) (λ e. (refl, refl)) in
      IsQuiet-append (bind_and_send_ours static tokens).1 _ (IsQuiet-bind static tokens) (
        IsQuiet-append
          (if leb (S.payload_length entry) max_eager then send_payload_chunked digest else []) _
          payload later)

  -- The pending ranges have numbers below the counter.
  abbrev pub IsCounted : Target S → Type 0
  IsCounted t = All (λ n. n < t.our_range_counter) t.our_uncovered_ranges

  -- Between two states of a target: the next numbers became pending, one for each answer asked for.
  pub record Asked (t t' : Target S) (ms : List (Message S)) : Type 0 where
    pub counter : t'.our_range_counter ≡ t.our_range_counter + requests ms
    pub pending :
        t'.our_uncovered_ranges
        ≡ next_numbers t.our_range_counter (requests ms) t.our_uncovered_ranges
    pub counted : IsCounted t'
    pub theirs : t'.their_range_counter ≡ t.their_range_counter

  pub Asked-append :
      (t t1 t2 : Target S) (ms ms' : List (Message S))
      → Asked t t1 ms
      → Asked t1 t2 ms'
      → Asked t t2 (ms ++ ms')
  Asked-append t t1 t2 ms ms' a b =
      let sum = requests-append ms ms' in
      record {
        counter = omega (arith, sum, a.counter, b.counter);
        pending =
            b.pending
            ∙ ap (λ k. next_numbers k (requests ms') t1.our_uncovered_ranges) a.counter
            ∙ ap (next_numbers (t.our_range_counter + requests ms) (requests ms')) a.pending
            ∙ sym (
                next_numbers_add t.our_range_counter (requests ms) (requests ms')
                  t.our_uncovered_ranges)
            ∙ ap (λ n. next_numbers t.our_range_counter n t.our_uncovered_ranges) (sym sum);
        counted = b.counted;
        theirs = b.theirs ∙ a.theirs;
      }

  pub Asked-quiet :
      (t : Target S) (ms : List (Message S)) → IsCounted t → requests ms ≡ 0 → Asked t t ms
  unfolding next_numbers
  Asked-quiet t ms c q = record {
    counter = omega (arith, q);
    pending = ap (λ n. next_numbers t.our_range_counter n t.our_uncovered_ranges) (sym q);
    counted = c;
    theirs = refl;
  }

  pub Asked-pending :
      (t : Target S) (ms : List (Message S))
      → IsCounted t
      → t.our_range_counter + 1 < 2 ^ 64
      → requests ms ≡ 1
      → Asked t (mark_our_next_range_pending t) ms
  unfolding mark_our_next_range_pending insert_number next_numbers
  Asked-pending t ms c room one =
      let n = t.our_range_counter in
      let new = below_not_any n t.our_uncovered_ranges c in
      let next : (n + 1) % 2 ^ 64 ≡ n + 1 = omega arith in
      record {
        counter = omega (arith, one, next);
        pending = simp new refl ∙ ap (λ k. next_numbers n k t.our_uncovered_ranges) (sym one);
        counted = simp (new, next) (omega arith, below_more n t.our_uncovered_ranges c);
        theirs = refl;
      }

  pub Asked-announce :
      (max_eager : ℕ) (range : S.Range) (want_response : Bool) (covers : Option ℕ) (is_empty : Bool)
      (tokens : Tokens S) (t : Target S)
      → IsCounted t
      → t.our_range_counter + 1 < 2 ^ 64
      → let out =
          announce_and_send_entries max_eager range want_response covers is_empty tokens t in
        Asked t out.target out.messages
  unfolding announce_and_send_entries
  Asked-announce max_eager range true covers is_empty tokens t c room =
      let entries =
        if is_empty then [] else S.get_authorised_entries t.intersection.namespace range in
      let quiet = IsQuiet-send_entries max_eager entries tokens in
      Asked-pending t _ c room (omega (arith, quiet.1))
  Asked-announce max_eager range false covers is_empty tokens t c room =
      let entries =
        if is_empty then [] else S.get_authorised_entries t.intersection.namespace range in
      let quiet = IsQuiet-send_entries max_eager entries tokens in Asked-quiet t _ c quiet.1
