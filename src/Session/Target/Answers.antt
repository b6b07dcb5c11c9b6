-- ===== src/Session/Target/Answers.antt =====
-- What a target answers to a fingerprint and to an announcement.
use iroh_willow.Prelude.{
  ℕ, ◌+◌, ◌%◌, ◌^◌, ◌<◌, ◌≡◌, ◌⊎◌, inl, inr, refl, ap, ◌∙◌, Bool, true, false, Option, none, some,
  List, [], ◌∷◌, ◌++◌, if◌then◌else◌, ◌==◌, any, All, length, arith, if_cases, Bool-cases,
}
use iroh_willow.Session.Error.{Error, ok, err}
use iroh_willow.Session.StaticTokens.{Tokens}
use iroh_willow.Session.Storage.{Storage, SplitAction, split_fingerprint, split_entries}
use iroh_willow.Session.Target.{
  Target, Sent, remove_number, mark_our_range_covered, next_range_count_theirs,
  send_range_fingerprint, announce_and_send_entries, send_part, send_parts, cover,
  answer_fingerprint, is_nil,
}
use iroh_willow.Session.Target.Ranges.{
  covered, requests, next_numbers, covered-append, requests-append, IsCounted, Asked, Asked-append,
  Asked-pending, Asked-quiet, Asked-announce, IsQuiet-send_entries,
}

abbrev covers_list : Option ℕ → List ℕ
covers_list none = []
covers_list (some n) = n ∷ []

-- The pending ranges without the one that a message covers.
abbrev pub without : Option ℕ → List ℕ → List ℕ
without none ns = ns
without (some n) ns = remove_number n ns

remove-below : (k n : ℕ) (ns : List ℕ) → All (λ m. m < k) ns → All (λ m. m < k) (remove_number n ns)
unfolding remove_number
remove-below k n [] h = tt
remove-below k n (m ∷ ns) h =
    if_cases (λ ms. All (λ m. m < k) ms) (m == n) (λ e. remove-below k n ns h.1)
      (λ e. (h.0, remove-below k n ns h.1))

last_lem :
    {A : Type 0} (n : ℕ) (rest : List A)
    → covers_list (if is_nil rest then some n else none) ++ (if is_nil rest then [] else n ∷ [])
      ≡ n ∷ []
unfolding is_nil
last_lem n [] = refl
last_lem n (x ∷ rest) = refl

module _ {S : Storage} where
  pub covered-announce :
      (max_eager : ℕ) (range : S.Range) (want_response : Bool) (covers : Option ℕ) (is_empty : Bool)
      (tokens : Tokens S) (t : Target S)
      → covered
          (announce_and_send_entries max_eager range want_response covers is_empty tokens
            t).messages
        ≡ covers_list covers
  unfolding announce_and_send_entries
  covered-announce max_eager range want_response none is_empty tokens t =
      (IsQuiet-send_entries max_eager
        (if is_empty then [] else S.get_authorised_entries t.intersection.namespace range) tokens).0
  covered-announce max_eager range want_response (some n) is_empty tokens t =
      ap (λ ns. n ∷ ns)
        (IsQuiet-send_entries max_eager
          (if is_empty then [] else S.get_authorised_entries t.intersection.namespace range)
          tokens).0

  part_lem :
      (max_eager : ℕ) (range : S.Range) (action : SplitAction S.Fingerprint) (covers : Option ℕ)
      (tokens : Tokens S) (t : Target S)
      → IsCounted t
      → t.our_range_counter + 1 < 2 ^ 64
      → let out = send_part max_eager range action covers tokens t in
        Asked t out.target out.messages
        × (covered out.messages ≡ covers_list covers)
        × (requests out.messages ≡ 1)
  unfolding send_part send_range_fingerprint announce_and_send_entries
  part_lem max_eager range (split_entries count) covers tokens t c room =
      let entries =
        if count == 0 then [] else S.get_authorised_entries t.intersection.namespace range in
      (
        Asked-announce max_eager range true covers (count == 0) tokens t c room,
        covered-announce max_eager range true covers (count == 0) tokens t,
        omega (arith, (IsQuiet-send_entries max_eager entries tokens).1),
      )
  part_lem max_eager range (split_fingerprint f) none tokens t c room =
      (Asked-pending t _ c room (omega arith), refl, omega arith)
  part_lem max_eager range (split_fingerprint f) (some n) tokens t c room =
      (Asked-pending t _ c room (omega arith), refl, omega arith)

  parts_lem :
      (max_eager n : ℕ) (parts : List (S.Range × SplitAction S.Fingerprint)) (tokens : Tokens S)
      (t : Target S)
      → IsCounted t
      → t.our_range_counter + length parts < 2 ^ 64
      → let out = send_parts max_eager n parts tokens t in
        Asked t out.target out.messages
        × (covered out.messages ≡ (if is_nil parts then [] else n ∷ []))
        × (requests out.messages ≡ length parts)
  unfolding send_parts is_nil
  parts_lem max_eager n [] tokens t c room = (Asked-quiet t [] c refl, refl, refl)
  parts_lem max_eager n ((range, action) ∷ rest) tokens t c room =
      let covers = if is_nil rest then some n else none in
      let first = send_part max_eager range action covers tokens t in
      let (asked, cov, one) = part_lem max_eager range action covers tokens t c (omega arith) in
      let later = send_parts max_eager n rest first.tokens first.target in
      let (asked', cov', many) =
        parts_lem max_eager n rest first.tokens first.target asked.counted
          (omega (arith, asked.counter, one)) in
      (
        Asked-append t first.target later.target first.messages later.messages asked asked',
        covered-append first.messages later.messages
            ∙ ap (λ ns. ns ++ covered later.messages) cov
            ∙ ap (λ ns. covers_list covers ++ ns) cov'
            ∙ last_lem n rest,
        omega (arith, requests-append first.messages later.messages, one, many),
      )

  -- What covering a pending range leaves: everything but that range, and `started`.
  pub record Covered (covers : Option ℕ) (t t1 : Target S) : Type 0 where
    pub result : cover covers t ≡ ok t1
    pub counted : IsCounted t1
    pub ours : t1.our_range_counter ≡ t.our_range_counter
    pub theirs : t1.their_range_counter ≡ t.their_range_counter
    pub same : t1.intersection ≡ t.intersection
    pub left : t1.our_uncovered_ranges ≡ without covers t.our_uncovered_ranges

  -- A message covers a range that is not pending.
  abbrev pub CoversUnknown : Option ℕ → Target S → Type 0
  CoversUnknown covers t =
      (n : ℕ) × (covers ≡ some n) × (any (λ m. m == n) t.our_uncovered_ranges ≡ false)

  pub cover_lem :
      (covers : Option ℕ) (t : Target S)
      → IsCounted t
      → (CoversUnknown covers t × (cover covers t ≡ err Error.invalid_state))
        ⊎ ((t1 : Target S) × Covered covers t t1)
  unfolding cover mark_our_range_covered
  cover_lem none t c = inr (
    record t { started = true },
    record { result = refl; counted = c; ours = refl; theirs = refl; same = refl; left = refl },
  )
  cover_lem (some n) t c = elim (Bool-cases (any (λ m. m == n) t.our_uncovered_ranges)) [
    | inl e ↦ inr (
      record t { started = true; our_uncovered_ranges = remove_number n t.our_uncovered_ranges },
      record {
        result = simp e refl;
        counted = remove-below t.our_range_counter n t.our_uncovered_ranges c;
        ours = refl;
        theirs = refl;
        same = refl;
        left = refl;
      },
    )
    | inr e ↦ inl ((n, refl, e), simp e refl)
  ]

  -- The answer to a message that wants one: it covers the range of that message, once, and besides `ns`
  -- exactly the next numbers of ours are pending, one for each message that asks for an answer.
  pub record Answers (ns : List ℕ) (t : Target S) (out : Sent S) : Type 0 where
    pub covers_once : covered out.messages ≡ t.their_range_counter ∷ []
    pub counts_theirs : out.target.their_range_counter ≡ t.their_range_counter + 1
    pub counts_ours : out.target.our_range_counter ≡ t.our_range_counter + requests out.messages
    pub pending :
        out.target.our_uncovered_ranges
        ≡ next_numbers t.our_range_counter (requests out.messages) ns
    pub counted : IsCounted out.target

  pub answers_lem :
      (ns : List ℕ) (t t1 : Target S) (out : Sent S)
      → t1.our_range_counter ≡ t.our_range_counter
      → t1.our_uncovered_ranges ≡ ns
      → t1.their_range_counter ≡ t.their_range_counter + 1
      → Asked t1 out.target out.messages
      → covered out.messages ≡ t.their_range_counter ∷ []
      → Answers ns t out
  answers_lem ns t t1 out o u th a c = record {
    covers_once = c;
    counts_theirs = a.theirs ∙ th;
    counts_ours = omega (arith, a.counter, o);
    pending =
        a.pending
        ∙ ap (λ k. next_numbers k (requests out.messages) t1.our_uncovered_ranges) o
        ∙ ap (next_numbers t.our_range_counter (requests out.messages)) u;
    counted = a.counted;
  }

  pub answer_fingerprint_lem :
      (max_eager : ℕ) (range : S.Range) (theirs : S.Fingerprint) (tokens : Tokens S) (t : Target S)
      → IsCounted t
      → is_nil (S.split_range t.intersection.namespace range) ≡ false
      → t.our_range_counter + 1 + length (S.split_range t.intersection.namespace range) < 2 ^ 64
      → t.their_range_counter + 1 < 2 ^ 64
      → Answers t.our_uncovered_ranges t (answer_fingerprint max_eager range theirs tokens t)
  unfolding answer_fingerprint next_range_count_theirs
  answer_fingerprint_lem max_eager range theirs tokens t c splits room room' =
      let (n, t1) = next_range_count_theirs t in
      let next : (t.their_range_counter + 1) % 2 ^ 64 ≡ t.their_range_counter + 1 = omega arith in
      let ns = t.intersection.namespace in
      if_cases (λ out. Answers t.our_uncovered_ranges t out)
        (S.same_fingerprint (S.fingerprint ns range) theirs)
        (λ e.
          answers_lem _ t t1 _ refl refl next
            (Asked-announce max_eager range false (some n) true tokens t1 c (omega arith))
            (covered-announce max_eager range false (some n) true tokens t1))
        (λ e.
          if_cases (λ out. Answers t.our_uncovered_ranges t out) (S.is_empty_fingerprint theirs)
            (λ e'.
              answers_lem _ t t1 _ refl refl next
                (Asked-announce max_eager range true (some n) false tokens t1 c (omega arith))
                (covered-announce max_eager range true (some n) false tokens t1))
            (λ e'.
              let parts = S.split_range ns range in
              let (asked, cov, _) = parts_lem max_eager n parts tokens t1 c (omega arith) in
              answers_lem _ t t1 _ refl refl next asked
                (cov ∙ ap (λ b. if b then [] else n ∷ []) splits)))
