-- ===== src/Store/Events/Drain.antt =====
-- What a subscriber of the event queue sees.
use iroh_willow.Prelude.{
  ℕ, zero, suc, ◌+◌, ◌-◌, ◌<◌, ◌≤◌, ◌≡◌, refl, ◌⊎◌, inl, inr, Bool, false, none, some, List, [],
  ◌∷◌, ◌++◌, length, arith, drop, keep, length-append, keep-append, ◌∙◌, ap, sym, Bool-cases,
  Option-cases, get_elem?, if◌then◌else◌,
}
use iroh_willow.Store.Events.{
  EventQueue, PollEvent, ready, closed, pending, next_progress_id, insert, get, scan, poll_next,
}

module _ {T : Type 0} where
  -- The events with progress id `id` or later.
  abbrev pub from : ℕ → EventQueue T → List T
  from id q = drop (id - q.offset) q.events

  -- The polls of a subscriber that starts at `id`, until one is pending.
  pub drain : ℕ → ℕ → (T → Bool) → EventQueue T → List T
  drain zero id filter q = []
  drain (suc fuel) id filter q = elim (poll_next id filter 0 q).0 [
    | pending ↦ []
    | closed ↦ []
    | ready next event ↦ event ∷ drain fuel next filter q
  ]

  get-drop : (xs : List T) (i : ℕ) → get_elem? xs i ≡ none → drop i xs ≡ []
  get-drop [] zero h = refl
  get-drop [] (suc i) h = refl
  get-drop (x ∷ xs) zero h = ground arith
  get-drop (x ∷ xs) (suc i) h = get-drop xs i h

  get-drop-some :
      (xs : List T) (i : ℕ) (x : T) → get_elem? xs i ≡ some x → drop i xs ≡ x ∷ drop (suc i) xs
  get-drop-some [] i x h = ground arith
  get-drop-some (y ∷ ys) zero x h = ground arith
  get-drop-some (y ∷ ys) (suc i) x h = get-drop-some ys i x h

  get_lt : (xs : List T) (i : ℕ) (x : T) → get_elem? xs i ≡ some x → i < length xs
  get_lt [] i x h = ground arith
  get_lt (y ∷ ys) zero x h = omega arith
  get_lt (y ∷ ys) (suc i) x h = omega (arith, get_lt ys i x h)

  pub get-from_none : (q : EventQueue T) (i : ℕ) → q.offset ≤ i → get i q ≡ none → from i q ≡ []
  unfolding get
  get-from_none q i h e = get-drop q.events (i - q.offset) (ground arith)

  pub get-from_some :
      (q : EventQueue T) (i : ℕ) (x : T)
      → q.offset ≤ i
      → get i q ≡ some x
      → from i q ≡ x ∷ from (suc i) q
  unfolding get
  get-from_some q i x h e =
      let d : suc i - q.offset ≡ suc (i - q.offset) = omega arith in
      rw d (get-drop-some q.events (i - q.offset) x (ground arith))

  -- A scan from `i` finds nothing only if nothing matches, and otherwise the first match.
  abbrev pub Scans : (T → Bool) → EventQueue T → ℕ → PollEvent T → Type 0
  Scans filter q i pending = keep filter (from i q) ≡ []
  Scans filter q i closed = ⊥
  Scans filter q i (ready next event) =
      (keep filter (from i q) ≡ event ∷ keep filter (from next q))
      × (q.offset ≤ next)
      × (length (from next q) < length (from i q))

  Scans-skip :
      (filter : T → Bool) (q : EventQueue T) (i : ℕ) (x : T) (r : PollEvent T)
      → from i q ≡ x ∷ from (suc i) q
      → filter x ≡ false
      → Scans filter q (suc i) r
      → Scans filter q i r
  Scans-skip filter q i x pending e f h = rw (e, f) h
  Scans-skip filter q i x closed e f h = h
  Scans-skip filter q i x (ready next event) e f h = rw (e, f) (h.0, h.1, omega (arith, h.2))

  pub scan-Scans :
      (fuel : ℕ) (filter : T → Bool) (q : EventQueue T) (i : ℕ)
      → q.offset ≤ i
      → length (from i q) < fuel
      → Scans filter q i (scan fuel i filter q)
  unfolding scan
  scan-Scans zero filter q i h l = absurd (omega arith)
  scan-Scans (suc fuel) filter q i h l = elim (Option-cases (get i q)) [
    | inl e ↦ rw (e, scan) (rw (get-from_none q i h e))
    | inr (x, e) ↦
        let split = get-from_some q i x h e in
        elim (Bool-cases (filter x)) [
          | inl hit ↦ rw (e, scan, hit) (rw (split, hit) (refl, omega arith, omega arith))
          | inr miss ↦
              rw (e, scan, miss)
                (Scans-skip filter q i x _ split miss
                  (scan-Scans fuel filter q (suc i) (omega arith) (omega (arith, ap length split))))
        ]
  ]

  pub poll_next-scan :
      (q : EventQueue T) (i w : ℕ) (filter : T → Bool)
      → q.offset ≤ i
      → (poll_next i filter w q).0 ≡ scan (suc (length q.events)) i filter q
  unfolding poll_next
  poll_next-scan q i w filter h = ground arith

  length-drop-le : (xs : List T) (i : ℕ) → length (drop i xs) ≤ length xs
  length-drop-le xs zero = omega arith
  length-drop-le [] (suc i) = omega arith
  length-drop-le (x ∷ xs) (suc i) = omega (arith, length-drop-le xs i)

  drain-step :
      (fuel : ℕ) (filter : T → Bool) (q : EventQueue T) (i : ℕ) (r : PollEvent T)
      → (poll_next i filter 0 q).0 ≡ r
      → Scans filter q i r
      → ((next : ℕ)
          → q.offset ≤ next
          → length (from next q) < length (from i q)
          → drain fuel next filter q ≡ keep filter (from next q))
      → drain (suc fuel) i filter q ≡ keep filter (from i q)
  unfolding drain
  drain-step fuel filter q i pending e s ih = rw (e, drain) (sym s)
  drain-step fuel filter q i closed e s ih = absurd s
  drain-step fuel filter q i (ready next event) e s ih =
      rw (e, drain) (ap (◌∷◌ event) (ih next s.1 s.2) ∙ sym s.0)

  -- A subscriber that starts at a progress id `i` which the queue still holds and polls until it
  -- is told to wait is handed exactly the events from `i` on that pass its filter, in order; one
  -- poll more than there are such events is enough.
  pub drain-eq-keep :
      (fuel : ℕ) (filter : T → Bool) (q : EventQueue T) (i : ℕ)
      → q.offset ≤ i
      → length (from i q) < fuel
      → drain fuel i filter q ≡ keep filter (from i q)
  drain-eq-keep zero filter q i h l = absurd (omega arith)
  drain-eq-keep (suc fuel) filter q i h l =
      drain-step fuel filter q i _ (poll_next-scan q i 0 filter h)
        (scan-Scans (suc (length q.events)) filter q i h
          (omega (arith, length-drop-le q.events (i - q.offset))))
        (λ next h' shorter. drain-eq-keep fuel filter q next h' (omega arith))

  drop-append : (xs ys : List T) (i : ℕ) → i ≤ length xs → drop i (xs ++ ys) ≡ drop i xs ++ ys
  drop-append xs ys zero h = refl
  drop-append [] ys (suc i) h = absurd (omega arith)
  drop-append (x ∷ xs) ys (suc i) h = drop-append xs ys i (omega arith)

  from-insert :
      (q : EventQueue T) (f : ℕ → T) (i : ℕ)
      → q.offset ≤ i
      → i ≤ next_progress_id q
      → from i (insert f q) ≡ from i q ++ f (next_progress_id q) ∷ []
  unfolding insert next_progress_id
  from-insert q f i h l = drop-append q.events _ (i - q.offset) (omega arith)

  -- For a subscriber at a progress id that was given out, an insertion adds the new event at the
  -- end of what it is handed if the event passes its filter, and changes nothing else.
  pub drain-insert :
      (fuel : ℕ) (filter : T → Bool) (q : EventQueue T) (f : ℕ → T) (i : ℕ)
      → q.offset ≤ i
      → i ≤ next_progress_id q
      → length q.events + 1 < fuel
      → drain fuel i filter (insert f q)
        ≡ drain fuel i filter q
          ++ (if filter (f (next_progress_id q)) then f (next_progress_id q) ∷ [] else [])
  drain-insert fuel filter q f i h l k =
      let grown = from-insert q f i h l in
      let short = length-drop-le q.events (i - q.offset) in
      let new : List T = f (next_progress_id q) ∷ [] in
      drain-eq-keep fuel filter (insert f q) i (unfold insert in h)
        (rw grown (omega (arith, short, length-append (from i q) new)))
      ∙ ap (keep filter) grown
      ∙ keep-append filter (from i q) new
      ∙ ap (λ (l : List T). l ++ keep filter new)
          (sym (drain-eq-keep fuel filter q i h (omega (arith, short))))

  abbrev pub Polled : EventQueue T → ℕ → ℕ → (T → Bool) → Type 0
  Polled q i w filter =
      ((poll_next i filter w q ≡ (pending, record q { wakers = q.wakers ++ w ∷ [] }))
        × (keep filter (from i q) ≡ []))
      ⊎ ((next : ℕ) × (event : T) × (poll_next i filter w q ≡ (ready next event, q))
          × (keep filter (from i q) ≡ event ∷ keep filter (from next q))
          × (q.offset ≤ next))

  poll_next_cases :
      (q : EventQueue T) (i w : ℕ) (filter : T → Bool) (r : PollEvent T)
      → q.offset ≤ i
      → scan (suc (length q.events)) i filter q ≡ r
      → Scans filter q i r
      → Polled q i w filter
  unfolding poll_next
  poll_next_cases q i w filter pending h e s = inl (ground arith, s)
  poll_next_cases q i w filter closed h e s = absurd s
  poll_next_cases q i w filter (ready next event) h e s = inr (next, event, ground arith, s.0, s.1)

  -- A poll changes no event. It is pending, and registers its waker, exactly when no event from
  -- `i` on passes the filter.
  pub poll_next-Polled :
      (q : EventQueue T) (i w : ℕ) (filter : T → Bool) → q.offset ≤ i → Polled q i w filter
  poll_next-Polled q i w filter h = poll_next_cases q i w filter _ h refl (
      scan-Scans (suc (length q.events)) filter q i h
        (omega (arith, length-drop-le q.events (i - q.offset))))
