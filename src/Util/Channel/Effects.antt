-- ===== src/Util/Channel/Effects.antt =====
-- What each poll does to the buffer and to the guarantees of a channel with limited guarantees.
use iroh_willow.Prelude.{
  ℕ, zero, suc, ◌+◌, ◌-◌, ◌%◌, ◌^◌, ◌≤◌, ◌<◌, min, ◌≡◌, refl, sym, ap, subst, ◌∙◌, ◌⊎◌, inl, inr,
  true, not, ◌&&◌, [], ◌∷◌, ◌++◌, append-nil, length, take, drop, ◌==◌, ltb, leb, if◌then◌else◌,
  arith, length-append, Bool-cases, if_cases,
}
use iroh_willow.Util.Guarantees.{limited, add, get, spend}
use iroh_willow.Util.Channel.{
  Bytes, Inner, wake_readable, wake_writable, remaining_write_capacity, add_guarantees, is_empty,
  read_bytes, PollWrite, wrote, PollRead, chunk, PollSend, sent, PollRecv, received, DecodeOutcome,
  decoded, need_more_data, decode_error, decode_failed, closed_incomplete, recv_pending, poll_write,
  poll_read_bytes, poll_send_message, poll_recv_message, zeros, filled_slice,
}

-- The buffer fits, and `c` guarantees are left.
pub record Fits (c : ℕ) (s : Inner) : Type 0 where
  pub room : length s.buf ≤ s.max_buffer_size
  pub max_small : s.max_buffer_size < 2 ^ 64
  pub small : c < 2 ^ 64
  pub left : s.guarantees ≡ limited c

-- From `s` to `s'`, `w` was appended to the buffer and paid for, and `t` was taken from its front.
pub record Effect (c : ℕ) (s s' : Inner) (w t : Bytes) : Type 0 where
  pub moved : s.buf ++ w ≡ t ++ s'.buf
  pub enough : length w ≤ c
  pub fits : Fits (c - length w) s'
  pub same_max : s'.max_buffer_size ≡ s.max_buffer_size

pub length-take : (n : ℕ) (xs : Bytes) → length (take n xs) ≡ min n (length xs)
length-take zero xs = omega arith
length-take (suc n) [] = omega arith
length-take (suc n) (x ∷ xs) = omega (arith, length-take n xs)

pub take-drop : (n : ℕ) (xs : Bytes) → take n xs ++ drop n xs ≡ xs
take-drop zero xs = refl
take-drop (suc n) [] = refl
take-drop (suc n) (x ∷ xs) = ap (λ ys. x ∷ ys) (take-drop n xs)

pub take-append : (xs ys : Bytes) → take (length xs) (xs ++ ys) ≡ xs
take-append [] ys = refl
take-append (x ∷ xs) ys = ap (λ zs. x ∷ zs) (take-append xs ys)

pub capacity_lem :
    (c : ℕ) (s : Inner)
    → Fits c s
    → remaining_write_capacity s ≡ min (s.max_buffer_size - length s.buf) c
unfolding remaining_write_capacity get
capacity_lem c s f =
    let wraps : (s.max_buffer_size + (2 ^ 64 - length s.buf)) % 2 ^ 64
        ≡ s.max_buffer_size - length s.buf =
      omega (arith, f.room, f.max_small) in
    rw (f.left, wraps)

pub spend_lem : (c n : ℕ) → c < 2 ^ 64 → n ≤ c → spend n (limited c) ≡ limited (c - n)
unfolding spend
spend_lem c n h l =
    let wraps : (c + (2 ^ 64 - n)) % 2 ^ 64 ≡ c - n = omega arith in ap limited wraps

drop_shorter : (n : ℕ) (xs : Bytes) → length (drop n xs) ≤ length xs
drop_shorter zero xs = omega arith
drop_shorter (suc n) [] = omega arith
drop_shorter (suc n) (x ∷ xs) = omega (arith, drop_shorter n xs)

-- Appending what the capacity allows.
append-Effect :
    (c : ℕ) (s : Inner) (w : Bytes)
    → Fits c s
    → length w ≤ remaining_write_capacity s
    → Effect c s
        (wake_readable (record s { buf = s.buf ++ w; guarantees = spend (length w) s.guarantees }))
        w
        []
unfolding wake_readable
append-Effect c s w f l =
    let bound : length w ≤ min (s.max_buffer_size - length s.buf) c =
      omega (arith, l, capacity_lem c s f) in
    let room = f.room in
    record {
      moved = refl;
      enough = omega arith;
      fits = record {
        room = omega (arith, length-append s.buf w);
        max_small = f.max_small;
        small = omega (arith, f.small);
        left = ap (spend (length w)) f.left ∙ spend_lem c (length w) f.small (omega arith);
      };
      same_max = refl;
    }

-- Nothing but the wakers changes.
idle-Effect :
    (c : ℕ) (s s' : Inner)
    → Fits c s
    → s'.buf ≡ s.buf
    → s'.max_buffer_size ≡ s.max_buffer_size
    → s'.guarantees ≡ s.guarantees
    → Effect c s s' [] []
idle-Effect c s s' f b m g =
    let minus_zero : c ≡ c - 0 = omega arith in
    record {
      moved = append-nil s.buf ∙ sym b;
      enough = omega arith;
      fits =
          subst (λ k. Fits k s') minus_zero
            (record {
              room = rw (b, m) f.room;
              max_small = rw m f.max_small;
              small = f.small;
              left = g ∙ f.left;
            });
      same_max = m;
    }

-- Taking a prefix `t` of the buffer.
take-Effect :
    (c : ℕ) (s s' : Inner) (t : Bytes)
    → Fits c s
    → s.buf ≡ t ++ s'.buf
    → s'.max_buffer_size ≡ s.max_buffer_size
    → s'.guarantees ≡ s.guarantees
    → Effect c s s' [] t
take-Effect c s s' t f b m g =
    let minus_zero : c ≡ c - 0 = omega arith in
    let len : length s.buf ≡ length t + length s'.buf = ap length b ∙ length-append t s'.buf in
    record {
      moved = append-nil s.buf ∙ b;
      enough = omega arith;
      fits =
          subst (λ k. Fits k s') minus_zero
            (record {
              room = rw m (omega (arith, len, f.room));
              max_small = rw m f.max_small;
              small = f.small;
              left = g ∙ f.left;
            });
      same_max = m;
    }

read_bytes-Effect :
    (c : ℕ) (s : Inner) → Fits c s → let (t, s') = read_bytes s in Effect c s s' [] t
unfolding read_bytes wake_writable
read_bytes-Effect c s f = elim (Bool-cases (ltb 0 (length s.buf))) [
  | inl e ↦ rw e (take-Effect c s _ s.buf f (sym (append-nil s.buf)) refl refl)
  | inr e ↦ rw e (take-Effect c s _ s.buf f (sym (append-nil s.buf)) refl refl)
]

abbrev pub read_of : PollRead → Bytes
read_of (chunk bytes) = bytes
read_of _ = []

-- What a write appends: nothing unless it is ready.
abbrev pub written_of : PollWrite → Bytes → Bytes
written_of (wrote n) bytes = take n bytes
written_of _ bytes = []

pub poll_write-Effect :
    (c waker : ℕ) (bytes : Bytes) (s : Inner)
    → Fits c s
    → let (r, s') = poll_write waker bytes s in Effect c s s' (written_of r bytes) []
unfolding poll_write
poll_write-Effect c waker bytes s f =
    let P : PollWrite × Inner → Type 0 = λ p. Effect c s p.1 (written_of p.0 bytes) [] in
    let idle = idle-Effect c s in
    if_cases P s.is_closed (λ e. idle s f refl refl refl)
      (λ e.
        if_cases P (remaining_write_capacity s == 0) (λ full. idle _ f refl refl refl)
          (λ free.
            let n = min (length bytes) (remaining_write_capacity s) in
            let len : length (take n bytes) ≡ n = omega (arith, length-take n bytes) in
            let effect = append-Effect c s (take n bytes) f (omega (arith, len)) in
            subst
              (λ k.
                Effect c s
                  (wake_readable
                    (record s { buf = s.buf ++ take n bytes; guarantees = spend k s.guarantees }))
                  (take n bytes) [])
              len effect))

pub poll_read_bytes-Effect :
    (c waker : ℕ) (s : Inner)
    → Fits c s
    → let (r, s') = poll_read_bytes waker s in Effect c s s' [] (read_of r)
unfolding poll_read_bytes
poll_read_bytes-Effect c waker s f =
    let P : PollRead × Inner → Type 0 = λ p. Effect c s p.1 [] (read_of p.0) in
    if_cases P (not (is_empty s.buf)) (λ e. read_bytes-Effect c s f)
      (λ empty.
        if_cases P s.is_closed (λ e. idle-Effect c s s f refl refl refl)
          (λ e. idle-Effect c s _ f refl refl refl))

filled_slice_lem : (w : Bytes) → filled_slice (length w) w ≡ w
unfolding filled_slice
filled_slice_lem w = take-append w (zeros (length w))

-- What a message adds: its encoding if it is sent.
abbrev pub sent_of : PollSend → Bytes → Bytes
sent_of sent bytes = bytes
sent_of _ bytes = []

module _ {T : Type 0} (encoded_len : T → ℕ) (encode : T → Bytes)
    (exact : (x : T) → length (encode x) ≡ encoded_len x) where
  pub poll_send_message-Effect :
      (c waker : ℕ) (x : T) (s : Inner)
      → Fits c s
      → let (r, s') = poll_send_message encoded_len (λ y. (encode y, true)) waker x s in
        Effect c s s' (sent_of r (encode x)) []
  unfolding poll_send_message
  poll_send_message-Effect c waker x s f =
      let P : PollSend × Inner → Type 0 = λ p. Effect c s p.1 (sent_of p.0 (encode x)) [] in
      if_cases P s.is_closed (λ e. idle-Effect c s s f refl refl refl)
        (λ e.
          if_cases P (ltb (remaining_write_capacity s) (encoded_len x))
            (λ full. idle-Effect c s _ f refl refl refl)
            (λ free.
              let fit : leb (length (encode x)) (encoded_len x) ≡ true = ground (arith, exact x) in
              let bound : length (encode x) ≤ remaining_write_capacity s =
                ground (arith, exact x) in
              rw (fit, sym (exact x), filled_slice_lem (encode x))
                (append-Effect c s (encode x) f bound)))

-- What a poll for a message takes: the bytes that its decoding consumed.
abbrev pub consumed_of : {T : Type 0} → DecodeOutcome T → Bytes → Bytes
consumed_of (decoded _ n) bytes = take n bytes
consumed_of _ bytes = []

abbrev pub received_of : {T : Type 0} → PollRecv T → DecodeOutcome T → Bytes → Bytes
received_of (received _) d bytes = consumed_of d bytes
received_of _ d bytes = []

module _ {T : Type 0} (decode_from : Bytes → DecodeOutcome T) where
  pub poll_recv_message-Effect :
      (c waker : ℕ) (s : Inner)
      → Fits c s
      → let (r, s') = poll_recv_message decode_from waker s in
        Effect c s s' [] (received_of r (decode_from s.buf) s.buf)
  unfolding poll_recv_message wake_writable
  poll_recv_message-Effect c waker s f =
      let P : DecodeOutcome T → PollRecv T × Inner → Type 0 =
        λ d p. Effect c s p.1 [] (received_of p.0 d s.buf) in
      if_cases (P (decode_from s.buf)) (s.is_closed && is_empty s.buf)
        (λ e. idle-Effect c s s f refl refl refl)
        (λ e.
          elim (decode_from s.buf)
            as (λ d. P d (elim d [
              | decode_error ↦ (decode_failed, s)
              | need_more_data ↦
                  if s.is_closed
                  then (closed_incomplete, s)
                  else (recv_pending, record s { read_wakers = s.read_wakers ++ waker ∷ [] })
              | decoded item consumed ↦
                  (received item, wake_writable (record s { buf = drop consumed s.buf }))
            ])) [
              | decode_error ↦ idle-Effect c s s f refl refl refl
              | need_more_data ↦
                  if_cases (P need_more_data) s.is_closed (λ e. idle-Effect c s s f refl refl refl)
                    (λ e. idle-Effect c s _ f refl refl refl)
              | decoded item n ↦
                  take-Effect c s _ (take n s.buf) f (sym (take-drop n s.buf)) refl refl
            ])

add_guarantees_state :
    (amount : ℕ) (s : Inner)
    → (add_guarantees amount s ≡ record s { guarantees = add amount s.guarantees })
      ⊎ (add_guarantees amount s
          ≡ wake_writable (record s { guarantees = add amount s.guarantees }))
unfolding add_guarantees
add_guarantees_state amount s =
    let raised = record s { guarantees = add amount s.guarantees } in
    elim (Bool-cases (ltb (remaining_write_capacity s) (remaining_write_capacity raised))) [
      | inl e ↦ inr (rw e refl)
      | inr e ↦ inl (rw e refl)
    ]

add-limited : (amount c : ℕ) → c + amount < 2 ^ 64 → add amount (limited c) ≡ limited (c + amount)
unfolding add
add-limited amount c h =
    let no_wrap : (c + amount) % 2 ^ 64 ≡ c + amount = omega arith in ap limited no_wrap

-- Granting more leaves the buffer.
pub add_guarantees_lem :
    (amount c : ℕ) (s : Inner)
    → Fits c s
    → c + amount < 2 ^ 64
    → let s' = add_guarantees amount s in
      (s'.buf ≡ s.buf) × Fits (c + amount) s' × (s'.max_buffer_size ≡ s.max_buffer_size)
unfolding wake_writable
add_guarantees_lem amount c s f h =
    let left = ap (add amount) f.left ∙ add-limited amount c h in
    let P : Inner → Type 0 =
      λ s'. (s'.buf ≡ s.buf) × Fits (c + amount) s' × (s'.max_buffer_size ≡ s.max_buffer_size) in
    let plain : P (record s { guarantees = add amount s.guarantees }) =
      (refl, record { room = f.room; max_small = f.max_small; small = h; left = left }, refl) in
    elim (add_guarantees_state amount s) [
      | inl e ↦ subst (λ s'. P s') (sym e) plain
      | inr e ↦
          subst (λ s'. P s') (sym e)
            (refl, record { room = f.room; max_small = f.max_small; small = h; left = left }, refl)
    ]
