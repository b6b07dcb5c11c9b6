-- ===== src/Util/Channel/Messages.antt =====
-- Receiving messages from a channel whose buffer holds encoded messages, and the ends of a channel.
use iroh_willow.Prelude.{
  ℕ, zero, suc, ◌+◌, ◌-◌, ◌%◌, ◌^◌, ◌<◌, ◌≡◌, refl, sym, ap, ◌∙◌, subst, Bool, true, false, ◌&&◌,
  List, [], ◌∷◌, ◌++◌, append_assoc, map, length, drop, arith, if◌then◌else◌, ◌==◌,
}
use iroh_willow.Util.Guarantees.{Guarantees}
use iroh_willow.Util.Channel.{
  Bytes, Inner, close, is_empty, DecodeOutcome, decoded, need_more_data, PollRecv, received,
  recv_end, closed_incomplete, recv_pending, wake_writable, poll_recv_message, Shared, new_shared,
  new, clone_sender, drop_sender,
}

drop-append : (xs ys : Bytes) → drop (length xs) (xs ++ ys) ≡ ys
drop-append [] ys = refl
drop-append (x ∷ xs) ys = drop-append xs ys

is_empty-append : (xs ys : Bytes) → 0 < length xs → is_empty (xs ++ ys) ≡ false
unfolding is_empty
is_empty-append [] ys h = elim h [ ]
is_empty-append (x ∷ xs) ys h = refl

and_false : (b : Bool) → (b && false) ≡ false
and_false true = refl
and_false false = refl

module _ {T : Type 0} (decode_from : Bytes → DecodeOutcome T) where
  -- The outcomes of `n` polls for a message, and the channel afterwards.
  abbrev pub recv_times : ℕ → ℕ → Inner → List (PollRecv T) × Inner
  recv_times zero waker s = ([], s)
  recv_times (suc n) waker s =
      let (r, s') = poll_recv_message decode_from waker s in
      let (rest, last) = recv_times n waker s' in (r ∷ rest, last)

abbrev pub encode_all : {T : Type 0} → (T → Bytes) → List T → Bytes
encode_all encode [] = []
encode_all encode (x ∷ xs) = encode x ++ encode_all encode xs

-- How the next poll ends when the buffer holds only the beginning of a message.
abbrev pub at_end : {T : Type 0} → Inner → PollRecv T
at_end s =
    if s.is_closed then (if is_empty s.buf then recv_end else closed_incomplete) else recv_pending

-- What a poll does on a buffer that does not decode.
abbrev undecoded : {T : Type 0} → Bool → Bytes → Inner → ℕ → PollRecv T × Inner
undecoded closed buf s waker =
    if closed && is_empty buf
    then (recv_end, s)
    else if closed
    then (closed_incomplete, s)
    else (recv_pending, record s { read_wakers = s.read_wakers ++ waker ∷ [] })

end_lem :
    {T : Type 0} (closed : Bool) (buf : Bytes) (s : Inner) (waker : ℕ)
    → (undecoded {T = T} closed buf s waker).0
      ≡ (if closed then (if is_empty buf then recv_end else closed_incomplete) else recv_pending)
unfolding is_empty
end_lem true [] s waker = refl
end_lem true (x ∷ xs) s waker = refl
end_lem false buf s waker = refl

module _ {T : Type 0} (encode : T → Bytes) (decode_from : Bytes → DecodeOutcome T)
    (nonempty : (x : T) → 0 < length (encode x))
    (decodes : (x : T) (rest : Bytes)
      → decode_from (encode x ++ rest) ≡ decoded x (length (encode x))) where
  recv_one :
      (waker : ℕ) (x : T) (rest : Bytes) (s : Inner)
      → s.buf ≡ encode x ++ rest
      → poll_recv_message decode_from waker s
        ≡ (received x, wake_writable (record s { buf = rest }))
  unfolding poll_recv_message
  recv_one waker x rest s e =
      let filled : is_empty s.buf ≡ false =
        ap is_empty e ∙ is_empty-append (encode x) rest (nonempty x) in
      let proceeds : (s.is_closed && is_empty s.buf) ≡ false =
        ap (λ b. s.is_closed && b) filled ∙ and_false s.is_closed in
      let found : decode_from s.buf ≡ decoded x (length (encode x)) =
        ap decode_from e ∙ decodes x rest in
      let left : drop (length (encode x)) s.buf ≡ rest =
        ap (drop (length (encode x))) e ∙ drop-append (encode x) rest in
      simp (proceeds, found) (ap (λ b. (received x, wake_writable (record s { buf = b }))) left)

  recv_times_all :
      (waker : ℕ) (xs : List T) (rest : Bytes) (s : Inner)
      → s.buf ≡ encode_all encode xs ++ rest
      → let (rs, s') = recv_times decode_from (length xs) waker s in
        (rs ≡ map received xs) × (s'.buf ≡ rest) × (s'.is_closed ≡ s.is_closed)
  unfolding wake_writable
  recv_times_all waker [] rest s e = (refl, e, refl)
  recv_times_all waker (x ∷ xs) rest s e =
      let one =
        recv_one waker x (encode_all encode xs ++ rest) s
          (e ∙ append_assoc (encode x) (encode_all encode xs) rest) in
      let Q : PollRecv T × Inner → Type 0 = λ p.
        let (rs, s') = recv_times decode_from (length xs) waker p.1 in
        (p.0 ∷ rs ≡ received x ∷ map received xs)
        × (s'.buf ≡ rest)
        × (s'.is_closed ≡ s.is_closed) in
      let (same, left, state) =
        recv_times_all waker xs rest
          (wake_writable (record s { buf = encode_all encode xs ++ rest })) refl in
      subst (λ p. Q p) (sym one) (ap (λ rs. received x ∷ rs) same, left, state)

  recv-at_end :
      (waker : ℕ) (s : Inner)
      → decode_from s.buf ≡ need_more_data
      → (poll_recv_message decode_from waker s).0 ≡ at_end s
  unfolding poll_recv_message is_empty
  recv-at_end waker s more = simp more (end_lem s.is_closed s.buf s waker)

  -- When the buffer holds the encodings of messages and then the beginning of another one, or
  -- nothing, that the decoder does not yet decode, for a decoder that reads back a non-empty
  -- encoding whatever follows it: as many polls as there are messages return them in order, and the
  -- poll after them is pending while the channel is open, and on a closed channel it reports the
  -- end, or an incomplete message if bytes are left.
  pub recv_encoded :
      (waker : ℕ) (xs : List T) (rest : Bytes) (s : Inner)
      → s.buf ≡ encode_all encode xs ++ rest
      → decode_from rest ≡ need_more_data
      → let (rs, s') = recv_times decode_from (length xs) waker s in
        (rs ≡ map received xs)
        × (s'.buf ≡ rest)
        × ((poll_recv_message decode_from waker s').0 ≡ at_end (record s { buf = rest }))
  recv_encoded waker xs rest s e more =
      let (same, left, state) = recv_times_all waker xs rest s e in
      let s' = (recv_times decode_from (length xs) waker s).1 in
      (
        same,
        left,
        recv-at_end waker s' (ap decode_from left ∙ more)
            ∙ ap (λ c. at_end (record s { buf = s'.buf; is_closed = c })) state
            ∙ ap (λ b. at_end (record s { buf = b })) left,
      )

abbrev pub times : {A : Type 0} → ℕ → (A → A) → A → A
times zero f a = a
times (suc n) f a = times n f (f a)

module _ (max_buffer_size : ℕ) (guarantees : Guarantees) where
  clones :
      (n k : ℕ) (s : Shared)
      → s.sender_count ≡ k
      → k + n < 2 ^ 64
      → let s' = times n clone_sender s in (s'.sender_count ≡ k + n) × (s'.inner ≡ s.inner)
  unfolding clone_sender
  clones zero k s e h = (omega (arith, e), refl)
  clones (suc n) k s e h =
      let counted : (s.sender_count + 1) % 2 ^ 64 ≡ k + 1 = omega (arith, e) in
      let (count, same) = clones n (k + 1) (clone_sender s) counted (omega arith) in
      (omega (arith, count), same)

  drops :
      (n k : ℕ) (s : Shared)
      → s.sender_count ≡ n + k
      → 0 < k
      → n + k < 2 ^ 64
      → let s' = times n drop_sender s in (s'.sender_count ≡ k) × (s'.inner ≡ s.inner)
  unfolding drop_sender
  drops zero k s e l h = (omega (arith, e), refl)
  drops (suc n) k s e l h =
      let several : (s.sender_count == 1) ≡ false = ground (arith, e) in
      let counted : (s.sender_count + (2 ^ 64 - 1)) % 2 ^ 64 ≡ n + k = omega (arith, e) in
      let (count, same) = drops n k (drop_sender s) counted l (omega arith) in
      (count, same ∙ ap (λ b. if b then close s.inner else s.inner) several)

  -- After `n` clones of the first sender of a new channel, with fewer than 2^64 senders in all,
  -- dropping `n` of the senders leaves the channel as new, dropping one more closes it.
  pub last_drop-close :
      (n : ℕ)
      → n + 1 < 2 ^ 64
      → let cloned = times n clone_sender (new_shared max_buffer_size guarantees) in
        let one_left = times n drop_sender cloned in
        (one_left.inner ≡ new max_buffer_size guarantees)
        × ((drop_sender one_left).inner ≡ close (new max_buffer_size guarantees))
        × ((drop_sender one_left).sender_count ≡ 0)
  unfolding drop_sender new_shared
  last_drop-close n h =
      let (count, same) = clones n 1 (new_shared max_buffer_size guarantees) refl (omega arith) in
      let cloned = times n clone_sender (new_shared max_buffer_size guarantees) in
      let (last, kept) = drops n 1 cloned (omega (arith, count)) (omega arith) (omega arith) in
      let is_new = kept ∙ same in
      let s = times n drop_sender cloned in
      let is_last : (s.sender_count == 1) ≡ true = ground (arith, last) in
      (
        is_new,
        ap (λ b. if b then close s.inner else s.inner) is_last ∙ ap close is_new,
        omega (arith, last),
      )
