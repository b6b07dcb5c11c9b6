-- ===== src/Util/Channel/Waking.antt =====
-- Who is woken when a sender waits for room.
use iroh_willow.Prelude.{
  ℕ, ◌<◌, ◌≡◌, refl, ap, Bool, true, false, [], ◌∷◌, ◌++◌, length, ltb, arith,
}
use iroh_willow.Util.Guarantees.{add}
use iroh_willow.Util.Channel.{
  Bytes, Inner, remaining_write_capacity, add_guarantees, close, read_bytes, wake_readable,
  wake_writable, poll_read_bytes, is_empty, send_pending, poll_send_message,
}

-- Every waker that waits for room was woken, and none waits any more.
abbrev pub WakesWriters : Inner → Inner → Type 0
WakesWriters s s' = (s'.write_wakers ≡ []) × (s'.woken ≡ s.woken ++ s.write_wakers)

is_empty-false : (b : Bytes) → 0 < length b → is_empty b ≡ false
unfolding is_empty
is_empty-false [] h = elim h [ ]
is_empty-false (x ∷ b) h = refl

read_wakes :
    (s : Inner) → 0 < length s.buf → (reader : ℕ) → WakesWriters s (poll_read_bytes reader s).1
unfolding poll_read_bytes read_bytes wake_writable is_empty
read_wakes s h reader =
    let test : ltb 0 (length s.buf) ≡ true = ground arith in
    let filled : is_empty s.buf ≡ false = is_empty-false s.buf h in simp (filled, test) (refl, refl)

grant_wakes :
    (s : Inner) (amount : ℕ)
    → remaining_write_capacity s
      < remaining_write_capacity (record s { guarantees = add amount s.guarantees })
    → WakesWriters s (add_guarantees amount s)
unfolding add_guarantees wake_writable
grant_wakes s amount h =
    let raised = remaining_write_capacity (record s { guarantees = add amount s.guarantees }) in
    let test : ltb (remaining_write_capacity s) raised ≡ true = ground arith in
    simp test (refl, refl)

module _ {T : Type 0} (encoded_len : T → ℕ) (encode_into : T → Bytes × Bool) where
  send_full :
      (waker : ℕ) (x : T) (s : Inner)
      → s.is_closed ≡ false
      → remaining_write_capacity s < encoded_len x
      → poll_send_message encoded_len encode_into waker x s
        ≡ (send_pending, record s { write_wakers = s.write_wakers ++ waker ∷ [] })
  unfolding poll_send_message
  send_full waker x s alive full =
      let test : ltb (remaining_write_capacity s) (encoded_len x) ≡ true = ground arith in
      simp (alive, test) refl

  -- On an open channel a message without room is pending, and its sender's waker is among those
  -- woken by the next read of a non-empty buffer, by the next grant that raises the capacity, and
  -- by closing.
  pub pending_sender_woken :
      (waker : ℕ) (x : T) (s : Inner)
      → s.is_closed ≡ false
      → remaining_write_capacity s < encoded_len x
      → let (r, waiting) = poll_send_message encoded_len encode_into waker x s in
        (r ≡ send_pending)
        × (waiting.write_wakers ≡ s.write_wakers ++ waker ∷ [])
        × (0 < length waiting.buf
            → (reader : ℕ) → WakesWriters waiting (poll_read_bytes reader waiting).1)
        × ((amount : ℕ)
            → remaining_write_capacity waiting
              < remaining_write_capacity
                  (record waiting { guarantees = add amount waiting.guarantees })
            → WakesWriters waiting (add_guarantees amount waiting))
        × ((close waiting).write_wakers ≡ [])
        × ((close waiting).woken ≡ (waiting.woken ++ waiting.write_wakers) ++ waiting.read_wakers)
  unfolding close wake_writable wake_readable
  pending_sender_woken waker x s alive full =
      let e = send_full waker x s alive full in
      (ap (λ p. p.0) e, ap (λ p. p.1.write_wakers) e, read_wakes _, grant_wakes _, refl, refl)
