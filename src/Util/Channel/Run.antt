-- ===== src/Util/Channel/Run.antt =====
-- Runs of a channel: any interleaving of writes, sends, reads, receives, grants and closing. The
-- record of a run keeps the bytes that the transmit side was told are in, those that the other side
-- took out, and the guarantees granted.
use iroh_willow.Prelude.{
  ℕ, ◌+◌, ◌-◌, ◌^◌, ◌≤◌, ◌<◌, ◌≡◌, refl, sym, ap, ◌∙◌, subst, true, List, [], ◌∷◌, ◌++◌,
  append_assoc, length, arith, length-append,
}
use iroh_willow.Util.Guarantees.{limited}
use iroh_willow.Util.Channel.{
  Bytes, Inner, new, add_guarantees, close, wake_readable, wake_writable, DecodeOutcome, poll_write,
  poll_read_bytes, poll_send_message, poll_recv_message,
}
use iroh_willow.Util.Channel.Effects.{
  Fits, Effect, written_of, read_of, sent_of, received_of, poll_write-Effect,
  poll_read_bytes-Effect, poll_send_message-Effect, poll_recv_message-Effect, add_guarantees_lem,
}

pub record Trace : Type 0 where
  pub inner : Inner
  pub written : Bytes
  pub taken : Bytes
  pub granted : ℕ

pub data Op (T : Type 0) : Type 0 where
  write : ℕ → Bytes → Op T
  send : ℕ → T → Op T
  read : ℕ → Op T
  recv : ℕ → Op T
  grant : ℕ → Op T
  shut : Op T

abbrev pub total_granted : {T : Type 0} → List (Op T) → ℕ
total_granted [] = 0
total_granted (grant n ∷ ops) = n + total_granted ops
total_granted (_ ∷ ops) = total_granted ops

abbrev pub start : ℕ → ℕ → Trace
start max_buffer_size g = record {
  inner = new max_buffer_size (limited g);
  written = [];
  taken = [];
  granted = 0;
}

-- The outcome `s'`, and what was written and taken, added to the record.
abbrev pub note : Trace → Inner → Bytes → Bytes → Trace
note t s' w taken = record {
  inner = s';
  written = t.written ++ w;
  taken = t.taken ++ taken;
  granted = t.granted;
}

module _ {T : Type 0} (encoded_len : T → ℕ) (encode : T → Bytes)
    (decode_from : Bytes → DecodeOutcome T) where
  abbrev pub step : Op T → Trace → Trace
  step (write waker bytes) t =
      let (r, s') = poll_write waker bytes t.inner in note t s' (written_of r bytes) []
  step (send waker x) t =
      let (r, s') = poll_send_message encoded_len (λ y. (encode y, true)) waker x t.inner in
      note t s' (sent_of r (encode x)) []
  step (read waker) t = let (r, s') = poll_read_bytes waker t.inner in note t s' [] (read_of r)
  step (recv waker) t =
      let (r, s') = poll_recv_message decode_from waker t.inner in
      note t s' [] (received_of r (decode_from t.inner.buf) t.inner.buf)
  step (grant n) t = record t { inner = add_guarantees n t.inner; granted = t.granted + n }
  step shut t = record t { inner = close t.inner }

  abbrev pub run : List (Op T) → Trace → Trace
  run [] t = t
  run (op ∷ ops) t = run ops (step op t)

-- The invariant of a run that began with `g` guarantees: bytes leave in the order in which they
-- came, what was written was paid for, and the buffer is within its bound.
pub record IsRun (m g : ℕ) (t : Trace) : Type 0 where
  pub in_order : t.taken ++ t.inner.buf ≡ t.written
  pub paid : length t.written ≤ g + t.granted
  pub fits : Fits (g + t.granted - length t.written) t.inner
  pub same_max : t.inner.max_buffer_size ≡ m

module _ (m g : ℕ) where
  note-IsRun :
      (t : Trace) (s' : Inner) (w taken : Bytes)
      → IsRun m g t
      → Effect (g + t.granted - length t.written) t.inner s' w taken
      → IsRun m g (note t s' w taken)
  note-IsRun t s' w taken r e =
      let len = length-append t.written w in
      let left : (g + t.granted - length t.written) - length w
          ≡ g + t.granted - length (t.written ++ w) =
        omega (arith, len) in
      record {
        in_order =
            append_assoc t.taken taken s'.buf
            ∙ ap (λ xs. t.taken ++ xs) (sym e.moved)
            ∙ sym (append_assoc t.taken t.inner.buf w)
            ∙ ap (λ xs. xs ++ w) r.in_order;
        paid = omega (arith, len, e.enough, r.paid);
        fits = subst (λ c. Fits c s') left e.fits;
        same_max = e.same_max ∙ r.same_max;
      }

  grant-IsRun :
      (t : Trace) (n : ℕ)
      → IsRun m g t
      → g + (t.granted + n) < 2 ^ 64
      → IsRun m g (record t { inner = add_guarantees n t.inner; granted = t.granted + n })
  grant-IsRun t n r h =
      let paid = r.paid in
      let left : (g + t.granted - length t.written) + n ≡ g + (t.granted + n) - length t.written =
        omega arith in
      let (same, fits, max) =
        add_guarantees_lem n (g + t.granted - length t.written) t.inner r.fits (omega arith) in
      record {
        in_order = ap (λ b. t.taken ++ b) same ∙ r.in_order;
        paid = omega arith;
        fits = subst (λ c. Fits c (add_guarantees n t.inner)) left fits;
        same_max = max ∙ r.same_max;
      }

  shut-IsRun : (t : Trace) → IsRun m g t → IsRun m g (record t { inner = close t.inner })
  unfolding close wake_readable wake_writable
  shut-IsRun t r = record {
    in_order = r.in_order;
    paid = r.paid;
    fits = record {
      room = r.fits.room;
      max_small = r.fits.max_small;
      small = r.fits.small;
      left = r.fits.left;
    };
    same_max = r.same_max;
  }

  module _ {T : Type 0} (encoded_len : T → ℕ) (encode : T → Bytes)
      (decode_from : Bytes → DecodeOutcome T)
      (exact : (x : T) → length (encode x) ≡ encoded_len x) where
    step-IsRun :
        (op : Op T) (t : Trace)
        → IsRun m g t
        → g + (t.granted + total_granted (op ∷ [])) < 2 ^ 64
        → IsRun m g (step encoded_len encode decode_from op t)
    step-IsRun (write waker bytes) t r h =
        note-IsRun t _ _ [] r (poll_write-Effect _ waker bytes t.inner r.fits)
    step-IsRun (send waker x) t r h =
        note-IsRun t _ _ [] r
          (poll_send_message-Effect encoded_len encode exact _ waker x t.inner r.fits)
    step-IsRun (read waker) t r h =
        note-IsRun t _ [] _ r (poll_read_bytes-Effect _ waker t.inner r.fits)
    step-IsRun (recv waker) t r h =
        note-IsRun t _ [] _ r (poll_recv_message-Effect decode_from _ waker t.inner r.fits)
    step-IsRun (grant n) t r h = grant-IsRun t n r (omega arith)
    step-IsRun shut t r h = shut-IsRun t r

    granted-step :
        (op : Op T) (t : Trace)
        → (step encoded_len encode decode_from op t).granted ≡ t.granted + total_granted (op ∷ [])
    granted-step (write waker bytes) t = omega arith
    granted-step (send waker x) t = omega arith
    granted-step (read waker) t = omega arith
    granted-step (recv waker) t = omega arith
    granted-step (grant n) t = omega arith
    granted-step shut t = omega arith

    total_granted-cons :
        (op : Op T) (ops : List (Op T))
        → total_granted (op ∷ ops) ≡ total_granted (op ∷ []) + total_granted ops
    total_granted-cons (write waker bytes) ops = omega arith
    total_granted-cons (send waker x) ops = omega arith
    total_granted-cons (read waker) ops = omega arith
    total_granted-cons (recv waker) ops = omega arith
    total_granted-cons (grant n) ops = omega arith
    total_granted-cons shut ops = omega arith

    run-IsRun_from :
        (ops : List (Op T)) (t : Trace)
        → IsRun m g t
        → g + (t.granted + total_granted ops) < 2 ^ 64
        → IsRun m g (run encoded_len encode decode_from ops t)
    run-IsRun_from [] t r h = r
    run-IsRun_from (op ∷ ops) t r h =
        let grants = total_granted-cons op ops in
        run-IsRun_from ops (step encoded_len encode decode_from op t)
          (step-IsRun op t r (omega (arith, grants))) (omega (arith, grants, granted-step op t))

    -- In every run of a new channel with `g` guarantees, for an encoder that succeeds and writes as
    -- many bytes as it announces and grants that do not overflow 64 bits in total: the bytes that
    -- were taken out followed by those in the buffer are the bytes written, in order; no more bytes
    -- were written than guaranteed; exactly the rest of the guarantees is left; and the buffer is
    -- within the size limit, which never changes.
    pub run-IsRun :
        (ops : List (Op T))
        → m < 2 ^ 64
        → g + total_granted ops < 2 ^ 64
        → IsRun m g (run encoded_len encode decode_from ops (start m g))
    unfolding new
    run-IsRun ops small h =
        run-IsRun_from ops (start m g)
          (record {
            in_order = refl;
            paid = omega arith;
            fits = record {
              room = omega arith;
              max_small = small;
              small = omega arith;
              left = ap limited (omega arith);
            };
            same_max = refl;
          })
          (omega arith)
