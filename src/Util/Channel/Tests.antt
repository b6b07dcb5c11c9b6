-- ===== src/Util/Channel/Tests.antt =====
-- Runs of a channel of messages of two bytes, a 1 and the message, and the theorems on it.
use iroh_willow.Prelude.{
  ℕ, zero, suc, ◌≤◌, ◌<◌, ◌≡◌, refl, true, false, List, [], ◌∷◌, ◌++◌, length, arith,
}
use iroh_willow.Util.Guarantees.{unlimited, limited, add, get, spend}
use iroh_willow.Util.Channel.{
  Bytes, Inner, new, close, wake_readable, wake_writable, remaining_write_capacity, add_guarantees,
  is_empty, read_bytes, poll_write, poll_read_bytes, poll_send_message, poll_recv_message, zeros,
  filled_slice, DecodeOutcome, decoded, need_more_data, decode_error, received, send_pending,
  new_shared, clone_sender, drop_sender,
}
use iroh_willow.Util.Channel.Run.{
  Op, write, send, read, recv, grant, shut, start, run, IsRun, run-IsRun,
}
use iroh_willow.Util.Channel.Messages.{recv_times, at_end, recv_encoded, times, last_drop-close}
use iroh_willow.Util.Channel.Waking.{WakesWriters, pending_sender_woken}

program : Unit {0}
unfolding add get spend new close wake_readable wake_writable remaining_write_capacity
    add_guarantees is_empty read_bytes poll_write poll_read_bytes poll_send_message
    poll_recv_message zeros filled_slice new_shared clone_sender drop_sender
program = tt

abbrev encode : ℕ → Bytes
encode x = 1 ∷ x ∷ []

abbrev encoded_len : ℕ → ℕ
encoded_len x = 2

abbrev decode_from : Bytes → DecodeOutcome ℕ
decode_from (suc zero ∷ x ∷ _) = decoded x 2
decode_from (zero ∷ _) = decode_error
decode_from (suc (suc _) ∷ _) = decode_error
decode_from _ = need_more_data

abbrev ops : List (Op ℕ)
ops =
    send 9 70 ∷ send 9 80 ∷ grant 2 ∷ send 9 80 ∷ read 8 ∷ write 9 (1 ∷ 5 ∷ []) ∷ recv 8 ∷ shut ∷ []

-- Three bytes are guaranteed: the second message waits for the grant.
ops-run :
    let t = run encoded_len encode decode_from ops (start 4 3) in
    (t.written ≡ 1 ∷ 70 ∷ 1 ∷ 80 ∷ 1 ∷ [])
    × (t.taken ≡ 1 ∷ 70 ∷ 1 ∷ 80 ∷ [])
    × (t.inner.woken ≡ 9 ∷ 8 ∷ [])
unfolding program
ops-run = (refl, refl, refl)

run-IsRun_example : IsRun 4 3 (run encoded_len encode decode_from ops (start 4 3))
run-IsRun_example =
    run-IsRun 4 3 encoded_len encode decode_from (λ x. refl) ops (omega arith) (omega arith)

abbrev filled : Inner
filled = record {
  buf = 1 ∷ 70 ∷ 1 ∷ 80 ∷ 1 ∷ [];
  max_buffer_size = 5;
  write_wakers = 7 ∷ [];
  read_wakers = [];
  is_closed = false;
  guarantees = limited 1;
  woken = [];
}

recv_encoded_example :
    let (rs, s') = recv_times decode_from 2 8 filled in
    (rs ≡ received 70 ∷ received 80 ∷ [])
    × (s'.buf ≡ 1 ∷ [])
    × ((poll_recv_message decode_from 8 s').0 ≡ at_end (record filled { buf = 1 ∷ [] }))
recv_encoded_example =
    recv_encoded encode decode_from (λ x. omega arith) (λ x rest. refl) 8 (70 ∷ 80 ∷ []) (1 ∷ [])
      filled refl refl

clones_dropped :
    let one_left = times 2 drop_sender (times 2 clone_sender (new_shared 4 unlimited)) in
    (one_left.inner ≡ new 4 unlimited)
    × ((drop_sender one_left).inner ≡ close (new 4 unlimited))
    × ((drop_sender one_left).sender_count ≡ 0)
clones_dropped = last_drop-close 4 unlimited 2 (omega arith)

filled-full : remaining_write_capacity filled < encoded_len 90
unfolding program
filled-full = omega arith

pending_sender_woken_example :
    let (r, waiting) = poll_send_message encoded_len (λ y. (encode y, true)) 9 90 filled in
    (r ≡ send_pending)
    × (waiting.write_wakers ≡ 7 ∷ 9 ∷ [])
    × (0 < length waiting.buf
        → (reader : ℕ) → WakesWriters waiting (poll_read_bytes reader waiting).1)
    × ((amount : ℕ)
        → remaining_write_capacity waiting
          < remaining_write_capacity (record waiting { guarantees = add amount waiting.guarantees })
        → WakesWriters waiting (add_guarantees amount waiting))
    × ((close waiting).write_wakers ≡ [])
    × ((close waiting).woken ≡ (waiting.woken ++ waiting.write_wakers) ++ waiting.read_wakers)
pending_sender_woken_example =
    pending_sender_woken encoded_len (λ y. (encode y, true)) 9 90 filled refl filled-full

abbrev spacious : Inner
spacious = record filled { max_buffer_size = 9; guarantees = limited 3 }

spacious-room : encoded_len 90 ≤ remaining_write_capacity spacious
unfolding program
spacious-room = omega arith
