-- ===== src/Util/Channel.antt =====
-- The byte channels of src/util/channel.rs: the state `Inner` behind the mutex with
-- its polls, and `Shared`, which counts the ends and closes with the last of either side. Bytes are
-- numbers, lengths and guarantees are 64 bits wide, and a waker is a number; the wakers that were
-- woken are recorded in order. Encoding and decoding a message are the message type's, and
-- arguments.
mod Effects
pub mod Run
pub mod Messages
pub mod Waking
mod Tests
use iroh_willow.Prelude.{
  suc, zero, ℕ, ◌+◌, ◌-◌, ◌%◌, ◌^◌, min, Bool, true, false, not, ◌&&◌, List, [], ◌∷◌, ◌++◌,
  if◌then◌else◌, ltb, leb, ◌==◌, length, take, drop,
}
use iroh_willow.Util.Guarantees.{Guarantees, add, get, spend}

abbrev pub Bytes : Type 0
Bytes = List ℕ

pub record Inner : Type 0 where
  pub buf : Bytes
  pub max_buffer_size : ℕ
  pub write_wakers : List ℕ
  pub read_wakers : List ℕ
  pub is_closed : Bool
  pub guarantees : Guarantees
  pub woken : List ℕ

unfoldable pub new : ℕ → Guarantees → Inner
new max_buffer_size guarantees = record {
  buf = [];
  max_buffer_size = max_buffer_size;
  write_wakers = [];
  read_wakers = [];
  is_closed = false;
  guarantees = guarantees;
  woken = [];
}

unfoldable pub wake_readable : Inner → Inner
wake_readable s = record s { read_wakers = []; woken = s.woken ++ s.read_wakers }

unfoldable pub wake_writable : Inner → Inner
wake_writable s = record s { write_wakers = []; woken = s.woken ++ s.write_wakers }

-- The subtraction wraps, as it does in a release build.
unfoldable pub remaining_write_capacity : Inner → ℕ
remaining_write_capacity s =
    min ((s.max_buffer_size + (2 ^ 64 - length s.buf)) % 2 ^ 64) (get s.guarantees)

unfoldable pub add_guarantees : ℕ → Inner → Inner
add_guarantees amount s =
    let raised = record s { guarantees = add amount s.guarantees } in
    if ltb (remaining_write_capacity s) (remaining_write_capacity raised)
    then wake_writable raised
    else raised

unfoldable pub close : Inner → Inner
close s = wake_readable (wake_writable (record s { is_closed = true }))

unfoldable pub is_empty : Bytes → Bool
is_empty [] = true
is_empty (_ ∷ _) = false

unfoldable pub read_bytes : Inner → Bytes × Inner
read_bytes s =
    let woken = if ltb 0 (length s.buf) then wake_writable s else s in
    (s.buf, record woken { buf = [] })

-- `Poll<io::Result<usize>>`.
pub data PollWrite : Type 0 where
  wrote : ℕ → PollWrite
  broken_pipe : PollWrite
  write_pending : PollWrite

-- `Poll<Option<Bytes>>`.
pub data PollRead : Type 0 where
  chunk : Bytes → PollRead
  end_of_stream : PollRead
  read_pending : PollRead

-- `Poll<Result<(), WriteError>>`.
pub data PollSend : Type 0 where
  sent : PollSend
  send_closed : PollSend
  encode_failed : PollSend
  send_pending : PollSend

-- `Poll<Option<Result<T, ReadError>>>`.
pub data PollRecv (T : Type 0) : Type 0 where
  received : T → PollRecv T
  recv_end : PollRecv T
  closed_incomplete : PollRecv T
  decode_failed : PollRecv T
  recv_pending : PollRecv T

-- `anyhow::Result<DecodeOutcome<T>>`.
pub data DecodeOutcome (T : Type 0) : Type 0 where
  need_more_data : DecodeOutcome T
  decoded : T → ℕ → DecodeOutcome T
  decode_error : DecodeOutcome T

unfoldable pub poll_write : ℕ → Bytes → Inner → PollWrite × Inner
poll_write waker bytes s =
    if s.is_closed
    then (broken_pipe, s)
    else let avail = remaining_write_capacity s in
      if avail == 0
      then (write_pending, record s { write_wakers = s.write_wakers ++ waker ∷ [] })
      else let len = min (length bytes) avail in
        (
          wrote len,
          wake_readable
              (record s { buf = s.buf ++ take len bytes; guarantees = spend len s.guarantees }),
        )

unfoldable pub poll_read_bytes : ℕ → Inner → PollRead × Inner
poll_read_bytes waker s =
    if not (is_empty s.buf)
    then (let (bytes, s') = read_bytes s in (chunk bytes, s'))
    else if s.is_closed
    then (end_of_stream, s)
    else (read_pending, record s { read_wakers = s.read_wakers ++ waker ∷ [] })

unfoldable pub zeros : ℕ → Bytes
zeros zero = []
zeros (suc n) = 0 ∷ zeros n

-- What a zeroed slice of length `len` holds once as much of `bytes` as fits is written to it.
unfoldable pub filled_slice : ℕ → Bytes → Bytes
filled_slice len bytes = take len (bytes ++ zeros len)

module _ {T : Type 0} (encoded_len : T → ℕ)
    -- The bytes that the encoder writes, and whether it succeeds if they fit.
    (encode_into : T → Bytes × Bool) where
  unfoldable pub poll_send_message : ℕ → T → Inner → PollSend × Inner
  poll_send_message waker item s =
      if s.is_closed
      then (send_closed, s)
      else let len = encoded_len item in
        if ltb (remaining_write_capacity s) len
        then (send_pending, record s { write_wakers = s.write_wakers ++ waker ∷ [] })
        else let (bytes, succeeds) = encode_into item in
          let written = record s { buf = s.buf ++ filled_slice len bytes } in
          if succeeds && leb (length bytes) len
          then (sent, wake_readable (record written { guarantees = spend len s.guarantees }))
          else (encode_failed, written)

module _ {T : Type 0} (decode_from : Bytes → DecodeOutcome T) where
  unfoldable pub poll_recv_message : ℕ → Inner → PollRecv T × Inner
  poll_recv_message waker s =
      if s.is_closed && is_empty s.buf then (recv_end, s) else elim (decode_from s.buf) [
        | decode_error ↦ (decode_failed, s)
        | need_more_data ↦
            if s.is_closed
            then (closed_incomplete, s)
            else (recv_pending, record s { read_wakers = s.read_wakers ++ waker ∷ [] })
        | decoded item consumed ↦
            (received item, wake_writable (record s { buf = drop consumed s.buf }))
      ]

-- The shared state, with the numbers of senders and receivers (`Sender` or `Writer`, and
-- `Receiver` or `Reader`).
pub record Shared : Type 0 where
  pub inner : Inner
  pub sender_count : ℕ
  pub receiver_count : ℕ

unfoldable pub new_shared : ℕ → Guarantees → Shared
new_shared max_buffer_size guarantees = record {
  inner = new max_buffer_size guarantees;
  sender_count = 1;
  receiver_count = 1;
}

unfoldable pub clone_sender : Shared → Shared
clone_sender s = record s { sender_count = (s.sender_count + 1) % 2 ^ 64 }

-- `fetch_sub` wraps and returns the count before.
unfoldable pub drop_sender : Shared → Shared
drop_sender s = record {
  inner = if s.sender_count == 1 then close s.inner else s.inner;
  sender_count = (s.sender_count + (2 ^ 64 - 1)) % 2 ^ 64;
  receiver_count = s.receiver_count;
}

unfoldable pub drop_receiver : Shared → Shared
drop_receiver s = record {
  inner = if s.receiver_count == 1 then close s.inner else s.inner;
  sender_count = s.sender_count;
  receiver_count = (s.receiver_count + (2 ^ 64 - 1)) % 2 ^ 64;
}
