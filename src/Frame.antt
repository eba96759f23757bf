-- ===== src/Frame.antt =====
-- crates/pnos-net/src/session/frame.rs: the frame codec and the frame transport. A byte string is a
-- list of numbers below 256, and an `anyhow` error is a constructor of `FrameError`. The reader's
-- stream is the list of the results that its next reads will give, the writer's that of its next
-- writes; the locks are held for a whole call, so a call is one function on the transport.
pub mod Codec
pub mod Receive
pub mod Link
mod Runs
use pnos_sdk.Base.{
  ℕ, ◌+◌, ◌-◌, ◌*◌, ◌%◌, ◌^◌, ◌||◌, List, [], ◌∷◌, ◌++◌, Option, none, some, ltb, leb, ◌==◌,
  if◌then◌else◌, length, get_or, take, drop, slice,
}
use pnos_sdk.Base.Bytes.{u32, be32}
use pnos_sdk.Stats.{
  SessionStats, record_bytes_sent, record_bytes_recv, record_frame_sent, record_frame_recv,
}

abbrev pub frame_header_size : ℕ
frame_header_size = 5

abbrev pub max_frame_size : ℕ
max_frame_size = 16 * 1024 * 1024

abbrev pub max_read_buf : ℕ
max_read_buf = max_frame_size + 1024 * 1024

pub record Frame : Type 0 where
  pub kind : ℕ
  pub payload : List ℕ

pub data FrameError : Type 0 where
  -- encode_frame
  kind_too_large : ℕ → FrameError
  frame_too_large : ℕ → ℕ → FrameError
  -- decode_frame, parse_frame and frame_size_in_buffer
  too_short : ℕ → ℕ → FrameError
  bad_length : ℕ → FrameError
  incomplete : ℕ → ℕ → FrameError
  -- recv_frame
  buffer_overrun : ℕ → FrameError
  read_failed : FrameError
  connection_closed : FrameError
  -- write_frame_with_retry: the errors that are an `io::Error`
  write_failed : FrameError
  write_timed_out : FrameError

pub data Result {ℓ} (A : Type ℓ) : Type ℓ where
  ok : A → Result A
  err : FrameError → Result A

infixl 5 ◌>>=◌
abbrev pub ◌>>=◌ {ℓ κ} : {A : Type ℓ} {B : Type κ} → Result A → (A → Result B) → Result B
ok a >>= f = f a
err e >>= f = err e

-- `total_len as u32` and `kind as u8` are the remainders.
unfoldable pub encode_frame : ℕ → List ℕ → Result (List ℕ)
encode_frame kind payload =
    let total_len = 1 + length payload in
    if ltb 255 kind
    then err (kind_too_large kind)
    else if ltb max_frame_size total_len
    then err (frame_too_large total_len max_frame_size)
    else ok (be32 (total_len % 2 ^ 32) ++ kind % 256 ∷ payload)

unfoldable pub encode : Frame → Result (List ℕ)
unfolding encode_frame
encode f = encode_frame f.kind f.payload

-- The length field, `u32::from_be_bytes([data[0], data[1], data[2], data[3]])`.
abbrev pub length_field : List ℕ → ℕ
length_field bytes = u32 (get_or bytes 0 0) (get_or bytes 1 0) (get_or bytes 2 0) (get_or bytes 3 0)

unfoldable pub decode_frame : List ℕ → Result Frame
decode_frame bytes =
    let n = length_field bytes in
    let total = frame_header_size + n - 1 in
    if ltb (length bytes) frame_header_size
    then err (too_short frame_header_size (length bytes))
    else if n == 0 || ltb max_frame_size n
    then err (bad_length n)
    else if ltb (length bytes) total
    then err (incomplete total (length bytes))
    else ok (record { kind = get_or bytes 4 0; payload = slice frame_header_size total bytes })

unfoldable pub parse_frame : List ℕ → Result Frame
parse_frame buf =
    if ltb (length buf) frame_header_size
    then err (too_short frame_header_size (length buf))
    else ok (record { kind = get_or buf 4 0; payload = drop frame_header_size buf })

unfoldable pub frame_size_in_buffer : List ℕ → Result (Option ℕ)
frame_size_in_buffer bytes =
    let n = length_field bytes in
    let total = frame_header_size + n - 1 in
    if ltb (length bytes) 4
    then ok none
    else if n == 0 || ltb max_frame_size n
    then err (bad_length n)
    else if leb total (length bytes)
    then ok (some total)
    else ok none

-- What one `read` into the 8192-byte scratch buffer gives: some bytes (none at the end of the
-- stream), or an error.
pub data Read : Type 0 where
  bytes : List ℕ → Read
  failed : Read

-- What a receiver does with the reads that it is given: it answers, with the buffer and the reads
-- that are left, or it waits for more.
pub data Received : Type 0 where
  got : Frame → ℕ → List ℕ → List Read → Received
  broken : FrameError → Received
  waiting : List ℕ → Received

-- `split_to` and `parse_frame` on a complete frame of `n` bytes at the front of the buffer.
abbrev take_frame : ℕ → List ℕ → List Read → Received
take_frame n buf reads = elim (parse_frame (take n buf)) [
  | ok f ↦ got f n (drop n buf) reads
  | err e ↦ broken e
]

-- The loop of `recv_frame`, one read to a round.
unfoldable pub recv_frame : List ℕ → List Read → Received
recv_frame buf [] = elim (frame_size_in_buffer buf) [
  | err e ↦ broken e
  | ok (some n) ↦ take_frame n buf []
  | ok none ↦
      if ltb max_read_buf (length buf) then broken (buffer_overrun (length buf)) else waiting buf
]
recv_frame buf (failed ∷ reads) = elim (frame_size_in_buffer buf) [
  | err e ↦ broken e
  | ok (some n) ↦ take_frame n buf (failed ∷ reads)
  | ok none ↦
      if ltb max_read_buf (length buf)
      then broken (buffer_overrun (length buf))
      else broken read_failed
]
recv_frame buf (bytes tmp ∷ reads) = elim (frame_size_in_buffer buf) [
  | err e ↦ broken e
  | ok (some n) ↦ take_frame n buf (bytes tmp ∷ reads)
  | ok none ↦
      let more = recv_frame (buf ++ tmp) reads in
      if ltb max_read_buf (length buf)
      then broken (buffer_overrun (length buf))
      else if length tmp == 0
      then broken connection_closed
      else more
]

-- The counters after `recv_frame`.
unfoldable pub count_received : Received → SessionStats → SessionStats
unfolding record_bytes_recv record_frame_recv
count_received (got f n buf reads) s = record_frame_recv (record_bytes_recv n s)
count_received (broken e) s = s
count_received (waiting buf) s = s

-- What one `write_all` under the write timeout does, with the bytes that it put on the wire.
pub data Write : Type 0 where
  written : Write
  write_error : List ℕ → Write
  timed_out : List ℕ → Write

-- `write_frame_with_retry`, which makes one attempt: the result and what stands on the wire.
unfoldable pub write_frame_with_retry : Write → List ℕ → Result (Unit {0}) × List ℕ
write_frame_with_retry written frame = (ok tt, frame)
write_frame_with_retry (write_error part) frame = (err write_failed, part)
write_frame_with_retry (timed_out part) frame = (err write_timed_out, part)

-- A send: the result, the bytes put on the wire and the counters.
pub record Sent : Type 0 where
  pub result : Result (Unit {0})
  pub wire : List ℕ
  pub stats : SessionStats

abbrev count_sent : Result (Unit {0}) → ℕ → SessionStats → SessionStats
count_sent (ok u) n s = record_frame_sent (record_bytes_sent n s)
count_sent (err e) n s = s

unfoldable pub send_encoded : Write → List ℕ → SessionStats → Sent
unfolding write_frame_with_retry record_bytes_sent record_frame_sent
send_encoded w encoded s =
    let (r, part) = write_frame_with_retry w encoded in
    record { result = r; wire = part; stats = count_sent r (length encoded) s }

-- `send_frame`, and `send_frame_high_priority` too, which takes the same lock by trying.
unfoldable pub send_frame : Write → ℕ → List ℕ → SessionStats → Sent
unfolding encode_frame send_encoded
send_frame w kind payload s = elim (encode_frame kind payload) [
  | err e ↦ record { result = err e; wire = []; stats = s }
  | ok frame ↦ send_encoded w frame s
]
