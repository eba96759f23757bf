-- ===== src/Frame/Runs.antt =====
-- Runs of frame.rs, and the theorems at concrete inputs.
use pnos_sdk.Base.{
  ◌+◌, ◌%◌, ◌^◌, ◌<◌, ◌≡◌, ◌≢◌, ◌↔◌, refl, ℕ, List, [], ◌∷◌, ◌++◌, map, arith, some, length, take,
}
use pnos_sdk.Stats.{new_stats}
use pnos_sdk.Frame.{
  Frame, ok, err, max_frame_size, encode, encode_frame, decode_frame, parse_frame,
  frame_size_in_buffer, bytes, got, broken, waiting, connection_closed, kind_too_large,
  buffer_overrun, recv_frame, send_frame,
}
use pnos_sdk.Frame.Codec.{decode_frame_ok_iff}
use pnos_sdk.Frame.Receive.{recv_frame_truncated, recv_frame_bounded}
use pnos_sdk.Frame.Link.{send_frames, recv_frames, recv_frames-send_frames}

abbrev ping : Frame
ping = record { kind = 10; payload = 1 ∷ 2 ∷ 3 ∷ [] }

abbrev ping_bytes : List ℕ
ping_bytes = 0 ∷ 0 ∷ 0 ∷ 4 ∷ 10 ∷ 1 ∷ 2 ∷ 3 ∷ []

abbrev pong : Frame
pong = record { kind = 11; payload = [] }

encode-ping : encode ping ≡ ok ping_bytes
unfolding encode
encode-ping = refl

encode_wide_kind : encode_frame 256 [] ≡ err (kind_too_large 256)
unfolding encode_frame
encode_wide_kind = refl

decode_frame_ok_iff_example :
    ((decode_frame (ping_bytes ++ 9 ∷ []) ≡ ok ping)
      ↔ (encode ping ≡ ok (take (5 + 3) (ping_bytes ++ 9 ∷ []))))
    × ((decode_frame (ping_bytes ++ 9 ∷ []) ≡ ok ping) ↔ (
        (n : ℕ) × (frame_size_in_buffer (ping_bytes ++ 9 ∷ []) ≡ ok (some n))
        × (parse_frame (take n (ping_bytes ++ 9 ∷ [])) ≡ ok ping)))
decode_frame_ok_iff_example = decode_frame_ok_iff (ping_bytes ++ 9 ∷ []) ping (omega arith)

-- Two frames that arrive in three reads, cut at odd places.
abbrev pieces : List (List ℕ)
pieces = (0 ∷ 0 ∷ []) ∷ (0 ∷ 4 ∷ 10 ∷ 1 ∷ 2 ∷ 3 ∷ 0 ∷ 0 ∷ []) ∷ (0 ∷ 1 ∷ 11 ∷ []) ∷ []

receive_first :
    recv_frame [] (map bytes pieces) ≡ got ping 8 (0 ∷ 0 ∷ []) (bytes (0 ∷ 1 ∷ 11 ∷ []) ∷ [])
unfolding recv_frame frame_size_in_buffer parse_frame
receive_first = refl

recv_frames-send_frames_example :
    let s = (send_frames (ping ∷ pong ∷ []) new_stats).1 in
    let r = (recv_frames 2 [] (map bytes pieces) new_stats).1 in
    ((recv_frames 2 [] (map bytes pieces) new_stats).0 ≡ ping ∷ pong ∷ [])
    × (s.bytes_sent ≡ 13 % 2 ^ 64)
    × (r.bytes_recv ≡ s.bytes_sent)
    × (s.frames_sent ≡ 2 % 2 ^ 64)
    × (r.frames_recv ≡ s.frames_sent)
unfolding send_frames send_frame new_stats
recv_frames-send_frames_example =
    recv_frames-send_frames (ping ∷ pong ∷ []) pieces (omega arith) refl (omega arith)

recv_frame_truncated_example :
    recv_frame [] (bytes (0 ∷ 0 ∷ 0 ∷ 4 ∷ []) ∷ bytes (10 ∷ 1 ∷ []) ∷ bytes [] ∷ [])
    ≡ broken connection_closed
recv_frame_truncated_example =
    recv_frame_truncated ping ping_bytes (0 ∷ 0 ∷ 0 ∷ 4 ∷ 10 ∷ 1 ∷ []) (2 ∷ 3 ∷ [])
      ((0 ∷ 0 ∷ 0 ∷ 4 ∷ []) ∷ (10 ∷ 1 ∷ []) ∷ []) encode-ping refl (omega arith) refl (omega arith)

recv_frame_bounded_example :
    ((n : ℕ) → recv_frame [] (bytes (0 ∷ 0 ∷ []) ∷ []) ≢ broken (buffer_overrun n))
    × ((b : List ℕ)
        → recv_frame [] (bytes (0 ∷ 0 ∷ []) ∷ []) ≡ waiting b
        → length b < max_frame_size + 4)
recv_frame_bounded_example = recv_frame_bounded [] (bytes (0 ∷ 0 ∷ []) ∷ [])
