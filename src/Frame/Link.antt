-- ===== src/Frame/Link.antt =====
-- A sender and a receiver of frame.rs on the two ends of one stream.
use pnos_sdk.Base.{
  ℕ, zero, suc, ◌+◌, ◌%◌, ◌^◌, ◌<◌, ◌≡◌, refl, ap, ◌∙◌, List, [], ◌∷◌, ◌++◌, map, arith, length,
  length-append, concat, All,
}
use pnos_sdk.Stats.{
  SessionStats, new_stats, add64, record_bytes_sent, record_bytes_recv, record_frame_sent,
  record_frame_recv,
}
use pnos_sdk.Frame.{
  Frame, Read, bytes, Received, got, broken, waiting, ok, encode_frame, written, send_frame,
  recv_frame, count_received,
}
use pnos_sdk.Frame.Codec.{Fits, frame_bytes, length-frame_bytes}
use pnos_sdk.Frame.Receive.{IsNonempty, recv_frame-After}

-- The frames are sent one after the other, and each write is done in full: the bytes on the wire,
-- and the sender's counters.
unfoldable pub send_frames : List Frame → SessionStats → List ℕ × SessionStats
send_frames [] s = ([], s)
send_frames (f ∷ fs) s =
    let r = send_frame written f.kind f.payload s in
    let (wire, s') = send_frames fs r.stats in (r.wire ++ wire, s')

-- `k` calls of `recv_frame`, as the receive loop of a session makes them, up to the first that gives
-- no frame: the frames, and the receiver's counters.
abbrev collect :
    (List ℕ → List Read → SessionStats → List Frame × SessionStats)
    → Received
    → SessionStats
    → List Frame × SessionStats
collect next (got f n buf reads) s =
    let (fs, s') = next buf reads (count_received (got f n buf reads) s) in (f ∷ fs, s')
collect next (broken e) s = ([], s)
collect next (waiting buf) s = ([], s)

unfoldable pub recv_frames : ℕ → List ℕ → List Read → SessionStats → List Frame × SessionStats
recv_frames zero buf reads s = ([], s)
recv_frames (suc k) buf reads s = collect (recv_frames k) (recv_frame buf reads) s

send_frame_written :
    (f : Frame) (s : SessionStats)
    → Fits f
    → send_frame written f.kind f.payload s ≡ record {
      result = ok tt;
      wire = frame_bytes f.kind f.payload;
      stats = record_frame_sent (record_bytes_sent (5 + length f.payload) s);
    }
unfolding send_frame encode_frame
send_frame_written f s h = ground (arith, length-frame_bytes f.kind f.payload)

abbrev wire_of : List Frame → List ℕ
wire_of [] = []
wire_of (f ∷ fs) = frame_bytes f.kind f.payload ++ wire_of fs

abbrev sent : ℕ → SessionStats → SessionStats
sent n s = record_frame_sent (record_bytes_sent n s)

abbrev received : ℕ → SessionStats → SessionStats
received n s = record_frame_recv (record_bytes_recv n s)

abbrev count_all : (ℕ → SessionStats → SessionStats) → List Frame → SessionStats → SessionStats
count_all count [] s = s
count_all count (f ∷ fs) s = count_all count fs (count (5 + length f.payload) s)

send_frames-wire_of :
    (fs : List Frame) (s : SessionStats)
    → All Fits fs
    → send_frames fs s ≡ (wire_of fs, count_all sent fs s)
unfolding send_frames
send_frames-wire_of [] s h = refl
send_frames-wire_of (f ∷ fs) s h =
    rw (send_frame_written f s h.0) (rw (send_frames-wire_of fs _ h.1) refl)

recv_frames-wire_of :
    (fs : List Frame) (buf : List ℕ) (chunks : List (List ℕ)) (s : SessionStats)
    → All Fits fs
    → buf ++ concat chunks ≡ wire_of fs
    → All IsNonempty chunks
    → recv_frames (length fs) buf (map bytes chunks) s ≡ (fs, count_all received fs s)
unfolding recv_frames count_received
recv_frames-wire_of [] buf chunks s h e ne = refl
recv_frames-wire_of (f ∷ fs) buf chunks s h e ne =
    let a = recv_frame-After f (wire_of fs) chunks buf h.0 e ne in
    rw a.got_frame (rw (recv_frames-wire_of fs a.rest a.chunks _ h.1 a.left a.nonempty) refl)

recv_frames-same :
    (fs : List Frame) (chunks : List (List ℕ)) (s r : SessionStats)
    → All Fits fs
    → concat chunks ≡ (send_frames fs s).0
    → All IsNonempty chunks
    → (recv_frames (length fs) [] (map bytes chunks) r).0 ≡ fs
recv_frames-same fs chunks s r h e ne =
    ap (λ p. p.0)
      (recv_frames-wire_of fs [] chunks r h (e ∙ ap (λ p. p.0) (send_frames-wire_of fs s h)) ne)

count_all-sent :
    (fs : List Frame) (s : SessionStats)
    → s.bytes_sent < 2 ^ 64
    → s.frames_sent < 2 ^ 64
    → ((count_all sent fs s).bytes_sent ≡ add64 s.bytes_sent (length (wire_of fs)))
      × ((count_all sent fs s).frames_sent ≡ add64 s.frames_sent (length fs))
unfolding record_bytes_sent record_frame_sent
count_all-sent [] s h k = omega arith
count_all-sent (f ∷ fs) s h k =
    let (p, q) = count_all-sent fs (sent (5 + length f.payload) s) (omega arith) (omega arith) in
    let n = length-append (frame_bytes f.kind f.payload) (wire_of fs) in
    let m = length-frame_bytes f.kind f.payload in (omega (arith, p, n, m), omega (arith, q))

count_all-received :
    (fs : List Frame) (s : SessionStats)
    → s.bytes_recv < 2 ^ 64
    → s.frames_recv < 2 ^ 64
    → ((count_all received fs s).bytes_recv ≡ add64 s.bytes_recv (length (wire_of fs)))
      × ((count_all received fs s).frames_recv ≡ add64 s.frames_recv (length fs))
unfolding record_bytes_recv record_frame_recv
count_all-received [] s h k = omega arith
count_all-received (f ∷ fs) s h k =
    let (p, q) =
      count_all-received fs (received (5 + length f.payload) s) (omega arith) (omega arith) in
    let n = length-append (frame_bytes f.kind f.payload) (wire_of fs) in
    let m = length-frame_bytes f.kind f.payload in (omega (arith, p, n, m), omega (arith, q))

recv_frames_counters :
    (fs : List Frame) (chunks : List (List ℕ))
    → All Fits fs
    → concat chunks ≡ (send_frames fs new_stats).0
    → All IsNonempty chunks
    → let s = (send_frames fs new_stats).1 in
      let r = (recv_frames (length fs) [] (map bytes chunks) new_stats).1 in
      (s.bytes_sent ≡ length (concat chunks) % 2 ^ 64)
      × (r.bytes_recv ≡ s.bytes_sent)
      × (s.frames_sent ≡ length fs % 2 ^ 64)
      × (r.frames_recv ≡ s.frames_sent)
unfolding new_stats
recv_frames_counters fs chunks h e ne =
    let sent_all = send_frames-wire_of fs new_stats h in
    let wire = e ∙ ap (λ p. p.0) sent_all in
    let s = ap (λ p. p.1) sent_all in
    let r = ap (λ p. p.1) (recv_frames-wire_of fs [] chunks new_stats h wire ne) in
    let (a, b) = count_all-sent fs new_stats (omega arith) (omega arith) in
    let (c, d) = count_all-received fs new_stats (omega arith) (omega arith) in
    rw (s, r)
      (omega (arith, a, ap length wire), omega (arith, a, c), omega (arith, b), omega (arith, b, d))

-- A receiver at the other end of the stream gets exactly the frames that were sent, in their order,
-- however the stream is cut into nonempty reads, if each frame fits the header. From fresh counters on
-- both sides it has then counted as many bytes and as many frames as the sender; both counted the bytes
-- on the wire, modulo 2^64.
pub recv_frames-send_frames :
    (fs : List Frame) (chunks : List (List ℕ))
    → All Fits fs
    → concat chunks ≡ (send_frames fs new_stats).0
    → All IsNonempty chunks
    → let s = (send_frames fs new_stats).1 in
      let r = (recv_frames (length fs) [] (map bytes chunks) new_stats).1 in
      ((recv_frames (length fs) [] (map bytes chunks) new_stats).0 ≡ fs)
      × (s.bytes_sent ≡ length (concat chunks) % 2 ^ 64)
      × (r.bytes_recv ≡ s.bytes_sent)
      × (s.frames_sent ≡ length fs % 2 ^ 64)
      × (r.frames_recv ≡ s.frames_sent)
recv_frames-send_frames fs chunks h e ne =
    let (a, b, c, d) = recv_frames_counters fs chunks h e ne in
    (recv_frames-same fs chunks new_stats new_stats h e ne, a, b, c, d)
