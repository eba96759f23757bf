-- ===== src/Frame/Receive.antt =====
-- The receive loop of frame.rs against the stream: how the bytes are cut into reads does not matter.
use pnos_sdk.Base.{
  ℕ, ◌+◌, ◌≤◌, ◌<◌, ◌≡◌, ◌≢◌, sym, ap, ◌∙◌, inl, inr, List, [], ◌∷◌, ◌++◌, map, arith, length,
  length-append, concat, All, none, some, take-append_length, drop-append_length, split_append,
  Bool-cases, ltb, ltb→lt, ltb→le,
}
use pnos_sdk.Frame.{
  Frame, ok, max_frame_size, parse_frame, frame_size_in_buffer, Read, bytes, failed, Received, got,
  broken, waiting, take_frame, recv_frame, buffer_overrun, connection_closed, encode,
}
use pnos_sdk.Frame.Codec.{
  Fits, frame_bytes, encode_ok, length-frame_bytes, frame_size_in_buffer-frame_bytes,
  frame_size_in_buffer-prefix, parse_frame-frame_bytes,
}
use mathlib.Core.Path.{subst}
use mathlib.Core.List.{append-nil, append_assoc}

abbrev pub IsNonempty : List ℕ → Type 0
IsNonempty c = 0 < length c

-- A buffer that the loop goes on with is smaller than a frame.
frame_size_in_buffer-none :
    (buf : List ℕ) → frame_size_in_buffer buf ≡ ok none → length buf < max_frame_size + 4
unfolding frame_size_in_buffer
frame_size_in_buffer-none buf e = ground arith

-- One round of the loop: on a complete frame, and on none.
recv_frame-some :
    (n : ℕ) (buf : List ℕ) (reads : List Read)
    → frame_size_in_buffer buf ≡ ok (some n)
    → recv_frame buf reads ≡ take_frame n buf reads
unfolding recv_frame
recv_frame-some n buf [] e = rw (e, recv_frame)
recv_frame-some n buf (bytes tmp ∷ reads) e = rw (e, recv_frame)
recv_frame-some n buf (failed ∷ reads) e = rw (e, recv_frame)

recv_frame_more :
    (buf tmp : List ℕ) (reads : List Read)
    → frame_size_in_buffer buf ≡ ok none
    → IsNonempty tmp
    → recv_frame buf (bytes tmp ∷ reads) ≡ recv_frame (buf ++ tmp) reads
unfolding recv_frame
recv_frame_more buf tmp reads e h =
    rw (e, recv_frame) (ground (arith, frame_size_in_buffer-none buf e))

take_frame-append :
    (f : Frame) (bs rest : List ℕ) (reads : List Read)
    → parse_frame bs ≡ ok f
    → take_frame (length bs) (bs ++ rest) reads ≡ got f (length bs) rest reads
take_frame-append f bs rest reads e =
    rw (take-append_length bs rest, take_frame)
      (rw e (ap (λ r. got f (length bs) r reads) (drop-append_length bs rest)))

recv_frame_found :
    (f : Frame) (rest : List ℕ) (reads : List Read)
    → Fits f
    → recv_frame (frame_bytes f.kind f.payload ++ rest) reads
      ≡ got f (5 + length f.payload) rest reads
recv_frame_found f rest reads h =
    recv_frame-some _ _ reads (frame_size_in_buffer-frame_bytes f rest h)
    ∙ subst (λ n. take_frame n (frame_bytes f.kind f.payload ++ rest) reads ≡ got f n rest reads)
        (length-frame_bytes f.kind f.payload)
        (take_frame-append f (frame_bytes f.kind f.payload) rest reads (parse_frame-frame_bytes f))

-- What the receive loop leaves behind the frame `f`, when `tail` follows it in the stream.
pub record After (f : Frame) (tail : List ℕ) (r : Received) : Type 0 where
  pub rest : List ℕ
  pub chunks : List (List ℕ)
  pub got_frame : r ≡ got f (5 + length f.payload) rest (map bytes chunks)
  pub left : rest ++ concat chunks ≡ tail
  pub nonempty : All IsNonempty chunks

After-found :
    (f : Frame) (tail : List ℕ) (chunks : List (List ℕ)) (buf : List ℕ)
    → Fits f
    → buf ++ concat chunks ≡ frame_bytes f.kind f.payload ++ tail
    → All IsNonempty chunks
    → length (frame_bytes f.kind f.payload) ≤ length buf
    → After f tail (recv_frame buf (map bytes chunks))
After-found f tail chunks buf h e ne big =
    let (r, p, q) = split_append buf (concat chunks) (frame_bytes f.kind f.payload) tail e big in
    record {
      rest = r;
      chunks = chunks;
      got_frame = ap (λ b. recv_frame b (map bytes chunks)) p ∙ recv_frame_found f r _ h;
      left = sym q;
      nonempty = ne;
    }

-- A buffer that does not hold the whole frame yet.
frame_size_in_buffer_early :
    (f : Frame) (tail more buf : List ℕ)
    → Fits f
    → buf ++ more ≡ frame_bytes f.kind f.payload ++ tail
    → length buf < length (frame_bytes f.kind f.payload)
    → frame_size_in_buffer buf ≡ ok none
frame_size_in_buffer_early f tail more buf h e small =
    let (r, p, q) =
      split_append (frame_bytes f.kind f.payload) tail buf more (sym e) (omega arith) in
    frame_size_in_buffer-prefix f buf r h p (omega (arith, length-frame_bytes f.kind f.payload))

-- The next frame of the stream is received, however the stream is cut.
pub recv_frame-After :
    (f : Frame) (tail : List ℕ) (chunks : List (List ℕ)) (buf : List ℕ)
    → Fits f
    → buf ++ concat chunks ≡ frame_bytes f.kind f.payload ++ tail
    → All IsNonempty chunks
    → After f tail (recv_frame buf (map bytes chunks))
recv_frame-After f tail [] buf h e ne = After-found f tail [] buf h e ne (
    omega
      (arith, ap length e, length-append buf [], length-append (frame_bytes f.kind f.payload) tail))
recv_frame-After f tail (c ∷ cs) buf h e ne =
    elim (Bool-cases (ltb (length buf) (length (frame_bytes f.kind f.payload)))) [
      | inl small ↦
          rw
            (recv_frame_more buf c (map bytes cs)
              (frame_size_in_buffer_early f tail (concat (c ∷ cs)) buf h e (ltb→lt _ _ small)) ne.0)
            (recv_frame-After f tail cs (buf ++ c) h (append_assoc buf c (concat cs) ∙ e) ne.1)
      | inr big ↦ After-found f tail (c ∷ cs) buf h e ne (ltb→le _ _ big)
    ]

recv_frame_short :
    (buf : List ℕ)
    → frame_size_in_buffer buf ≡ ok none
    → recv_frame buf (bytes [] ∷ []) ≡ broken connection_closed
unfolding recv_frame
recv_frame_short buf e = rw (e, recv_frame) (ground (arith, frame_size_in_buffer-none buf e))

recv_frame_cut :
    (f : Frame) (front back : List ℕ) (chunks : List (List ℕ)) (buf : List ℕ)
    → Fits f
    → front ++ back ≡ frame_bytes f.kind f.payload
    → 0 < length back
    → buf ++ concat chunks ≡ front
    → All IsNonempty chunks
    → recv_frame buf (map bytes chunks ++ bytes [] ∷ []) ≡ broken connection_closed
recv_frame_cut f front back chunks buf h whole cut e ne = go chunks buf e ne
  where
    size : length front + length back ≡ length (frame_bytes f.kind f.payload)
    size = sym (length-append front back) ∙ ap length whole

    early : (b more : List ℕ) → b ++ more ≡ front → frame_size_in_buffer b ≡ ok none
    early b more p =
        frame_size_in_buffer_early f [] (more ++ back) b h
          (sym (append_assoc b more back) ∙ ap (λ t. t ++ back) p ∙ whole ∙ sym (append-nil _))
          (omega (arith, size, ap length p, length-append b more))

    go :
        (cs : List (List ℕ)) (b : List ℕ)
        → b ++ concat cs ≡ front
        → All IsNonempty cs
        → recv_frame b (map bytes cs ++ bytes [] ∷ []) ≡ broken connection_closed
    go [] b p n = recv_frame_short b (early b [] p)
    go (c ∷ cs) b p n =
        recv_frame_more b c _ (early b (concat (c ∷ cs)) p) n.0
        ∙ go cs (b ++ c) (append_assoc b c (concat cs) ∙ p) n.1

-- If the stream ends inside a frame, as after a write that timed out, then no frame comes out of
-- the part that arrived, however it is cut into reads: the receiver reports a closed connection.
pub recv_frame_truncated :
    (f : Frame) (bs front back : List ℕ) (chunks : List (List ℕ))
    → encode f ≡ ok bs
    → bs ≡ front ++ back
    → 0 < length back
    → concat chunks ≡ front
    → All IsNonempty chunks
    → recv_frame [] (map bytes chunks ++ bytes [] ∷ []) ≡ broken connection_closed
recv_frame_truncated f bs front back chunks e whole cut p ne =
    let (h, q) = encode_ok f e in recv_frame_cut f front back chunks [] h (sym whole ∙ q) cut p ne

recv_frame_no_overrun :
    (buf : List ℕ) (reads : List Read) (n : ℕ) → recv_frame buf reads ≢ broken (buffer_overrun n)
unfolding recv_frame frame_size_in_buffer parse_frame
recv_frame_no_overrun buf [] n e = ground arith
recv_frame_no_overrun buf (failed ∷ reads) n e = ground arith
recv_frame_no_overrun buf (bytes tmp ∷ reads) n e =
    ground (arith, recv_frame_no_overrun (buf ++ tmp) reads n)

recv_frame_waiting :
    (buf : List ℕ) (reads : List Read) (b : List ℕ)
    → recv_frame buf reads ≡ waiting b
    → length b < max_frame_size + 4
unfolding recv_frame frame_size_in_buffer parse_frame
recv_frame_waiting buf [] b e = ground arith
recv_frame_waiting buf (failed ∷ reads) b e = ground arith
recv_frame_waiting buf (bytes tmp ∷ reads) b e =
    ground (arith, recv_frame_waiting (buf ++ tmp) reads b)

-- Whatever arrives, the receive loop never waits with as many bytes as the longest frame has, and
-- it never gives up because of a full buffer: a stream that is not made of frames is refused by its
-- length field before.
pub recv_frame_bounded :
    (buf : List ℕ) (reads : List Read)
    → ((n : ℕ) → recv_frame buf reads ≢ broken (buffer_overrun n))
      × ((b : List ℕ) → recv_frame buf reads ≡ waiting b → length b < max_frame_size + 4)
recv_frame_bounded buf reads = (recv_frame_no_overrun buf reads, recv_frame_waiting buf reads)
