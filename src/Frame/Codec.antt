-- ===== src/Frame/Codec.antt =====
-- The codec of frame.rs: what is encoded is decoded, and the other way round.
use pnos_sdk.Base.{
  ℕ, suc, ◌+◌, ◌-◌, ◌≤◌, ◌<◌, ◌≡◌, ◌↔◌, refl, sym, ap, ◌∙◌, List, [], ◌∷◌, ◌++◌, arith, length,
  length-append, take, drop, take-append-drop, All, none, some, take-append_length, length-take,
}
use pnos_sdk.Base.Bytes.{IsByte, u32, be32, u32-be32}
use pnos_sdk.Frame.{
  Frame, ok, max_frame_size, frame_header_size, encode, decode_frame, parse_frame,
  frame_size_in_buffer, length_field,
}

-- The bytes of a frame that the header can carry.
abbrev pub frame_bytes : ℕ → List ℕ → List ℕ
frame_bytes kind payload = be32 (1 + length payload) ++ kind ∷ payload

pub record Fits (f : Frame) : Type 0 where
  pub kind_fits : f.kind ≤ 255
  pub size_fits : 1 + length f.payload ≤ max_frame_size

pub encode-frame_bytes : (f : Frame) → Fits f → encode f ≡ ok (frame_bytes f.kind f.payload)
unfolding encode
encode-frame_bytes f h = ground arith

pub encode_ok :
    (f : Frame) {bs : List ℕ} → encode f ≡ ok bs → Fits f × (bs ≡ frame_bytes f.kind f.payload)
unfolding encode
encode_ok f e = ground arith

length_field-frame_bytes :
    (k : ℕ) (p rest : List ℕ)
    → 1 + length p ≤ max_frame_size
    → length_field (frame_bytes k p ++ rest) ≡ 1 + length p
length_field-frame_bytes k p rest h = omega arith

decode_frame-frame_bytes :
    (f : Frame) (rest : List ℕ)
    → Fits f
    → decode_frame (frame_bytes f.kind f.payload ++ rest) ≡ ok f
unfolding decode_frame
decode_frame-frame_bytes f rest h = ground (
  arith,
  length_field-frame_bytes f.kind f.payload rest,
  length-append f.payload rest,
  take-append_length f.payload rest,
)

decode_frame-encode :
    (f : Frame) (bs rest : List ℕ) → encode f ≡ ok bs → decode_frame (bs ++ rest) ≡ ok f
decode_frame-encode f bs rest e =
    let (fits, eq) = encode_ok f e in rw eq (decode_frame-frame_bytes f rest fits)

pub length-frame_bytes : (k : ℕ) (p : List ℕ) → length (frame_bytes k p) ≡ 5 + length p
length-frame_bytes k p = omega arith

-- In a buffer that begins with an encoded frame the frame is found, with its length.
pub frame_size_in_buffer-frame_bytes :
    (f : Frame) (rest : List ℕ)
    → Fits f
    → frame_size_in_buffer (frame_bytes f.kind f.payload ++ rest) ≡ ok (some (5 + length f.payload))
unfolding frame_size_in_buffer
frame_size_in_buffer-frame_bytes f rest h =
    ground (arith, length_field-frame_bytes f.kind f.payload rest, length-append f.payload rest)

-- In a proper prefix of an encoded frame no frame is found, and no error either.
pub frame_size_in_buffer-prefix :
    (f : Frame) (front back : List ℕ)
    → Fits f
    → frame_bytes f.kind f.payload ≡ front ++ back
    → length front < 5 + length f.payload
    → frame_size_in_buffer front ≡ ok none
unfolding frame_size_in_buffer
frame_size_in_buffer-prefix f [] back h e l = refl
frame_size_in_buffer-prefix f (a ∷ []) back h e l = refl
frame_size_in_buffer-prefix f (a ∷ b ∷ []) back h e l = refl
frame_size_in_buffer-prefix f (a ∷ b ∷ c ∷ []) back h e l = refl
frame_size_in_buffer-prefix f (a ∷ b ∷ c ∷ d ∷ front) back h e l =
    ground (arith, u32-be32 (1 + length f.payload))

pub parse_frame-frame_bytes : (f : Frame) → parse_frame (frame_bytes f.kind f.payload) ≡ ok f
unfolding parse_frame
parse_frame-frame_bytes f = ground arith

be32-u32 :
    (a b c d : ℕ)
    → IsByte a
    → IsByte b
    → IsByte c
    → IsByte d
    → be32 (u32 a b c d) ≡ a ∷ b ∷ c ∷ d ∷ []
be32-u32 a b c d ha hb hc hd = ground arith

take_header :
    {A : Type 0} (m : ℕ) (a b c d k : A) (p : List A)
    → take (5 + m) (a ∷ b ∷ c ∷ d ∷ k ∷ p) ≡ a ∷ b ∷ c ∷ d ∷ k ∷ take m p
take_header m a b c d k p = let e : 5 + m ≡ suc (suc (suc (suc (suc m)))) = omega arith in rw e

-- What a decoded frame is, and which bytes it was decoded from.
decode_frame_ok :
    (a b c d k : ℕ) (p : List ℕ) (f : Frame)
    → decode_frame (a ∷ b ∷ c ∷ d ∷ k ∷ p) ≡ ok f
    → let n = u32 a b c d in
      (1 ≤ n)
      × (n ≤ max_frame_size)
      × (n ≤ 1 + length p)
      × (f.kind ≡ k)
      × (f.payload ≡ take (n - 1) p)
unfolding decode_frame
decode_frame_ok a b c d k p f e =
    let m : 5 + u32 a b c d - 1 - 5 ≡ u32 a b c d - 1 = omega arith in
    ground (arith, ap (λ (t : ℕ). take t p) m)

encode-decode_frame :
    (bs : List ℕ) (f : Frame)
    → All IsByte bs
    → decode_frame bs ≡ ok f
    → encode f ≡ ok (take (5 + length f.payload) bs)
unfolding decode_frame encode
encode-decode_frame [] f h e = cc
encode-decode_frame (a ∷ []) f h e = cc
encode-decode_frame (a ∷ b ∷ []) f h e = cc
encode-decode_frame (a ∷ b ∷ c ∷ []) f h e = cc
encode-decode_frame (a ∷ b ∷ c ∷ d ∷ []) f h e = cc
encode-decode_frame (a ∷ b ∷ c ∷ d ∷ k ∷ p) f h e =
    let (lo, hi, enough, same_kind, same_payload) = decode_frame_ok a b c d k p f e in
    let size : length f.payload ≡ u32 a b c d - 1 =
      rw same_payload (omega (arith, length-take (u32 a b c d - 1) p)) in
    ground (
      arith,
      be32-u32 a b c d,
      size,
      take_header (length f.payload) a b c d k p,
      ap (λ (t : ℕ). take t p) size,
    )

parse_frame-frame_size_in_buffer :
    (bs : List ℕ) (n : ℕ)
    → frame_size_in_buffer bs ≡ ok (some n)
    → decode_frame bs ≡ parse_frame (take n bs)
unfolding decode_frame parse_frame frame_size_in_buffer
parse_frame-frame_size_in_buffer [] n e = cc
parse_frame-frame_size_in_buffer (a ∷ []) n e = cc
parse_frame-frame_size_in_buffer (a ∷ b ∷ []) n e = cc
parse_frame-frame_size_in_buffer (a ∷ b ∷ c ∷ []) n e = cc
parse_frame-frame_size_in_buffer (a ∷ b ∷ c ∷ d ∷ []) n e = ground arith
parse_frame-frame_size_in_buffer (a ∷ b ∷ c ∷ d ∷ k ∷ p) n e =
    let m = u32 a b c d - 1 in
    let size : n ≡ 5 + m = ground arith in
    let same : 5 + u32 a b c d - 1 - 5 ≡ m = omega arith in
    rw size (rw (take_header m a b c d k p) (ground (arith, ap (λ (t : ℕ). take t p) same)))

decode_frame-frame_size_in_buffer :
    (bs : List ℕ) (f : Frame)
    → decode_frame bs ≡ ok f
    → (n : ℕ) × (frame_size_in_buffer bs ≡ ok (some n))
unfolding decode_frame frame_size_in_buffer
decode_frame-frame_size_in_buffer bs f e = (frame_header_size + length_field bs - 1, ground arith)

decode_frame_iff :
    (bs : List ℕ) (f : Frame)
    → (decode_frame bs ≡ ok f)
      ↔ ((n : ℕ) × (frame_size_in_buffer bs ≡ ok (some n)) × (parse_frame (take n bs) ≡ ok f))
decode_frame_iff bs f = (
  λ e.
      let (n, found) = decode_frame-frame_size_in_buffer bs f e in
      (n, found, sym (parse_frame-frame_size_in_buffer bs n found) ∙ e),
  λ h. parse_frame-frame_size_in_buffer bs h.0 h.1 ∙ h.2,
)

-- Bytes decode to a frame exactly if the frame encodes to the bytes at their front, as many as the
-- header and the payload have: decoding undoes encoding, whatever bytes follow, and encoding undoes
-- decoding; and exactly if the transport's two steps, finding a frame in the buffer and parsing it, give
-- that frame.
pub decode_frame_ok_iff :
    (bs : List ℕ) (f : Frame)
    → All IsByte bs
    → ((decode_frame bs ≡ ok f) ↔ (encode f ≡ ok (take (5 + length f.payload) bs)))
      × ((decode_frame bs ≡ ok f)
          ↔ ((n : ℕ) × (frame_size_in_buffer bs ≡ ok (some n)) × (parse_frame (take n bs) ≡ ok f)))
decode_frame_ok_iff bs f h = (
  (
    encode-decode_frame bs f h,
    λ e.
        ap decode_frame (sym (take-append-drop (5 + length f.payload) bs))
        ∙ decode_frame-encode f (take (5 + length f.payload) bs) (drop (5 + length f.payload) bs) e,
  ),
  decode_frame_iff bs f,
)
