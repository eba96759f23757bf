-- ===== src/Stun/Attributes.antt =====
-- The messages that the STUN client reads, stun.rs: the loop over the attributes ends by its own test,
-- and it finds the addresses of a well-formed message.
use pnos_sdk.Base.{
  ℕ, zero, suc, ◌+◌, ◌-◌, ◌*◌, ◌/◌, ◌%◌, ◌<◌, ◌≡◌, refl, ap, ◌∙◌, true, false, List, [], ◌∷◌, ◌++◌,
  ltb, le→ltb, lt→ltb, if◌then◌else◌, length, get_or, drop, slice, arith, All, length-append,
  take-append_length, drop-append_length, get_or-drop, drop-drop,
}
use pnos_sdk.Base.Bytes.{IsU16, be16}
use pnos_sdk.Stun.{Found, note, padded, u16_at, attributes}

-- The loop stops by its own test, and the fuel does not matter, once four times the fuel reaches the
-- end.
pub attributes_enough :
    (f g : ℕ) (buf : List ℕ) (end offset : ℕ) (found : Found)
    → end < offset + 4 * f + 4
    → end < offset + 4 * g + 4
    → attributes f buf end offset found ≡ attributes g buf end offset found
unfolding attributes
attributes_enough zero zero buf end offset found hf hg = refl
attributes_enough zero (suc g) buf end offset found hf hg =
    let done : ltb end (offset + 4) ≡ true = lt→ltb _ _ (omega arith) in rw done refl
attributes_enough (suc f) zero buf end offset found hf hg =
    let done : ltb end (offset + 4) ≡ true = lt→ltb _ _ (omega arith) in rw done refl
attributes_enough (suc f) (suc g) buf end offset found hf hg =
    ap
      (λ rest.
        if ltb end (offset + 4)
        then found
        else if ltb end (offset + 4 + u16_at buf (offset + 2))
        then found
        else rest)
      (attributes_enough f g buf end (offset + 4 + padded (u16_at buf (offset + 2))) _ (omega arith)
        (omega arith))

-- An attribute as it stands in a message, with its padding.
pub record Attribute : Type 0 where
  pub kind : ℕ
  pub value : List ℕ
  pub padding : List ℕ

pub record IsAttribute (a : Attribute) : Type 0 where
  pub kind_fits : IsU16 a.kind
  pub length_fits : IsU16 (length a.value)
  pub aligned : length a.value + length a.padding ≡ padded (length a.value)

abbrev pub wires : List Attribute → List ℕ
wires [] = []
wires (a ∷ more) = be16 a.kind ++ (be16 (length a.value) ++ (a.value ++ (a.padding ++ wires more)))

-- What the attributes say, one after the other.
abbrev pub notes : List ℕ → List Attribute → Found → Found
notes cookie [] found = found
notes cookie (a ∷ more) found = notes cookie more (note cookie a.kind a.value found)

module _ (buf : List ℕ) (a : Attribute) (more : List Attribute) (o : ℕ) (h : IsAttribute a)
    (here : drop o buf ≡ wires (a ∷ more)) where
  kind_at : u16_at buf o ≡ a.kind
  kind_at =
      let p : get_or buf o 0 ≡ a.kind / 256 % 256 =
        ap (λ j. get_or buf j 0) (omega arith)
        ∙ get_or-drop buf o 0 0
        ∙ ap (λ w. get_or w 0 0) here in
      let q : get_or buf (o + 1) 0 ≡ a.kind % 256 =
        get_or-drop buf o 1 0 ∙ ap (λ w. get_or w 1 0) here in
      omega (arith, p, q, h.kind_fits)

  length_at : u16_at buf (o + 2) ≡ length a.value
  length_at =
      let p : get_or buf (o + 2) 0 ≡ length a.value / 256 % 256 =
        get_or-drop buf o 2 0 ∙ ap (λ w. get_or w 2 0) here in
      let q : get_or buf (o + 2 + 1) 0 ≡ length a.value % 256 =
        ap (λ j. get_or buf j 0) (omega arith)
        ∙ get_or-drop buf o 3 0
        ∙ ap (λ w. get_or w 3 0) here in
      omega (arith, p, q, h.length_fits)

  behind : drop (o + 4) buf ≡ a.value ++ (a.padding ++ wires more)
  behind = drop-drop buf o 4 ∙ ap (drop 4) here

  value_at : slice (o + 4) (o + 4 + length a.value) buf ≡ a.value
  value_at =
      let n : o + 4 + length a.value - (o + 4) ≡ length a.value = omega arith in
      rw (n, behind) (take-append_length a.value (a.padding ++ wires more))

  next_at : drop (o + 4 + padded (length a.value)) buf ≡ wires more
  next_at =
      let n : o + 4 + padded (length a.value) ≡ o + 4 + (length a.value + length a.padding) =
        omega (arith, h.aligned) in
      ap (λ j. drop j buf) n
      ∙ drop-drop buf (o + 4) (length a.value + length a.padding)
      ∙ ap (drop (length a.value + length a.padding)) behind
      ∙ drop-drop (a.value ++ (a.padding ++ wires more)) (length a.value) (length a.padding)
      ∙ ap (drop (length a.padding)) (drop-append_length a.value (a.padding ++ wires more))
      ∙ drop-append_length a.padding (wires more)

length-wires :
    (a : Attribute) (more : List Attribute)
    → IsAttribute a
    → length (wires (a ∷ more)) ≡ 4 + padded (length a.value) + length (wires more)
length-wires a more h = omega (
  arith,
  h.aligned,
  length-append a.value (a.padding ++ wires more),
  length-append a.padding (wires more),
)

pub attributes-notes :
    (f : ℕ) (buf : List ℕ) (list : List Attribute) (o : ℕ) (found : Found)
    → All IsAttribute list
    → drop o buf ≡ wires list
    → length buf ≡ o + length (wires list)
    → length buf < o + 4 * f + 4
    → attributes f buf (length buf) o found ≡ notes (slice 4 8 buf) list found
unfolding attributes
attributes-notes zero buf [] o found h e l enough = refl
attributes-notes (suc f) buf [] o found h e l enough =
    let done : ltb (length buf) (o + 4) ≡ true = lt→ltb _ _ (omega arith) in rw done refl
attributes-notes zero buf (a ∷ more) o found h e l enough =
    absurd (omega (arith, length-wires a more h.0))
attributes-notes (suc f) buf (a ∷ more) o found h e l enough =
    let n = length-wires a more h.0 in
    let room : ltb (length buf) (o + 4) ≡ false = le→ltb _ _ (omega (arith, n)) in
    let fits : ltb (length buf) (o + 4 + length a.value) ≡ false = le→ltb _ _ (omega (arith, n)) in
    rw
      (
        length_at buf a more o h.0 e,
        kind_at buf a more o h.0 e,
        value_at buf a more o h.0 e,
        room,
        fits,
      )
      (attributes-notes f buf more (o + 4 + padded (length a.value)) _ h.1
        (next_at buf a more o h.0 e) (omega (arith, n)) (omega (arith, n)))
