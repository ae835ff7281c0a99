-- ===== src/Payload/Fields.antt =====
-- The five kinds of values of a payload: what each addition does, and that the bytes can be read
-- back by a reader that knows the kinds.
use sag_c8y_nb_iot_demo.Base.{
  ℕ, ◌+◌, ◌*◌, ◌/◌, ◌%◌, ◌^◌, ◌≤◌, ◌<◌, ◌≡◌, refl, sym, ◌∙◌, ◌↔◌, inl, inr, Bool-cases, Option,
  none, some, List, [], ◌∷◌, ◌++◌, append_assoc, append-nil, All, length, length-append, ltb, arith,
}
use sag_c8y_nb_iot_demo.Base.Words.{wrap8}
use sag_c8y_nb_iot_demo.Payload.{
  PayloadBuilder, create, add_boolean, add_integer, add_number, add_gps, add_accelerometer,
  int_bytes, float_bytes, send_buffer_size, fill_send_buffer,
}
use sag_c8y_nb_iot_demo.Payload.Bounds.{
  IsValid, contents, length-contents, Refines, Refines-room, add_bytes-Refines,
}

pub data Field : Type 0 where
  boolean integer number : ℕ → Field
  gps accelerometer : ℕ → ℕ → ℕ → Field

-- The builder's method for a value.
unfoldable pub add : Field → PayloadBuilder → ℕ × PayloadBuilder
add (boolean v) b = add_boolean b v
add (integer v) b = add_integer b v
add (number v) b = add_number b v
add (gps x y z) b = add_gps b x y z
add (accelerometer x y z) b = add_accelerometer b x y z

-- The layout of a value, lowest byte first.
abbrev pub layout : Field → List ℕ
layout (boolean v) = wrap8 v ∷ []
layout (integer v) = int_bytes v
layout (number v) = float_bytes v
layout (gps x y z) = float_bytes x ++ (float_bytes y ++ float_bytes z)
layout (accelerometer x y z) = float_bytes x ++ (float_bytes y ++ float_bytes z)

-- Each of the five additions, on every branch: what does not fit is refused with 0 and changes
-- nothing; what fits is appended in its layout and the new size returned. The builder stays valid.
pub add-Refines : (f : Field) (b : PayloadBuilder) → IsValid b → Refines b (layout f) (add f b)
add-Refines (boolean v) b h = unfold add add_boolean in add_bytes-Refines b _ h
add-Refines (integer v) b h = unfold add add_integer in add_bytes-Refines b _ h
add-Refines (number v) b h = unfold add add_number in add_bytes-Refines b _ h
add-Refines (gps x y z) b h = unfold add add_gps in add_bytes-Refines b _ h
add-Refines (accelerometer x y z) b h = unfold add add_accelerometer in add_bytes-Refines b _ h

-- A program that adds values one after the other.
unfoldable pub build : List Field → PayloadBuilder → PayloadBuilder
build [] b = b
build (f ∷ fs) b = build fs (add f b).1

abbrev pub layouts : List Field → List ℕ
layouts [] = []
layouts (f ∷ fs) = layout f ++ layouts fs

pub build-layouts :
    (fs : List Field) (b : PayloadBuilder)
    → IsValid b
    → length (contents b) + length (layouts fs) ≤ b.maxsize
    → contents (build fs b) ≡ contents b ++ layouts fs
unfolding build
build-layouts [] b v h = sym (append-nil (contents b))
build-layouts (f ∷ fs) b v h =
    let r = add-Refines f b v in
    let whole = length-append (layout f) (layouts fs) in
    let grown = length-append (contents b) (layout f) in
    let held = Refines-room (layout f) (add f b) r (omega (arith, whole)) in
    build-layouts fs (add f b).1 r.valid (rw (held, r.same_limit, grown) (omega (arith, whole)))
    ∙ rw held (append_assoc (contents b) (layout f) (layouts fs))

-- The reader: a value of the expected kind from the front of the bytes.
pub data Kind : Type 0 where
  boolean integer number gps accelerometer : Kind

abbrev pub kind_of : Field → Kind
kind_of (boolean v) = Kind.boolean
kind_of (integer v) = Kind.integer
kind_of (number v) = Kind.number
kind_of (gps x y z) = Kind.gps
kind_of (accelerometer x y z) = Kind.accelerometer

abbrev word32 : ℕ → ℕ → ℕ → ℕ → ℕ
word32 a b c e = a + b * 256 + c * 2 ^ 16 + e * 2 ^ 24

abbrev read_three : (ℕ → ℕ → ℕ → Field) → List ℕ → Option (Field × List ℕ)
read_three make (a ∷ b ∷ c ∷ e ∷ f ∷ g ∷ h ∷ i ∷ j ∷ k ∷ l ∷ m ∷ rest) =
    some (make (word32 a b c e) (word32 f g h i) (word32 j k l m), rest)
read_three make _ = none

abbrev pub read_field : Kind → List ℕ → Option (Field × List ℕ)
read_field boolean (a ∷ rest) = some (Field.boolean a, rest)
read_field integer (a ∷ b ∷ rest) = some (Field.integer (a + b * 256), rest)
read_field number (a ∷ b ∷ c ∷ e ∷ rest) = some (Field.number (word32 a b c e), rest)
read_field gps s = read_three Field.gps s
read_field accelerometer s = read_three Field.accelerometer s
read_field _ s = none

abbrev pub read_fields : List Kind → List ℕ → Option (List Field)
read_fields [] s = some []
read_fields (k ∷ ks) s = elim (read_field k s) [
  | none ↦ none
  | some (f, rest) ↦ elim (read_fields ks rest) [ none ↦ none | some fs ↦ some (f ∷ fs) ]
]

-- The values that the parameters' types hold: uint8_t, int and float patterns.
abbrev pub InRange : Field → Type 0
InRange (boolean v) = v < 2 ^ 8
InRange (integer v) = v < 2 ^ 16
InRange (number v) = v < 2 ^ 32
InRange (gps x y z) = (x < 2 ^ 32) × (y < 2 ^ 32) × (z < 2 ^ 32)
InRange (accelerometer x y z) = (x < 2 ^ 32) × (y < 2 ^ 32) × (z < 2 ^ 32)

word32-float_bytes :
    (w : ℕ)
    → w < 2 ^ 32
    → word32 (w % 256) (w / 256 % 256) (w / 2 ^ 16 % 256) (w / 2 ^ 24 % 256) ≡ w
word32-float_bytes w h = omega arith

read_field-layout :
    (f : Field) (rest : List ℕ)
    → InRange f
    → read_field (kind_of f) (layout f ++ rest) ≡ some (f, rest)
read_field-layout (boolean v) rest h = λ i. some (Field.boolean (e i), rest)
  where
    e : v % 2 ^ 8 ≡ v
    e = omega arith
read_field-layout (integer v) rest h = λ i. some (Field.integer (e i), rest)
  where
    e : v % 256 + v / 256 % 256 * 256 ≡ v
    e = omega arith
read_field-layout (number v) rest h = λ i. some (Field.number (word32-float_bytes v h i), rest)
read_field-layout (gps x y z) rest h = λ i. some (
  Field.gps (word32-float_bytes x h.0 i) (word32-float_bytes y h.1 i) (word32-float_bytes z h.2 i),
  rest,
)
read_field-layout (accelerometer x y z) rest h = λ i. some (
  Field.accelerometer (word32-float_bytes x h.0 i) (word32-float_bytes y h.1 i)
      (word32-float_bytes z h.2 i),
  rest,
)

abbrev pub kinds_of : List Field → List Kind
kinds_of [] = []
kinds_of (f ∷ fs) = kind_of f ∷ kinds_of fs

read_fields-layouts :
    (fs : List Field) → All InRange fs → read_fields (kinds_of fs) (layouts fs) ≡ some fs
read_fields-layouts [] h = refl
read_fields-layouts (f ∷ fs) (hf, hs) =
    ground (arith, read_field-layout f (layouts fs) hf, read_fields-layouts fs hs)

-- Values in their ranges that fit the buffer, added to a fresh builder, are read back.
pub read_fields-build :
    (fs : List Field) (size : ℕ) (block : List ℕ)
    → length block ≡ size
    → size < 256
    → All InRange fs
    → length (layouts fs) ≤ size
    → read_fields (kinds_of fs) (contents (build fs (create size block))) ≡ some fs
unfolding create
read_fields-build fs size block hb hs h fits =
    rw
      (build-layouts fs (create size block)
        (record { block = hb; small = hs; within = omega arith }) (omega arith))
      (read_fields-layouts fs h)

-- `send()` writes behind its array of 51 bytes exactly if the builder holds more than that, which
-- the default size of 60 and every larger one allow.
pub fill_send_buffer-none :
    (b : PayloadBuilder) → IsValid b → (fill_send_buffer b ≡ none) ↔ (51 < length (contents b))
unfolding fill_send_buffer
fill_send_buffer-none b v = elim (Bool-cases (ltb send_buffer_size b.cursor)) [
  | inl over ↦ ground (arith, length-contents b v)
  | inr fits ↦ ground (arith, length-contents b v)
]
