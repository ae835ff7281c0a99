-- ===== src/Cbor/Contents.antt =====
-- What the writing operations append to the contents, where there is room, in plain arithmetic.
use sag_c8y_nb_iot_demo.Base.{
  ℕ, suc, ◌+◌, ◌-◌, ◌*◌, ◌/◌, ◌%◌, ◌^◌, ◌≤◌, ◌<◌, ◌≡◌, refl, ap, ◌∙◌, List, [], ◌∷◌, ◌++◌,
  append_assoc, length, length-append, take, set, length-set, take-set, length-blit, take-blit, ltb,
  if◌then◌else◌, arith, lt→ltb, ltb→lt, Bool-cases, inl, inr,
}
use sag_c8y_nb_iot_demo.Base.Words.{wrap8}
use sag_c8y_nb_iot_demo.Cbor.{CborBuilder, put_byte, put_bytes, write_type_and_value}
use sag_c8y_nb_iot_demo.Base.Table.{bit_or_add}
use Prim.Native.Nat.{bit_or}

-- The buffer has its capacity, which is the range of an unsigned int, and the offset is within.
pub record IsValid (b : CborBuilder) : Type 0 where
  pub block : length b.buffer ≡ b.capacity
  pub small : b.capacity < 2 ^ 16
  pub within : b.offset ≤ b.capacity

abbrev pub contents : CborBuilder → List ℕ
contents b = take b.offset b.buffer

-- `b'` holds what `b` holds and then `bytes`.
pub record Appends (b : CborBuilder) (bytes : List ℕ) (b' : CborBuilder) : Type 0 where
  pub valid : IsValid b'
  pub same_capacity : b'.capacity ≡ b.capacity
  pub size : b'.offset ≡ b.offset + length bytes
  pub held : contents b' ≡ contents b ++ bytes

pub Appends-trans :
    {b c e : CborBuilder} (s t : List ℕ) → Appends b s c → Appends c t e → Appends b (s ++ t) e
Appends-trans {b} s t p q = record {
  valid = q.valid;
  same_capacity = q.same_capacity ∙ p.same_capacity;
  size = omega (arith, q.size, p.size, length-append s t);
  held = q.held ∙ ap (λ u. u ++ t) p.held ∙ append_assoc (contents b) s t;
}

pub put_byte-Appends :
    (b : CborBuilder) (value : ℕ)
    → IsValid b
    → b.offset < b.capacity
    → Appends b (wrap8 value ∷ []) (put_byte b value)
unfolding put_byte
put_byte-Appends b value v room = rw (lt→ltb b.offset b.capacity room) (record {
  valid = record {
    block = length-set b.buffer b.offset (wrap8 value) ∙ v.block;
    small = v.small;
    within = omega arith;
  };
  same_capacity = refl;
  size = refl;
  held = grown;
})
  where
    next : b.offset + 1 ≡ suc b.offset
    next = omega arith

    grown :
        take (b.offset + 1) (set b.buffer b.offset (wrap8 value)) ≡ contents b ++ (wrap8 value ∷ [])
    grown = rw next (take-set b.buffer b.offset (wrap8 value) (omega (arith, v.block)))

-- A byte behind others.
pub Appends-put_byte :
    {b c : CborBuilder} (s : List ℕ) (value : ℕ)
    → Appends b s c
    → b.offset + length s < b.capacity
    → Appends b (s ++ (wrap8 value ∷ [])) (put_byte c value)
Appends-put_byte s value p room =
    Appends-trans s _ p (put_byte-Appends _ value p.valid (omega (arith, p.size, p.same_capacity)))

pub put_bytes-Appends :
    (b : CborBuilder) (bytes : List ℕ)
    → IsValid b
    → b.offset + length bytes ≤ b.capacity
    → 0 < b.offset
    → Appends b bytes (put_bytes b bytes)
unfolding put_bytes
put_bytes-Appends b bytes v room pos =
    rw (lt→ltb ((b.offset + length bytes + (2 ^ 16 - 1)) % 2 ^ 16) b.capacity (omega arith), whole)
      (record {
        valid = record {
          block = length-blit b.buffer b.offset bytes ∙ v.block;
          small = v.small;
          within = room;
        };
        same_capacity = refl;
        size = refl;
        held = take-blit b.buffer b.offset bytes (omega (arith, v.block));
      })
  where
    whole : (b.offset + length bytes) % 2 ^ 16 ≡ b.offset + length bytes
    whole = omega arith

-- The head of an item, as the CBOR standard lays it out for values of up to four bytes.
abbrev pub head : ℕ → ℕ → List ℕ
head major value =
    if ltb value 24
    then (major * 32 + value) ∷ []
    else if ltb value 256
    then (major * 32 + 24) ∷ value ∷ []
    else if ltb value 65536
    then (major * 32 + 25) ∷ value / 2 ^ 8 ∷ value % 2 ^ 8 ∷ []
    else (major * 32 + 26)
      ∷ value / 2 ^ 24
      ∷ value / 2 ^ 16 % 2 ^ 8
      ∷ value / 2 ^ 8 % 2 ^ 8
      ∷ value % 2 ^ 8
      ∷ []

-- The first byte of a head.
pub first_byte :
    (major low : ℕ)
    → major < 8
    → low < 32
    → wrap8 (bit_or (wrap8 (major * 2 ^ 5)) low) ≡ major * 32 + low
first_byte major low hm hl =
    let e : (major * 2 ^ 5) % 2 ^ 8 ≡ major * 32 = omega arith in
    rw (e, bit_or_add major low hm hl) (omega arith)

pub put_two :
    (b : CborBuilder) (x y : ℕ)
    → IsValid b
    → b.offset + 2 ≤ b.capacity
    → Appends b (wrap8 x ∷ wrap8 y ∷ []) (put_byte (put_byte b x) y)
put_two b x y v room =
    Appends-put_byte (wrap8 x ∷ []) y (put_byte-Appends b x v (omega arith)) (omega arith)

put_three :
    (b : CborBuilder) (x y z : ℕ)
    → IsValid b
    → b.offset + 3 ≤ b.capacity
    → Appends b (wrap8 x ∷ wrap8 y ∷ wrap8 z ∷ []) (put_byte (put_byte (put_byte b x) y) z)
put_three b x y z v room =
    Appends-put_byte (wrap8 x ∷ wrap8 y ∷ []) z (put_two b x y v (omega arith)) (omega arith)

pub put_five :
    (b : CborBuilder) (x y z p q : ℕ)
    → IsValid b
    → b.offset + 5 ≤ b.capacity
    → Appends b
        (wrap8 x ∷ wrap8 y ∷ wrap8 z ∷ wrap8 p ∷ wrap8 q ∷ [])
        (put_byte (put_byte (put_byte (put_byte (put_byte b x) y) z) p) q)
put_five b x y z p q v room =
    Appends-put_byte (wrap8 x ∷ wrap8 y ∷ wrap8 z ∷ wrap8 p ∷ []) q
      (Appends-put_byte (wrap8 x ∷ wrap8 y ∷ wrap8 z ∷ []) p (put_three b x y z v (omega arith))
        (omega arith))
      (omega arith)

-- The head is written in the shortest form that holds the value.
pub write_type_and_value-Appends :
    (b : CborBuilder) (major value : ℕ)
    → IsValid b
    → major < 8
    → value < 2 ^ 32
    → b.offset + length (head major value) ≤ b.capacity
    → Appends b (head major value) (write_type_and_value b major value)
unfolding write_type_and_value
write_type_and_value-Appends b major value v hm hv room = elim (Bool-cases (ltb value 24)) [
  | inl tiny ↦
      let small = ltb→lt _ _ tiny in
      let fits : b.offset + 1 ≤ b.capacity = rw tiny at room in
      rw tiny (
        rw (first_byte major value hm (omega arith)) at
          (put_byte-Appends b (bit_or (wrap8 (major * 2 ^ 5)) value) v (omega arith)))
  | inr wide ↦ elim (Bool-cases (ltb value 256)) [
    | inl byte ↦
        let e : wrap8 value ≡ value = omega (arith, ltb→lt _ _ byte) in
        let fits : b.offset + 2 ≤ b.capacity = rw (wide, byte) at room in
        rw (wide, byte)
          (rw (first_byte major 24 hm (omega arith), e) at
            (put_two b (bit_or (wrap8 (major * 2 ^ 5)) 24) value v fits))
    | inr wider ↦ elim (Bool-cases (ltb value 65536)) [
      | inl word ↦
          let e : wrap8 (value / 2 ^ 8) ≡ value / 2 ^ 8 = omega (arith, ltb→lt _ _ word) in
          let fits : b.offset + 3 ≤ b.capacity = rw (wide, wider, word) at room in
          rw (wide, wider, word)
            (rw (first_byte major 25 hm (omega arith), e) at
              (put_three b (bit_or (wrap8 (major * 2 ^ 5)) 25) (value / 2 ^ 8) value v fits))
      | inr widest ↦
          let e : wrap8 (value / 2 ^ 24) ≡ value / 2 ^ 24 = omega arith in
          let fits : b.offset + 5 ≤ b.capacity = rw (wide, wider, widest) at room in
          rw (wide, wider, widest)
            (rw (first_byte major 26 hm (omega arith), e) at
              (put_five b (bit_or (wrap8 (major * 2 ^ 5)) 26) (value / 2 ^ 24) (value / 2 ^ 16)
                (value / 2 ^ 8) value v fits))
    ]
  ]
]
