-- ===== src/Cbor/RoundTrip.antt =====
-- What the builder writes, measured against RFC 8949: a run of its operations, read back.
use sag_c8y_nb_iot_demo.Base.{
  ℕ, suc, ◌+◌, ◌-◌, ◌/◌, ◌^◌, ◌≤◌, ◌<◌, ◌≡◌, ◌⊎◌, refl, sym, ap, inl, inr, Bool-cases, All,
  length-append, some, List, [], ◌∷◌, ◌++◌, append-nil, length, length-take, take, ltb, leb,
  if◌then◌else◌, arith,
}
use mathlib.Core.Path.{subst}
use sag_c8y_nb_iot_demo.Base.Words.{wrap8, is_neg16}
use sag_c8y_nb_iot_demo.Cbor.{
  CborBuilder, init, put_bytes, write_type_and_value, write_int, write_int32, write_chars,
  write_uint32, write_string, write_bytes, write_array, map, write_tag, write_special, write_number,
}
use sag_c8y_nb_iot_demo.Cbor.Contents.{
  IsValid, contents, Appends, Appends-trans, put_bytes-Appends, head, put_five,
  write_type_and_value-Appends,
}
use sag_c8y_nb_iot_demo.Cbor.Decode.{Item, encode, encodes, IsItem, read_items, read_items-encodes}

-- The writing operations with their arguments, but for the overloads for numbers of 64 bits: an int
-- and a double by their patterns.
pub data Call : Type 0 where
  int int32 uint32 : ℕ → Call
  string bytes : List ℕ → Call
  chars : List ℕ → ℕ → Call
  array map_of tag special number : ℕ → Call

unfoldable pub call : Call → CborBuilder → CborBuilder
call (int w) b = write_int b w
call (int32 w) b = write_int32 b w
call (uint32 n) b = write_uint32 b n
call (string s) b = write_string b s
call (chars s size) b = write_chars b s size
call (bytes s) b = write_bytes b s
call (array n) b = write_array b n
call (map_of n) b = map b n
call (tag n) b = write_tag b n
call (special n) b = write_special b n
call (number w) b = write_number b w

-- The item that an operation is to write.
abbrev pub item_of : Call → Item
item_of (int w) = if is_neg16 w then Item.negative (2 ^ 16 - 1 - w) else Item.unsigned w
item_of (int32 w) = if leb (2 ^ 31) w then Item.negative (2 ^ 32 - 1 - w) else Item.unsigned w
item_of (uint32 n) = Item.unsigned n
item_of (string s) = Item.text s
item_of (chars s size) = Item.text (take size s)
item_of (bytes s) = Item.bytes s
item_of (array n) = Item.array n
item_of (map_of n) = Item.map n
item_of (tag n) = Item.tag n
item_of (special n) = Item.simple n
item_of (number w) = Item.float w

-- The values that the parameters' types hold, but for the special values: these have at most one byte,
-- and none is from 24 to 31, which RFC 8949 does not allow (3.3). There are as many bytes behind a
-- pointer as the size says.
abbrev pub InRange : Call → Type 0
InRange (int w) = w < 2 ^ 16
InRange (int32 w) = w < 2 ^ 32
InRange (uint32 n) = n < 2 ^ 32
InRange (string s) = length s < 2 ^ 16
InRange (chars s size) = (size ≤ length s) × (size < 2 ^ 16)
InRange (bytes s) = length s < 2 ^ 16
InRange (array n) = n < 2 ^ 16
InRange (map_of n) = n < 2 ^ 16
InRange (tag n) = n < 2 ^ 32
InRange (special n) = (n < 24) ⊎ ((32 ≤ n) × (n < 256))
InRange (number w) = w < 2 ^ 32

IsItem-item_of : (c : Call) → InRange c → IsItem (item_of c)
IsItem-item_of (int w) h = elim (Bool-cases (is_neg16 w)) [
  | inl neg ↦ rw neg (omega arith)
  | inr pos ↦ rw pos (omega arith)
]
IsItem-item_of (int32 w) h = elim (Bool-cases (leb (2 ^ 31) w)) [
  | inl neg ↦ rw neg (omega arith)
  | inr pos ↦ rw pos (omega arith)
]
IsItem-item_of (uint32 n) h = h
IsItem-item_of (string s) h = omega arith
IsItem-item_of (chars s size) (held, small) = omega (arith, length-take size s held)
IsItem-item_of (bytes s) h = omega arith
IsItem-item_of (array n) h = omega arith
IsItem-item_of (map_of n) h = omega arith
IsItem-item_of (tag n) h = h
IsItem-item_of (special n) h = h
IsItem-item_of (number w) h = h

length-head : (major n : ℕ) → 0 < length (head major n)
length-head major n = elim (Bool-cases (ltb n 24)) [
  | inl tiny ↦ rw tiny (omega arith)
  | inr wide ↦ elim (Bool-cases (ltb n 256)) [
    | inl byte ↦ rw (wide, byte) (omega arith)
    | inr wider ↦ elim (Bool-cases (ltb n 65536)) [
      | inl word ↦ rw (wide, wider, word) (omega arith)
      | inr widest ↦ rw (wide, wider, widest) (omega arith)
    ]
  ]
]

-- A text or a byte string: its head and its bytes.
counted-Appends :
    (b : CborBuilder) (major : ℕ) (s : List ℕ)
    → IsValid b
    → major < 8
    → b.offset + length (head major (length s) ++ s) ≤ b.capacity
    → Appends b (head major (length s) ++ s) (put_bytes (write_type_and_value b major (length s)) s)
counted-Appends b major s v hm room =
    let whole = length-append (head major (length s)) s in
    let h = write_type_and_value-Appends b major (length s) v hm (omega arith) (omega arith) in
    Appends-trans (head major (length s)) s h (
      put_bytes-Appends (write_type_and_value b major (length s)) s h.valid
        (omega (arith, h.size, h.same_capacity))
        (omega (arith, h.size, length-head major (length s))))

number-Appends :
    (b : CborBuilder) (w : ℕ)
    → IsValid b
    → w < 2 ^ 32
    → b.offset + 5 ≤ b.capacity
    → Appends b (encode (Item.float w)) (write_number b w)
unfolding write_number
number-Appends b w v h room =
    let e : wrap8 (w / 2 ^ 24) ≡ w / 2 ^ 24 = omega arith in
    rw e at (put_five b 0xFA (w / 2 ^ 24) (w / 2 ^ 16) (w / 2 ^ 8) w v room)

special_small : (n : ℕ) → InRange (special n) → n < 2 ^ 32
special_small n (inl h) = omega arith
special_small n (inr h) = omega (arith, h.1)

-- Each writing operation on numbers of at most 32 bits, texts and byte strings appends the bytes of
-- its item, if they fit; a special value has at most one byte and is not from 24 to 31.
pub call-Appends :
    (c : Call) (b : CborBuilder)
    → IsValid b
    → InRange c
    → b.offset + length (encode (item_of c)) ≤ b.capacity
    → Appends b (encode (item_of c)) (call c b)
unfolding call
call-Appends (int w) b v h room =
    unfold write_int in
    elim (Bool-cases (is_neg16 w)) [
      | inl neg ↦
          let fits : b.offset + length (head 1 (2 ^ 16 - 1 - w)) ≤ b.capacity = rw neg at room in
          rw neg
            (write_type_and_value-Appends b 1 (2 ^ 16 - 1 - w) v (omega arith) (omega arith) fits)
      | inr pos ↦
          let fits : b.offset + length (head 0 w) ≤ b.capacity = rw pos at room in
          rw pos (write_type_and_value-Appends b 0 w v (omega arith) (omega arith) fits)
    ]
call-Appends (int32 w) b v h room =
    unfold write_int32 in
    elim (Bool-cases (leb (2 ^ 31) w)) [
      | inl neg ↦
          let fits : b.offset + length (head 1 (2 ^ 32 - 1 - w)) ≤ b.capacity = rw neg at room in
          rw neg
            (write_type_and_value-Appends b 1 (2 ^ 32 - 1 - w) v (omega arith) (omega arith) fits)
      | inr pos ↦
          let fits : b.offset + length (head 0 w) ≤ b.capacity = rw pos at room in
          rw pos (write_type_and_value-Appends b 0 w v (omega arith) (omega arith) fits)
    ]
call-Appends (uint32 n) b v h room =
    unfold write_uint32 in write_type_and_value-Appends b 0 n v (omega arith) h room
call-Appends (string s) b v h room =
    unfold write_string in counted-Appends b 3 s v (omega arith) room
call-Appends (chars s size) b v (held, small) room =
    unfold write_chars in
    let counted = length-take size s held in
    subst
      (λ n.
        Appends b (encode (Item.text (take size s)))
          (put_bytes (write_type_and_value b 3 n) (take size s)))
      counted (counted-Appends b 3 (take size s) v (omega arith) room)
call-Appends (bytes s) b v h room = unfold write_bytes in counted-Appends b 2 s v (omega arith) room
call-Appends (array n) b v h room =
    unfold write_array in write_type_and_value-Appends b 4 n v (omega arith) (omega arith) room
call-Appends (map_of n) b v h room =
    unfold map in write_type_and_value-Appends b 5 n v (omega arith) (omega arith) room
call-Appends (tag n) b v h room =
    unfold write_tag in write_type_and_value-Appends b 6 n v (omega arith) h room
call-Appends (special n) b v h room =
    unfold write_special in
    write_type_and_value-Appends b 7 n v (omega arith) (special_small n h) room
call-Appends (number w) b v h room = number-Appends b w v h room

-- Operations one after the other, and the items they are to write.
unfoldable pub run : List Call → CborBuilder → CborBuilder
run [] b = b
run (c ∷ cs) b = run cs (call c b)

abbrev pub items_of : List Call → List Item
items_of [] = []
items_of (c ∷ cs) = item_of c ∷ items_of cs

pub run-Appends :
    (cs : List Call) (b : CborBuilder)
    → IsValid b
    → All InRange cs
    → b.offset + length (encodes (items_of cs)) ≤ b.capacity
    → Appends b (encodes (items_of cs)) (run cs b)
unfolding run
run-Appends [] b v h room = record {
  valid = v;
  same_capacity = refl;
  size = omega arith;
  held = sym (append-nil (contents b));
}
run-Appends (c ∷ cs) b v (hc, hs) room =
    let whole = length-append (encode (item_of c)) (encodes (items_of cs)) in
    let p = call-Appends c b v hc (omega arith) in
    Appends-trans (encode (item_of c)) (encodes (items_of cs)) p
      (run-Appends cs (call c b) p.valid hs (omega (arith, p.size, p.same_capacity)))

IsItem-items_of : (cs : List Call) → All InRange cs → All IsItem (items_of cs)
IsItem-items_of [] h = h
IsItem-items_of (c ∷ cs) (hc, hs) = (IsItem-item_of c hc, IsItem-items_of cs hs)

length-items_of : (cs : List Call) → length (items_of cs) ≡ length cs
length-items_of [] = refl
length-items_of (c ∷ cs) = ap suc (length-items_of cs)

-- Any writing operations on numbers of at most 32 bits, texts and byte strings, with arguments in
-- their types' ranges and special values of at most one byte that are not from 24 to 31, whose bytes
-- fit the capacity, on a fresh builder: a reader of RFC 8949 finds exactly the values that were written, in their order,
-- and nothing behind them.
pub read_items-run :
    (cs : List Call) (capacity : ℕ) (block : List ℕ)
    → length block ≡ capacity
    → capacity < 2 ^ 16
    → All InRange cs
    → length (encodes (items_of cs)) ≤ capacity
    → read_items (length cs) (contents (run cs (init capacity block))) ≡ some (items_of cs)
unfolding init
read_items-run cs capacity block hb hc h fits =
    let v : IsValid (init capacity block) = record {
      block = hb;
      small = hc;
      within = omega arith;
    } in
    let p = run-Appends cs (init capacity block) v h (omega arith) in
    rw (p.held, sym (length-items_of cs)) (read_items-encodes (items_of cs) (IsItem-items_of cs h))
