-- ===== src/Cbor/Decode.antt =====
-- CBOR as RFC 8949 describes it, for the kinds of items that CborBuilder.cpp writes: the bytes of an
-- item, and a reader for them. Neither is code of the repository: they are the standard against
-- which the builder is measured.
use sag_c8y_nb_iot_demo.Base.{
  ℕ, zero, suc, ◌+◌, ◌*◌, ◌/◌, ◌%◌, ◌^◌, ◌≤◌, ◌<◌, ◌≡◌, ◌⊎◌, ◌&&◌, ◌||◌, refl, ap, ◌∙◌, inl, inr,
  true, All, length-append, Bool-cases, Option, none, some, List, [], ◌∷◌, ◌++◌, append_assoc,
  length, take, drop, ltb, leb, ◌==◌, if◌then◌else◌, arith, ltb→lt,
}
use sag_c8y_nb_iot_demo.Cbor.Contents.{head}

-- An array, a map and a tag are their heads: what they hold follows as items of its own.
pub data Item : Type 0 where
  unsigned negative : ℕ → Item
  bytes text : List ℕ → Item
  array map tag simple float : ℕ → Item

abbrev pub float_item : ℕ → List ℕ
float_item w = 0xFA ∷ w / 2 ^ 24 ∷ w / 2 ^ 16 % 256 ∷ w / 2 ^ 8 % 256 ∷ w % 256 ∷ []

abbrev pub encode : Item → List ℕ
encode (unsigned n) = head 0 n
encode (negative n) = head 1 n
encode (bytes s) = head 2 (length s) ++ s
encode (text s) = head 3 (length s) ++ s
encode (array n) = head 4 n
encode (map n) = head 5 n
encode (tag n) = head 6 n
encode (simple n) = head 7 n
encode (float w) = float_item w

abbrev pub encodes : List Item → List ℕ
encodes [] = []
encodes (i ∷ is) = encode i ++ encodes is

-- A number of `n` bytes, the highest first.
abbrev read_be : ℕ → ℕ → List ℕ → Option (ℕ × List ℕ)
read_be zero acc s = some (acc, s)
read_be (suc n) acc [] = none
read_be (suc n) acc (c ∷ s) = read_be n (acc * 256 + c) s

-- The argument of a head, by the five lower bits of its first byte.
abbrev read_argument : ℕ → List ℕ → Option (ℕ × List ℕ)
read_argument info s =
    if ltb info 24
    then some (info, s)
    else if info == 24
    then read_be 1 0 s
    else if info == 25
    then read_be 2 0 s
    else if info == 26
    then read_be 4 0 s
    else none

abbrev split : (List ℕ → Item) → ℕ → List ℕ → Option (Item × List ℕ)
split make n s = if leb n (length s) then some (make (take n s), drop n s) else none

-- A float of four bytes, or a simple value of at most one. One byte of its own is for values from 32
-- on: with less, the bytes are not well-formed (RFC 8949, 3.3).
abbrev read_special : ℕ → ℕ → List ℕ → Option (Item × List ℕ)
read_special info n s =
    if info == 26
    then some (float n, s)
    else if (info == 25) || ((info == 24) && ltb n 32)
    then none
    else some (simple n, s)

-- What follows from a head, by the three upper bits of its first byte.
abbrev read_body : ℕ → ℕ → ℕ × List ℕ → Option (Item × List ℕ)
read_body major info (n, s) =
    if major == 0
    then some (unsigned n, s)
    else if major == 1
    then some (negative n, s)
    else if major == 2
    then split bytes n s
    else if major == 3
    then split text n s
    else if major == 4
    then some (array n, s)
    else if major == 5
    then some (map n, s)
    else if major == 6
    then some (tag n, s)
    else read_special info n s

abbrev pub read_item : List ℕ → Option (Item × List ℕ)
read_item [] = none
read_item (c ∷ s) = elim (read_argument (c % 32) s) [
  | none ↦ none
  | some r ↦ read_body (c / 32) (c % 32) r
]

abbrev prepend : Item → Option (List Item) → Option (List Item)
prepend i none = none
prepend i (some is) = some (i ∷ is)

-- `n` items and nothing behind them.
abbrev pub read_items : ℕ → List ℕ → Option (List Item)
read_items zero [] = some []
read_items zero (c ∷ s) = none
read_items (suc n) s = elim (read_item s) [
  | none ↦ none
  | some (i, rest) ↦ prepend i (read_items n rest)
]

-- The lower bits of a head's first byte.
info_of : ℕ → ℕ
info_of n = if ltb n 24 then n else if ltb n 256 then 24 else if ltb n 65536 then 25 else 26

four_bytes :
    (n : ℕ)
    → n < 2 ^ 32
    → (((0 * 256 + n / 2 ^ 24) * 256 + n / 2 ^ 16 % 256) * 256 + n / 2 ^ 8 % 256) * 256 + n % 256
      ≡ n
four_bytes n h = omega arith

-- Reading on behind the first byte.
abbrev go_on : ℕ → ℕ → Option (ℕ × List ℕ) → Option (Item × List ℕ)
go_on major info none = none
go_on major info (some r) = read_body major info r

read_item-first :
    (major info : ℕ) (s : List ℕ)
    → info < 32
    → read_item ((major * 32 + info) ∷ s) ≡ go_on major info (read_argument info s)
read_item-first major info s h =
    let e : (major * 32 + info) % 32 ≡ info = omega arith in
    let f : (major * 32 + info) / 32 ≡ major = omega arith in
    λ i. go_on (f i) (e i) (read_argument (e i) s)

read_argument-tiny : (n : ℕ) (s : List ℕ) → ltb n 24 ≡ true → read_argument n s ≡ some (n, s)
read_argument-tiny n s h = rw h

-- Reading behind a head goes on with the head's value.
read_item-head :
    (major n : ℕ) (rest : List ℕ)
    → n < 2 ^ 32
    → read_item (head major n ++ rest) ≡ read_body major (info_of n) (n, rest)
unfolding info_of
read_item-head major n rest h = elim (Bool-cases (ltb n 24)) [
  | inl tiny ↦ rw tiny (
      read_item-first major n rest (omega (arith, ltb→lt _ _ tiny))
      ∙ ap (go_on major n) (read_argument-tiny n rest tiny))
  | inr wide ↦ elim (Bool-cases (ltb n 256)) [
    | inl byte ↦
        let g : 0 * 256 + n ≡ n = omega arith in
        rw (wide, byte)
          (read_item-first major 24 (n ∷ rest) (omega arith) ∙ λ i. read_body major 24 (g i, rest))
    | inr wider ↦ elim (Bool-cases (ltb n 65536)) [
      | inl word ↦
          let g : (0 * 256 + n / 2 ^ 8) * 256 + n % 2 ^ 8 ≡ n = omega arith in
          rw (wide, wider, word)
            (read_item-first major 25 (n / 2 ^ 8 ∷ n % 2 ^ 8 ∷ rest) (omega arith) ∙ λ i.
              read_body major 25 (g i, rest))
      | inr widest ↦
          rw (wide, wider, widest)
            (read_item-first major 26
                (n / 2 ^ 24 ∷ n / 2 ^ 16 % 2 ^ 8 ∷ n / 2 ^ 8 % 2 ^ 8 ∷ n % 2 ^ 8 ∷ rest)
                (omega arith)
              ∙ λ i. read_body major 26 (four_bytes n h i, rest))
    ]
  ]
]

drop-append : (s rest : List ℕ) → drop (length s) (s ++ rest) ≡ rest
drop-append [] rest = refl
drop-append (c ∷ s) rest = drop-append s rest

take-append : (s rest : List ℕ) → take (length s) (s ++ rest) ≡ s
take-append [] rest = refl
take-append (c ∷ s) rest = ap (λ t. c ∷ t) (take-append s rest)

split-append :
    (make : List ℕ → Item) (s rest : List ℕ)
    → split make (length s) (s ++ rest) ≡ some (make s, rest)
split-append make s rest =
    let fits : leb (length s) (length (s ++ rest)) ≡ true = ground (arith, length-append s rest) in
    rw (fits, take-append s rest, drop-append s rest)

-- The items whose numbers have four bytes; a simple value has at most one byte of its own, and none
-- stands for 24 to 31.
abbrev pub IsItem : Item → Type 0
IsItem (unsigned n) = n < 2 ^ 32
IsItem (negative n) = n < 2 ^ 32
IsItem (bytes s) = length s < 2 ^ 32
IsItem (text s) = length s < 2 ^ 32
IsItem (array n) = n < 2 ^ 32
IsItem (map n) = n < 2 ^ 32
IsItem (tag n) = n < 2 ^ 32
IsItem (simple n) = (n < 24) ⊎ ((32 ≤ n) × (n < 256))
IsItem (float w) = w < 2 ^ 32

read_special-info_of :
    (n : ℕ) (s : List ℕ) → IsItem (simple n) → read_special (info_of n) n s ≡ some (simple n, s)
unfolding info_of
read_special-info_of n s (inl h) = ground arith
read_special-info_of n s (inr h) = ground (arith, h.0, h.1)

simple_small : (n : ℕ) → IsItem (simple n) → n < 2 ^ 32
simple_small n (inl h) = omega arith
simple_small n (inr h) = omega (arith, h.1)

pub read_item-encode :
    (i : Item) (rest : List ℕ) → IsItem i → read_item (encode i ++ rest) ≡ some (i, rest)
read_item-encode (unsigned n) rest h = read_item-head 0 n rest h
read_item-encode (negative n) rest h = read_item-head 1 n rest h
read_item-encode (bytes s) rest h =
    rw (append_assoc (head 2 (length s)) s rest)
      (read_item-head 2 (length s) (s ++ rest) h ∙ split-append bytes s rest)
read_item-encode (text s) rest h =
    rw (append_assoc (head 3 (length s)) s rest)
      (read_item-head 3 (length s) (s ++ rest) h ∙ split-append text s rest)
read_item-encode (array n) rest h = read_item-head 4 n rest h
read_item-encode (map n) rest h = read_item-head 5 n rest h
read_item-encode (tag n) rest h = read_item-head 6 n rest h
read_item-encode (simple n) rest h =
    read_item-head 7 n rest (simple_small n h) ∙ read_special-info_of n rest h
read_item-encode (float w) rest h = λ i. some (float (four_bytes w h i), rest)

-- Reading the bytes of a list of items gives the items.
pub read_items-encodes :
    (is : List Item) → All IsItem is → read_items (length is) (encodes is) ≡ some is
read_items-encodes [] h = refl
read_items-encodes (i ∷ is) (hi, his) =
    ap (λ r. elim r [ none ↦ none | some (i', rest) ↦ prepend i' (read_items (length is) rest) ])
      (read_item-encode i (encodes is) hi)
    ∙ ap (prepend i) (read_items-encodes is his)
