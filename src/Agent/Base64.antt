-- ===== src/Agent/Base64.antt =====
-- `java.util.Base64`, the basic encoder and decoder, on bytes.
use sag_c8y_nb_iot_demo.Base.{
  ℕ, ◌+◌, ◌-◌, ◌*◌, ◌/◌, ◌%◌, ◌<◌, ◌≡◌, ◌≢◌, refl, ◌∙◌, false, ◌&&◌, Option, none, some, List, [],
  ◌∷◌, All, leb, ltb, ◌==◌, if◌then◌else◌, arith,
}
use sag_c8y_nb_iot_demo.Agent.Text.{IsLineText, Filled}
use sag_c8y_nb_iot_demo.Modem.Hex.RoundTrip.{IsByte}

-- The character of six bits: A-Z, a-z, 0-9, + and /.
abbrev sextet : ℕ → ℕ
sextet n =
    if ltb n 26
    then n + 65
    else if ltb n 52
    then n + 71
    else if ltb n 62
    then n - 4
    else if n == 62
    then 43
    else 47

abbrev six_bits : ℕ → Option ℕ
six_bits c =
    if leb 65 c && leb c 90
    then some (c - 65)
    else if leb 97 c && leb c 122
    then some (c - 71)
    else if leb 48 c && leb c 57
    then some (c + 4)
    else if c == 43
    then some 62
    else if c == 47
    then some 63
    else none

-- `encode`: three bytes are four characters, and the last group is filled up with `=`.
unfoldable pub encode : List ℕ → List ℕ
encode [] = []
encode (a ∷ []) = sextet (a / 4) ∷ sextet (a % 4 * 16) ∷ b'=' ∷ b'=' ∷ []
encode (a ∷ b ∷ []) =
    sextet (a / 4) ∷ sextet (a % 4 * 16 + b / 16) ∷ sextet (b % 16 * 4) ∷ b'=' ∷ []
encode (a ∷ b ∷ c ∷ s) =
    sextet (a / 4)
    ∷ sextet (a % 4 * 16 + b / 16)
    ∷ sextet (b % 16 * 4 + c / 64)
    ∷ sextet (c % 64)
    ∷ encode s

abbrev one_byte : Option ℕ → Option ℕ → Option (List ℕ)
one_byte (some w) (some x) = some ((w * 4 + x / 16) ∷ [])
one_byte _ _ = none

abbrev two_bytes : Option ℕ → Option ℕ → Option ℕ → Option (List ℕ)
two_bytes (some w) (some x) (some y) = some ((w * 4 + x / 16) ∷ (x % 16 * 16 + y / 4) ∷ [])
two_bytes _ _ _ = none

abbrev three_bytes : Option ℕ → Option ℕ → Option ℕ → Option ℕ → Option (List ℕ) → Option (List ℕ)
three_bytes (some w) (some x) (some y) (some z) (some s) =
    some ((w * 4 + x / 16) ∷ (x % 16 * 16 + y / 4) ∷ (y % 4 * 64 + z) ∷ s)
three_bytes _ _ _ _ _ = none

-- The last four characters, which may be filled up.
abbrev last_group : ℕ → ℕ → ℕ → ℕ → Option (List ℕ)
last_group w x y z =
    if z == b'='
    then if y == b'='
      then one_byte (six_bits w) (six_bits x)
      else two_bytes (six_bits w) (six_bits x) (six_bits y)
    else three_bytes (six_bits w) (six_bits x) (six_bits y) (six_bits z) (some [])

-- `decode`; the last group may also be without its `=`. `none` is IllegalArgumentException.
unfoldable pub decode : List ℕ → Option (List ℕ)
decode [] = some []
decode (w ∷ []) = none
decode (w ∷ x ∷ []) = one_byte (six_bits w) (six_bits x)
decode (w ∷ x ∷ y ∷ []) = two_bytes (six_bits w) (six_bits x) (six_bits y)
decode (w ∷ x ∷ y ∷ z ∷ []) = last_group w x y z
decode (w ∷ x ∷ y ∷ z ∷ v ∷ s) =
    three_bytes (six_bits w) (six_bits x) (six_bits y) (six_bits z) (decode (v ∷ s))

six_bits-sextet : (n : ℕ) → n < 64 → six_bits (sextet n) ≡ some n
six_bits-sextet n h = ground arith

sextet-neq : (n : ℕ) → n < 64 → (sextet n == b'=') ≡ false
sextet-neq n h = ground arith

-- A group in front of more characters, or of none.
decode-group :
    (w x y z : ℕ) (s : List ℕ)
    → (z == b'=') ≡ false
    → decode (w ∷ x ∷ y ∷ z ∷ s)
      ≡ three_bytes (six_bits w) (six_bits x) (six_bits y) (six_bits z) (decode s)
unfolding decode
decode-group w x y z [] h = rw h
decode-group w x y z (v ∷ s) h = refl

-- What is encoded is decoded to itself, for bytes.
pub decode-encode : (s : List ℕ) → All IsByte s → decode (encode s) ≡ some s
unfolding decode encode
decode-encode [] h = refl
decode-encode (a ∷ []) (ha, _) =
    rw (six_bits-sextet (a / 4) (omega arith), six_bits-sextet (a % 4 * 16) (omega arith))
      (λ i. some (same i ∷ []))
  where
    same : a / 4 * 4 + a % 4 * 16 / 16 ≡ a
    same = omega arith
decode-encode (a ∷ b ∷ []) (ha, (hb, _)) =
    rw
      (
        sextet-neq (b % 16 * 4) (omega arith),
        six_bits-sextet (a / 4) (omega arith),
        six_bits-sextet (a % 4 * 16 + b / 16) (omega arith),
        six_bits-sextet (b % 16 * 4) (omega arith),
      )
      (λ i. some (first i ∷ second i ∷ []))
  where
    first : a / 4 * 4 + (a % 4 * 16 + b / 16) / 16 ≡ a
    first = omega arith

    second : (a % 4 * 16 + b / 16) % 16 * 16 + b % 16 * 4 / 4 ≡ b
    second = omega arith
decode-encode (a ∷ b ∷ c ∷ s) (ha, (hb, (hc, hs))) =
    decode-group (sextet (a / 4)) (sextet (a % 4 * 16 + b / 16)) (sextet (b % 16 * 4 + c / 64))
      (sextet (c % 64)) (encode s) (sextet-neq (c % 64) (omega arith))
    ∙ rw
        (
          six_bits-sextet (a / 4) (omega arith),
          six_bits-sextet (a % 4 * 16 + b / 16) (omega arith),
          six_bits-sextet (b % 16 * 4 + c / 64) (omega arith),
          six_bits-sextet (c % 64) (omega arith),
          decode-encode s hs,
        )
        (λ i. some (first i ∷ second i ∷ third i ∷ s))
  where
    first : a / 4 * 4 + (a % 4 * 16 + b / 16) / 16 ≡ a
    first = omega arith

    second : (a % 4 * 16 + b / 16) % 16 * 16 + (b % 16 * 4 + c / 64) / 4 ≡ b
    second = omega arith

    third : (b % 16 * 4 + c / 64) % 4 * 64 + c % 64 ≡ c
    third = omega arith

sextet-neq-newline : (n : ℕ) → sextet n ≢ 10
sextet-neq-newline n = ground arith

-- The characters are all on one line, and there are some.
pub encode-IsLineText : (s : List ℕ) → IsLineText (encode s)
unfolding encode
encode-IsLineText [] = tt
encode-IsLineText (a ∷ []) = (
  sextet-neq-newline (a / 4),
  (sextet-neq-newline (a % 4 * 16), (omega arith, (omega arith, tt))),
)
encode-IsLineText (a ∷ b ∷ []) = (
  sextet-neq-newline (a / 4),
  (sextet-neq-newline (a % 4 * 16 + b / 16), (sextet-neq-newline (b % 16 * 4), (omega arith, tt))),
)
encode-IsLineText (a ∷ b ∷ c ∷ s) = (
  sextet-neq-newline (a / 4),
  (
    sextet-neq-newline (a % 4 * 16 + b / 16),
    (sextet-neq-newline (b % 16 * 4 + c / 64), (sextet-neq-newline (c % 64), encode-IsLineText s)),
  ),
)

pub encode-Filled : (s : List ℕ) → Filled s → Filled (encode s)
unfolding encode
encode-Filled [] h = h
encode-Filled (a ∷ []) h = tt
encode-Filled (a ∷ b ∷ []) h = tt
encode-Filled (a ∷ b ∷ c ∷ s) h = tt
