-- ===== src/Modem/Hex/RoundTrip.antt =====
-- The two ways in which a payload is written agree, and the reading side undoes them.
use sag_c8y_nb_iot_demo.Base.{
  ℕ, ◌*◌, ◌/◌, ◌%◌, ◌<◌, ◌≡◌, refl, List, [], ◌∷◌, ◌++◌, All, length, arith, get_or,
}
use sag_c8y_nb_iot_demo.Base.Table.{agree_below, agree_at}
use sag_c8y_nb_iot_demo.Modem.Hex.{
  nibble_to_hex_char, hex_table, hex_text, hex_payload, hex_char_to_nibble, hex_pair_to_byte, unhex,
}

nibble-table : (i : ℕ) → i < 16 → get_or hex_table i 0 ≡ nibble_to_hex_char i
unfolding agree_below nibble_to_hex_char
nibble-table i h = agree_at (λ i. get_or hex_table i 0) nibble_to_hex_char 16 i h refl

nibble_back : (i : ℕ) → i < 16 → hex_char_to_nibble (nibble_to_hex_char i) ≡ i
unfolding hex_char_to_nibble nibble_to_hex_char
nibble_back i h = ground arith

abbrev pub IsByte : ℕ → Type 0
IsByte b = b < 256

-- On bytes the two loops, by the macros and by the table, write the same characters.
pub hex_payload-hex_text : (s : List ℕ) → All IsByte s → hex_payload s ≡ hex_text s
unfolding hex_payload hex_text
hex_payload-hex_text [] h = refl
hex_payload-hex_text (b ∷ s) (hb, hs) = ground (
  arith,
  nibble-table (b / 16) (omega arith),
  nibble-table (b % 16) (omega arith),
  hex_payload-hex_text s hs,
)

pub hex_text-append : (s t : List ℕ) → hex_text (s ++ t) ≡ hex_text s ++ hex_text t
unfolding hex_text
hex_text-append [] t = refl
hex_text-append (b ∷ s) t = rw (hex_text-append s t)

pub length-hex_text : (s : List ℕ) → length (hex_text s) ≡ 2 * length s
unfolding hex_text
length-hex_text [] = omega arith
length-hex_text (b ∷ s) = omega (arith, length-hex_text s)

-- Bytes that were written in hexadecimal are read back, whatever stands behind them.
pub unhex-hex_text : (s t : List ℕ) → All IsByte s → unhex (length s) (hex_text s ++ t) ≡ s
unfolding unhex hex_text hex_pair_to_byte
unhex-hex_text [] t h = refl
unhex-hex_text (b ∷ s) t (hb, hs) = ground (
  arith,
  nibble_back (b / 16 % 16) (omega arith),
  nibble_back (b % 16) (omega arith),
  unhex-hex_text s t hs,
)
