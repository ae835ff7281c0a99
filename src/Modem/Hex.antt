-- ===== src/Modem/Hex.antt =====
-- The hexadecimal macros of ATT_NBIOT.cpp, and the bytes of a payload as text.
pub mod RoundTrip
use sag_c8y_nb_iot_demo.Base.{
  ℕ, zero, suc, ◌+◌, ◌-◌, ◌*◌, ◌/◌, ◌%◌, ◌&&◌, List, [], ◌∷◌, ltb, leb, if◌then◌else◌, get_or,
}

-- NIBBLE_TO_HEX_CHAR
unfoldable pub nibble_to_hex_char : ℕ → ℕ
nibble_to_hex_char i = if leb i 9 then b'0' + i else b'A' - 10 + i

-- HIGH_NIBBLE and LOW_NIBBLE of a byte
abbrev pub high_nibble : ℕ → ℕ
high_nibble b = b / 16 % 16

abbrev pub low_nibble : ℕ → ℕ
low_nibble b = b % 16

-- The table `hexTable` of `sendPayload` and `sendCbor`, indexed by `/ 16` and `% 16`.
abbrev pub hex_table : List ℕ
hex_table =
    b'0' ∷ b'1' ∷ b'2' ∷ b'3' ∷ b'4' ∷ b'5' ∷ b'6' ∷ b'7' ∷ b'8' ∷ b'9' ∷ b'A' ∷ b'B' ∷ b'C' ∷ b'D'
    ∷ b'E' ∷ b'F' ∷ []

-- The loop over a text: two characters for each byte.
unfoldable pub hex_text : List ℕ → List ℕ
unfolding nibble_to_hex_char
hex_text [] = []
hex_text (b ∷ bs) =
    nibble_to_hex_char (high_nibble b) ∷ nibble_to_hex_char (low_nibble b) ∷ hex_text bs

-- The loop over a payload, by the table.
unfoldable pub hex_payload : List ℕ → List ℕ
hex_payload [] = []
hex_payload (b ∷ bs) = get_or hex_table (b / 16) 0 ∷ get_or hex_table (b % 16) 0 ∷ hex_payload bs

-- HEX_CHAR_TO_NIBBLE for a signed char, modulo 256.
unfoldable pub hex_char_to_nibble : ℕ → ℕ
hex_char_to_nibble c =
    if leb b'A' c && ltb c 128 then (c + 256 - b'A' + 10) % 256 else (c + 256 - b'0') % 256

-- HEX_PAIR_TO_BYTE, as it is stored in a uint8_t.
unfoldable pub hex_pair_to_byte : ℕ → ℕ → ℕ
unfolding hex_char_to_nibble
hex_pair_to_byte h l = (hex_char_to_nibble h * 16 + hex_char_to_nibble l) % 256

-- The loop of `socketReceiveBytes` over `n` pairs of characters; a read behind the text that the
-- modem sent gives whatever stands there, here 0.
unfoldable pub unhex : ℕ → List ℕ → List ℕ
unfolding hex_pair_to_byte
unhex zero s = []
unhex (suc n) (h ∷ l ∷ s) = hex_pair_to_byte h l ∷ unhex n s
unhex (suc n) (h ∷ []) = hex_pair_to_byte h 0 ∷ unhex n []
unhex (suc n) [] = hex_pair_to_byte 0 0 ∷ unhex n []
