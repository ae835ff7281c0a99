-- ===== src/Modem/Send/Overrun.antt =====
-- Two limits of the sending code: the counter of the CBOR loop, and the buffer of the credentials.
use sag_c8y_nb_iot_demo.Base.{
  ℕ, zero, suc, ◌+◌, ◌^◌, ◌≤◌, ◌<◌, ◌≡◌, refl, ap, ◌∙◌, true, false, length-append, none, some,
  List, [], ◌∷◌, ◌++◌, length, take, drop, get_or, ltb, arith,
}
use sag_c8y_nb_iot_demo.Base.Words.{wrap8}
use sag_c8y_nb_iot_demo.Device.{Device}
use sag_c8y_nb_iot_demo.Modem.Hex.{hex_payload}
use sag_c8y_nb_iot_demo.Modem.Send.{
  credentials, credentials_length, sprintf_bytes, put_hex, cbor_loop,
}

cbor_loop-again :
    (fuel i size : ℕ) (content : List ℕ)
    → i < size
    → cbor_loop (suc fuel) i size content
      ≡ put_hex (get_or content i 0) (cbor_loop fuel (wrap8 (i + 1)) size content)
unfolding cbor_loop
cbor_loop-again fuel i size content h =
    let e : ltb i size ≡ true = ground arith in rw (cbor_loop, e)

cbor_loop-stop :
    (fuel i size : ℕ) (content : List ℕ) → size ≤ i → cbor_loop (suc fuel) i size content ≡ some []
unfolding cbor_loop
cbor_loop-stop fuel i size content h =
    let e : ltb i size ≡ false = ground arith in rw (cbor_loop, e)

-- An unsigned char never reaches a size of 256 or more: the loop of `sendCbor` has no number of
-- rounds after which it ends, whatever the content. The builder's default capacity is 256.
pub cbor_loop-endless :
    (fuel i size : ℕ) (content : List ℕ)
    → i < 256
    → 256 ≤ size
    → cbor_loop fuel i size content ≡ none
unfolding cbor_loop
cbor_loop-endless zero i size content hi hs = refl
cbor_loop-endless (suc fuel) i size content hi hs =
    cbor_loop-again fuel i size content (omega arith)
    ∙ ap (put_hex (get_or content i 0))
        (cbor_loop-endless fuel (wrap8 (i + 1)) size content (omega arith) hs)

drop-get_or : (i : ℕ) (s : List ℕ) → i < length s → drop i s ≡ get_or s i 0 ∷ drop (suc i) s
drop-get_or i [] h = absurd (omega arith)
drop-get_or zero (c ∷ s) h = refl
drop-get_or (suc i) (c ∷ s) h = drop-get_or i s (omega arith)

-- With a round for each byte that is left, and one more, the loop writes the bytes that are left.
cbor_loop-rest :
    (fuel i left : ℕ) (content : List ℕ)
    → i + left < 256
    → i + left ≤ length content
    → left < fuel
    → cbor_loop fuel i (i + left) content ≡ some (hex_payload (take left (drop i content)))
unfolding hex_payload
cbor_loop-rest zero i left content h hc hf = absurd (omega arith)
cbor_loop-rest (suc fuel) i zero content h hc hf =
    cbor_loop-stop fuel i (i + 0) content (omega arith)
cbor_loop-rest (suc fuel) i (suc left) content h hc hf =
    let next : wrap8 (i + 1) ≡ suc i = omega arith in
    let whole : i + suc left ≡ suc i + left = omega arith in
    cbor_loop-again fuel i (i + suc left) content (omega arith)
    ∙ rw (next, whole, drop-get_or i content (omega arith))
        (ap (put_hex (get_or content i 0))
          (cbor_loop-rest fuel (suc i) left content (omega arith) (omega arith) (omega arith)))

-- Up to 255 bytes the loop ends after as many rounds and one, and writes what the loop of
-- `sendPayload` writes for the same bytes.
pub cbor_loop-hex_payload :
    (fuel size : ℕ) (content : List ℕ)
    → size < 256
    → size ≤ length content
    → size < fuel
    → cbor_loop fuel 0 size content ≡ some (hex_payload (take size content))
cbor_loop-hex_payload fuel size content h hc hf =
    let e : 0 + size ≡ size = omega arith in
    rw e at (cbor_loop-rest fuel 0 size content (omega arith) (omega arith) hf)

-- `sprintf` ends its text with a NUL, for which `char buf[lng]` has no room: it writes exactly one
-- byte more than the array has, while the array's length fits 16 bits.
pub length-sprintf_bytes :
    (d : Device)
    → length d.device_id + length d.device_token + 2 < 2 ^ 16
    → length (sprintf_bytes d) ≡ credentials_length d + 1
unfolding sprintf_bytes credentials credentials_length
length-sprintf_bytes d h = omega (
  arith,
  length-append (d.device_id ++ (b'\n' ∷ d.device_token ++ (b'\n' ∷ []))) (0 ∷ []),
  length-append d.device_id (b'\n' ∷ d.device_token ++ (b'\n' ∷ [])),
  length-append d.device_token (b'\n' ∷ []),
)
