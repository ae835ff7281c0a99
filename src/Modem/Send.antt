-- ===== src/Modem/Send.antt =====
-- The sending half of ATT_NBIOT.cpp: a datagram is one AT+NSOST command with its bytes in
-- hexadecimal.
pub mod Wire
pub mod Keeps
pub mod Overrun
use sag_c8y_nb_iot_demo.Base.{
  ℕ, zero, suc, ◌+◌, ◌/◌, ◌%◌, ◌^◌, Bool, true, false, Option, none, some, List, [], ◌∷◌, ◌++◌,
  length, ltb, if◌then◌else◌, codes, get_or,
}
use sag_c8y_nb_iot_demo.Base.Words.{wrap8, wrap16}
use sag_c8y_nb_iot_demo.Device.{Device, M, pure, ◌>>=◌, ◌>>◌, get}
use sag_c8y_nb_iot_demo.Device.Print.{print, println, decimal, decimal_int}
use sag_c8y_nb_iot_demo.Modem.Commands.{succeeds, default_read_ms}
use sag_c8y_nb_iot_demo.Modem.Hex.{hex_text, hex_payload, hex_table}

-- The text of the one-value messages, around the value.
unfoldable pub json_message : Device → List ℕ → List ℕ → List ℕ
json_message d asset value =
    d.device_id
    ++ (b'\n' ∷ d.device_token
        ++ (codes "\n{\"" ++ (asset ++ (codes "\":{\"value\":" ++ (value ++ codes "}}")))))

-- `sendMessage(buffer, size)`
unfoldable pub send_buffer : List ℕ → M Bool
send_buffer buffer = if ltb 512 (length buffer) then pure false else do
  print (codes "AT+NSOST=0,\"")
  udp ← get (λ d. d.udp)
  print udp
  print (codes "\",")
  port ← get (λ d. d.port)
  print port
  print (codes ",")
  print (decimal (length buffer))
  print (codes ",\"")
  print (hex_text buffer)
  println (codes "\"")
  succeeds default_read_ms

-- What `sendMessage` is called with, one case for each overload; a float comes as the text that
-- `String(double)` makes of it.
pub data Message : Type 0 where
  integer : ℕ → Message
  number : List ℕ → Message
  boolean : Bool → Message
  chars : List ℕ → Message

unfoldable pub value_text : Message → List ℕ
value_text (integer w) = decimal_int w
value_text (number s) = s
value_text (boolean b) = if b then codes "true" else codes "false"
value_text (chars s) = b'"' ∷ s ++ codes "\""

unfoldable pub send_message : Message → List ℕ → M Bool
unfolding value_text
send_message m asset = get (λ d. json_message d asset (value_text m)) >>= send_buffer

-- `sprintf(buf, "%s\n%s\n", …)` without its NUL
unfoldable pub credentials : Device → List ℕ
credentials d = d.device_id ++ (b'\n' ∷ d.device_token ++ (b'\n' ∷ []))

-- `lng`
unfoldable pub credentials_length : Device → ℕ
credentials_length d = wrap16 (length d.device_id + length d.device_token + 2)

-- The bytes that `sprintf` writes into `char buf[lng]`.
unfoldable pub sprintf_bytes : Device → List ℕ
unfolding credentials
sprintf_bytes d = credentials d ++ (0 ∷ [])

-- The command up to the payload; `show` prints the sum `lng+size` by its type.
unfoldable pub print_header : (ℕ → List ℕ) → ℕ → M (Unit {0})
unfolding credentials credentials_length
print_header show size = do
  print (codes "AT+NSOST=0,\"")
  udp ← get (λ d. d.udp)
  print udp
  print (codes "\",")
  port ← get (λ d. d.port)
  print port
  print (codes ",")
  lng ← get credentials_length
  print (show (wrap16 (lng + size)))
  print (codes ",\"")
  text ← get credentials
  print (hex_text text)

-- `sendPayload`: the size is an unsigned char, and so is the loop's counter.
unfoldable pub send_payload : List ℕ → M Bool
unfolding print_header
send_payload packet = do
  print_header decimal_int (length packet)
  print (hex_payload packet)
  println (codes "\"")
  succeeds default_read_ms

-- The two characters of a byte, in front of what the later rounds write.
abbrev pub put_hex : ℕ → Option (List ℕ) → Option (List ℕ)
put_hex b none = none
put_hex b (some rest) = some (get_or hex_table (b / 16) 0 ∷ get_or hex_table (b % 16) 0 ∷ rest)

-- The payload's loop in `sendCbor`: `for (unsigned char i = 0; i < size; i++)` over an unsigned
-- int `size`. `none` when the fuel runs out.
unfoldable pub cbor_loop : ℕ → ℕ → ℕ → List ℕ → Option (List ℕ)
cbor_loop zero i size content = none
cbor_loop (suc fuel) i size content = elim (ltb i size) [
  | false ↦ some []
  | true ↦ put_hex (get_or content i 0) (cbor_loop fuel (wrap8 (i + 1)) size content)
]

print_loop : Option (List ℕ) → M Bool
print_loop none d = none
print_loop (some text) d = (print text >> (println (codes "\"") >> succeeds default_read_ms)) d

-- `sendCbor`: the sum is unsigned here. 257 rounds are enough for every size that an unsigned char
-- counts up to; for the others `none` is the loop that does not end.
unfoldable pub send_cbor : List ℕ → ℕ → M Bool
unfolding print_header print_loop
send_cbor content size = print_header decimal size >> print_loop (cbor_loop 257 0 size content)
