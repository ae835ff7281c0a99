-- ===== src/Payload.antt =====
-- PayloadBuilder.cpp and PayloadBuilder.h: a binary payload in a buffer of fixed size.
pub mod Bounds
pub mod Fields
use sag_c8y_nb_iot_demo.Base.{
  ℕ, suc, ◌+◌, ◌*◌, ◌/◌, ◌%◌, ◌^◌, Bool, Option, none, some, List, [], ◌∷◌, ◌++◌, length, take, set,
  ltb, if◌then◌else◌,
}
use sag_c8y_nb_iot_demo.Base.Words.{wrap8}
use sag_c8y_nb_iot_demo.Device.{M, pure, ◌>>=◌}
use sag_c8y_nb_iot_demo.Modem.Send.{send_payload}

-- The buffer is as long as `maxsize`; `maxsize` and `cursor` are uint8_t.
pub record PayloadBuilder : Type 0 where
  pub buffer : List ℕ
  pub maxsize : ℕ
  pub cursor : ℕ

-- The constructor; `block` is what `malloc(size)` returns, with whatever stands in it.
unfoldable pub create : ℕ → List ℕ → PayloadBuilder
create size block = record { buffer = block; maxsize = size; cursor = 0 }

abbrev pub default_size : ℕ
default_size = 60

abbrev pub send_buffer_size : ℕ
send_buffer_size = 51

unfoldable pub reset : PayloadBuilder → PayloadBuilder
reset b = record b { cursor = 0 }

unfoldable pub get_size : PayloadBuilder → ℕ
get_size b = b.cursor

-- `copy`: the bytes that go to `dst`, and their number.
unfoldable pub copy : PayloadBuilder → ℕ × List ℕ
copy b = (b.cursor, take b.cursor b.buffer)

-- `buffer[cursor++] = value`
abbrev pub put : PayloadBuilder → ℕ → PayloadBuilder
put b value = record b { buffer = set b.buffer b.cursor value; cursor = wrap8 (b.cursor + 1) }

abbrev pub put_all : PayloadBuilder → List ℕ → PayloadBuilder
put_all b [] = b
put_all b (v ∷ vs) = put_all (put b v) vs

-- The common shape: refuse what does not fit with 0, else write and return the new size.
unfoldable pub add_bytes : PayloadBuilder → List ℕ → ℕ × PayloadBuilder
add_bytes b bytes =
    if ltb b.maxsize (b.cursor + length bytes)
    then (0, b)
    else ((put_all b bytes).cursor, put_all b bytes)

-- The bytes of an int and of a float, lowest first; a float is its 32-bit pattern.
abbrev pub int_bytes : ℕ → List ℕ
int_bytes w = w % 256 ∷ w / 256 % 256 ∷ []

abbrev pub float_bytes : ℕ → List ℕ
float_bytes w = w % 256 ∷ w / 256 % 256 ∷ w / 2 ^ 16 % 256 ∷ w / 2 ^ 24 % 256 ∷ []

unfoldable pub add_boolean : PayloadBuilder → ℕ → ℕ × PayloadBuilder
unfolding add_bytes
add_boolean b value = add_bytes b (wrap8 value ∷ [])

unfoldable pub add_integer : PayloadBuilder → ℕ → ℕ × PayloadBuilder
unfolding add_bytes
add_integer b value = add_bytes b (int_bytes value)

unfoldable pub add_number : PayloadBuilder → ℕ → ℕ × PayloadBuilder
unfolding add_bytes
add_number b value = add_bytes b (float_bytes value)

unfoldable pub add_gps : PayloadBuilder → ℕ → ℕ → ℕ → ℕ × PayloadBuilder
unfolding add_bytes
add_gps b latitude longitude altitude =
    add_bytes b (float_bytes latitude ++ (float_bytes longitude ++ float_bytes altitude))

unfoldable pub add_accelerometer : PayloadBuilder → ℕ → ℕ → ℕ → ℕ × PayloadBuilder
unfolding add_bytes
add_accelerometer b x y z = add_bytes b (float_bytes x ++ (float_bytes y ++ float_bytes z))

-- `memcpy(sendBuffer, buffer, cursor)` into the array of 51 bytes: `none` for a write behind it.
unfoldable pub fill_send_buffer : PayloadBuilder → Option (List ℕ)
fill_send_buffer b = if ltb send_buffer_size b.cursor then none else some (take b.cursor b.buffer)

send_filled : Option (List ℕ) → M (Option Bool)
send_filled none = pure none
send_filled (some packet) = send_payload packet >>= λ r. pure (some r)

-- `send()`; `none` for the write behind the array.
unfoldable pub send : PayloadBuilder → M (Option Bool)
unfolding send_filled
send b = send_filled (fill_send_buffer b)

-- `send(packet, size)`
unfoldable pub send_packet : List ℕ → ℕ → M Bool
send_packet packet size = send_payload (take size packet)
