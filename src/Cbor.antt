-- ===== src/Cbor.antt =====
-- CborBuilder.cpp: a CBOR payload in a buffer of fixed capacity.
pub mod Contents
pub mod Decode
pub mod RoundTrip
pub mod Assets
pub mod Wide
use sag_c8y_nb_iot_demo.Base.{
  ℕ, suc, ◌+◌, ◌-◌, ◌*◌, ◌/◌, ◌%◌, ◌^◌, Bool, List, [], ◌∷◌, ◌++◌, length, take, set, blit, ltb,
  leb, if◌then◌else◌, codes,
}
use sag_c8y_nb_iot_demo.Base.Words.{wrap8, wrap16, wrap32, is_neg16}
use sag_c8y_nb_iot_demo.Device.{M}
use sag_c8y_nb_iot_demo.Modem.Send.{send_cbor}
use Prim.Native.Nat.{bit_or}

-- `capacity` and `offset` are unsigned ints; the buffer is as long as the capacity.
pub record CborBuilder : Type 0 where
  pub buffer : List ℕ
  pub capacity : ℕ
  pub offset : ℕ

abbrev pub default_capacity : ℕ
default_capacity = 256

-- `init`; `block` is what `new` returns.
unfoldable pub init : ℕ → List ℕ → CborBuilder
init capacity block = record { buffer = block; capacity = capacity; offset = 0 }

-- The two constructors: the first has the default capacity.
unfoldable pub with_capacity : ℕ → List ℕ → CborBuilder
unfolding init
with_capacity capacity block = init (wrap16 capacity) block

unfoldable pub new_builder : List ℕ → CborBuilder
unfolding init
new_builder block = init default_capacity block

unfoldable pub reset : CborBuilder → CborBuilder
reset b = record b { offset = 0 }

-- `getData` and `getSize`
unfoldable pub get_data : CborBuilder → List ℕ
get_data b = b.buffer

unfoldable pub get_size : CborBuilder → ℕ
get_size b = b.offset

-- `putByte`; the message on an overflow goes to the debug port.
unfoldable pub put_byte : CborBuilder → ℕ → CborBuilder
put_byte b value =
    if ltb b.offset b.capacity
    then record b { buffer = set b.buffer b.offset (wrap8 value); offset = b.offset + 1 }
    else b

-- `putBytes`: `offset + size - 1` is computed in 16 bits.
unfoldable pub put_bytes : CborBuilder → List ℕ → CborBuilder
put_bytes b bytes =
    if ltb ((b.offset + length bytes + (2 ^ 16 - 1)) % 2 ^ 16) b.capacity
    then record b {
      buffer = blit b.buffer b.offset bytes;
      offset = wrap16 (b.offset + length bytes);
    }
    else b

-- `writeTypeAndValue` for a uint32_t: the shortest of four forms.
unfoldable pub write_type_and_value : CborBuilder → ℕ → ℕ → CborBuilder
write_type_and_value b major value =
    let major' = wrap8 (major * 2 ^ 5) in
    if ltb value 24
    then put_byte b (bit_or major' value)
    else if ltb value 256
    then put_byte (put_byte b (bit_or major' 24)) value
    else if ltb value 65536
    then put_byte (put_byte (put_byte b (bit_or major' 25)) (value / 2 ^ 8)) value
    else put_byte
        (put_byte
          (put_byte (put_byte (put_byte b (bit_or major' 26)) (value / 2 ^ 24)) (value / 2 ^ 16))
          (value / 2 ^ 8))
        value

-- `writeTypeAndValue` for a uint64_t. The third form writes one byte of its two.
unfoldable pub write_type_and_value64 : CborBuilder → ℕ → ℕ → CborBuilder
write_type_and_value64 b major value =
    let major' = wrap8 (major * 2 ^ 5) in
    if ltb value 24
    then put_byte b (bit_or major' value)
    else if ltb value 256
    then put_byte (put_byte b (bit_or major' 24)) value
    else if ltb value 65536
    then put_byte (put_byte b (bit_or major' 25)) (value / 2 ^ 8)
    else if ltb value 4294967296
    then put_byte
        (put_byte
          (put_byte (put_byte (put_byte b (bit_or major' 26)) (value / 2 ^ 24)) (value / 2 ^ 16))
          (value / 2 ^ 8))
        value
    else put_byte
        (put_byte
          (put_byte
            (put_byte
              (put_byte
                (put_byte
                  (put_byte (put_byte (put_byte b (bit_or major' 27)) (value / 2 ^ 56))
                    (value / 2 ^ 48))
                  (value / 2 ^ 40))
                (value / 2 ^ 32))
              (value / 2 ^ 24))
            (value / 2 ^ 16))
          (value / 2 ^ 8))
        value

-- `writeInt(int)`: a negative value -1 - n as n, with major type 1. For the pattern w of a negative
-- int, -(value + 1) is 65535 - w.
unfoldable pub write_int : CborBuilder → ℕ → CborBuilder
write_int b w =
    if is_neg16 w then write_type_and_value b 1 (2 ^ 16 - 1 - w) else write_type_and_value b 0 w

-- `writeInt(uint32_t)`, `writeInt(uint64_t)`
unfoldable pub write_uint32 : CborBuilder → ℕ → CborBuilder
write_uint32 b value = write_type_and_value b 0 value

unfoldable pub write_uint64 : CborBuilder → ℕ → CborBuilder
write_uint64 b value = write_type_and_value64 b 0 value

-- `writeInt(int32_t)` and `writeInt(int64_t)`, each from the pattern of its width.
unfoldable pub write_int32 : CborBuilder → ℕ → CborBuilder
write_int32 b w =
    if leb (2 ^ 31) w then write_type_and_value b 1 (2 ^ 32 - 1 - w) else write_type_and_value b 0 w

unfoldable pub write_int64 : CborBuilder → ℕ → CborBuilder
write_int64 b w =
    if leb (2 ^ 63) w
    then write_type_and_value64 b 1 (2 ^ 64 - 1 - w)
    else write_type_and_value64 b 0 w

-- `writeString(const char*, unsigned int)`: the first `size` bytes behind the pointer.
unfoldable pub write_chars : CborBuilder → List ℕ → ℕ → CborBuilder
write_chars b data' size = put_bytes (write_type_and_value b 3 size) (take size data')

-- `writeString(String)`
unfoldable pub write_string : CborBuilder → List ℕ → CborBuilder
write_string b s = put_bytes (write_type_and_value b 3 (length s)) s

-- `writeBytes`
unfoldable pub write_bytes : CborBuilder → List ℕ → CborBuilder
write_bytes b s = put_bytes (write_type_and_value b 2 (length s)) s

unfoldable pub write_array : CborBuilder → ℕ → CborBuilder
write_array b size = write_type_and_value b 4 size

unfoldable pub map : CborBuilder → ℕ → CborBuilder
map b size = write_type_and_value b 5 size

unfoldable pub write_tag : CborBuilder → ℕ → CborBuilder
write_tag b tag = write_type_and_value b 6 tag

unfoldable pub write_special : CborBuilder → ℕ → CborBuilder
write_special b special = write_type_and_value b 7 special

-- `addNumber(double)`: a double has 4 bytes on this board; `w` is its pattern.
unfoldable pub write_number : CborBuilder → ℕ → CborBuilder
write_number b w =
    put_byte
      (put_byte (put_byte (put_byte (put_byte b 0xFA) (w / 2 ^ 24)) (w / 2 ^ 16)) (w / 2 ^ 8)) w

unfoldable pub add_boolean : CborBuilder → Bool → List ℕ → CborBuilder
add_boolean b value asset = write_special (write_string b asset) (if value then 21 else 20)

unfoldable pub add_integer : CborBuilder → ℕ → List ℕ → CborBuilder
add_integer b value asset = write_int (write_string b asset) value

unfoldable pub add_number : CborBuilder → ℕ → List ℕ → CborBuilder
add_number b value asset = write_number (write_string b asset) value

unfoldable pub add_string : CborBuilder → List ℕ → List ℕ → CborBuilder
add_string b value asset = write_string (write_string b asset) value

unfoldable pub add_gps : CborBuilder → ℕ → ℕ → ℕ → List ℕ → CborBuilder
add_gps b latitude longitude altitude asset =
    let named = map (write_string b asset) 3 in
    let with_latitude = write_number (write_string named (codes "latitude")) latitude in
    let with_longitude = write_number (write_string with_latitude (codes "longitude")) longitude in
    write_number (write_string with_longitude (codes "altitude")) altitude

-- `send`
unfoldable pub send : CborBuilder → M Bool
send b = send_cbor (take b.offset b.buffer) b.offset
