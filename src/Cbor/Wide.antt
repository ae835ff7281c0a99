-- ===== src/Cbor/Wide.antt =====
-- The operations for 64 bits.
use sag_c8y_nb_iot_demo.Base.{ℕ, ◌+◌, ◌*◌, ◌/◌, ◌^◌, ◌≤◌, ◌<◌, ◌≡◌, true, false, take, ltb, arith}
use Prim.Native.Nat.{bit_or}
use sag_c8y_nb_iot_demo.Base.Words.{wrap8}
use sag_c8y_nb_iot_demo.Cbor.{CborBuilder, write_type_and_value64}
use sag_c8y_nb_iot_demo.Cbor.Contents.{IsValid, Appends, head, first_byte, put_two}

-- The uint64_t overload writes one byte of the two of a value from 256 to 65535: the head that it
-- leaves lacks its last byte, for every major type.
pub write_type_and_value64-truncated :
    (b : CborBuilder) (major value : ℕ)
    → IsValid b
    → major < 8
    → 256 ≤ value
    → value < 65536
    → b.offset + 3 ≤ b.capacity
    → Appends b (take 2 (head major value)) (write_type_and_value64 b major value)
unfolding write_type_and_value64
write_type_and_value64-truncated b major value v hm low high room =
    let e : wrap8 (value / 2 ^ 8) ≡ value / 2 ^ 8 = omega arith in
    let wide : ltb value 24 ≡ false = ground arith in
    let wider : ltb value 256 ≡ false = ground arith in
    let word : ltb value 65536 ≡ true = ground arith in
    rw (wide, wider, word)
      (rw (first_byte major 25 hm (omega arith), e) at
        (put_two b (bit_or (wrap8 (major * 2 ^ 5)) 25) (value / 2 ^ 8) v (omega arith)))
