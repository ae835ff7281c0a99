-- ===== src/Tests/Builders.antt =====
-- The theorems on the two payload builders, at concrete values.
use sag_c8y_nb_iot_demo.Base.{ℕ, zero, suc, ◌≡◌, refl, some, List, [], ◌∷◌, codes, take, arith, All}
use sag_c8y_nb_iot_demo.Cbor
use sag_c8y_nb_iot_demo.Cbor.{CborBuilder, write_type_and_value64}
use sag_c8y_nb_iot_demo.Cbor.Contents
use sag_c8y_nb_iot_demo.Cbor.Contents.{Appends, head}
use sag_c8y_nb_iot_demo.Cbor.Decode.{encode, read_items}
use sag_c8y_nb_iot_demo.Cbor.RoundTrip.{
  Call, call, item_of, items_of, run, InRange, call-Appends, read_items-run,
}
use sag_c8y_nb_iot_demo.Cbor.Wide.{write_type_and_value64-truncated}
use sag_c8y_nb_iot_demo.Payload.{PayloadBuilder, create}
use sag_c8y_nb_iot_demo.Payload.Bounds
use sag_c8y_nb_iot_demo.Payload.Bounds.{Refines}
use sag_c8y_nb_iot_demo.Payload.Fields.{
  Field, add, layout, build, kinds_of, read_fields, add-Refines, read_fields-build,
}

abbrev stale : ℕ → List ℕ
stale zero = []
stale (suc n) = 170 ∷ stale n

abbrev fields : List Field
fields = Field.boolean 1 ∷ Field.integer 64000 ∷ Field.gps 1109917696 1082130432 3 ∷ []

read_fields-build_example :
    read_fields (kinds_of fields) (Bounds.contents (build fields (create 60 (stale 60))))
    ≡ some fields
read_fields-build_example =
    read_fields-build fields 60 (stale 60) refl (omega arith)
      (omega arith, (omega arith, ((omega arith, omega arith, omega arith), tt))) (omega arith)

abbrev small_builder : PayloadBuilder
small_builder = record { buffer = stale 4; maxsize = 4; cursor = 3 }

small-IsValid : Bounds.IsValid small_builder
small-IsValid = record { block = refl; small = omega arith; within = omega arith }

add-Refines_example :
    Refines small_builder (layout (Field.integer 5)) (add (Field.integer 5) small_builder)
add-Refines_example = add-Refines (Field.integer 5) small_builder small-IsValid

abbrev large_builder : PayloadBuilder
large_builder = record { buffer = stale 60; maxsize = 60; cursor = 55 }

large-IsValid : Bounds.IsValid large_builder
large-IsValid = record { block = refl; small = omega arith; within = omega arith }

abbrev calls : List Call
calls =
    Call.string (codes "temp")
    ∷ Call.int 65036
    ∷ Call.map_of 3
    ∷ Call.uint32 70000
    ∷ Call.special 21
    ∷ Call.number 1109917696
    ∷ []

calls-InRange : All InRange calls
calls-InRange =
    (omega arith, (omega arith, (omega arith, (omega arith, (omega arith, (omega arith, tt))))))

read_items-run_example :
    read_items 6 (Contents.contents (run calls (Cbor.init 64 (stale 64)))) ≡ some (items_of calls)
read_items-run_example =
    read_items-run calls 64 (stale 64) refl (omega arith) calls-InRange (omega arith)

abbrev cbor_builder : CborBuilder
cbor_builder = record { buffer = stale 16; capacity = 16; offset = 2 }

cbor-IsValid : Contents.IsValid cbor_builder
cbor-IsValid = record { block = refl; small = omega arith; within = omega arith }

call-Appends_example :
    Appends cbor_builder
      (encode (item_of (Call.string (codes "temp"))))
      (call (Call.string (codes "temp")) cbor_builder)
call-Appends_example =
    call-Appends (Call.string (codes "temp")) cbor_builder cbor-IsValid (omega arith) (omega arith)

write_type_and_value64-truncated_example :
    Appends cbor_builder (take 2 (head 0 1000)) (write_type_and_value64 cbor_builder 0 1000)
write_type_and_value64-truncated_example =
    write_type_and_value64-truncated cbor_builder 0 1000 cbor-IsValid (omega arith) (omega arith)
      (omega arith) (omega arith)
