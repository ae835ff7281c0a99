-- ===== src/Agent/Messages.antt =====
-- DataPacket.java: the messages in the agent's queues, and the packet that one of them becomes.
use sag_c8y_nb_iot_demo.Base.{ℕ, Bool, not, Option, none, some, List, [], ◌∷◌, ◌++◌, codes}
use sag_c8y_nb_iot_demo.Agent.{DataPacket, new_packet, is_empty}
use sag_c8y_nb_iot_demo.Agent.Base64.{encode}
use sag_c8y_nb_iot_demo.Agent.Text.{split, parse_int, int_text}

-- `isValid`
unfoldable pub is_valid : DataPacket → Bool
is_valid p = not (is_empty p.device_id)

-- `getRegisterMessage`
unfoldable pub get_register_message : DataPacket → List ℕ
get_register_message p = p.ip_address ++ (10 ∷ int_text p.port ++ (10 ∷ p.device_id))

-- A null text that is joined to another.
abbrev pub joined_text : Option (List ℕ) → List ℕ
joined_text none = codes "null"
joined_text (some s) = s

abbrev pub push_message : DataPacket → List ℕ → List ℕ
push_message p payload =
    p.ip_address
    ++ (10 ∷ int_text p.port
        ++ (10 ∷ p.device_id
            ++ (10 ∷ p.password
                ++ (10 ∷ p.cumulocity_id
                    ++ (10 ∷ joined_text p.creationdate_timestamp ++ (10 ∷ encode payload))))))

-- `getPushMeasurementMessage`; without a payload it throws.
unfoldable pub get_push_measurement_message : DataPacket → Option (List ℕ)
get_push_measurement_message p = elim p.payload [
  | none ↦ none
  | some payload ↦ some (push_message p payload)
]

-- `getDeviceMessage`
unfoldable pub get_device_message : DataPacket → List ℕ
get_device_message p = p.password ++ (10 ∷ p.cumulocity_id)

abbrev pub with_port : Option ℕ → (ℕ → Option DataPacket) → Option DataPacket
with_port none f = none
with_port (some n) f = f n

-- What the texts of a message become; `none` is an exception.
abbrev pub from_fields : List (List ℕ) → Option DataPacket
from_fields (ip ∷ port ∷ []) = with_port (parse_int port) (λ n. some (new_packet ip n none))
from_fields (ip ∷ port ∷ password ∷ cumulocity_id ∷ others) = with_port (parse_int port) (λ n.
    some (record (new_packet ip n none) { password = password; cumulocity_id = cumulocity_id }))
from_fields _ = none

-- The constructor for a message of the credentials queue.
unfoldable pub from_message : List ℕ → Option DataPacket
from_message message = from_fields (split message)
