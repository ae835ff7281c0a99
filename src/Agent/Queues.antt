-- ===== src/Agent/Queues.antt =====
-- What the agent puts in its queues, its consumers find in them.
use sag_c8y_nb_iot_demo.Base.{
  ℕ, ◌^◌, ◌≤◌, ◌<◌, ◌≡◌, ap, ◌∙◌, true, All, none, some, List, [], ◌∷◌, ◌++◌, length, leb, arith,
}
use sag_c8y_nb_iot_demo.Agent.{DataPacket, new_packet}
use sag_c8y_nb_iot_demo.Agent.Base64.{encode, decode-encode, encode-IsLineText, encode-Filled}
use sag_c8y_nb_iot_demo.Agent.Handler.{
  Platform, account, represent, register, register_fields, register_device, push, push_fields,
  push_measurement, credentials_message, reset_message,
}
use sag_c8y_nb_iot_demo.Agent.Messages.{
  get_register_message, push_message, from_fields, from_message,
}
use sag_c8y_nb_iot_demo.Modem.Hex.RoundTrip.{IsByte}
use sag_c8y_nb_iot_demo.Agent.Text.{
  IsLineText, Filled, split-lines, split-drop_empty, drop_empty-two, int_text-Filled, int_text,
  parse_int-int_text, int_text-IsLineText,
}

-- Where a datagram comes from, as the messages carry it.
pub record Origin (ip : List ℕ) (port : ℕ) : Type 0 where
  pub ip_line : IsLineText ip
  pub port_small : port < 2 ^ 31

-- A text behind others is not empty if it ends in one that is not.
Filled-append : (s t : List ℕ) → Filled t → Filled (s ++ t)
Filled-append [] t h = h
Filled-append (c ∷ s) t h = tt

long-Filled : (s : List ℕ) → 1 ≤ length s → Filled s
long-Filled [] h = omega arith
long-Filled (c ∷ s) h = tt

module _ (platform : Platform) (s : platform.State) where
  -- A registration's message is read back as the packet's address and id.
  pub register_device-get_register_message :
      (p : DataPacket)
      → Origin p.ip_address p.port
      → IsLineText p.device_id
      → Filled p.device_id
      → register_device platform (get_register_message p) s
        ≡ some (register platform p.ip_address p.port p.device_id s)
  unfolding register_device get_register_message
  register_device-get_register_message p o id_line id_filled =
      ap (λ f. register_fields platform f s)
        (split-lines p.ip_address (int_text p.port ∷ p.device_id ∷ [])
          (o.ip_line, (int_text-IsLineText p.port o.port_small, (id_line, tt))) id_filled
          (Filled-append p.ip_address (10 ∷ int_text p.port ++ (10 ∷ p.device_id)) tt))
      ∙ rw (parse_int-int_text p.port o.port_small)

  -- A measurement's message is read back as the packet's address and fields.
  pub push_measurement-push_message :
      (p : DataPacket) (payload time : List ℕ)
      → p.creationdate_timestamp ≡ some time
      → Origin p.ip_address p.port
      → IsLineText p.device_id
      → IsLineText p.password
      → IsLineText p.cumulocity_id
      → IsLineText time
      → All IsByte payload
      → length payload ≡ 14
      → push_measurement platform (push_message p payload) s
        ≡ some (
            push platform p.ip_address p.port
              (account p.device_id p.password)
              (represent p.cumulocity_id time payload)
              s)
  unfolding push_measurement
  push_measurement-push_message p payload time stamped o hd hp hc ht bytes fourteen =
      let full : leb 14 (length payload) ≡ true = ground arith in
      rw stamped (
        ap (λ f. push_fields platform f s)
          (split-lines p.ip_address
            (int_text p.port
              ∷ p.device_id
              ∷ p.password
              ∷ p.cumulocity_id
              ∷ time
              ∷ encode payload
              ∷ [])
            (
              o.ip_line,
              (
                int_text-IsLineText p.port o.port_small,
                (hd, (hp, (hc, (ht, (encode-IsLineText payload, tt))))),
              ),
            )
            (encode-Filled payload (long-Filled payload (omega arith)))
            (Filled-append p.ip_address (10 ∷ _) tt))
        ∙ rw (parse_int-int_text p.port o.port_small, decode-encode payload bytes, full))

-- The message with credentials becomes the packet for the device: the password and the id.
pub from_message-credentials_message :
    (ip password cumulocity_id : List ℕ) (port : ℕ)
    → Origin ip port
    → IsLineText password
    → IsLineText cumulocity_id
    → Filled cumulocity_id
    → from_message (credentials_message ip port password cumulocity_id)
      ≡ some
          (record (new_packet ip port none) { password = password; cumulocity_id = cumulocity_id })
unfolding from_message
from_message-credentials_message ip password id port o hp hc filled =
    ap from_fields (
      split-lines ip (int_text port ∷ password ∷ id ∷ [])
        (o.ip_line, (int_text-IsLineText port o.port_small, (hp, (hc, tt)))) filled
        (Filled-append ip (10 ∷ int_text port ++ (10 ∷ password ++ (10 ∷ id))) tt))
    ∙ rw (parse_int-int_text port o.port_small)

-- The message that resets a device becomes a packet without a password and without an id.
pub from_message-reset_message :
    (ip : List ℕ) (port : ℕ)
    → Origin ip port
    → from_message (reset_message ip port) ≡ some (new_packet ip port none)
unfolding from_message
from_message-reset_message ip port o =
    ap from_fields (
      split-drop_empty ip (int_text port ∷ [] ∷ [] ∷ [])
        (o.ip_line, (int_text-IsLineText port o.port_small, (tt, (tt, tt))))
        (Filled-append ip (10 ∷ int_text port ++ (10 ∷ 10 ∷ [])) tt)
      ∙ drop_empty-two ip (int_text port) (int_text-Filled port o.port_small))
    ∙ rw (parse_int-int_text port o.port_small)
