-- ===== src/Node/Guard.antt =====
-- Who can set the password of the sketch.
use sag_c8y_nb_iot_demo.Base.{
  ℕ, ◌≤◌, ◌<◌, ◌≡◌, ◌⊎◌, false, length, inl, inr, refl, sym, ap, ◌∙◌, true, Option, ◌==◌,
  Bool-cases, some, List, blit, ltb, cstr, str_eq-true, arith,
}
use sag_c8y_nb_iot_demo.Base.Loop.{
  Allows, Allows-and_then, Allows-given, Allows-result, Allows-both, anything, Allows-mono,
  Returns-Allowed, and_then,
}
use sag_c8y_nb_iot_demo.Device.{Device, millis}
use sag_c8y_nb_iot_demo.Modem.Commands.{set_att_device}
use sag_c8y_nb_iot_demo.Modem.Parsers.{Packet}
use sag_c8y_nb_iot_demo.Modem.Response.{positive}
use sag_c8y_nb_iot_demo.Modem.Udp.{socket_receive_bytes}
use sag_c8y_nb_iot_demo.Modem.Udp.Origin.{Reported, socket_receive_bytes-From}
use sag_c8y_nb_iot_demo.Modem.Udp.Token.{socket_receive_bytes-KeepsToken}
use sag_c8y_nb_iot_demo.Node.{
  server, Readings, write_pw, read_pw, Node, Locals, store_password, is_from_server, use_datagram,
  take_password, password_loop, receive_password, send_readings, loop,
}
use sag_c8y_nb_iot_demo.Node.Life.{IsShort, receive_password-IsShort, datagram-short}
use sag_c8y_nb_iot_demo.Node.Rounds.{Sends, send_readings-Sends}

-- The password and the token are as before.
pub record Untouched (n n' : Node) : Type 0 where
  pub same_eeprom : n'.eeprom ≡ n.eeprom
  pub same_token : n'.device.device_token ≡ n.device.device_token

-- In a due round with bytes pending `socketReceiveBytes` gave a size that is not 0, metadata with the
-- server's address, which the struct held or a line of the modem reports, and bytes that the array
-- holds; what the array has then is the password in the EEPROM, and the token is what the EEPROM has.
pub record Accepted (locals : Locals) (n n' : Node) : Type 0 where
  pub size : ℕ
  pub metadata : Packet
  pub bytes : List ℕ
  pub behind : Device
  pub password : List ℕ
  pub received :
      socket_receive_bytes n.device.pending_bytes locals.received n.device
      ≡ some ((size, metadata, bytes), behind)
  pub due : n.send_next_at < millis n.device
  pub announced : 0 < n.device.pending_bytes
  pub origin : (metadata.ip ≡ locals.received.0.ip) ⊎ Reported n.device.input metadata.ip
  pub not_empty : 0 < size
  pub from_server : cstr metadata.ip ≡ server
  pub read :
      password_loop 257 0 n.device.pending_bytes (blit locals.content 0 bytes) ≡ some password
  pub fits : length bytes ≤ length locals.content
  pub stored : n'.eeprom ≡ write_pw password n.eeprom
  pub token : n'.device.device_token ≡ cstr (read_pw n'.eeprom)

abbrev pub Guarded : Locals → Node → Node → Type 0
Guarded locals n n' = Untouched n n' ⊎ Accepted locals n n'

-- What the test of the sketch says.
is_from_server-true :
    (size : ℕ) (metadata : Packet)
    → is_from_server size metadata ≡ true
    → (0 < size) × (cstr metadata.ip ≡ server)
unfolding is_from_server
is_from_server-true size metadata h = elim (Bool-cases (size == 0)) [
  | inl empty ↦ absurd (ground arith)
  | inr filled ↦ (ground arith, str_eq-true (cstr metadata.ip) server (rw filled at h))
]

store_password-Stores :
    (passw : List ℕ) (n : Node)
    → Allows
        (λ m.
          (m.eeprom ≡ write_pw passw n.eeprom) × (m.device.device_token ≡ cstr (read_pw m.eeprom)))
        (store_password passw n)
unfolding store_password set_att_device
store_password-Stores passw n = (refl, refl)

module _ (locals : Locals) (n : Node) where
  use_datagram-Guarded :
      (r : (ℕ × Packet × List ℕ) × Device)
      → socket_receive_bytes n.device.pending_bytes locals.received n.device ≡ some r
      → (r.0.1.ip ≡ locals.received.0.ip) ⊎ Reported n.device.input r.0.1.ip
      → n.send_next_at < millis n.device
      → 0 < n.device.pending_bytes
      → r.1.device_token ≡ n.device.device_token
      → Allows (Guarded locals n) (use_datagram locals n r)
  unfolding use_datagram take_password
  use_datagram-Guarded ((size, metadata, bytes), d) e origin due announced same =
      elim (Bool-cases (ltb (length locals.content) (length bytes))) [
        | inl outside ↦ rw outside tt
        | inr inside ↦ elim (Bool-cases (is_from_server size metadata)) [
          | inr foreign ↦
              rw (inside, foreign) (inl (record { same_eeprom = refl; same_token = same }))
          | inl known ↦
              rw (inside, known)
                (Allows-and_then (λ s. content ≡ some s) (Guarded locals n) content
                  (λ passw. store_password passw received)
                  (Allows-mono _ _ content (Allows-given (λ _. Unit) content (anything content))
                    (λ s h. h.0))
                  (λ passw read.
                    let (not_empty, from) = is_from_server-true size metadata known in
                    Allows-mono _ (Guarded locals n) (store_password passw received)
                      (store_password-Stores passw received)
                      (λ m stored. inr (record {
                        size = size;
                        metadata = metadata;
                        bytes = bytes;
                        behind = d;
                        password = passw;
                        received = e;
                        due = due;
                        announced = announced;
                        origin = origin;
                        not_empty = not_empty;
                        from_server = from;
                        read = read;
                        stored = stored.0;
                        token = stored.1;
                        fits = inside_array inside;
                      }))))
        ]
      ]
    where
      content : Option (List ℕ)
      content = password_loop 257 0 n.device.pending_bytes (blit locals.content 0 bytes)

      received : Node
      received = record n { device = d }

      inside_array :
          ltb (length locals.content) (length bytes) ≡ false → length bytes ≤ length locals.content
      inside_array inside = ground arith

  receive_password-Guarded :
      n.send_next_at < millis n.device → Allows (Guarded locals n) (receive_password locals n)
  unfolding receive_password
  receive_password-Guarded due = elim (Bool-cases (positive n.device.pending_bytes)) [
    | inr none_pending ↦ rw none_pending (inl (record { same_eeprom = refl; same_token = refl }))
    | inl pending ↦
        let bytes = socket_receive_bytes n.device.pending_bytes locals.received n.device in
        rw pending (
          Allows-and_then _ (Guarded locals n) bytes (use_datagram locals n)
            (Allows-given _ bytes (
              Allows-both (λ r. r.1.device_token ≡ n.device.device_token)
                (λ r. (r.0.1.ip ≡ locals.received.0.ip) ⊎ Reported n.device.input r.0.1.ip) bytes
                (socket_receive_bytes-KeepsToken n.device.pending_bytes locals.received n.device)
                (socket_receive_bytes-From n.device.pending_bytes locals.received n.device)))
            (λ r e. use_datagram-Guarded r e.0 e.1.1 due (ground arith) e.1.0))
  ]

  -- The sending changes none of it.
  Sends-Guarded :
      (r : Readings) (m n' : Node) → Sends r m n' → Guarded locals n m → Guarded locals n n'
  Sends-Guarded r m n' sent (inl h) = inl (record {
    same_eeprom = sent.same_eeprom ∙ h.same_eeprom;
    same_token = ap (λ v. v.token) sent.command ∙ h.same_token;
  })
  Sends-Guarded r m n' sent (inr h) = inr (record {
    size = h.size;
    metadata = h.metadata;
    bytes = h.bytes;
    behind = h.behind;
    password = h.password;
    received = h.received;
    due = h.due;
    announced = h.announced;
    origin = h.origin;
    not_empty = h.not_empty;
    from_server = h.from_server;
    read = h.read;
    fits = h.fits;
    stored = sent.same_eeprom ∙ h.stored;
    token =
        ap (λ v. v.token) sent.command
        ∙ h.token
        ∙ ap (λ eeprom. cstr (read_pw eeprom)) (sym sent.same_eeprom);
  })

  due-Guarded :
      (r : Readings)
      → IsShort n
      → n.send_next_at < millis n.device
      → Allows (Guarded locals n) (and_then (receive_password locals n) (send_readings r))
  due-Guarded r short due =
      Allows-and_then _ (Guarded locals n) (receive_password locals n) (send_readings r)
        (Allows-both (Guarded locals n) IsShort (receive_password locals n)
          (receive_password-Guarded due) (receive_password-IsShort locals n short))
        (λ m h.
          Allows-mono (Sends r m) (Guarded locals n) (send_readings r m)
            (Returns-Allowed (Sends r m) (send_readings r m)
              (send_readings-Sends r m (omega (arith, datagram-short r m h.1))))
            (λ n' sent. Sends-Guarded r m n' sent h.0))

  -- The password changes in one way only: behind a round of `loop` that has a result, the EEPROM and
  -- the token are as before; or the round was due, bytes were pending, and socketReceiveBytes gave a
  -- size that is not 0, metadata with the server's address, and bytes that the array `data` holds.
  -- Then the array's content, up to the bytes that were pending, is what writePW wrote, and the token
  -- is what readPW reads there. The address is on a line that readLn gives at some point of what the
  -- modem sends, or it is the one that the struct, which is not initialised, held before: an OK
  -- without a datagram leaves that one. The round has no result where bytes leave an array. The id
  -- has at most 15 characters before the round, and the token at most 20.
  pub loop-Guarded :
      (r : Readings) (n' : Node) → IsShort n → loop locals r n ≡ some n' → Guarded locals n n'
  unfolding loop
  loop-Guarded r n' short e =
      Allows-result (Guarded locals n) (loop locals r n) n'
        (elim (Bool-cases (ltb n.send_next_at (millis n.device))) [
          | inr early ↦ rw early (inl (record { same_eeprom = refl; same_token = refl }))
          | inl due ↦ rw due (due-Guarded r short (ground arith))
        ])
        e
