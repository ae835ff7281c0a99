-- ===== src/System/Ready.antt =====
-- The board of System/Network: what a round leaves it with, and what it sends.
use sag_c8y_nb_iot_demo.Base.{
  All, All-taken, ℕ, ◌≤◌, ◌<◌, ◌≡◌, some, inl, inr, refl, sym, ap, ◌∙◌, List, length, arith,
}
use mathlib.Core.Path.{subst}
use sag_c8y_nb_iot_demo.Agent.Datagram.{Fits}
use sag_c8y_nb_iot_demo.Agent.Handler.{Platform}
use sag_c8y_nb_iot_demo.Agent.Steps.{Token, unregistered, registered, FromBoard}
use sag_c8y_nb_iot_demo.Agent.Routes.{Answer}
use sag_c8y_nb_iot_demo.Modem.Send.Wire.{datagram}
use sag_c8y_nb_iot_demo.Device.{Poll, millis}
use sag_c8y_nb_iot_demo.Device.Steps.{Line}
use sag_c8y_nb_iot_demo.Node.{Readings, packet, Node, Locals, receive_password, loop}
use sag_c8y_nb_iot_demo.Node.Downlink.{renewed}
use sag_c8y_nb_iot_demo.Node.Life.{datagram-short}
use sag_c8y_nb_iot_demo.Node.Rounds.{Sends, loop-received}
use sag_c8y_nb_iot_demo.Node.Storage.{length-write_pw}
use sag_c8y_nb_iot_demo.System.Onboarding.{Delivers, renewed-token, loop-Delivers}
use sag_c8y_nb_iot_demo.System.Network.{
  Alone, Parcel, Credential, Good, HasToken, SameBoard, Ready, Sent, GoodAt, Turn, sends, takes,
  passes,
}

module _ (Granted : List ℕ → Type 0) (imei : List ℕ) where
  abbrev IsReady : Node → Type 0
  IsReady n = Ready Granted imei n

  Good-Token : (token : List ℕ) → HasToken Granted token → Token token
  Good-Token token (inl none_yet) = unregistered (inl none_yet)
  Good-Token token (inr (inl reset)) = unregistered (inr reset)
  Good-Token token (inr (inr c)) =
      registered c.x c.y c.password c.cumulocity_id c.shape c.password_line c.id_line

  pub token-short : (token : List ℕ) → HasToken Granted token → length token ≤ 20
  token-short token (inl none_yet) = rw none_yet (omega arith)
  token-short token (inr (inl reset)) = rw reset (omega arith)
  token-short token (inr (inr c)) = c.short

  -- A board that took what the agent sent has it as its token, whole.
  pub renewed-Ready :
      (locals : Locals) (n : Node) (bytes : List ℕ) (l l' : Line) (rest : List Poll)
      → IsReady n
      → Good Granted bytes
      → Delivers locals n bytes l l' rest
      → IsReady (renewed bytes l l' rest n)
  renewed-Ready locals n bytes l l' rest h good from = record {
    id_line = h.id_line;
    id_filled = h.id_filled;
    short_id = h.short_id;
    same_id = h.same_id;
    token =
        inr (subst (λ t. Good Granted t) (sym (renewed-token locals n bytes l l' rest from)) good);
    room = omega (arith, h.room, length-write_pw bytes n.eeprom);
  }

  -- A board that sent its packet is as it was, if the modem does not name another id.
  pub Sends-Ready :
      (r : Readings) (n n' : Node)
      → Sends r n n'
      → n'.device.device_id ≡ imei
      → IsReady n
      → IsReady n'
  Sends-Ready r n n' sent same h = record {
    id_line = h.id_line;
    id_filled = h.id_filled;
    short_id = h.short_id;
    same_id = same;
    token = subst (λ t. HasToken Granted t) (sym (ap (λ v. v.token) sent.command)) h.token;
    room = rw sent.same_eeprom h.room;
  }

  pub passes-Ready : (n n' : Node) → SameBoard n n' → IsReady n → IsReady n'
  passes-Ready n n' same h = record {
    id_line = h.id_line;
    id_filled = h.id_filled;
    short_id = h.short_id;
    same_id = same.same_id ∙ h.same_id;
    token = subst (λ t. HasToken Granted t) (sym same.same_token) h.token;
    room = rw same.same_eeprom h.room;
  }

  -- The round of a board that is ready, and still was behind the receiving.
  pub loop-Ready :
      (locals : Locals) (r : Readings) (n m n' : Node)
      → IsReady m
      → n.send_next_at < millis n.device
      → receive_password locals n ≡ some m
      → loop locals r n ≡ some n'
      → Sends r m n'
  loop-Ready locals r n m n' h due received e = rw e at (
      loop-received locals r n m due received (
        omega (
          arith,
          datagram-short r m (rw h.same_id h.short_id, token-short m.device.device_token h.token),
        )))

module _ (At : List ℕ → ℕ → List ℕ → Type 0) (Granted : List ℕ → List ℕ → Type 0)
    (Measured : List ℕ → Readings → Type 0) (platform : Platform) where
  -- A datagram of a board under its own token.
  pub record Own (x : Parcel) : Type 0 where
    pub from : FromBoard platform (Sent At Granted Measured) x.bytes
    pub same_id : from.board.device_id ≡ x.imei

  sends-Own :
      (imei : List ℕ) (n : Node) (r : Readings)
      → Ready (Granted imei) imei n
      → Measured imei r
      → Fits r
      → Own (record { imei = imei; bytes = datagram n.device (packet r) })
  sends-Own imei n r h measured fits = record {
    from = record {
      board = n.device;
      readings = r;
      shape = refl;
      sent = rw h.same_id (h.token, measured);
      fits = fits;
      id_line = rw h.same_id h.id_line;
      id_filled = rw h.same_id h.id_filled;
      token = Good-Token (Granted imei) imei n.device.device_token h.token;
    };
    same_id = h.same_id;
  }

  module _ (alone : Alone At) where
    -- What is good at an address of a board is good for the board.
    GoodAt-Good :
        (ip : List ℕ) (port : ℕ) (imei bytes : List ℕ)
        → At ip port imei
        → GoodAt At Granted Measured ip port bytes
        → Good (Granted imei) bytes
    GoodAt-Good ip port imei bytes here (inl reset) = inl reset
    GoodAt-Good ip port imei bytes here (inr own) = inr (
        subst (λ d. Credential (Granted d) bytes)
          (alone ip port own.device_id imei own.located here) own.credential)

    -- A turn leaves the board ready, and what it sends is its own.
    pub Turn-Ready :
        {answers : List Answer} {imei : List ℕ} {n n' : Node} {sent : List Parcel}
        → Turn At Granted Measured answers imei n n' sent
        → All (λ x. GoodAt At Granted Measured x.ip_address x.port x.bytes) answers
        → Ready (Granted imei) imei n
        → Ready (Granted imei) imei n' × All Own sent
    Turn-Ready {imei = imei} {n = n}
          (sends locals r m n' measured fits due received same_board e same) good h =
        let ready = passes-Ready (Granted imei) imei n m same_board h in
        let sent = loop-Ready (Granted imei) imei locals r n m n' ready due received e in
        (
          Sends-Ready (Granted imei) imei r m n' sent same ready,
          (sends-Own imei m r ready measured fits, tt),
        )
    Turn-Ready {imei = imei} {n = n}
          (takes locals r n' before after x l l' rest measured fits from here delivers e same) good
          h =
        let (hx, _) = All-taken _ before after x (rw from at good) in
        let taken = renewed x.bytes l l' rest n in
        let ready =
          renewed-Ready (Granted imei) imei locals n x.bytes l l' rest h
            (GoodAt-Good x.ip_address x.port imei x.bytes here hx) delivers in
        let sent = rw e at (loop-Delivers locals n x.bytes l l' rest delivers r) in
        (
          Sends-Ready (Granted imei) imei r taken n' sent same ready,
          (sends-Own imei taken r ready measured fits, tt),
        )
    Turn-Ready {imei = imei} {n = n} (passes n' same) good h =
        (passes-Ready (Granted imei) imei n n' same h, tt)
