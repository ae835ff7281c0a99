-- ===== src/Modem/Parsers.antt =====
-- The response parsers of ATT_NBIOT.cpp. Their pointers are never null where the driver calls them,
-- and none writes the response that it is handed by reference.
pub mod Fields
pub mod Config
pub mod Origin
use sag_c8y_nb_iot_demo.Base.{
  ℕ, suc, ◌%◌, Bool, true, false, ◌&&◌, ◌||◌, List, [], ◌∷◌, ltb, ◌==◌, if◌then◌else◌, codes,
  get_or, str_eq,
}
use sag_c8y_nb_iot_demo.Base.Words.{wrap8, is_neg16}
use sag_c8y_nb_iot_demo.Modem.Response.{ResponseType, error, empty, pending_extra, Parser}
use sag_c8y_nb_iot_demo.Scan.{
  Directive, Value, num, text, lit, blank, int, skip_int, until_quote, lits, sscanf,
}

-- `_createSocketParser`: an int, cut to the uint8_t that it is stored in.
take_socket : List Value → ResponseType → ℕ → ResponseType × ResponseType × ℕ
take_socket (num value ∷ []) response socket = (empty, response, wrap8 value)
take_socket _ response socket = (error, response, socket)

unfoldable pub create_socket_parser : Parser ℕ
unfolding take_socket
create_socket_parser response buffer size socket =
    take_socket (sscanf buffer (int ∷ [])) response socket

-- The table `nConfig`.
abbrev pub n_config : List (List ℕ × List ℕ)
n_config =
    (codes "AUTOCONNECT", codes "TRUE")
    ∷ (codes "CR_0354_0338_SCRAMBLING", codes "TRUE")
    ∷ (codes "CR_0859_SI_AVOID", codes "TRUE")
    ∷ []

-- The arrays `name` and `value` have 32 characters.
abbrev pub nconfig_format : List Directive
nconfig_format =
    lits (codes "+NCONFIG:")
      (blank ∷ lit b'"' ∷ until_quote 32 ∷ lits (codes "\",\"") (until_quote 32 ∷ lit b'"' ∷ []))

-- The first entry of the table that has the name and the value is marked.
unfoldable pub mark_config : List ℕ → List ℕ → List (List ℕ × List ℕ) → List Bool → List Bool
mark_config name value ((n, v) ∷ table) (b ∷ marks) =
    if str_eq n name && str_eq v value then true ∷ marks else b ∷ mark_config name value table marks
mark_config name value _ marks = marks

take_config : List Value → ResponseType → List Bool → ResponseType × ResponseType × List Bool
unfolding mark_config
take_config (text name ∷ text value ∷ []) response marks =
    (pending_extra, response, mark_config name value n_config marks)
take_config _ response marks = (error, response, marks)

-- `_nconfigParser`
unfoldable pub nconfig_parser : Parser (List Bool)
unfolding take_config
nconfig_parser response buffer size marks =
    take_config (sscanf buffer nconfig_format) response marks

take_cgatt : List Value → ResponseType → ℕ → ResponseType × ResponseType × ℕ
take_cgatt (num value ∷ []) response result = (empty, response, wrap8 value)
take_cgatt _ response result = (error, response, result)

-- `_cgattParser`
unfoldable pub cgatt_parser : Parser ℕ
unfolding take_cgatt
cgatt_parser response buffer size result =
    take_cgatt (sscanf buffer (lits (codes "+CGATT:") (blank ∷ int ∷ []))) response result

-- `_csqParser`: `sscanf` writes the two ints itself, the first also where the second fails.
take_csq : List Value → ResponseType → ℕ × ℕ → ResponseType × ResponseType × (ℕ × ℕ)
take_csq (num rssi ∷ num ber ∷ []) response p = (empty, response, (rssi, ber))
take_csq (num rssi ∷ []) response (r, b) = (error, response, (rssi, b))
take_csq _ response p = (error, response, p)

abbrev pub csq_format : List Directive
csq_format = lits (codes "+CSQ:") (blank ∷ int ∷ lit b',' ∷ int ∷ [])

unfoldable pub csq_parser : Parser (ℕ × ℕ)
unfolding take_csq
csq_parser response buffer size p = take_csq (sscanf buffer csq_format) response p

take_nqmgs : List Value → ResponseType → ℕ × ℕ → ResponseType × ResponseType × (ℕ × ℕ)
take_nqmgs (num pending ∷ num errors ∷ []) response p = (empty, response, (pending, errors))
take_nqmgs _ response p = (error, response, p)

-- `_nqmgsParser`
unfoldable pub nqmgs_parser : Parser (ℕ × ℕ)
unfolding take_nqmgs
nqmgs_parser response buffer size p =
    take_nqmgs
      (sscanf buffer (
        lits (codes "PENDING=")
          (int ∷ lits (codes ",SENT=") (skip_int ∷ lits (codes ",ERROR=") (int ∷ [])))))
      response p

-- `socketID <= UINT8_MAX` for an int
abbrev pub is_small : ℕ → Bool
is_small w = is_neg16 w || ltb w 256

-- A line that is a lone carriage return.
abbrev pub is_lone_cr : List ℕ → ℕ → Bool
is_lone_cr buffer size = (size == 1) && (get_or buffer 0 0 == b'\r')

take_urc : List Value → ResponseType → ℕ × ℕ → ResponseType × ResponseType × (ℕ × ℕ)
take_urc (num socket ∷ num size ∷ []) response p =
    if is_small socket then (empty, response, (wrap8 socket, size)) else (error, response, p)
take_urc _ response p = (error, response, p)

-- `_udpReadURCParser`
unfoldable pub udp_read_urc_parser : Parser (ℕ × ℕ)
unfolding take_urc
udp_read_urc_parser response buffer size p =
    if is_lone_cr buffer size
    then (pending_extra, response, p)
    else take_urc (sscanf buffer (lits (codes "+USORF:") (blank ∷ int ∷ lit b',' ∷ int ∷ [])))
        response p

-- `struct SaraN2UDPPacketMetadata`: a uint8_t, a C string and three ints.
pub record Packet : Type 0 where
  pub socket_id : ℕ
  pub ip : List ℕ
  pub port : ℕ
  pub length : ℕ
  pub remaining_length : ℕ

-- What `sscanf` assigns, in the order of its arguments; it stops at the first that is missing. The
-- array `ip` has 16 characters, and the driver's buffer behind `data` 256.
abbrev pub Received : Type 0
Received = Packet × List ℕ

fill_remaining : List Value → Received → Received
fill_remaining (num w ∷ _) (p, content) = (record p { remaining_length = w }, content)
fill_remaining _ r = r

fill_data : List Value → Received → Received
unfolding fill_remaining
fill_data (text s ∷ rest) (p, content) = fill_remaining rest (p, s)
fill_data _ r = r

fill_length : List Value → Received → Received
unfolding fill_data
fill_length (num w ∷ rest) (p, content) = fill_data rest (record p { length = w }, content)
fill_length _ r = r

fill_port : List Value → Received → Received
unfolding fill_length
fill_port (num w ∷ rest) (p, content) = fill_length rest (record p { port = w }, content)
fill_port _ r = r

fill_ip : List Value → Received → Received
unfolding fill_port
fill_ip (text s ∷ rest) (p, content) = fill_port rest (record p { ip = s }, content)
fill_ip _ r = r

unfoldable pub fill : List Value → Received → Received
unfolding fill_ip
fill (_ ∷ rest) r = fill_ip rest r
fill [] r = r

-- The socket's number, once `n` values are there.
accept_socket : List Value → ResponseType → Received → ResponseType × ResponseType × Received
accept_socket (num socket ∷ _) response (p, content) =
    if is_small socket
    then (empty, response, (record p { socket_id = wrap8 socket }, content))
    else (error, response, (p, content))
accept_socket _ response r = (error, response, r)

abbrev pub nsorf_tail : List Directive → List Directive
nsorf_tail f =
    int
    ∷ lits (codes ",\"") (
        until_quote 16
        ∷ lits (codes "\",")
            (int ∷ lit b',' ∷ int ∷ lits (codes ",\"") (until_quote 256 ∷ lit b'"' ∷ f)))

-- The formats of the two modems.
abbrev pub nsorf_format : List Directive
nsorf_format = nsorf_tail (lit b',' ∷ int ∷ [])

abbrev pub usorf_format : List Directive
usorf_format = lits (codes "+USORF:") (blank ∷ nsorf_tail [])

abbrev pub count : List Value → ℕ
count [] = 0
count (v ∷ vs) = suc (count vs)

-- `_udpReadSocketParser`
unfoldable pub udp_read_socket_parser : Parser Received
unfolding fill accept_socket
udp_read_socket_parser response buffer size r =
    if is_lone_cr buffer size
    then (pending_extra, response, r)
    else let first = sscanf buffer nsorf_format in
      let r' = fill first r in
      if count first == 6
      then accept_socket first response r'
      else let second = sscanf buffer usorf_format in
        let r'' = fill second r' in
        if count second == 5 then accept_socket second response r'' else (error, response, r'')
