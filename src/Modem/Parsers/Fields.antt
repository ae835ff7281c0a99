-- ===== src/Modem/Parsers/Fields.antt =====
-- The parsers on the lines that the modem writes: each finds the fields of its line.
use sag_c8y_nb_iot_demo.Base.{
  ℕ, ◌^◌, ◌<◌, ◌≡◌, ◌≢◌, refl, sym, ap, ◌∙◌, true, false, All, List, [], ◌∷◌, ◌++◌, append-nil,
  length, ◌==◌, codes, cstr, arith,
}
use sag_c8y_nb_iot_demo.Base.Words.{wrap8}
use sag_c8y_nb_iot_demo.Device.Print.{decimal}
use sag_c8y_nb_iot_demo.Device.Print.Decimal.{NoDigit, NoDigit-nil, NoDigit-cons}
use sag_c8y_nb_iot_demo.Modem.Parsers.{
  create_socket_parser, take_socket, csq_parser, take_csq, is_small, Packet, Received, fill,
  fill_ip, fill_port, fill_length, fill_data, fill_remaining, accept_socket, nsorf_format,
  udp_read_socket_parser,
}
use sag_c8y_nb_iot_demo.Modem.Response.{ResponseType, empty}
use sag_c8y_nb_iot_demo.Scan.{
  Directive, num, text, lit, blank, int, until_quote, lits, is_digit, scan, sscanf,
}
use sag_c8y_nb_iot_demo.Scan.Fields.{scan-lits, scan-int, scan-blank, scan-until_quote}

-- Two numbers with a comma between them.
abbrev pair_text : ℕ → ℕ → List ℕ
pair_text a b = decimal a ++ (b',' ∷ decimal b)

abbrev pair_format : List Directive
pair_format = blank ∷ int ∷ lit b',' ∷ int ∷ []

scan-last : (b : ℕ) → b < 2 ^ 16 → scan (int ∷ []) (decimal b) ≡ num b ∷ []
unfolding scan
scan-last b h = ap (scan (int ∷ [])) (sym (append-nil (decimal b))) ∙ scan-int b [] [] h NoDigit-nil

comma : (s : List ℕ) → NoDigit (b',' ∷ s)
unfolding is_digit
comma s = NoDigit-cons b',' s refl

scan-pair :
    (a b : ℕ)
    → a < 2 ^ 16
    → b < 2 ^ 16
    → (scan pair_format (b' ' ∷ pair_text a b) ≡ num a ∷ num b ∷ [])
      × (scan pair_format (pair_text a b) ≡ num a ∷ num b ∷ [])
unfolding scan
scan-pair a b ha hb =
    let both = scan-blank a (lit b',' ∷ int ∷ []) (b',' ∷ decimal b) ha (comma (decimal b)) in
    let last = ap (λ t. num a ∷ t) (scan-last b hb) in (both.0 ∙ last, both.1 ∙ last)

-- A report of two numbers behind a prefix, with a blank or without.
pub sscanf-pair :
    (prefix buffer : List ℕ) (a b : ℕ)
    → a < 2 ^ 16
    → b < 2 ^ 16
    → cstr buffer ≡ prefix ++ (b' ' ∷ pair_text a b)
    → sscanf buffer (lits prefix pair_format) ≡ num a ∷ num b ∷ []
unfolding sscanf
sscanf-pair prefix buffer a b ha hb shape =
    rw shape (scan-lits prefix pair_format (b' ' ∷ pair_text a b) ∙ (scan-pair a b ha hb).0)

-- A signal report with two numbers of 16 bits gives these numbers, whatever was there before, and an
-- OK may follow.
csq_parser-pair :
    (response : ResponseType) (buffer : List ℕ) (size rssi ber : ℕ) (before : ℕ × ℕ)
    → rssi < 2 ^ 16
    → ber < 2 ^ 16
    → cstr buffer ≡ codes "+CSQ:" ++ (b' ' ∷ decimal rssi ++ (b',' ∷ decimal ber))
    → csq_parser response buffer size before ≡ (empty, response, (rssi, ber))
unfolding csq_parser take_csq
csq_parser-pair response buffer size rssi ber before hr hb shape =
    ap (λ v. take_csq v response before) (sscanf-pair (codes "+CSQ:") buffer rssi ber hr hb shape)

-- The number of a new socket, cut to the eight bits that it is kept in.
pub create_socket_parser-decimal :
    (response : ResponseType) (buffer : List ℕ) (size socket before : ℕ)
    → socket < 2 ^ 16
    → cstr buffer ≡ decimal socket
    → create_socket_parser response buffer size before ≡ (empty, response, wrap8 socket)
unfolding create_socket_parser take_socket sscanf
create_socket_parser-decimal response buffer size socket before h shape =
    ap (λ v. take_socket v response before) (ap (scan (int ∷ [])) shape ∙ scan-last socket h)

-- The answer of a SARA N2 to a request for received bytes, from its end: the content, the length,
-- the port, the address and the socket, each with what follows.
abbrev content_text : Packet → List ℕ → List ℕ
content_text p content = content ++ (b'"' ∷ b',' ∷ decimal p.remaining_length)

abbrev length_text : Packet → List ℕ → List ℕ
length_text p content = decimal p.length ++ (b',' ∷ b'"' ∷ content_text p content)

abbrev port_text : Packet → List ℕ → List ℕ
port_text p content = decimal p.port ++ (b',' ∷ length_text p content)

abbrev ip_text : Packet → List ℕ → List ℕ
ip_text p content = p.ip ++ (b'"' ∷ b',' ∷ port_text p content)

abbrev pub nsorf_line : Packet → List ℕ → List ℕ
nsorf_line p content = decimal p.socket_id ++ (b',' ∷ b'"' ∷ ip_text p content)

abbrev content_format : List Directive
content_format = until_quote 256 ∷ lit b'"' ∷ lit b',' ∷ int ∷ []

abbrev length_format : List Directive
length_format = int ∷ lit b',' ∷ lit b'"' ∷ content_format

abbrev port_format : List Directive
port_format = int ∷ lit b',' ∷ length_format

abbrev ip_format : List Directive
ip_format = until_quote 16 ∷ lit b'"' ∷ lit b',' ∷ port_format

-- A quoted text that is not empty.
pub record IsQuoted (s : List ℕ) : Type 0 where
  pub first : ℕ
  pub others : List ℕ
  pub shape : s ≡ first ∷ others
  pub unquoted : All (λ c. c ≢ b'"') (first ∷ others)

pub scan-IsQuoted :
    (n : ℕ) (s : List ℕ) (f : List Directive) (rest : List ℕ)
    → IsQuoted s
    → length s < n
    → scan (until_quote n ∷ f) (s ++ (b'"' ∷ rest)) ≡ text s ∷ scan f (b'"' ∷ rest)
scan-IsQuoted n s f rest q small =
    let fit : length (q.first ∷ q.others) < n = rw q.shape at small in
    rw q.shape (scan-until_quote n q.first q.others f rest q.unquoted fit)

-- The fields are in the ranges that the parser has room for: the address in an array of 16.
pub record IsPacket (p : Packet) : Type 0 where
  pub socket_id : p.socket_id < 256
  pub ip : IsQuoted p.ip
  pub ip_fits : length p.ip < 16
  pub port : p.port < 2 ^ 16
  pub length : p.length < 2 ^ 16
  pub remaining_length : p.remaining_length < 2 ^ 16

module _ (p : Packet) (content : List ℕ) (h : IsPacket p) (q : IsQuoted content)
    (small : length content < 256) where
  content_values :
      scan content_format (content_text p content) ≡ text content ∷ num p.remaining_length ∷ []
  unfolding scan
  content_values =
      scan-IsQuoted 256 content (lit b'"' ∷ lit b',' ∷ int ∷ []) (b',' ∷ decimal p.remaining_length)
        q small
      ∙ ap (λ t. text content ∷ t) (scan-last p.remaining_length h.remaining_length)

  port_values :
      scan port_format (port_text p content)
      ≡ num p.port ∷ num p.length ∷ text content ∷ num p.remaining_length ∷ []
  unfolding scan
  port_values =
      scan-int p.port (lit b',' ∷ length_format) (b',' ∷ length_text p content) h.port
        (comma (length_text p content))
      ∙ ap (λ t. num p.port ∷ t)
          (scan-int p.length (lit b',' ∷ lit b'"' ∷ content_format)
              (b',' ∷ b'"' ∷ content_text p content) h.length
              (comma (b'"' ∷ content_text p content))
            ∙ ap (λ t. num p.length ∷ t) content_values)

  nsorf_values :
      scan nsorf_format (nsorf_line p content)
      ≡ num p.socket_id
        ∷ text p.ip
        ∷ num p.port
        ∷ num p.length
        ∷ text content
        ∷ num p.remaining_length
        ∷ []
  unfolding scan
  nsorf_values =
      scan-int p.socket_id (lit b',' ∷ lit b'"' ∷ ip_format) (b',' ∷ b'"' ∷ ip_text p content)
        (omega (arith, h.socket_id)) (comma (b'"' ∷ ip_text p content))
      ∙ ap (λ t. num p.socket_id ∷ t)
          (scan-IsQuoted 16 p.ip (lit b'"' ∷ lit b',' ∷ port_format) (b',' ∷ port_text p content)
              h.ip h.ip_fits
            ∙ ap (λ t. text p.ip ∷ t) port_values)

-- The answer's six fields are all found, whatever stood in the variables before, if the numbers are
-- in their ranges, and the two texts are not empty, have no quote, and fit their arrays: the address
-- has at most 15 characters, the content at most 255.
pub udp_read_socket_parser-nsorf_line :
    (response : ResponseType) (buffer : List ℕ) (size : ℕ) (before : Received) (p : Packet)
    (content : List ℕ)
    → 1 < size
    → IsPacket p
    → IsQuoted content
    → length content < 256
    → cstr buffer ≡ nsorf_line p content
    → udp_read_socket_parser response buffer size before ≡ (empty, response, (p, content))
unfolding udp_read_socket_parser sscanf fill fill_ip fill_port fill_length fill_data fill_remaining
    accept_socket
udp_read_socket_parser-nsorf_line response buffer size before p content hs h q fit shape =
    let one : (size == 1) ≡ false = ground arith in
    let small : is_small p.socket_id ≡ true = ground (arith, h.socket_id) in
    let id : wrap8 p.socket_id ≡ p.socket_id = omega (arith, h.socket_id) in
    rw (one, shape, nsorf_values p content h q fit, small, id)
