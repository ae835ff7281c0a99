-- ===== src/Modem/Parsers/Origin.antt =====
-- Where the address that `_udpReadSocketParser` leaves comes from.
use sag_c8y_nb_iot_demo.Base.{◌≡◌, ◌⊎◌, refl, sym, ℕ, List, [], ◌∷◌, ◌==◌, Bool-cases, inl, inr}
use mathlib.Core.Path.{subst}
use sag_c8y_nb_iot_demo.Modem.Parsers.{
  Received, is_small, is_lone_cr, fill, fill_ip, fill_port, fill_length, fill_data, fill_remaining,
  accept_socket, nsorf_format, usorf_format, count, udp_read_socket_parser,
}
use sag_c8y_nb_iot_demo.Modem.Response.{ResponseType}
use sag_c8y_nb_iot_demo.Scan.{Value, num, text, sscanf}

-- The second value of a line is the address.
abbrev pub HasAddress : List Value → List ℕ → Type 0
HasAddress (_ ∷ text s ∷ _) ip = s ≡ ip
HasAddress _ ip = ⊥

-- The line reports the address, in the format of one of the modems.
abbrev pub Reports : List ℕ → List ℕ → Type 0
Reports line ip =
    HasAddress (sscanf line nsorf_format) ip ⊎ HasAddress (sscanf line usorf_format) ip

-- The address is as before, or the line reports it.
abbrev pub Origin : List ℕ → List ℕ → List ℕ → Type 0
Origin line before ip = (ip ≡ before) ⊎ Reports line ip

fill_remaining-ip : (vs : List Value) (r : Received) → (fill_remaining vs r).0.ip ≡ r.0.ip
unfolding fill_remaining
fill_remaining-ip [] (p, content) = refl
fill_remaining-ip (num w ∷ vs) (p, content) = refl
fill_remaining-ip (text s ∷ vs) (p, content) = refl

fill_data-ip : (vs : List Value) (r : Received) → (fill_data vs r).0.ip ≡ r.0.ip
unfolding fill_data
fill_data-ip [] (p, content) = refl
fill_data-ip (num w ∷ vs) (p, content) = refl
fill_data-ip (text s ∷ vs) (p, content) = fill_remaining-ip vs (p, s)

fill_length-ip : (vs : List Value) (r : Received) → (fill_length vs r).0.ip ≡ r.0.ip
unfolding fill_length
fill_length-ip [] (p, content) = refl
fill_length-ip (num w ∷ vs) (p, content) = fill_data-ip vs (record p { length = w }, content)
fill_length-ip (text s ∷ vs) (p, content) = refl

fill_port-ip : (vs : List Value) (r : Received) → (fill_port vs r).0.ip ≡ r.0.ip
unfolding fill_port
fill_port-ip [] (p, content) = refl
fill_port-ip (num w ∷ vs) (p, content) = fill_length-ip vs (record p { port = w }, content)
fill_port-ip (text s ∷ vs) (p, content) = refl

fill-HasAddress :
    (vs : List Value) (r : Received) → ((fill vs r).0.ip ≡ r.0.ip) ⊎ HasAddress vs (fill vs r).0.ip
unfolding fill fill_ip
fill-HasAddress [] r = inl refl
fill-HasAddress (v ∷ []) (p, content) = inl refl
fill-HasAddress (v ∷ num w ∷ vs) (p, content) = inl refl
fill-HasAddress (v ∷ text s ∷ vs) (p, content) =
    inr (sym (fill_port-ip vs (record p { ip = s }, content)))

accept_socket-ip :
    (vs : List Value) (response : ResponseType) (r : Received)
    → (accept_socket vs response r).2.0.ip ≡ r.0.ip
unfolding accept_socket
accept_socket-ip [] response r = refl
accept_socket-ip (text s ∷ vs) response r = refl
accept_socket-ip (num w ∷ vs) response (p, content) = elim (Bool-cases (is_small w)) [
  | inl small ↦ rw small refl
  | inr large ↦ rw large refl
]

module _ (line : List ℕ) (r : Received) where
  first : Received
  first = fill (sscanf line nsorf_format) r

  second : Received
  second = fill (sscanf line usorf_format) first

  first-Origin : Origin line r.0.ip first.0.ip
  unfolding first
  first-Origin = elim (fill-HasAddress (sscanf line nsorf_format) r) [
    | inl same ↦ inl same
    | inr address ↦ inr (inl address)
  ]

  second-Origin : Origin line r.0.ip second.0.ip
  unfolding second
  second-Origin = elim (fill-HasAddress (sscanf line usorf_format) first) [
    | inl same ↦ subst (λ ip. Origin line r.0.ip ip) (sym same) first-Origin
    | inr address ↦ inr (inr address)
  ]

  -- The parser leaves the address as it is, or takes it from the line.
  pub udp_read_socket_parser-Origin :
      (response : ResponseType) (size : ℕ)
      → Origin line r.0.ip (udp_read_socket_parser response line size r).2.0.ip
  unfolding udp_read_socket_parser first second
  udp_read_socket_parser-Origin response size = elim (Bool-cases (is_lone_cr line size)) [
    | inl lone ↦ rw lone (inl refl)
    | inr full ↦ elim (Bool-cases (count (sscanf line nsorf_format) == 6)) [
      | inl six ↦
          rw (full, six)
            (subst (λ ip. Origin line r.0.ip ip)
              (sym (accept_socket-ip (sscanf line nsorf_format) response first)) first-Origin)
      | inr fewer ↦ elim (Bool-cases (count (sscanf line usorf_format) == 5)) [
        | inl five ↦
            rw (full, fewer, five)
              (subst (λ ip. Origin line r.0.ip ip)
                (sym (accept_socket-ip (sscanf line usorf_format) response second)) second-Origin)
        | inr none_of_them ↦ rw (full, fewer, none_of_them) second-Origin
      ]
    ]
  ]
