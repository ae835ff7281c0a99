-- ===== src/Modem/Response/Reports.antt =====
-- What `readResponse` makes of the modem's final replies, its socket reports and its number.
use sag_c8y_nb_iot_demo.Base.{
  ℕ, ◌^◌, ◌<◌, ◌≡◌, refl, ap, ◌∙◌, Bool, true, false, ◌&&◌, All, none, List, [], ◌∷◌, ◌++◌, take,
  length, arith, if◌then◌else◌, codes, cstr,
}
use sag_c8y_nb_iot_demo.Device.{Device}
use sag_c8y_nb_iot_demo.Device.Print.{decimal}
use sag_c8y_nb_iot_demo.Modem.Parsers.Fields.{sscanf-pair}
use sag_c8y_nb_iot_demo.Modem.Response.{
  ResponseType, not_found, ok, error, Wait, Outcome, continues, returns, falls, fota_format,
  nsonmi_format, cgsn_format, on_report, reply_of, other, run_parser, on_reply, on_line,
}
use sag_c8y_nb_iot_demo.Scan.{
  Value, text, word, is_space, skip_space, span_until, fits, scan, sscanf,
}

-- The replies that end a command.
pub data Final : Type 0 where
  ok_reply error_reply cme_reply cms_reply : Final

abbrev pub text_of : Final → List ℕ
text_of ok_reply = codes "OK"
text_of error_reply = codes "ERROR"
text_of cme_reply = codes "+CME ERROR:"
text_of cms_reply = codes "+CMS ERROR:"

abbrev pub type_of : Final → ResponseType
type_of ok_reply = ok
type_of _ = error

-- A report that begins otherwise is no socket report and no firmware report.
no_fota : (s rest : List ℕ) → cstr s ≡ codes "+N" ++ rest → sscanf s fota_format ≡ []
unfolding sscanf scan
no_fota s rest shape = rw shape

no_reports :
    (s rest : List ℕ)
    → cstr s ≡ codes "+C" ++ rest
    → (sscanf s fota_format ≡ []) × (sscanf s nsonmi_format ≡ [])
unfolding sscanf scan
no_reports s rest shape = (rw shape, rw shape)

-- A text without white space.
abbrev pub IsWord : List ℕ → Type 0
IsWord s = All (λ c. is_space c ≡ false) s

span_until-IsWord : (s : List ℕ) → IsWord s → span_until is_space s ≡ (s, [])
unfolding span_until
span_until-IsWord [] h = refl
span_until-IsWord (c ∷ s) (hc, hs) =
    rw (span_until, hc) (ap (λ p. (c ∷ p.0, p.1)) (span_until-IsWord s hs))

after_word : List ℕ × List ℕ → List Value
after_word (t, r) = elim (fits t 16) [ true ↦ text t ∷ [] | false ↦ [] ]

skip_space-IsWord : (c : ℕ) (s : List ℕ) → is_space c ≡ false → skip_space (c ∷ s) ≡ c ∷ s
unfolding skip_space
skip_space-IsWord c s h = rw (skip_space, h)

scan_word :
    (c : ℕ) (s : List ℕ)
    → IsWord (c ∷ s)
    → length (c ∷ s) < 16
    → scan (word 16 ∷ []) (c ∷ s) ≡ text (c ∷ s) ∷ []
unfolding scan after_word
scan_word c s h small =
    let e : fits (c ∷ s) 16 ≡ true = ground arith in
    ap (λ t. after_word (span_until is_space t)) (skip_space-IsWord c s h.0)
    ∙ ap after_word (span_until-IsWord (c ∷ s) h)
    ∙ ap {B = List Value} (λ b. elim b [ true ↦ text (c ∷ s) ∷ [] | false ↦ [] ]) e

-- The number behind `+CGSN:` and a blank.
sscanf-cgsn :
    (s : List ℕ) (c : ℕ) (imei : List ℕ)
    → IsWord (c ∷ imei)
    → length (c ∷ imei) < 16
    → cstr s ≡ codes "+CGSN:" ++ (b' ' ∷ c ∷ imei)
    → sscanf s cgsn_format ≡ text (c ∷ imei) ∷ []
unfolding sscanf scan skip_space is_space
sscanf-cgsn s c imei h small shape =
    rw shape (ap (scan (word 16 ∷ [])) (skip_space-IsWord c imei h.0) ∙ scan_word c imei h small)

-- A line that begins with `+CGSN:` is none of the final replies.
cgsn_reply : (s rest : List ℕ) → cstr s ≡ codes "+CGSN:" ++ rest → reply_of (cstr s) ≡ other
unfolding reply_of
cgsn_reply s rest shape = rw shape

module _ {P : Type 0} where
  no_report : (b : Bool) (o : Outcome P) → on_report (if b then none else none) o ≡ o
  no_report true o = refl
  no_report false o = refl

  -- A line that begins with a final reply ends the wait with OK or with an error, whatever follows
  -- on the line, whatever the parser is and whatever it recorded before; the parameters keep the
  -- values that they have, and the device changes only in that it prints diagnostics again.
  pub on_line-Final :
      (r : Final) (after : List ℕ) (w : Wait P) (s : List ℕ) (count : ℕ) (d : Device)
      → cstr s ≡ text_of r ++ after
      → on_line w s count d ≡ returns (type_of r) w.params (record d { disable_diag = false })
  unfolding on_line on_reply reply_of sscanf scan
  on_line-Final ok_reply after w s count d shape = rw shape (no_report d.is_sara_r4 _)
  on_line-Final error_reply after w s count d shape = rw shape (no_report d.is_sara_r4 _)
  on_line-Final cme_reply after w s count d shape = rw shape (no_report d.is_sara_r4 _)
  on_line-Final cms_reply after w s count d shape = rw shape (no_report d.is_sara_r4 _)

  -- A socket report of a SARA N2, with numbers of 16 bits: the socket and the number of bytes are
  -- kept for the receiving operations, and the wait goes on as it was.
  pub on_line-nsonmi :
      (socket size : ℕ) (w : Wait P) (s : List ℕ) (count : ℕ) (d : Device)
      → socket < 2 ^ 16
      → size < 2 ^ 16
      → d.is_sara_r4 ≡ false
      → cstr s ≡ codes "+NSONMI:" ++ (b' ' ∷ decimal socket ++ (b',' ∷ decimal size))
      → on_line w s count d
        ≡ continues (record d {
          disable_diag = d.disable_diag && false;
          received_socket = socket;
          pending_bytes = size;
        })
  unfolding on_line
  on_line-nsonmi socket size w s count d hs hn n2 shape =
      rw (sscanf-pair (codes "+NSONMI:") s socket size hs hn shape, no_fota s _ shape, n2, shape)

  -- The line with the modem's number of at most 15 characters, in a wait that has no parser, gives
  -- the device its id. The wait goes on for the OK.
  pub on_line-cgsn :
      (c : ℕ) (imei : List ℕ) (w : Wait P) (s : List ℕ) (count : ℕ) (d : Device)
      → IsWord (c ∷ imei)
      → length (c ∷ imei) < 16
      → w.parser ≡ none
      → w.response ≡ not_found
      → cstr s ≡ codes "+CGSN:" ++ (b' ' ∷ c ∷ imei)
      → on_line w s count d
        ≡ falls none not_found w.params
            (record d { disable_diag = false; device_id = take 15 (c ∷ imei) })
  unfolding on_line on_reply run_parser
  on_line-cgsn c imei w s count d h small no_parser no_response shape =
      rw
        (
          sscanf-cgsn s c imei h small shape,
          (no_reports s _ shape).0,
          (no_reports s _ shape).1,
          cgsn_reply s _ shape,
        )
        (no_report d.is_sara_r4 _ ∙ rw (no_parser, no_response))
