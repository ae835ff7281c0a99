-- ===== src/Modem/Response/Answers.antt =====
-- Lines that are no report and no final reply: those that begin with a digit.
use sag_c8y_nb_iot_demo.Base.{
  ℕ, ◌≡◌, false, List, [], ◌∷◌, cstr, is_prefix, codes, ◌==◌, arith, refl,
}
use sag_c8y_nb_iot_demo.Device.Print.Decimal.{Digit}
use sag_c8y_nb_iot_demo.Modem.Response.{reply_of}
use sag_c8y_nb_iot_demo.Modem.Response.Dialogue.{IsAnswer}
use sag_c8y_nb_iot_demo.Scan.{Directive, lit, blank, int, word, lits, scan, sscanf}

-- What begins with another byte does not match.
other_byte :
    (c x : ℕ) (s : List ℕ) (f : List Directive) → (x == c) ≡ false → scan (lit c ∷ f) (x ∷ s) ≡ []
unfolding scan
other_byte c x s f h = rw (scan, h) refl

no_prefix : (c x : ℕ) (p s : List ℕ) → (c == x) ≡ false → is_prefix (c ∷ p) (x ∷ s) ≡ false
no_prefix c x p s h = rw (is_prefix, h) refl

-- The rest of the two reports' formats.
abbrev numbers : List ℕ → List Directive
numbers name = lits name (blank ∷ int ∷ lit b',' ∷ int ∷ [])

-- A line that begins with a digit is left to the parser.
pub Digit-IsAnswer : (s : List ℕ) → Digit (cstr s) → IsAnswer s
unfolding sscanf reply_of
Digit-IsAnswer s d = record {
  no_fota = rw d.shape (other_byte b'+' d.first d.others (numbers (codes "UFOTAS:")) plus);
  no_nsonmi = rw d.shape (other_byte b'+' d.first d.others (numbers (codes "NSONMI:")) plus);
  no_cgsn =
      rw d.shape
        (other_byte b'+' d.first d.others (lits (codes "CGSN:") (blank ∷ word 16 ∷ [])) plus);
  plain =
      rw
        (
          d.shape,
          differs b'A' (codes "T") (ground (arith, d.low, d.high)),
          differs b'O' (codes "K") (ground (arith, d.low, d.high)),
          differs b'E' (codes "RROR") (ground (arith, d.low, d.high)),
          differs b'+' (codes "CME ERROR:") (ground (arith, d.low, d.high)),
          differs b'+' (codes "CMS ERROR:") (ground (arith, d.low, d.high)),
        )
        refl;
}
  where
    plus : (d.first == b'+') ≡ false
    plus = ground (arith, d.low, d.high)

    differs :
        (c : ℕ) (p : List ℕ)
        → (c == d.first) ≡ false
        → is_prefix (c ∷ p) (d.first ∷ d.others) ≡ false
    differs c p h = no_prefix c d.first p d.others h
