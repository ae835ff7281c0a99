-- ===== src/Scan/Fields.antt =====
-- What each directive of a format does on a text that has the shape the format asks for.
use sag_c8y_nb_iot_demo.Base.{
  ℕ, ◌^◌, ◌<◌, ◌≡◌, ◌≢◌, refl, ap, ◌∙◌, true, false, All, Option, none, some, List, [], ◌∷◌, ◌++◌,
  length, ◌==◌, ==_iff, arith,
}
use sag_c8y_nb_iot_demo.Device.Print.{decimal}
use sag_c8y_nb_iot_demo.Device.Print.Decimal.{NoDigit, scan_int-decimal, skip_space-decimal}
use sag_c8y_nb_iot_demo.Scan.{
  Directive, Value, blank, int, until_quote, num, text, lits, is_space, skip_space, scan_int,
  span_until, fits, scan,
}

pub scan-lits :
    (s : List ℕ) (f : List Directive) (rest : List ℕ) → scan (lits s f) (s ++ rest) ≡ scan f rest
unfolding scan
scan-lits [] f rest = refl
scan-lits (c ∷ s) f rest =
    let e : (c == c) ≡ true = (==_iff c c).1 refl in rw (scan, e) (scan-lits s f rest)

after_int : List Directive → Option (ℕ × List ℕ) → List Value
after_int f none = []
after_int f (some (w, r)) = num w ∷ scan f r

scan-after_int :
    (f : List Directive) (s : List ℕ) → scan (int ∷ f) s ≡ after_int f (scan_int (skip_space s))
unfolding scan after_int
scan-after_int f s = go (scan_int (skip_space s))
  where
    go :
        (o : Option (ℕ × List ℕ))
        → elim o [ none ↦ [] | some (w, r) ↦ num w ∷ scan f r ] ≡ after_int f o
    go none = refl
    go (some (w, r)) = refl

-- `%d` reads a printed number.
pub scan-int :
    (n : ℕ) (f : List Directive) (rest : List ℕ)
    → n < 2 ^ 16
    → NoDigit rest
    → scan (int ∷ f) (decimal n ++ rest) ≡ num n ∷ scan f rest
unfolding after_int
scan-int n f rest h stop =
    scan-after_int f (decimal n ++ rest) ∙ ap (after_int f) (scan_int-decimal n rest h stop)

-- White space in a format stands for the blank that the modem writes, and for none.
pub scan-blank :
    (n : ℕ) (f : List Directive) (rest : List ℕ)
    → n < 2 ^ 16
    → NoDigit rest
    → (scan (blank ∷ int ∷ f) (b' ' ∷ decimal n ++ rest) ≡ num n ∷ scan f rest)
      × (scan (blank ∷ int ∷ f) (decimal n ++ rest) ≡ num n ∷ scan f rest)
unfolding scan skip_space is_space
scan-blank n f rest h stop = (
  ap (scan (int ∷ f)) (skip_space-decimal n rest) ∙ scan-int n f rest h stop,
  ap (scan (int ∷ f)) (skip_space-decimal n rest) ∙ scan-int n f rest h stop,
)

span_until-append :
    (s rest : List ℕ)
    → All (λ c. c ≢ b'"') s
    → span_until (λ c. c == b'"') (s ++ (b'"' ∷ rest)) ≡ (s, b'"' ∷ rest)
unfolding span_until
span_until-append [] rest h = refl
span_until-append (c ∷ s) rest (hc, hs) =
    let e : (c == b'"') ≡ false = ground arith in
    rw (span_until, e) (ap (λ p. (c ∷ p.0, p.1)) (span_until-append s rest hs))

after_text : ℕ → List Directive → List ℕ × List ℕ → List Value
after_text n f (t, r) = elim (fits t n) [ true ↦ text t ∷ scan f r | false ↦ [] ]

-- `%[^"]` reads a text that is not empty, has no quote and fits its array of `n`, up to the quote
-- behind it.
pub scan-until_quote :
    (n c : ℕ) (s : List ℕ) (f : List Directive) (rest : List ℕ)
    → All (λ c. c ≢ b'"') (c ∷ s)
    → length (c ∷ s) < n
    → scan (until_quote n ∷ f) ((c ∷ s) ++ (b'"' ∷ rest)) ≡ text (c ∷ s) ∷ scan f (b'"' ∷ rest)
unfolding scan after_text
scan-until_quote n c s f rest h small =
    let e : fits (c ∷ s) n ≡ true = ground arith in
    ap (after_text n f) (span_until-append (c ∷ s) rest h)
    ∙ ap {B = List Value} (λ b. elim b [ true ↦ text (c ∷ s) ∷ scan f (b'"' ∷ rest) | false ↦ [] ])
        e
