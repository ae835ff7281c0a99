-- ===== src/Scan.antt =====
-- The parts of C's `sscanf` that ATT_NBIOT.cpp uses, on C strings of bytes.
pub mod Fields
use sag_c8y_nb_iot_demo.Base.{
  ℕ, zero, suc, ◌+◌, ◌-◌, ◌*◌, Bool, true, false, ◌&&◌, ◌||◌, Option, none, some, List, [], ◌∷◌,
  length, ltb, leb, ◌==◌, if◌then◌else◌, cstr,
}
use sag_c8y_nb_iot_demo.Base.Words.{wrap16, neg16}

-- `%d`, `%*d`, `%[^"]` and `%s`; a literal byte, and white space, which stands for any run of it. The
-- two text conversions carry the size of the array that they fill, which C does not see.
pub data Directive : Type 0 where
  lit : ℕ → Directive
  blank int skip_int : Directive
  until_quote word : ℕ → Directive

-- What a conversion assigns: an int by its pattern, or the bytes of a text.
pub data Value : Type 0 where
  num : ℕ → Value
  text : List ℕ → Value

abbrev pub lits : List ℕ → List Directive → List Directive
lits [] f = f
lits (c ∷ s) f = lit c ∷ lits s f

unfoldable pub is_space : ℕ → Bool
is_space c = (c == b' ') || (leb 9 c && leb c 13)

unfoldable pub is_digit : ℕ → Bool
is_digit c = leb b'0' c && leb c b'9'

unfoldable pub skip_space : List ℕ → List ℕ
unfolding is_space
skip_space [] = []
skip_space (c ∷ s) = elim (is_space c) [ true ↦ skip_space s | false ↦ c ∷ s ]

-- The digits at the front, behind `n`.
unfoldable pub scan_digits : List ℕ → ℕ → ℕ × List ℕ
unfolding is_digit
scan_digits [] n = (n, [])
scan_digits (c ∷ s) n = elim (is_digit c) [
  | true ↦ scan_digits s (n * 10 + (c - b'0'))
  | false ↦ (n, c ∷ s)
]

-- One digit at least.
unfoldable pub scan_nat : List ℕ → Option (ℕ × List ℕ)
unfolding is_digit scan_digits
scan_nat [] = none
scan_nat (c ∷ s) = if is_digit c then some (scan_digits (c ∷ s) 0) else none

abbrev pub map_first : (ℕ → ℕ) → Option (ℕ × List ℕ) → Option (ℕ × List ℕ)
map_first f none = none
map_first f (some (n, s)) = some (f n, s)

-- `%d` behind the white space; the value is cut to 16 bits.
unfoldable pub scan_int : List ℕ → Option (ℕ × List ℕ)
unfolding scan_nat
scan_int [] = none
scan_int (c ∷ s) =
    if c == b'-'
    then map_first neg16 (scan_nat s)
    else if c == b'+'
    then map_first wrap16 (scan_nat s)
    else map_first wrap16 (scan_nat (c ∷ s))

-- The bytes before the first that satisfies `stop`, and the rest.
unfoldable pub span_until : (ℕ → Bool) → List ℕ → List ℕ × List ℕ
span_until stop [] = ([], [])
span_until stop (c ∷ s) = elim (stop c) [
  | true ↦ ([], c ∷ s)
  | false ↦ let (taken, rest) = span_until stop s in (c ∷ taken, rest)
]

-- A text is converted if it is not empty, and fits an array of `n` with its NUL.
abbrev pub fits : List ℕ → ℕ → Bool
fits t n = ltb 0 (length t) && ltb (length t) n

-- The values assigned before the first failure; their number is what `sscanf` returns (for an
-- input that ends before the first conversion 0, where C has -1). A text that does not fit its array
-- with the NUL behind it overruns the array in C, which defines nothing from there on; here the
-- conversion fails, and what is proved of a text that is read asks that it fits.
unfoldable pub scan : List Directive → List ℕ → List Value
unfolding skip_space scan_int span_until is_space
scan [] s = []
scan (lit c ∷ f) [] = []
scan (lit c ∷ f) (x ∷ s) = elim (x == c) [ true ↦ scan f s | false ↦ [] ]
scan (blank ∷ f) s = scan f (skip_space s)
scan (int ∷ f) s = elim (scan_int (skip_space s)) [ none ↦ [] | some (w, r) ↦ num w ∷ scan f r ]
scan (skip_int ∷ f) s = elim (scan_int (skip_space s)) [ none ↦ [] | some (w, r) ↦ scan f r ]
scan (until_quote n ∷ f) s =
    let (t, r) = span_until (λ c. c == b'"') s in
    elim (fits t n) [ true ↦ text t ∷ scan f r | false ↦ [] ]
scan (word n ∷ f) s =
    let (t, r) = span_until is_space (skip_space s) in
    elim (fits t n) [ true ↦ text t ∷ scan f r | false ↦ [] ]

-- `sscanf(buffer, format, …)`
unfoldable pub sscanf : List ℕ → List Directive → List Value
unfolding scan
sscanf buffer format = scan format (cstr buffer)
