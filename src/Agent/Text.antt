-- ===== src/Agent/Text.antt =====
-- The operations on Java texts that the agent uses: `String.split("\n")`, `Integer.parseInt` and
-- the text of an int.
use sag_c8y_nb_iot_demo.Base.{
  ℕ, ◌-◌, ◌%◌, ◌^◌, ◌<◌, ◌≡◌, ◌≢◌, refl, ap, ◌∙◌, true, false, Option, none, some, List, [], ◌∷◌,
  ◌++◌, All, leb, ltb, ◌==◌, if◌then◌else◌, append-nil, arith,
}
use sag_c8y_nb_iot_demo.Device.Print.{decimal}
use sag_c8y_nb_iot_demo.Device.Print.Decimal.{Digit, decimal-Digit, decimal-All, scan_nat-decimal}
use sag_c8y_nb_iot_demo.Scan.{scan_nat}

-- A text on one line.
abbrev pub IsLineText : List ℕ → Type 0
IsLineText s = All (λ c. c ≢ 10) s

abbrev pub onto : ℕ → List (List ℕ) → List (List ℕ)
onto c [] = (c ∷ []) ∷ []
onto c (f ∷ fs) = (c ∷ f) ∷ fs

-- What stands between the newlines.
unfoldable pub fields : List ℕ → List (List ℕ)
fields [] = [] ∷ []
fields (c ∷ s) = let rest = fields s in elim (c == 10) [ true ↦ [] ∷ rest | false ↦ onto c rest ]

abbrev pub kept : List ℕ → List (List ℕ) → List (List ℕ)
kept [] [] = []
kept [] (g ∷ fs) = [] ∷ g ∷ fs
kept (c ∷ f) fs = (c ∷ f) ∷ fs

-- `split` leaves out the empty texts at the end.
unfoldable pub drop_empty : List (List ℕ) → List (List ℕ)
drop_empty [] = []
drop_empty (f ∷ fs) = kept f (drop_empty fs)

-- A text without a newline is the only element, the empty one too.
unfoldable pub split : List ℕ → List (List ℕ)
unfolding fields drop_empty
split [] = [] ∷ []
split (c ∷ s) = drop_empty (fields (c ∷ s))

abbrev pub whole : Option (ℕ × List ℕ) → Option ℕ
whole (some (n, [])) = some n
whole _ = none

abbrev pub positive : Option ℕ → Option ℕ
positive none = none
positive (some n) = if ltb n (2 ^ 31) then some n else none

abbrev pub negative : Option ℕ → Option ℕ
negative none = none
negative (some n) = if leb n (2 ^ 31) then some ((2 ^ 32 - n) % 2 ^ 32) else none

-- `Integer.parseInt`: a sign, and digits to the end; the pattern of 32 bits, and `none` is the
-- exception.
unfoldable pub parse_int : List ℕ → Option ℕ
parse_int [] = none
parse_int (c ∷ s) =
    if c == b'-'
    then negative (whole (scan_nat s))
    else if c == b'+'
    then positive (whole (scan_nat s))
    else positive (whole (scan_nat (c ∷ s)))

-- `"" + n`
unfoldable pub int_text : ℕ → List ℕ
int_text w = if leb (2 ^ 31) w then b'-' ∷ decimal (2 ^ 32 - w) else decimal w

-- Texts with a newline between them.
abbrev pub lines : List (List ℕ) → List ℕ
lines [] = []
lines (f ∷ []) = f
lines (f ∷ g ∷ fs) = f ++ (10 ∷ lines (g ∷ fs))

-- A text that is not empty.
abbrev pub Filled : List ℕ → Type 0
Filled [] = ⊥
Filled (c ∷ s) = Unit

abbrev pub EndsFilled : List (List ℕ) → Type 0
EndsFilled [] = Unit
EndsFilled (f ∷ []) = Filled f
EndsFilled (f ∷ g ∷ fs) = EndsFilled (g ∷ fs)

fields-line : (f : List ℕ) → IsLineText f → fields f ≡ f ∷ []
unfolding fields
fields-line [] h = refl
fields-line (c ∷ f) (hc, hf) =
    let e : (c == 10) ≡ false = ground arith in rw (fields, e) (ap (onto c) (fields-line f hf))

fields-append : (f s : List ℕ) → IsLineText f → fields (f ++ (10 ∷ s)) ≡ f ∷ fields s
unfolding fields
fields-append [] s h = refl
fields-append (c ∷ f) s (hc, hf) =
    let e : (c == 10) ≡ false = ground arith in rw (fields, e) (ap (onto c) (fields-append f s hf))

fields-lines :
    (f : List ℕ) (fs : List (List ℕ)) → All IsLineText (f ∷ fs) → fields (lines (f ∷ fs)) ≡ f ∷ fs
fields-lines f [] (h, _) = fields-line f h
fields-lines f (g ∷ fs) (h, hs) =
    fields-append f (lines (g ∷ fs)) h ∙ ap (λ t. f ∷ t) (fields-lines g fs hs)

drop_empty-EndsFilled : (fs : List (List ℕ)) → EndsFilled fs → drop_empty fs ≡ fs
unfolding drop_empty
drop_empty-EndsFilled [] h = refl
drop_empty-EndsFilled ([] ∷ []) h = absurd h
drop_empty-EndsFilled ((c ∷ f) ∷ []) h = refl
drop_empty-EndsFilled ([] ∷ g ∷ fs) h = ap (kept []) (drop_empty-EndsFilled (g ∷ fs) h)
drop_empty-EndsFilled ((c ∷ f) ∷ g ∷ fs) h = ap (kept (c ∷ f)) (drop_empty-EndsFilled (g ∷ fs) h)

-- Lines that are put together are found again, but for the empty ones at the end.
pub split-drop_empty :
    (f : List ℕ) (fs : List (List ℕ))
    → All IsLineText (f ∷ fs)
    → Filled (lines (f ∷ fs))
    → split (lines (f ∷ fs)) ≡ drop_empty (f ∷ fs)
unfolding split
split-drop_empty f fs h filled = go (lines (f ∷ fs)) filled (fields-lines f fs h)
  where
    go : (s : List ℕ) → Filled s → fields s ≡ f ∷ fs → split s ≡ drop_empty (f ∷ fs)
    go [] k e = absurd k
    go (c ∷ s) k e = ap drop_empty e

-- If the last is not empty, they are all found.
pub split-lines :
    (f : List ℕ) (fs : List (List ℕ))
    → All IsLineText (f ∷ fs)
    → EndsFilled (f ∷ fs)
    → Filled (lines (f ∷ fs))
    → split (lines (f ∷ fs)) ≡ f ∷ fs
split-lines f fs h full filled =
    split-drop_empty f fs h filled ∙ drop_empty-EndsFilled (f ∷ fs) full

kept-cons : (f g : List ℕ) (fs : List (List ℕ)) → kept f (g ∷ fs) ≡ f ∷ g ∷ fs
kept-cons [] g fs = refl
kept-cons (c ∷ f) g fs = refl

-- Of two lines, the second of them not empty, and two empty ones, the two are found.
pub drop_empty-two : (f g : List ℕ) → Filled g → drop_empty (f ∷ g ∷ [] ∷ [] ∷ []) ≡ f ∷ g ∷ []
unfolding drop_empty
drop_empty-two f [] h = absurd h
drop_empty-two f (c ∷ g) h = kept-cons f (c ∷ g) []

parse_int-Digit : (s : List ℕ) → Digit s → parse_int s ≡ positive (whole (scan_nat s))
unfolding parse_int
parse_int-Digit s d =
    let e : (d.first == b'-') ≡ false = ground arith in
    let f : (d.first == b'+') ≡ false = ground arith in rw d.shape (rw (e, f))

-- A number that is printed is read back.
pub parse_int-int_text : (n : ℕ) → n < 2 ^ 31 → parse_int (int_text n) ≡ some n
unfolding int_text
parse_int-int_text n h =
    let e : leb (2 ^ 31) n ≡ false = ground arith in
    let f : ltb n (2 ^ 31) ≡ true = ground arith in
    let d : Digit (decimal n) = rw append-nil at (decimal-Digit n []) in
    rw e (parse_int-Digit (decimal n) d ∙ rw (scan_nat-decimal n (omega arith), f))

-- The text of a number has no newline.
pub int_text-IsLineText : (n : ℕ) → n < 2 ^ 31 → IsLineText (int_text n)
unfolding int_text
int_text-IsLineText n h =
    let e : leb (2 ^ 31) n ≡ false = ground arith in
    rw e (decimal-All (λ c. c ≢ 10) (λ k small. omega arith) n)

pub int_text-Filled : (n : ℕ) → n < 2 ^ 31 → Filled (int_text n)
unfolding int_text
int_text-Filled n h =
    let e : leb (2 ^ 31) n ≡ false = ground arith in
    let d : Digit (decimal n) = rw append-nil at (decimal-Digit n []) in rw e (rw d.shape tt)
