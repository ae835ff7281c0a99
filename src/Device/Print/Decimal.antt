-- ===== src/Device/Print/Decimal.antt =====
-- The numbers that the driver prints are the numbers that its `sscanf` formats read.
use sag_c8y_nb_iot_demo.Base.{
  ℕ, zero, suc, ◌+◌, ◌-◌, ◌*◌, ◌/◌, ◌%◌, ◌^◌, ◌≤◌, ◌<◌, ◌≡◌, refl, ap, ◌∙◌, inl, inr, true, false,
  ◌&&◌, Bool-cases, All, some, List, [], ◌∷◌, ◌++◌, ◌==◌, ==_iff, leb, arith,
}
use sag_c8y_nb_iot_demo.Base.Words.{wrap16}
use sag_c8y_nb_iot_demo.Device.Print.{digits, decimal}
use sag_c8y_nb_iot_demo.Scan.{is_digit, is_space, scan_digits, scan_nat, scan_int, skip_space}

-- A text that a digit begins.
pub record Digit (s : List ℕ) : Type 0 where
  pub first : ℕ
  pub others : List ℕ
  pub shape : s ≡ first ∷ others
  pub low : b'0' ≤ first
  pub high : first ≤ b'9'

here : (c : ℕ) (s : List ℕ) → b'0' ≤ c → c ≤ b'9' → Digit (c ∷ s)
here c s lo hi = record { first = c; others = s; shape = refl; low = lo; high = hi }

-- Further digits stand in front of a digit.
digits-Digit : (fuel n c : ℕ) (out : List ℕ) → b'0' ≤ c → c ≤ b'9' → Digit (digits fuel n (c ∷ out))
unfolding digits
digits-Digit zero n c out lo hi = here c out lo hi
digits-Digit (suc fuel) n c out lo hi = elim (Bool-cases (n / 10 == 0)) [
  | inl last ↦ rw (digits, last) (here (b'0' + n % 10) (c ∷ out) (omega arith) (omega arith))
  | inr more ↦
      rw (digits, more)
        (digits-Digit fuel (n / 10) (b'0' + n % 10) (c ∷ out) (omega arith) (omega arith))
]

digits-suc-Digit : (fuel n : ℕ) (out : List ℕ) → Digit (digits (suc fuel) n out)
unfolding digits
digits-suc-Digit fuel n out = elim (Bool-cases (n / 10 == 0)) [
  | inl last ↦ rw (digits, last) (here (b'0' + n % 10) out (omega arith) (omega arith))
  | inr more ↦
      rw (digits, more) (digits-Digit fuel (n / 10) (b'0' + n % 10) out (omega arith) (omega arith))
]

digits-append :
    (fuel n : ℕ) (out rest : List ℕ) → digits fuel n out ++ rest ≡ digits fuel n (out ++ rest)
unfolding digits
digits-append zero n out rest = refl
digits-append (suc fuel) n out rest = elim (Bool-cases (n / 10 == 0)) [
  | inl last ↦ rw (digits, last)
  | inr more ↦ rw (digits, more) (digits-append fuel (n / 10) ((b'0' + n % 10) ∷ out) rest)
]

-- Reading a digit.
scan_digits-cons :
    (k m : ℕ) (s : List ℕ) → k < 10 → scan_digits ((b'0' + k) ∷ s) m ≡ scan_digits s (m * 10 + k)
unfolding scan_digits is_digit
scan_digits-cons k m s h =
    let e : (leb b'0' (b'0' + k) && leb (b'0' + k) b'9') ≡ true = ground arith in
    let f : b'0' + k - b'0' ≡ k = omega arith in rw (scan_digits, e, f)

abbrev ten_to : ℕ → ℕ
ten_to zero = 1
ten_to (suc n) = ten_to n * 10

-- With a digit for each power of ten, the digits are read back.
scan_digits-digits :
    (fuel n : ℕ) (out : List ℕ)
    → n < ten_to fuel
    → scan_digits (digits fuel n out) 0 ≡ scan_digits out n
unfolding digits
scan_digits-digits zero n out h = let e : n ≡ 0 = omega arith in rw e
scan_digits-digits (suc fuel) n out h = elim (Bool-cases (n / 10 == 0)) [
  | inl last ↦
      let e : n / 10 ≡ 0 = (==_iff _ _).0 last in
      let f : 0 * 10 + n % 10 ≡ n = omega arith in
      rw (digits, last) (scan_digits-cons (n % 10) 0 out (omega arith) ∙ ap (scan_digits out) f)
  | inr more ↦
      let f : n / 10 * 10 + n % 10 ≡ n = omega arith in
      rw (digits, more)
        (scan_digits-digits fuel (n / 10) ((b'0' + n % 10) ∷ out) (omega arith)
          ∙ scan_digits-cons (n % 10) (n / 10) out (omega arith)
          ∙ ap (scan_digits out) f)
]

-- No digit goes on with a number at the front of such a text.
pub record NoDigit (s : List ℕ) : Type 0 where
  pub stops : (n : ℕ) → scan_digits s n ≡ (n, s)

pub NoDigit-nil : NoDigit []
unfolding scan_digits
NoDigit-nil = record { stops = λ n. refl }

pub NoDigit-cons : (c : ℕ) (s : List ℕ) → is_digit c ≡ false → NoDigit (c ∷ s)
unfolding scan_digits
NoDigit-cons c s h = record { stops = λ n. rw (scan_digits, h) }

-- A text with a digit in front: there is no white space to skip and no sign.
skip_space-Digit : (s : List ℕ) → Digit s → skip_space s ≡ s
unfolding skip_space is_space
skip_space-Digit s d =
    let e : is_space d.first ≡ false = ground arith in rw d.shape (rw (skip_space, e))

scan_int-Digit :
    (s : List ℕ) → Digit s → scan_int s ≡ some (wrap16 (scan_digits s 0).0, (scan_digits s 0).1)
unfolding scan_int scan_nat is_digit
scan_int-Digit s d =
    let e : (d.first == b'-') ≡ false = ground arith in
    let f : (d.first == b'+') ≡ false = ground arith in
    let g : (leb b'0' d.first && leb d.first b'9') ≡ true = ground arith in
    rw d.shape (rw (e, f, g))

-- A printed number starts with a digit.
pub decimal-Digit : (n : ℕ) (rest : List ℕ) → Digit (decimal n ++ rest)
unfolding decimal
decimal-Digit n rest = rw (digits-append 10 n [] rest) (digits-suc-Digit 9 n rest)

-- White space in front of a printed number ends at it.
pub skip_space-decimal :
    (n : ℕ) (rest : List ℕ) → skip_space (decimal n ++ rest) ≡ decimal n ++ rest
unfolding decimal
skip_space-decimal n rest =
    let whole : digits 10 n [] ++ rest ≡ digits 10 n rest = digits-append 10 n [] rest in
    rw whole (skip_space-Digit (digits 10 n rest) (digits-suc-Digit 9 n rest))

-- A printed number of 16 bits in front of anything but a digit is read back by `%d`, with or
-- without white space before it.
pub scan_int-decimal :
    (n : ℕ) (rest : List ℕ)
    → n < 2 ^ 16
    → NoDigit rest
    → scan_int (skip_space (decimal n ++ rest)) ≡ some (n, rest)
unfolding decimal
scan_int-decimal n rest h stop =
    let shape = digits-suc-Digit 9 n rest in
    let whole : digits 10 n [] ++ rest ≡ digits 10 n rest = digits-append 10 n [] rest in
    let value = scan_digits-digits 10 n rest (omega arith) ∙ stop.stops n in
    let small : n % 2 ^ 16 ≡ n = omega arith in
    rw (whole, skip_space-Digit (digits 10 n rest) shape)
      (scan_int-Digit (digits 10 n rest) shape ∙ λ i. some (wrap16 (value i).0, (value i).1))
    ∙ λ i. some (small i, rest)

scan_nat-Digit : (s : List ℕ) → Digit s → scan_nat s ≡ some (scan_digits s 0)
unfolding scan_nat is_digit
scan_nat-Digit s d =
    let g : (leb b'0' d.first && leb d.first b'9') ≡ true = ground arith in rw d.shape (rw g)

-- A printed number of ten digits at most is read to its end.
pub scan_nat-decimal : (n : ℕ) → n < 10 ^ 10 → scan_nat (decimal n) ≡ some (n, [])
unfolding decimal scan_digits
scan_nat-decimal n h =
    scan_nat-Digit (digits 10 n []) (digits-suc-Digit 9 n [])
    ∙ ap some (scan_digits-digits 10 n [] (omega arith))

digits-All :
    (P : ℕ → Type 0)
    → ((k : ℕ) → k < 10 → P (b'0' + k))
    → (fuel n : ℕ) (out : List ℕ) → All P out
    → All P (digits fuel n out)
unfolding digits
digits-All P h zero n out k = k
digits-All P h (suc fuel) n out k = elim (Bool-cases (n / 10 == 0)) [
  | inl last ↦ rw (digits, last) (h (n % 10) (omega arith), k)
  | inr more ↦
      rw (digits, more)
        (digits-All P h fuel (n / 10) ((b'0' + n % 10) ∷ out) (h (n % 10) (omega arith), k))
]

-- What holds of the ten digits holds of a printed number.
pub decimal-All : (P : ℕ → Type 0) → ((k : ℕ) → k < 10 → P (b'0' + k)) → (n : ℕ) → All P (decimal n)
unfolding decimal
decimal-All P h n = digits-All P h 10 n [] tt
