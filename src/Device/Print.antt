-- ===== src/Device/Print.antt =====
-- Sodaq_AT_Device.cpp, the writing half: what goes out on the serial line.
pub mod Decimal
use sag_c8y_nb_iot_demo.Base.{
  ℕ, zero, suc, ◌+◌, ◌-◌, ◌/◌, ◌%◌, true, false, List, [], ◌∷◌, ◌++◌, ◌==◌, if◌then◌else◌,
}
use sag_c8y_nb_iot_demo.Base.Words.{is_neg16, neg16}
use sag_c8y_nb_iot_demo.Device.{Device, M, ◌>>=◌, ◌>>◌, modify}

-- The digits of a number in front of `out`; a number below 2 ^ 32 has at most ten.
digits : ℕ → ℕ → List ℕ → List ℕ
digits zero n out = out
digits (suc fuel) n out = elim (n / 10 == 0) [
  | true ↦ (b'0' + n % 10) ∷ out
  | false ↦ digits fuel (n / 10) ((b'0' + n % 10) ∷ out)
]

-- `print(unsigned, DEC)`, `String(unsigned)`
unfoldable pub decimal : ℕ → List ℕ
unfolding digits
decimal n = digits 10 n []

-- `print(int, DEC)`, `String(int)`, from the pattern
unfoldable pub decimal_int : ℕ → List ℕ
unfolding decimal
decimal_int w = if is_neg16 w then b'-' ∷ decimal (neg16 w) else decimal w

-- `writeProlog`; its text goes to the debug stream.
unfoldable pub write_prolog : M (Unit {0})
write_prolog = modify (λ d. record d { append_command = true })

-- `writeByte`
unfoldable pub write_byte : ℕ → M (Unit {0})
write_byte value = modify (λ d. record d { output = d.output ++ (value ∷ []) })

-- `print`, for each type of argument the text that the stream prints
unfoldable pub print : List ℕ → M (Unit {0})
unfolding write_prolog
print text = do write_prolog; modify (λ d. record d { output = d.output ++ text })

-- `println(void)`: a carriage return, and the next `print` starts a command.
unfoldable pub print_cr : M (Unit {0})
unfolding print
print_cr = do print (b'\r' ∷ []); modify (λ d. record d { append_command = false })

-- `println(text)`
unfoldable pub println : List ℕ → M (Unit {0})
unfolding print print_cr
println text = do print text; print_cr
