-- ===== src/Node/Storage.antt =====
-- The password in the EEPROM: what `writePW` stores, `readPW` finds.
use sag_c8y_nb_iot_demo.Base.{
  ℕ, zero, suc, ◌+◌, ◌≤◌, ◌<◌, ◌≡◌, ◌≢◌, refl, sym, ap, ◌∙◌, inl, inr, false, Bool-cases, All, List,
  [], ◌∷◌, ◌++◌, length, length-blit, take, get_or, set, blit, ◌==◌, ==_iff, if◌then◌else◌, cstr,
  arith,
}
use sag_c8y_nb_iot_demo.Node.{update, write_pw_from, write_pw, read_pw, clear_eeprom}

set-same : (e : List ℕ) (i : ℕ) → set e i (get_or e i 0) ≡ e
set-same [] i = refl
set-same (c ∷ e) zero = refl
set-same (c ∷ e) (suc i) = ap (λ t. c ∷ t) (set-same e i)

-- Leaving out the writes that change nothing changes nothing.
pub update-set : (e : List ℕ) (i v : ℕ) → update e i v ≡ set e i v
unfolding update
update-set e i v = elim (Bool-cases (get_or e i 0 == v)) [
  | inl same ↦
      let f : v ≡ get_or e i 0 = sym ((==_iff _ _).0 same) in
      rw same (sym (set-same e i) ∙ ap (set e i) (sym f))
  | inr differs ↦ rw differs
]

-- All that `writePW` does to the cells: the text and its NUL from cell 1 on.
write_pw_from-blit : (i : ℕ) (s e : List ℕ) → write_pw_from i s e ≡ blit e i (s ++ (0 ∷ []))
unfolding write_pw_from
write_pw_from-blit i [] e = update-set e i 0
write_pw_from-blit i (c ∷ s) e = rw (update-set e i c) (write_pw_from-blit (suc i) s (set e i c))

blit-suc : (x : ℕ) (e : List ℕ) (i : ℕ) (s : List ℕ) → blit (x ∷ e) (suc i) s ≡ x ∷ blit e i s
blit-suc x e i [] = refl
blit-suc x e i (c ∷ s) = blit-suc x (set e i c) (suc i) s

abbrev pub IsText : List ℕ → Type 0
IsText s = All (λ c. c ≢ 0) s

cstr-cons : (c : ℕ) (s : List ℕ) → c ≢ 0 → cstr (c ∷ s) ≡ c ∷ cstr s
cstr-cons c s h = let e : (c == 0) ≡ false = ground arith in rw (cstr, e)

-- A text in front of a NUL, read in an array of `k` characters with a NUL behind it.
cstr-take-blit :
    (k : ℕ) (s e : List ℕ)
    → IsText s
    → length s < length e
    → cstr (take k (blit e 0 (s ++ (0 ∷ []))) ++ (0 ∷ [])) ≡ take k s
cstr-take-blit zero s e h fits = refl
cstr-take-blit (suc k) s [] h fits = absurd (omega arith)
cstr-take-blit (suc k) [] (x ∷ e) h fits = refl
cstr-take-blit (suc k) (c ∷ s) (x ∷ e) (hc, hs) fits = rw (blit-suc c e 0 (s ++ (0 ∷ []))) (
    cstr-cons c (take k (blit e 0 (s ++ (0 ∷ []))) ++ (0 ∷ [])) hc
    ∙ ap (λ t. c ∷ t) (cstr-take-blit k s e hs (omega arith)))

-- A password without NULs that fits the EEPROM, written over whatever stood there, is read back as
-- its first 20 characters: all of it, if it has no more than that.
pub read_pw-write_pw :
    (passw eeprom : List ℕ)
    → IsText passw
    → length passw + 2 ≤ length eeprom
    → cstr (read_pw (write_pw passw eeprom)) ≡ take 20 passw
unfolding read_pw write_pw
read_pw-write_pw passw [] h fits = absurd (omega arith)
read_pw-write_pw passw (x ∷ e) h fits =
    rw (write_pw_from-blit 1 passw (x ∷ e), blit-suc x e 0 (passw ++ (0 ∷ [])))
      (cstr-take-blit 20 passw e h (omega arith))

-- `writePW` does not change the size of the EEPROM.
pub length-write_pw : (passw eeprom : List ℕ) → length (write_pw passw eeprom) ≡ length eeprom
unfolding write_pw
length-write_pw passw eeprom =
    ap length (write_pw_from-blit 1 passw eeprom) ∙ length-blit eeprom 1 (passw ++ (0 ∷ []))

zeros : List ℕ → List ℕ
zeros [] = []
zeros (c ∷ e) = 0 ∷ zeros e

-- After `clearEEPROM` every cell holds 0, and there is no password.
pub clear_eeprom-All :
    (eeprom : List ℕ)
    → All (λ c. c ≡ 0) (clear_eeprom eeprom) × (length (clear_eeprom eeprom) ≡ length eeprom)
unfolding clear_eeprom
clear_eeprom-All [] = (tt, refl)
clear_eeprom-All (c ∷ e) =
    let (cleared, same) = clear_eeprom-All e in ((zero_cell c, cleared), ap suc same)
  where
    zero_cell : (c : ℕ) → (if c == 0 then c else 0) ≡ 0
    zero_cell c = ground arith
