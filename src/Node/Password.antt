-- ===== src/Node/Password.antt =====
-- A new password from the server: how the sketch takes it over.
use sag_c8y_nb_iot_demo.Base.{
  ℕ, Bool-cases, inl, inr, Option, zero, suc, ◌+◌, ◌≤◌, ◌<◌, ◌≡◌, ◌≢◌, refl, ap, ◌∙◌, true, false,
  none, some, List, [], ◌∷◌, length, length-take, take, drop, get_or, ltb, ◌==◌, arith,
}
use sag_c8y_nb_iot_demo.Base.Loop.{Returns}
use sag_c8y_nb_iot_demo.Base.Words.{wrap8}
use sag_c8y_nb_iot_demo.Modem.Commands.{set_att_device}
use sag_c8y_nb_iot_demo.Node.{
  Node, add_char, password_loop, write_pw, store_password, take_password, apn,
}
use sag_c8y_nb_iot_demo.Node.Storage.{IsText, read_pw-write_pw}

password_loop-again :
    (fuel i amount : ℕ) (content : List ℕ)
    → i < amount
    → password_loop (suc fuel) i amount content
      ≡ add_char (get_or content i 0) (password_loop fuel (wrap8 (i + 1)) amount content)
unfolding password_loop
password_loop-again fuel i amount content h =
    let e : ltb i amount ≡ true = ground arith in rw (password_loop, e)

password_loop-stop :
    (fuel i : ℕ) (content : List ℕ) → password_loop (suc fuel) i i content ≡ some []
unfolding password_loop
password_loop-stop fuel i content = let e : ltb i i ≡ false = ground arith in rw (password_loop, e)

-- A `byte` never reaches 256: with as many pending bytes or more, the loop that copies the password
-- does not end.
pub password_loop-endless :
    (fuel i amount : ℕ) (content : List ℕ)
    → i < 256
    → 256 ≤ amount
    → password_loop fuel i amount content ≡ none
unfolding password_loop
password_loop-endless zero i amount content hi ha = refl
password_loop-endless (suc fuel) i amount content hi ha =
    password_loop-again fuel i amount content (omega arith)
    ∙ ap (add_char (get_or content i 0))
        (password_loop-endless fuel (wrap8 (i + 1)) amount content (omega arith) ha)

add_char-Returns :
    (c : ℕ) (o : Option (List ℕ)) → Returns (λ _. Unit) o → Returns (λ _. Unit) (add_char c o)
add_char-Returns c none h = h
add_char-Returns c (some s) h = tt

-- With fewer than 256 pending bytes it ends.
pub password_loop-Returns :
    (fuel i amount : ℕ) (content : List ℕ)
    → i ≤ amount
    → amount < 256
    → amount < i + fuel
    → Returns (λ _. Unit) (password_loop fuel i amount content)
unfolding password_loop
password_loop-Returns zero i amount content hi ha hf = absurd (omega arith)
password_loop-Returns (suc fuel) i amount content hi ha hf = elim (Bool-cases (ltb i amount)) [
  | inr stop ↦ rw (password_loop, stop) tt
  | inl go ↦
      let below : i < amount = ground arith in
      rw (password_loop-again fuel i amount content below) (
        add_char-Returns (get_or content i 0) (password_loop fuel (wrap8 (i + 1)) amount content) (
          password_loop-Returns fuel (wrap8 (i + 1)) amount content (omega arith) ha (omega arith)))
]

add_char-text : (c : ℕ) (s : List ℕ) → c ≢ 0 → add_char c (some s) ≡ some (c ∷ s)
add_char-text c s h = let e : (c == 0) ≡ false = ground arith in rw e

drop-get_or :
    (i : ℕ) (s : List ℕ)
    → i < length s
    → IsText s
    → (drop i s ≡ get_or s i 0 ∷ drop (suc i) s) × (get_or s i 0 ≢ 0)
drop-get_or i [] h t = absurd (omega arith)
drop-get_or zero (c ∷ s) h (tc, ts) = (refl, tc)
drop-get_or (suc i) (c ∷ s) h (tc, ts) = drop-get_or i s (omega arith) ts

password_loop-rest :
    (fuel i left : ℕ) (content : List ℕ)
    → i + left < 256
    → i + left ≤ length content
    → left < fuel
    → IsText content
    → password_loop fuel i (i + left) content ≡ some (take left (drop i content))
password_loop-rest zero i left content h hc hf t = absurd (omega arith)
password_loop-rest (suc fuel) i zero content h hc hf t =
    let e : i + 0 ≡ i = omega arith in rw e (password_loop-stop fuel i content)
password_loop-rest (suc fuel) i (suc left) content h hc hf t =
    let next : wrap8 (i + 1) ≡ suc i = omega arith in
    let whole : i + suc left ≡ suc i + left = omega arith in
    let here = drop-get_or i content (omega arith) t in
    password_loop-again fuel i (i + suc left) content (omega arith)
    ∙ rw (next, whole, here.0)
        (ap (add_char (get_or content i 0)) (
            password_loop-rest fuel (suc i) left content (omega arith) (omega arith) (omega arith)
              t)
          ∙ add_char-text (get_or content i 0) (take left (drop (suc i) content)) here.1)

-- Up to 255 bytes without a NUL are taken as they are.
password_loop-take :
    (amount : ℕ) (content : List ℕ)
    → amount < 256
    → amount ≤ length content
    → IsText content
    → password_loop 257 0 amount content ≡ some (take amount content)
password_loop-take amount content h hc t =
    let e : 0 + amount ≡ amount = omega arith in
    rw e at (password_loop-rest 257 0 amount content (omega arith) (omega arith) (omega arith) t)

IsText-take : (n : ℕ) (s : List ℕ) → IsText s → IsText (take n s)
IsText-take zero s h = tt
IsText-take (suc n) [] h = tt
IsText-take (suc n) (c ∷ s) (hc, hs) = (hc, IsText-take n s hs)

-- The bytes of an incoming datagram, up to 255 and without a NUL, are written to the EEPROM as the
-- password, and the first 20 of them are the device's token from then on; nothing else of the
-- modem's state changes but the access point, which is set again.
pub take_password_lem :
    (amount : ℕ) (content : List ℕ) (n : Node)
    → amount < 256
    → amount ≤ length content
    → IsText content
    → amount + 2 ≤ length n.eeprom
    → take_password amount content n
      ≡ some (record n {
        device = record n.device { device_token = take 20 (take amount content); apn = apn };
        eeprom = write_pw (take amount content) n.eeprom;
      })
unfolding take_password store_password set_att_device
take_password_lem amount content n h hc t room =
    let size = length-take amount content hc in
    rw (password_loop-take amount content h hc t) (λ i. some (record n {
      device = record n.device {
        device_token =
            read_pw-write_pw (take amount content) n.eeprom (IsText-take amount content t)
              (omega (arith, size)) i;
        apn = apn;
      };
      eeprom = write_pw (take amount content) n.eeprom;
    }))
