-- ===== src/Payload/Bounds.antt =====
-- The builder stays within its buffer, and its contents are what was added.
use sag_c8y_nb_iot_demo.Base.{
  ℕ, suc, ◌+◌, ◌%◌, ◌^◌, ◌≤◌, ◌<◌, ◌≡◌, refl, sym, ap, ◌∙◌, inl, inr, false, Bool-cases, List, [],
  ◌∷◌, ◌++◌, append_assoc, append-nil, length, take, length-set, take-set, length-take, ltb,
  ltb_false→le, if◌then◌else◌, arith,
}
use sag_c8y_nb_iot_demo.Payload.{PayloadBuilder, put, put_all, add_bytes}

pub record IsValid (b : PayloadBuilder) : Type 0 where
  pub block : length b.buffer ≡ b.maxsize
  pub small : b.maxsize < 256
  pub within : b.cursor ≤ b.maxsize

-- What the builder holds.
abbrev pub contents : PayloadBuilder → List ℕ
contents b = take b.cursor b.buffer

pub length-contents : (b : PayloadBuilder) → IsValid b → length (contents b) ≡ b.cursor
length-contents b v = length-take b.cursor b.buffer (omega arith)

put-IsValid : (b : PayloadBuilder) (x : ℕ) → IsValid b → b.cursor < b.maxsize → IsValid (put b x)
put-IsValid b x v h = ground (arith, length-set b.buffer b.cursor x)

contents-put :
    (b : PayloadBuilder) (x : ℕ)
    → IsValid b
    → b.cursor < b.maxsize
    → contents (put b x) ≡ contents b ++ (x ∷ [])
contents-put b x v h =
    let e : (b.cursor + 1) % 2 ^ 8 ≡ suc b.cursor = omega arith in
    rw e (take-set b.buffer b.cursor x (omega arith))

-- All that a sequence of writes does, if it fits.
record Wrote (b b' : PayloadBuilder) (bytes : List ℕ) : Type 0 where
  valid : IsValid b'
  size : b'.cursor ≡ b.cursor + length bytes
  room : b'.maxsize ≡ b.maxsize
  held : contents b' ≡ contents b ++ bytes

put_all-Wrote :
    (b : PayloadBuilder) (bytes : List ℕ)
    → IsValid b
    → b.cursor + length bytes ≤ b.maxsize
    → Wrote b (put_all b bytes) bytes
put_all-Wrote b [] v h = record {
  valid = v;
  size = omega arith;
  room = refl;
  held = sym (append-nil (contents b));
}
put_all-Wrote b (x ∷ bytes) v h =
    let step : (b.cursor + 1) % 2 ^ 8 ≡ b.cursor + 1 = omega arith in
    let w = put_all-Wrote (put b x) bytes (put-IsValid b x v (omega arith)) (omega arith) in
    record {
      valid = w.valid;
      size = omega (arith, w.size);
      room = w.room;
      held =
          w.held
          ∙ ap (λ t. t ++ bytes) (contents-put b x v (omega arith))
          ∙ append_assoc (contents b) (x ∷ []) bytes;
    }

-- The specification: a list of bytes that never grows past a limit.
abbrev pub spec_add : ℕ → List ℕ → List ℕ → ℕ × List ℕ
spec_add limit held bytes =
    if ltb limit (length held + length bytes)
    then (0, held)
    else (length held + length bytes, held ++ bytes)

-- Each addition does to the contents what the specification says, and keeps the invariant.
pub record Refines (b : PayloadBuilder) (bytes : List ℕ) (r : ℕ × PayloadBuilder) : Type 0 where
  pub valid : IsValid r.1
  pub same_limit : r.1.maxsize ≡ b.maxsize
  pub as_specified : (r.0, contents r.1) ≡ spec_add b.maxsize (contents b) bytes

pub add_bytes-Refines :
    (b : PayloadBuilder) (bytes : List ℕ) → IsValid b → Refines b bytes (add_bytes b bytes)
unfolding add_bytes
add_bytes-Refines b bytes v = elim (Bool-cases (ltb b.maxsize (b.cursor + length bytes))) [
  | inl full ↦
      rw full
        (record { valid = v; same_limit = refl; as_specified = rw (length-contents b v, full) })
  | inr room ↦
      let w = put_all-Wrote b bytes v (ltb_false→le _ _ room) in
      rw room (record {
        valid = w.valid;
        same_limit = w.room;
        as_specified = rw (length-contents b v, room) (λ i. (w.size i, w.held i));
      })
]

-- What the specification adds where there is room.
pub Refines-room :
    {b : PayloadBuilder} (bytes : List ℕ) (r : ℕ × PayloadBuilder)
    → Refines b bytes r
    → length (contents b) + length bytes ≤ b.maxsize
    → contents r.1 ≡ contents b ++ bytes
Refines-room {b} bytes r h fits =
    let e : ltb b.maxsize (length (contents b) + length bytes) ≡ false = ground arith in
    let p : (r.0, contents r.1) ≡ (length (contents b) + length bytes, contents b ++ bytes) =
      rw e at h.as_specified in
    λ i. (p i).1
