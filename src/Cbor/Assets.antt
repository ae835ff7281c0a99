-- ===== src/Cbor/Assets.antt =====
-- The additions of named values, as runs of the writing operations.
use sag_c8y_nb_iot_demo.Base.{ℕ, ◌≡◌, refl, Bool, true, false, List, [], ◌∷◌, if◌then◌else◌, codes}
use sag_c8y_nb_iot_demo.Cbor.{
  CborBuilder, add_boolean, add_integer, add_number, add_string, add_gps,
}
use sag_c8y_nb_iot_demo.Cbor.RoundTrip.{Call, int, string, map_of, special, call, run}

-- The named values that a program adds, as runs of operations.
pub data Asset : Type 0 where
  boolean : Bool → Asset
  integer number : ℕ → Asset
  text : List ℕ → Asset
  gps : ℕ → ℕ → ℕ → Asset

unfoldable pub add_asset : Asset → List ℕ → CborBuilder → CborBuilder
add_asset (boolean v) asset b = add_boolean b v asset
add_asset (integer w) asset b = add_integer b w asset
add_asset (number w) asset b = add_number b w asset
add_asset (text s) asset b = add_string b s asset
add_asset (gps x y z) asset b = add_gps b x y z asset

-- What follows an asset's name.
abbrev pub value_calls : Asset → List Call
value_calls (boolean v) = special (if v then 21 else 20) ∷ []
value_calls (integer w) = int w ∷ []
value_calls (number w) = Call.number w ∷ []
value_calls (text s) = string s ∷ []
value_calls (gps x y z) =
    map_of 3
    ∷ string (codes "latitude")
    ∷ Call.number x
    ∷ string (codes "longitude")
    ∷ Call.number y
    ∷ string (codes "altitude")
    ∷ Call.number z
    ∷ []

-- Each of the five additions of a named value is the name as a text and then the value: a simple
-- value 20 or 21, an integer, a float, a text, or a map of three named floats.
pub add_asset-run :
    (v : Asset) (asset : List ℕ) (b : CborBuilder)
    → add_asset v asset b ≡ run (string asset ∷ value_calls v) b
unfolding add_asset run call
add_asset-run (boolean true) asset b = unfold add_boolean in refl
add_asset-run (boolean false) asset b = unfold add_boolean in refl
add_asset-run (integer w) asset b = unfold add_integer in refl
add_asset-run (number w) asset b = unfold add_number in refl
add_asset-run (text s) asset b = unfold add_string in refl
add_asset-run (gps x y z) asset b = unfold add_gps in refl
