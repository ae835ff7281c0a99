-- ===== src/Agent/Handler.antt =====
-- CumulocityHandler.java: the consumers of the two queues. Cumulocity's SDK is a parameter: what it
-- answers, and what it keeps, is its own.
use sag_c8y_nb_iot_demo.Base.{
  ℕ, Bool, true, false, Option, none, some, List, [], ◌∷◌, ◌++◌, length, leb, if◌then◌else◌, codes,
}
use sag_c8y_nb_iot_demo.Agent.{Measurement, create_measurement}
use sag_c8y_nb_iot_demo.Agent.Base64.{decode}
use sag_c8y_nb_iot_demo.Agent.Text.{split, parse_int, int_text}

-- `CumulocityCredentials`
pub record Account : Type 0 where
  pub username : List ℕ
  pub password : List ℕ

-- `ManagedObjectRepresentation`, with the interval of `c8y_RequiredAvailability`.
pub record ManagedObject : Type 0 where
  pub name : List ℕ
  pub kind : List ℕ
  pub is_device : Bool
  pub response_interval : ℕ

-- `MeasurementRepresentation`: the time, the source's id, the type and the values.
pub record Representation : Type 0 where
  pub time : List ℕ
  pub source_id : List ℕ
  pub kind : List ℕ
  pub values : Measurement

-- The calls of the SDK; an answer `none`, or `false`, is an SDKException.
pub record Platform : Type 1 where
  pub State : Type 0
  pub poll_credentials : List ℕ → State → Option (List ℕ) × State
  pub create_object : Account → ManagedObject → State → Option (List ℕ) × State
  pub post_measurement : Account → Representation → State → Bool × State

-- The user that Cumulocity knows a device by.
abbrev pub account : List ℕ → List ℕ → Account
account device_id password = record { username = codes "device_" ++ device_id; password = password }

abbrev pub device_object : List ℕ → ManagedObject
device_object device_id = record {
  name = codes "device_" ++ device_id;
  kind = codes "Sodaq_device";
  is_device = true;
  response_interval = 1;
}

-- What `createMeasurement` returns for a payload that is long enough.
unfoldable pub represent : List ℕ → List ℕ → List ℕ → Representation
represent cumulocity_id time payload = record {
  time = time;
  source_id = cumulocity_id;
  kind = codes "Sodaq";
  values = create_measurement payload;
}

-- The message for the credentials queue that gives a device its password and Cumulocity id.
abbrev pub credentials_message : List ℕ → ℕ → List ℕ → List ℕ → List ℕ
credentials_message ip port password cumulocity_id =
    ip ++ (10 ∷ int_text port ++ (10 ∷ password ++ (10 ∷ cumulocity_id)))

-- The one that resets a device whose credentials are refused.
abbrev pub reset_message : List ℕ → ℕ → List ℕ
reset_message ip port = ip ++ (10 ∷ int_text port ++ (10 ∷ 10 ∷ []))

module _ (platform : Platform) where
  open platform use {State, poll_credentials, create_object, post_measurement}

  abbrev pub with_object : List ℕ → ℕ → List ℕ → Option (List ℕ) × State → List ℕ × State
  with_object ip port password (none, s) = ([], s)
  with_object ip port password (some id, s) = (credentials_message ip port password id, s)

  abbrev pub with_password : List ℕ → ℕ → List ℕ → Option (List ℕ) × State → List ℕ × State
  with_password ip port device_id (none, s) = ([], s)
  with_password ip port device_id (some password, s) =
      with_object ip port password
        (create_object (account device_id password) (device_object device_id) s)

  -- The `try` of `registerDevice`.
  unfoldable pub register : List ℕ → ℕ → List ℕ → State → List ℕ × State
  register ip port device_id s = with_password ip port device_id (poll_credentials device_id s)

  abbrev pub register_port : List ℕ → Option ℕ → List ℕ → State → Option (List ℕ × State)
  register_port ip none device_id s = none
  register_port ip (some port) device_id s = some (register ip port device_id s)

  abbrev pub register_fields : List (List ℕ) → State → Option (List ℕ × State)
  register_fields (ip ∷ port ∷ device_id ∷ others) s = register_port ip (parse_int port) device_id s
  register_fields _ s = none

  -- `registerDevice`; `none` is an exception that it does not catch.
  unfoldable pub register_device : List ℕ → State → Option (List ℕ × State)
  unfolding register
  register_device message s = register_fields (split message) s

  abbrev pub posted : List ℕ → ℕ → Bool × State → List ℕ × State
  posted ip port (true, s) = ([], s)
  posted ip port (false, s) = (reset_message ip port, s)

  -- The `try` of `pushMeasurement`.
  unfoldable pub push : List ℕ → ℕ → Account → Representation → State → List ℕ × State
  push ip port user m s = posted ip port (post_measurement user m s)

  abbrev pub push_payload :
      List ℕ
      → Option ℕ
      → Account
      → List ℕ
      → List ℕ
      → Option (List ℕ)
      → State
      → Option (List ℕ × State)
  push_payload ip (some port) user cumulocity_id time (some payload) s =
      if leb 14 (length payload)
      then some (push ip port user (represent cumulocity_id time payload) s)
      else none
  push_payload ip _ user cumulocity_id time _ s = none

  abbrev pub push_fields : List (List ℕ) → State → Option (List ℕ × State)
  push_fields (ip ∷ port ∷ device_id ∷ password ∷ cumulocity_id ∷ time ∷ payload ∷ others) s =
      push_payload ip (parse_int port) (account device_id password) cumulocity_id time
        (decode payload) s
  push_fields _ s = none

  -- `pushMeasurement`; `none` is an exception that it does not catch.
  unfoldable pub push_measurement : List ℕ → State → Option (List ℕ × State)
  unfolding push represent
  push_measurement message s = push_fields (split message) s
