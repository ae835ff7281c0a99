-- ===== src/Agent/Calls.antt =====
-- What the handlers' calls of Cumulocity keep.
use sag_c8y_nb_iot_demo.Base.{ℕ, ◌≡◌, refl, Bool, true, false, Option, none, some, List, [], ◌∷◌}
use sag_c8y_nb_iot_demo.Base.Loop.{Allows}
use sag_c8y_nb_iot_demo.Agent.Handler.{
  Platform, Account, Representation, account, register, register_port, register_fields, with_object,
  with_password, device_object, posted, register_device, push, push_measurement,
}
use sag_c8y_nb_iot_demo.Agent.Arrival.{report}
use sag_c8y_nb_iot_demo.Agent.Text.{split, parse_int}
use sag_c8y_nb_iot_demo.Node.{Readings}
use sag_c8y_nb_iot_demo.Agent.Steps.{Kept}
use sag_c8y_nb_iot_demo.Agent.Reports.{IsReport, push_measurement-IsReport}

module _ (platform : Platform) (Sent : List ℕ → List ℕ → Readings → Type 0) where
  module _ (I : platform.State → Type 0) (kept : Kept platform Sent I) where
    push-state :
        (ip : List ℕ) (port : ℕ) (user : Account) (m : Representation) (s : platform.State)
        → (push platform ip port user m s).1 ≡ (platform.post_measurement user m s).1
    unfolding push
    push-state ip port user m s = go (platform.post_measurement user m s)
      where
        go : (r : Bool × platform.State) → (posted platform ip port r).1 ≡ r.1
        go (true, s') = refl
        go (false, s') = refl

    pub push-Kept :
        (m : List ℕ) (s : platform.State)
        → IsReport platform Sent m
        → I s
        → Allows (λ r. I r.1) (push_measurement platform m s)
    push-Kept m s h i =
        rw
          (
            push_measurement-IsReport platform Sent m s h,
            push-state h.p.ip_address h.p.port (account h.p.device_id h.p.password)
                (report h.time h.p.cumulocity_id h.readings) s,
          )
          (kept.posts h.p.device_id h.p.password h.p.cumulocity_id h.time h.readings s h.sent i)

    register-Kept :
        (ip : List ℕ) (port : ℕ) (device_id : List ℕ) (s : platform.State)
        → I s
        → I (register platform ip port device_id s).1
    unfolding register
    register-Kept ip port device_id s i =
        polled (platform.poll_credentials device_id s) (kept.polls device_id s i)
      where
        created :
            (password : List ℕ) (r : Option (List ℕ) × platform.State)
            → I r.1
            → I (with_object platform ip port password r).1
        created password (none, s') j = j
        created password (some x, s') j = j

        polled :
            (r : Option (List ℕ) × platform.State)
            → I r.1
            → I (with_password platform ip port device_id r).1
        polled (none, s') j = j
        polled (some password, s') j =
            created password
              (platform.create_object (account device_id password) (device_object device_id) s')
              (kept.creates (account device_id password) (device_object device_id) s' j)

    pub register_device-Kept :
        (m : List ℕ) (s : platform.State) → I s → Allows (λ r. I r.1) (register_device platform m s)
    unfolding register_device
    register_device-Kept m s i = go (split m)
      where
        go : (fs : List (List ℕ)) → Allows (λ r. I r.1) (register_fields platform fs s)
        go [] = tt
        go (f ∷ []) = tt
        go (f ∷ g ∷ []) = tt
        go (f ∷ g ∷ device_id ∷ others) = with_number (parse_int g)
          where
            with_number :
                (o : Option ℕ) → Allows (λ r. I r.1) (register_port platform f o device_id s)
            with_number none = tt
            with_number (some port) = register-Kept f port device_id s i
