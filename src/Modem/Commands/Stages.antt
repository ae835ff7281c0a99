-- ===== src/Modem/Commands/Stages.antt =====
-- The parts of a connection that take several lines: switching the modem on, and its settings.
use sag_c8y_nb_iot_demo.Base.{
  ℕ, zero, suc, ◌≡◌, refl, Bool, true, false, Option, none, some, List, [], ◌∷◌, if◌then◌else◌,
  codes, arith,
}
use sag_c8y_nb_iot_demo.Device.{Device, pure, ◌>>=◌, modify, get, millis}
use sag_c8y_nb_iot_demo.Device.Print.{println}
use sag_c8y_nb_iot_demo.Device.Sent.{
  Said, said, Script, silence, line, ◌then◌, Many, stop, more, some_of, Many-snoc, Speaks,
  Speaks-mono, Speaks-bind, Quiet-bind-Speaks, Speaks-bind-Quiet,
}
use sag_c8y_nb_iot_demo.Modem.Commands.{
  switch_on, parsed, is_alive, is_on, ensure_on, alive_within, on, set_nconfig_param, apply_config,
  apply_parsed, check_and_apply_nconfig,
}
use sag_c8y_nb_iot_demo.Modem.Commands.Script.{
  at, is_alive-line, read_nconfig, write_nconfig, set_nconfig_param-line, println-says,
  parsed-Quiet,
}
use sag_c8y_nb_iot_demo.Modem.Parsers.{n_config, nconfig_parser}

-- `AT` until the modem replies, or in vain.
abbrev pub called : Bool → Script
called true = some_of (line at)
called false = Many (line at)

called-Many : (b : Bool) (v v' : Said) → called b v v' → Many (line at) v v'
called-Many true v v' c = Many-snoc (line at) v c.middle v' c.first c.second
called-Many false v v' c = c

called-more : (b : Bool) (v w v' : Said) → line at v w → called b w v' → called b v v'
called-more true v w v' a c = record {
  middle = c.middle;
  first = more v w c.middle a c.first;
  second = c.second;
}
called-more false v w v' a c = more v w v' a c

-- After one `AT`: it had a reply, or there is more to come.
abbrev answered : Bool → Bool → Script
answered true b v v' = (b ≡ true) × silence v v'
answered false b v v' = called b v v'

answered-called :
    (alive b : Bool) (v w v' : Said) → line at v w → answered alive b w v' → called b v v'
answered-called true b v w v' a (found, same) =
    rw (found, same) (record { middle = v; first = stop v; second = a })
answered-called false b v w v' a c = called-more b v w v' a c

alive_within-called : (n : ℕ) → Speaks called (alive_within n)
unfolding alive_within
alive_within-called zero = λ d. stop (said d)
alive_within-called (suc n) =
    Speaks-bind (λ _. line at) answered called is_alive
      (λ alive. if alive then pure true else alive_within n) is_alive-line
      (λ alive. rest alive (alive_within-called n)) answered-called
  where
    rest :
        (alive : Bool)
        → Speaks called (alive_within n)
        → Speaks (answered alive) (if alive then pure true else alive_within n)
    rest true h d = (refl, refl)
    rest false h d = h d

-- What follows `AT` says nothing, and fails if there was no reply.
abbrev ending : Bool → Bool → Script
ending alive b v v' = (alive ≡ false → b ≡ false) × silence v v'

ending-called :
    (alive b : Bool) (v w v' : Said) → called alive v w → ending alive b w v' → called b v v'
ending-called true true v w v' c (h, same) = rw same c
ending-called true false v w v' c (h, same) = rw same (called-Many true v w c)
ending-called false true v w v' c (h, same) = cc (h refl)
ending-called false false v w v' c (h, same) = rw same c

ensure_on-silence : (d : Device) → silence (said d) (said (ensure_on d))
unfolding ensure_on switch_on
ensure_on-silence d = ground arith

-- `on` calls the modem, and succeeds only after a call.
pub on-called : Speaks called on
unfolding on
on-called =
    Quiet-bind-Speaks called (modify (λ d. record d { start_on = millis d })) _ (λ d. refl)
      (λ _. Quiet-bind-Speaks called (modify ensure_on) _ ensure_on-silence (λ _.
        Speaks-bind called ending called (alive_within 10)
          (λ alive. if alive then get is_on else pure false) (alive_within-called 10) rest
          ending-called))
  where
    rest : (alive : Bool) → Speaks (ending alive) (if alive then get is_on else pure false)
    rest true d = ((λ e. cc), refl)
    rest false d = ((λ e. refl), refl)

-- Some of the settings, in the order of the table.
pub data Settings : List (List ℕ × List ℕ) → Said → Said → Type 0 where
  no_more : (table : List (List ℕ × List ℕ)) (v : Said) → Settings table v v
  skips :
      (e : List ℕ × List ℕ) (table : List (List ℕ × List ℕ)) (v v' : Said)
      → Settings table v v'
      → Settings (e ∷ table) v v'
  writes :
      (param value : List ℕ) (table : List (List ℕ × List ℕ)) (v w v' : Said)
      → line (write_nconfig param value) v w
      → Settings table w v'
      → Settings ((param, value) ∷ table) v v'

apply_config-Settings :
    (table : List (List ℕ × List ℕ)) (marks : List Bool)
    → Speaks (λ _. Settings table) (apply_config table marks)
unfolding apply_config
apply_config-Settings [] marks = λ d. no_more [] (said d)
apply_config-Settings (e ∷ table) [] = λ d. no_more (e ∷ table) (said d)
apply_config-Settings ((param, value) ∷ table) (true ∷ marks) =
    Speaks-mono (λ _. Settings table) (λ _. Settings ((param, value) ∷ table)) _
      (apply_config-Settings table marks) (λ _ v v' h. skips (param, value) table v v' h)
apply_config-Settings ((param, value) ∷ table) (false ∷ marks) =
    Speaks-bind (λ _. line (write_nconfig param value)) (λ _ _. Settings table)
      (λ _. Settings ((param, value) ∷ table)) (set_nconfig_param param value)
      (λ _. apply_config table marks) (set_nconfig_param-line param value)
      (λ _. apply_config-Settings table marks)
      (λ _ _ v w v' l h. writes param value table v w v' l h)

apply_parsed-Settings :
    (marks : Option (List Bool)) → Speaks (λ _. Settings n_config) (apply_parsed marks)
unfolding apply_parsed
apply_parsed-Settings none = λ d. no_more n_config (said d)
apply_parsed-Settings (some marks) =
    Speaks-bind-Quiet (Settings n_config) (apply_config n_config marks) (λ _. pure true)
      (apply_config-Settings n_config marks) (λ _ d. refl)

-- The question for the settings, and then some of them are written.
abbrev pub configured : Script
configured = line read_nconfig then Settings n_config

pub check_and_apply_nconfig-configured :
    (stray : List Bool) → Speaks (λ _. configured) (check_and_apply_nconfig stray)
unfolding check_and_apply_nconfig
check_and_apply_nconfig-configured stray =
    Speaks-bind (λ _. line read_nconfig) (λ _ _. Settings n_config) (λ _. configured)
      (println (codes "AT+NCONFIG?")) (λ _. parsed nconfig_parser stray >>= apply_parsed)
      (println-says (codes "AT+NCONFIG?"))
      (λ _.
        Quiet-bind-Speaks (λ _. Settings n_config) (parsed nconfig_parser stray) apply_parsed
          (parsed-Quiet nconfig_parser stray) apply_parsed-Settings)
      (λ _ _ v w v' l h. record { middle = w; first = l; second = h })
