-- ===== src/Modem/Parsers/Config.antt =====
-- The settings that a modem reports, and what the parser of `checkAndApplyNconfig` makes of them.
use sag_c8y_nb_iot_demo.Base.{
  ℕ, ◌<◌, ◌≡◌, refl, sym, ap, ◌∙◌, Bool, true, false, All, List, [], ◌∷◌, ◌++◌, ◌&&◌, ◌||◌,
  Bool-cases, inl, inr, length, codes, cstr, str_eq, str_eq-true,
}
use mathlib.Core.Path.{subst}
use sag_c8y_nb_iot_demo.Modem.Parsers.{
  n_config, nconfig_format, mark_config, take_config, nconfig_parser,
}
use sag_c8y_nb_iot_demo.Modem.Parsers.Fields.{IsQuoted, scan-IsQuoted}
use sag_c8y_nb_iot_demo.Modem.Response.{ResponseType, pending_extra}
use sag_c8y_nb_iot_demo.Scan.{
  Directive, text, lit, blank, until_quote, lits, is_space, skip_space, scan, sscanf,
}
use sag_c8y_nb_iot_demo.Scan.Fields.{scan-lits}

-- A name and its value.
abbrev pub Setting : Type 0
Setting = List ℕ × List ℕ

-- The line that reports a setting.
abbrev pub nconfig_line : Setting → List ℕ
nconfig_line (name, value) =
    codes "+NCONFIG:" ++ (b' ' ∷ b'"' ∷ name ++ (b'"' ∷ b',' ∷ b'"' ∷ value ++ (b'"' ∷ [])))

nconfig_values :
    (name value : List ℕ)
    → IsQuoted name
    → IsQuoted value
    → length name < 32
    → length value < 32
    → scan nconfig_format (nconfig_line (name, value)) ≡ text name ∷ text value ∷ []
unfolding scan skip_space is_space
nconfig_values name value hn hv small short =
    scan-lits (codes "+NCONFIG:") (blank ∷ lit b'"' ∷ name_format) (b' ' ∷ b'"' ∷ name_text)
    ∙ scan-IsQuoted 32 name (lits (codes "\",\"") value_format) (b',' ∷ b'"' ∷ last_text) hn small
    ∙ ap (λ t. text name ∷ t) (scan-IsQuoted 32 value (lit b'"' ∷ []) [] hv short)
  where
    value_format : List Directive
    value_format = until_quote 32 ∷ lit b'"' ∷ []

    name_format : List Directive
    name_format = until_quote 32 ∷ lits (codes "\",\"") value_format

    last_text : List ℕ
    last_text = value ++ (b'"' ∷ [])

    name_text : List ℕ
    name_text = name ++ (b'"' ∷ b',' ∷ b'"' ∷ last_text)

-- The parser finds the setting, if its name and value fit their arrays of 32 characters, marks it in the table, and asks for more lines.
pub nconfig_parser-nconfig_line :
    (response : ResponseType) (buffer : List ℕ) (size : ℕ) (marks : List Bool) (name value : List ℕ)
    → IsQuoted name
    → IsQuoted value
    → length name < 32
    → length value < 32
    → cstr buffer ≡ nconfig_line (name, value)
    → nconfig_parser response buffer size marks
      ≡ (pending_extra, response, mark_config name value n_config marks)
unfolding nconfig_parser take_config sscanf
nconfig_parser-nconfig_line response buffer size marks name value hn hv small short shape =
    ap (λ v. take_config v response marks)
      (ap (scan nconfig_format) shape ∙ nconfig_values name value hn hv small short)

-- The entry is what was reported.
abbrev pub same_setting : Setting → Setting → Bool
same_setting (n, v) (name, value) = str_eq n name && str_eq v value

abbrev pub reported : List Setting → Setting → Bool
reported [] e = false
reported (r ∷ reports) e = same_setting e r || reported reports e

-- A table's marks, with those of the reported entries added.
abbrev pub with_reports : List Setting → List Setting → List Bool → List Bool
with_reports reports (e ∷ table) (b ∷ marks) =
    (b || reported reports e) ∷ with_reports reports table marks
with_reports reports _ marks = marks

abbrev Unnamed : List ℕ → List Setting → Type 0
Unnamed name table = All (λ e. str_eq e.0 name ≡ false) table

abbrev Distinct : List Setting → Type 0
Distinct [] = Unit
Distinct (e ∷ table) = Unnamed e.0 table × Distinct table

or_false : (b : Bool) → (b || false) ≡ b
or_false true = refl
or_false false = refl

or_true : (b : Bool) → (b || true) ≡ true
or_true true = refl
or_true false = refl

or_assoc : (a b c : Bool) → ((a || b) || c) ≡ (a || (b || c))
or_assoc true b c = refl
or_assoc false b c = refl

pub with_reports-nothing :
    (table : List Setting) (marks : List Bool) → with_reports [] table marks ≡ marks
with_reports-nothing [] marks = refl
with_reports-nothing (e ∷ table) [] = refl
with_reports-nothing (e ∷ table) (b ∷ marks) =
    λ i. or_false b i ∷ with_reports-nothing table marks i

with_reports-Unnamed :
    (name value : List ℕ) (table : List Setting) (marks : List Bool)
    → Unnamed name table
    → with_reports ((name, value) ∷ []) table marks ≡ marks
with_reports-Unnamed name value [] marks h = refl
with_reports-Unnamed name value (e ∷ table) [] h = refl
with_reports-Unnamed name value ((n, v) ∷ table) (b ∷ marks) (other, h) =
    rw other (λ i. or_false b i ∷ with_reports-Unnamed name value table marks h i)

and_left : (a b : Bool) → (a && b) ≡ true → a ≡ true
and_left true b h = refl
and_left false b h = h

-- The search through the table stops at the first entry that is met, and there is no other.
mark_config-with_reports :
    (name value : List ℕ) (table : List Setting) (marks : List Bool)
    → Distinct table
    → mark_config name value table marks ≡ with_reports ((name, value) ∷ []) table marks
unfolding mark_config
mark_config-with_reports name value [] marks h = refl
mark_config-with_reports name value (e ∷ table) [] h = refl
mark_config-with_reports name value ((n, v) ∷ table) (b ∷ marks) (single, h) =
    elim (Bool-cases (str_eq n name && str_eq v value)) [
      | inr other ↦
          rw other (λ i. sym (or_false b) i ∷ mark_config-with_reports name value table marks h i)
      | inl met ↦
          let named = str_eq-true n name (and_left (str_eq n name) (str_eq v value) met) in
          let rest = subst (λ t. Unnamed t table) named single in
          rw met (λ i. sym (or_true b) i ∷ sym (with_reports-Unnamed name value table marks rest) i)
    ]

with_reports-append :
    (r : Setting) (reports table : List Setting) (marks : List Bool)
    → with_reports reports table (with_reports (r ∷ []) table marks)
      ≡ with_reports (r ∷ reports) table marks
with_reports-append r reports [] marks = refl
with_reports-append r reports (e ∷ table) [] = refl
with_reports-append r reports (e ∷ table) (b ∷ marks) =
    λ i. merged i ∷ with_reports-append r reports table marks i
  where
    merged :
        ((b || (same_setting e r || false)) || reported reports e)
        ≡ (b || (same_setting e r || reported reports e))
    merged =
        ap (λ x. (b || x) || reported reports e) (or_false (same_setting e r))
        ∙ or_assoc b (same_setting e r) (reported reports e)

n_config-Distinct : Distinct n_config
n_config-Distinct = ((refl, (refl, tt)), ((refl, tt), (tt, tt)))

-- One more report.
pub with_reports-mark_config :
    (name value : List ℕ) (reports : List Setting) (marks : List Bool)
    → with_reports reports n_config (mark_config name value n_config marks)
      ≡ with_reports ((name, value) ∷ reports) n_config marks
with_reports-mark_config name value reports marks =
    ap (with_reports reports n_config)
      (mark_config-with_reports name value n_config marks n_config-Distinct)
    ∙ with_reports-append (name, value) reports n_config marks
