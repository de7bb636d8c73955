-- ===== src/Service/Reading.antt =====
-- `parseUnit` of internal/service/manager_linux.go. It trims the white space of UTF-8. A section is lowered
-- as ASCII text, since it is only compared with `service`, which no other rune lowers to.
pub mod Values
pub mod Printable
pub mod Settings
pub mod Registered
use hfdesk.Base.{
  ℕ, Bool, true, false, ◌&&◌, ◌||◌, Option, none, some, List, [], ◌∷◌, ◌++◌, ◌==◌, map,
  if◌then◌else◌, Bytes, bytes_eq, codes, cut, split, trim_space_runes, has_prefix, has_suffix,
  lowered, drop, reverse,
}
use hfdesk.Service.Systemd.{
  systemd_quote, systemd_quote_command, systemd_quote_command_always, join_words,
  split_systemd_words, resolve_systemd_dollars, control_character,
}

pub record ParsedUnit : Type 0 where
  pub exec_start : Bytes
  pub exec_args : List Bytes
  pub working_directory : Bytes
  pub environment : List (Bytes × Bytes)

-- `unit.Environment[name] = value`.
unfoldable pub put_variable : Bytes → Bytes → List (Bytes × Bytes) → List (Bytes × Bytes)
put_variable name value [] = (name, value) ∷ []
put_variable name value ((n, v) ∷ vars) =
    let rest = put_variable name value vars in
    if bytes_eq n name then (name, value) ∷ vars else (n, v) ∷ rest

unfoldable pub put_variables : List Bytes → List (Bytes × Bytes) → List (Bytes × Bytes)
unfolding put_variable
put_variables [] vars = vars
put_variables (w ∷ ws) vars = elim (cut b'=' w) [
  | none ↦ put_variables ws vars
  | some (name, value) ↦ put_variables ws (put_variable name value vars)
]

-- A setting of the service section.
unfoldable pub read_setting : Bytes → Bytes → ParsedUnit → ParsedUnit
unfolding split_systemd_words resolve_systemd_dollars put_variables
read_setting key value unit =
    if bytes_eq key (codes "ExecStart")
    then elim (resolve_systemd_dollars (split_systemd_words value)) [
      | [] ↦ unit
      | w ∷ ws ↦ record unit { exec_start = w; exec_args = ws }
    ]
    else (if bytes_eq key (codes "WorkingDirectory")
        then elim (split_systemd_words value) [
          | [] ↦ unit
          | w ∷ ws ↦ record unit { working_directory = w }
        ]
        else (if bytes_eq key (codes "Environment")
            then record unit {
              environment = put_variables (split_systemd_words value) unit.environment;
            }
            else unit))

abbrev but_last : Bytes → Bytes
but_last s = reverse (drop 1 (reverse s))

-- One line, with the section that it stands in.
unfoldable pub read_trimmed : Bytes → Bytes × ParsedUnit → Bytes × ParsedUnit
unfolding read_setting
read_trimmed line (section, unit) =
    if bytes_eq line [] || (has_prefix line (codes "#") || has_prefix line (codes ";"))
    then (section, unit)
    else (if has_prefix line (codes "[") && has_suffix line (codes "]")
        then (lowered (trim_space_runes (drop 1 (but_last line))), unit)
        else elim (cut b'=' line) [
          | none ↦ (section, unit)
          | some (key, value) ↦
              if bytes_eq section (codes "service")
              then (section, read_setting (trim_space_runes key) value unit)
              else (section, unit)
        ])

unfoldable pub read_lines : List Bytes → Bytes × ParsedUnit → Bytes × ParsedUnit
unfolding read_trimmed
read_lines [] state = state
read_lines (line ∷ lines) state = read_lines lines (read_trimmed (trim_space_runes line) state)

abbrev pub no_unit : ParsedUnit
no_unit = record { exec_start = []; exec_args = []; working_directory = []; environment = [] }

unfoldable pub parse_unit : Bytes → ParsedUnit
unfolding read_lines
parse_unit content = (read_lines (split b'\n' content) ([], no_unit)).1

unfoldable pub flag_in : Bytes → List Bytes → Bytes
flag_in flag [] = []
flag_in flag (a ∷ args) = elim args [
  | [] ↦ []
  | b ∷ more ↦ if bytes_eq a flag then b else flag_in flag args
]

-- `flagValue`, `listen` and `paths` of a unit.
unfoldable pub flag_value : ParsedUnit → Bytes → Bytes
unfolding flag_in
flag_value unit flag = flag_in flag unit.exec_args

abbrev pub listen_of : ParsedUnit → Bytes
listen_of unit = flag_value unit (codes "--listen")

-- The config file, the state directory and the log directory.
unfoldable pub paths_of_unit : ParsedUnit → Bytes × Bytes × Bytes
unfolding flag_value
paths_of_unit unit =
    let state = flag_value unit (codes "--state-dir") in
    (
      flag_value unit (codes "--config"),
      if bytes_eq state [] then unit.working_directory else state,
      flag_value unit (codes "--log-dir"),
    )
