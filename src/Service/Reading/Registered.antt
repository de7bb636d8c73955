-- ===== src/Service/Reading/Registered.antt =====
-- `parseUnit` of internal/service/manager_linux.go on the text that `renderUnit` writes.
use hfdesk.Base.{
  true, ◌≡◌, refl, ap, ◌∙◌, Option, none, List, [], ◌∷◌, ◌++◌, Bytes, codes, trim_space_runes,
}
use hfdesk.Service.Systemd.{systemd_quote, systemd_quote_command_always, control_character}
use hfdesk.Service.Systemd.Quoting.{AllPrintable}
use hfdesk.Service.Units.{
  InstallScope, scope_user, scope_system, InstallOptions, run_args, unit_paths, validate_unit_paths,
  Account, unit_identity, exec_start, head_lines, middle_lines, install_lines, unit_lines,
  render_unit,
}
use hfdesk.Service.Reading.{ParsedUnit, put_variable, read_trimmed, read_lines, no_unit, parse_unit}
use hfdesk.Service.Reading.Values.{
  IsPlain, AllPlain, ends_narrow, AllPlain-AllPrintable, IsValue, IsValue-append, quote-IsValue,
  quote_always-IsValue, join-IsValue,
}
use hfdesk.Service.Reading.Printable.{
  IsPrintableAccount, Unbroken, Unbroken-append, split-text_of, all_unbroken, all_unbroken-Unbroken,
  first_control-AllPrintable, run_args-AllPlain, identity-Unbroken,
}
use hfdesk.Service.Reading.Settings.{
  service, read_lines-append, head_read, middle_read, install_read, exec-Reads, directory-Reads,
  environment-Reads, identity_read, start_read, directory_read, home_read, home-printable,
}

-- The unit that an installation registers.
unfoldable pub registered : InstallOptions → Bytes → ParsedUnit
registered opts home = record {
  exec_start = opts.executable;
  exec_args = run_args opts;
  working_directory = opts.state_dir;
  environment = (codes "HOME", home) ∷ [];
}

home-plain : (home : Bytes) → IsPlain home → IsPlain (codes "HOME=" ++ home)
unfolding control_character
home-plain [] h = (refl, refl)
home-plain (c ∷ home) h = (home-printable (c ∷ home) h.0, h.1)

module _ (opts : InstallOptions) (account : Option Account) (home : Bytes)
    (paths : AllPlain (unit_paths opts)) (listen : IsPlain opts.listen)
    (names : IsPrintableAccount account) (at_home : IsPlain home) where
  args : AllPlain (run_args opts)
  args = run_args-AllPlain opts paths listen

  state_dir : IsPlain opts.state_dir
  state_dir = paths.1.1.0

  start-IsValue : IsValue (exec_start opts)
  unfolding exec_start
  start-IsValue =
      join-IsValue (systemd_quote_command_always opts.executable) (run_args opts)
        (quote_always-IsValue opts.executable paths.0.0) args

  directory-IsValue : IsValue (systemd_quote opts.state_dir)
  directory-IsValue = quote-IsValue opts.state_dir state_dir

  home-IsValue : IsValue (systemd_quote (codes "HOME=" ++ home))
  home-IsValue = quote-IsValue (codes "HOME=" ++ home) (home-plain home at_home)

  abbrev tail_lines : List Bytes
  tail_lines =
      (codes "Environment=" ++ systemd_quote (codes "HOME=" ++ home)) ∷ install_lines opts.scope

  abbrev with_command : ParsedUnit
  with_command = record no_unit { exec_start = opts.executable; exec_args = run_args opts }

  tail-Unbroken : Unbroken tail_lines
  tail-Unbroken = (
    (IsValue-append (codes "Environment=") (systemd_quote (codes "HOME=" ++ home)) refl
        home-IsValue).unbroken,
    install-Unbroken opts.scope,
  )
    where
      install-Unbroken : (scope : InstallScope) → Unbroken (install_lines scope)
      install-Unbroken scope_user = (refl, (refl, (refl, tt)))
      install-Unbroken scope_system = (refl, (refl, (refl, tt)))

  abbrev setting_lines : List Bytes
  setting_lines =
      (codes "ExecStart=" ++ exec_start opts)
      ∷ (codes "WorkingDirectory=" ++ systemd_quote opts.state_dir)
      ∷ (middle_lines ++ tail_lines)

  settings-Unbroken : Unbroken setting_lines
  unfolding all_unbroken
  settings-Unbroken = (
    (IsValue-append (codes "ExecStart=") (exec_start opts) refl start-IsValue).unbroken,
    (
      (IsValue-append (codes "WorkingDirectory=") (systemd_quote opts.state_dir) refl
          directory-IsValue).unbroken,
      Unbroken-append middle_lines tail_lines (all_unbroken-Unbroken middle_lines refl)
          tail-Unbroken,
    ),
  )

  lines-Unbroken : Unbroken (unit_lines opts account home)
  unfolding unit_lines all_unbroken
  lines-Unbroken =
      Unbroken-append head_lines (unit_identity account ++ setting_lines)
        (all_unbroken-Unbroken head_lines refl)
        (Unbroken-append (unit_identity account) setting_lines (identity-Unbroken account names)
          settings-Unbroken)

  -- The state behind the command line and the working directory.
  settings_read :
      read_lines
        ((codes "ExecStart=" ++ exec_start opts)
          ∷ (codes "WorkingDirectory=" ++ systemd_quote opts.state_dir)
          ∷ [])
        (service, no_unit)
      ≡ (service, record with_command { working_directory = opts.state_dir })
  unfolding read_lines
  settings_read =
      ap
        (λ s.
          read_trimmed
            (trim_space_runes (codes "WorkingDirectory=" ++ systemd_quote opts.state_dir)) s)
        (exec-Reads (exec_start opts) no_unit start-IsValue
          ∙ ap (λ u. (service, u))
              (start_read opts no_unit (AllPlain-AllPrintable (run_args opts) args)))
      ∙ (directory-Reads (systemd_quote opts.state_dir) with_command directory-IsValue
          ∙ ap (λ u. (service, u)) (directory_read opts.state_dir with_command state_dir.0))

  environment_read :
      (unit : ParsedUnit)
      → read_lines tail_lines (service, unit)
        ≡ read_lines (install_lines opts.scope) (
          service,
          record unit { environment = put_variable (codes "HOME") home unit.environment },
        )
  unfolding read_lines
  environment_read unit = ap (read_lines (install_lines opts.scope)) (
      environment-Reads (systemd_quote (codes "HOME=" ++ home)) unit home-IsValue
      ∙ ap (λ u. (service, u)) (home_read home unit at_home.0))

  lines_read :
      read_lines (unit_lines opts account home) ([], no_unit)
      ≡ read_lines (install_lines opts.scope) (service, registered opts home)
  unfolding unit_lines registered read_lines put_variable
  lines_read =
      let rest = setting_lines in
      let set : ParsedUnit = record with_command { working_directory = opts.state_dir } in
      read_lines-append head_lines (unit_identity account ++ rest) ([], no_unit)
      ∙ (ap (read_lines (unit_identity account ++ rest)) head_read
          ∙ (read_lines-append (unit_identity account) rest (service, no_unit)
              ∙ (ap (read_lines rest) (identity_read account no_unit names)
                  ∙ (ap (read_lines (middle_lines ++ tail_lines)) settings_read
                      ∙ (read_lines-append middle_lines tail_lines (service, set)
                          ∙ (ap (read_lines tail_lines) (middle_read set)
                              ∙ environment_read set))))))

-- No text ends in a byte that is not ASCII.
abbrev pub AllNarrow : List Bytes → Type 0
AllNarrow [] = Unit {0}
AllNarrow (s ∷ ss) = (ends_narrow s ≡ true) × AllNarrow ss

plain_paths : (ps : List Bytes) → AllPrintable ps → AllNarrow ps → AllPlain ps
plain_paths [] h n = tt
plain_paths (p ∷ ps) h n = ((h.0, n.0), plain_paths ps h.1 n.1)

valid_paths :
    (opts : InstallOptions)
    → validate_unit_paths opts ≡ none
    → AllNarrow (unit_paths opts)
    → AllPlain (unit_paths opts)
unfolding validate_unit_paths
valid_paths opts valid narrow =
    plain_paths (unit_paths opts) (first_control-AllPrintable (unit_paths opts) valid) narrow

-- The text of a unit is read back as the registration that was written: the executable, the arguments,
-- the working directory and the home, where no path that the installation checks has a control character,
-- neither have the listen address, the home and the names of the account, and none of these texts ends in
-- a byte that is not ASCII, as it does where it ends in white space of Unicode.
pub parse_unit-render_unit :
    (opts : InstallOptions) (account : Option Account) (home : Bytes)
    → validate_unit_paths opts ≡ none
    → IsPlain opts.listen
    → IsPrintableAccount account
    → IsPlain home
    → AllNarrow (unit_paths opts)
    → parse_unit (render_unit opts account home) ≡ registered opts home
unfolding parse_unit render_unit
parse_unit-render_unit opts account home valid listen names at_home narrow =
    let paths = valid_paths opts valid narrow in
    let lines = unit_lines opts account home in
    ap (λ ls. (read_lines ls ([], no_unit)).1)
      (split-text_of lines (lines-Unbroken opts account home paths listen names at_home))
    ∙ (ap (λ s. s.1) (read_lines-append lines ([] ∷ []) ([], no_unit))
        ∙ (ap (λ s. (read_lines ([] ∷ []) s).1)
              (lines_read opts account home paths listen names at_home)
            ∙ install_read opts.scope (registered opts home)))
