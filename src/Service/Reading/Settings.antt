-- ===== src/Service/Reading/Settings.antt =====
-- What `parseUnit` of internal/service/manager_linux.go does at the lines of a unit file.
use hfdesk.Base.{
  ◌≡◌, refl, ap, ◌∙◌, Option, none, some, List, [], ◌∷◌, ◌++◌, Bytes, bytes_eq, codes, cut,
  trim_space_runes, has_prefix,
}
use hfdesk.Service.Systemd.{systemd_quote, control_character}
use hfdesk.Service.Systemd.Quoting.{AllPrintable, split-quote_always, split-setting}
use hfdesk.Service.Units.{
  InstallScope, scope_user, scope_system, InstallOptions, run_args, Account, identity_lines,
  unit_identity, exec_start, head_lines, middle_lines, install_lines,
}
use hfdesk.Service.Reading.{
  ParsedUnit, put_variable, put_variables, read_setting, read_trimmed, read_lines, no_unit,
}
use hfdesk.Service.Reading.Values.{IsPlain, IsValue, trim_line, quote-IsValue}
use hfdesk.Service.Reading.Printable.{IsPrintableGroup, IsPrintableAccount}

pub read_lines-append :
    (ls ms : List Bytes) (state : Bytes × ParsedUnit)
    → read_lines (ls ++ ms) state ≡ read_lines ms (read_lines ls state)
unfolding read_lines
read_lines-append [] ms state = refl
read_lines-append (l ∷ ls) ms state =
    read_lines-append ls ms (read_trimmed (trim_space_runes l) state)

abbrev pub service : Bytes
service = codes "service"

pub head_read : read_lines head_lines ([], no_unit) ≡ (service, no_unit)
unfolding read_lines trim_space_runes bytes_eq has_prefix cut
head_read = refl

pub middle_read : (unit : ParsedUnit) → read_lines middle_lines (service, unit) ≡ (service, unit)
unfolding read_lines trim_space_runes bytes_eq has_prefix cut
middle_read unit = refl

pub install_read :
    (scope : InstallScope) (unit : ParsedUnit)
    → (read_lines ([] ∷ []) (read_lines (install_lines scope) (service, unit))).1 ≡ unit
unfolding read_lines trim_space_runes bytes_eq has_prefix cut
install_read scope_user unit = refl
install_read scope_system unit = refl

-- A line of the service section with a key and a value.
abbrev Reads : Bytes → Type 0
Reads key =
    (v : Bytes) (unit : ParsedUnit)
    → IsValue v
    → read_trimmed (trim_space_runes (key ++ b'=' ∷ v)) (service, unit)
      ≡ (service, read_setting key v unit)

pub exec-Reads : Reads (codes "ExecStart")
unfolding read_trimmed trim_space_runes bytes_eq has_prefix cut
exec-Reads v unit h =
    ap (λ l. read_trimmed l (service, unit)) (trim_line b'E' (codes "xecStart=") v refl h refl)

pub directory-Reads : Reads (codes "WorkingDirectory")
unfolding read_trimmed trim_space_runes bytes_eq has_prefix cut
directory-Reads v unit h =
    ap (λ l. read_trimmed l (service, unit))
      (trim_line b'W' (codes "orkingDirectory=") v refl h refl)

pub environment-Reads : Reads (codes "Environment")
unfolding read_trimmed trim_space_runes bytes_eq has_prefix cut
environment-Reads v unit h =
    ap (λ l. read_trimmed l (service, unit)) (trim_line b'E' (codes "nvironment=") v refl h refl)

pub user-Reads : Reads (codes "User")
unfolding read_trimmed trim_space_runes bytes_eq has_prefix cut
user-Reads v unit h =
    ap (λ l. read_trimmed l (service, unit)) (trim_line b'U' (codes "ser=") v refl h refl)

pub group-Reads : Reads (codes "Group")
unfolding read_trimmed trim_space_runes bytes_eq has_prefix cut
group-Reads v unit h =
    ap (λ l. read_trimmed l (service, unit)) (trim_line b'G' (codes "roup=") v refl h refl)

-- The identity is passed over.
pub names_read :
    (name : Bytes) (group : Option Bytes) (unit : ParsedUnit)
    → IsPlain name
    → IsPrintableGroup group
    → read_lines (identity_lines name group) (service, unit) ≡ (service, unit)
unfolding read_lines identity_lines read_setting bytes_eq
names_read name none unit h k = user-Reads (systemd_quote name) unit (quote-IsValue name h)
names_read name (some g) unit h k =
    ap (λ s. read_trimmed (trim_space_runes (codes "Group=" ++ systemd_quote g)) s)
      (user-Reads (systemd_quote name) unit (quote-IsValue name h))
    ∙ group-Reads (systemd_quote g) unit (quote-IsValue g k)

pub identity_read :
    (account : Option Account) (unit : ParsedUnit)
    → IsPrintableAccount account
    → read_lines (unit_identity account) (service, unit) ≡ (service, unit)
unfolding read_lines unit_identity
identity_read none unit h = refl
identity_read (some a) unit h = names_read a.name a.group unit h.0 h.1

-- What the settings give.
pub start_read :
    (opts : InstallOptions) (unit : ParsedUnit)
    → AllPrintable (run_args opts)
    → read_setting (codes "ExecStart") (exec_start opts) unit
      ≡ record unit { exec_start = opts.executable; exec_args = run_args opts }
unfolding read_setting exec_start bytes_eq
start_read opts unit h =
    ap
      (λ ws. elim ws as (λ _. ParsedUnit) [
        | [] ↦ unit
        | w ∷ us ↦ record unit { exec_start = w; exec_args = us }
      ])
      (split-quote_always opts.executable (run_args opts) h)

pub directory_read :
    (dir : Bytes) (unit : ParsedUnit)
    → control_character dir ≡ none
    → read_setting (codes "WorkingDirectory") (systemd_quote dir) unit
      ≡ record unit { working_directory = dir }
unfolding read_setting bytes_eq
directory_read dir unit h =
    ap
      (λ ws. elim ws as (λ _. ParsedUnit) [
        | [] ↦ unit
        | w ∷ us ↦ record unit { working_directory = w }
      ])
      (split-setting dir h)

pub home-printable :
    (home : Bytes)
    → control_character home ≡ none
    → control_character (codes "HOME=" ++ home) ≡ none
unfolding control_character
home-printable home h = h

pub home_read :
    (home : Bytes) (unit : ParsedUnit)
    → control_character home ≡ none
    → read_setting (codes "Environment") (systemd_quote (codes "HOME=" ++ home)) unit
      ≡ record unit { environment = put_variable (codes "HOME") home unit.environment }
unfolding read_setting put_variables bytes_eq cut
home_read home unit h =
    ap (λ ws. record unit { environment = put_variables ws unit.environment })
      (split-setting (codes "HOME=" ++ home) (home-printable home h))
