-- ===== src/Service/Units.antt =====
-- The unit files that `renderUnit` of internal/service/manager_linux.go writes, and `RunArgs` of internal/service/service.go, for a listen address that `listenArg` gives.
use hfdesk.Base.{
  ℕ, Option, none, some, List, [], ◌∷◌, ◌++◌, map, if◌then◌else◌, Bytes, bytes_eq, codes,
}
use hfdesk.Service.Systemd.{
  systemd_quote, systemd_quote_command, systemd_quote_command_always, join_words, control_character,
}

pub data InstallScope : Type 0 where
  scope_user scope_system : InstallScope

pub record InstallOptions : Type 0 where
  pub scope : InstallScope
  pub executable : Bytes
  pub listen : Bytes
  pub config_file : Bytes
  pub state_dir : Bytes
  pub log_dir : Bytes
  pub cache_dir : Bytes
  pub hub_dir : Bytes
  pub local_dir : Bytes
  pub service_user : Bytes

-- The flag and its value, where the directory is set.
unfoldable pub optional_arg : Bytes → Bytes → List Bytes
optional_arg flag value = if bytes_eq value [] then [] else flag ∷ value ∷ []

unfoldable pub run_args : InstallOptions → List Bytes
unfolding optional_arg
run_args opts =
    codes "service"
    ∷ codes "run"
    ∷ codes "--config"
    ∷ opts.config_file
    ∷ codes "--state-dir"
    ∷ opts.state_dir
    ∷ codes "--log-dir"
    ∷ opts.log_dir
    ∷ codes "--listen"
    ∷ opts.listen
    ∷ (optional_arg (codes "--cache-dir") opts.cache_dir
        ++ (optional_arg (codes "--hub-dir") opts.hub_dir
            ++ optional_arg (codes "--local-dir") opts.local_dir))

-- The paths that the unit carries; an empty one has no control character.
abbrev pub unit_paths : InstallOptions → List Bytes
unit_paths opts =
    opts.executable ∷ opts.config_file ∷ opts.state_dir ∷ opts.log_dir ∷ opts.cache_dir
    ∷ opts.hub_dir ∷ opts.local_dir ∷ []

-- The first path with a control character, and that character.
unfoldable pub first_control : List Bytes → Option (Bytes × ℕ)
first_control [] = none
first_control (p ∷ ps) =
    let rest = first_control ps in elim (control_character p) [ none ↦ rest | some c ↦ some (p, c) ]

unfoldable pub validate_unit_paths : InstallOptions → Option (Bytes × ℕ)
unfolding first_control control_character
validate_unit_paths opts = first_control (unit_paths opts)

-- The account and its group, as far as the system knows them.
pub record Account : Type 0 where
  pub name : Bytes
  pub group : Option Bytes

unfoldable pub identity_lines : Bytes → Option Bytes → List Bytes
unfolding systemd_quote
identity_lines name none = (codes "User=" ++ systemd_quote name) ∷ []
identity_lines name (some group) =
    (codes "User=" ++ systemd_quote name) ∷ (codes "Group=" ++ systemd_quote group) ∷ []

unfoldable pub unit_identity : Option Account → List Bytes
unfolding identity_lines
unit_identity none = []
unit_identity (some a) = identity_lines a.name a.group

unfoldable pub exec_start : InstallOptions → Bytes
unfolding systemd_quote_command systemd_quote_command_always join_words run_args
exec_start opts =
    join_words
      (systemd_quote_command_always opts.executable ∷ map systemd_quote_command (run_args opts))

-- The lines of the template in front of the identity, and behind it.
abbrev pub head_lines : List Bytes
head_lines =
    codes "# HFDesk service unit."
    ∷ codes "#"
    ∷ codes "# Generated by the hfdesk service install command; a later installation"
    ∷ codes "# overwrites this file."
    ∷ codes "#"
    ∷ codes "# The unit holds no access data: an instance reads its own settings from its"
    ∷ codes "# config file, which only the owner of the instance can read. The unit"
    ∷ codes "# therefore carries the executable and the canonical arguments of the"
    ∷ codes "# process only."
    ∷ []
    ∷ codes "[Unit]"
    ∷ codes "Description=HFDesk"
    ∷ codes "Documentation=https://github.com/bashrusakh/hfdesk"
    ∷ codes "After=network-online.target"
    ∷ codes "Wants=network-online.target"
    ∷ []
    ∷ codes "[Service]"
    ∷ codes "# The supervisor owns the lifecycle of the instance: HFDesk stays a normal"
    ∷ codes "# foreground process and the supervisor restarts it when it fails."
    ∷ codes "Type=simple"
    ∷ []

abbrev pub middle_lines : List Bytes
middle_lines =
    codes "Restart=on-failure"
    ∷ codes "RestartSec=5s"
    ∷ codes "# The supervisor waits for the graceful shutdown of the instance before it"
    ∷ codes "# kills it. The wait covers the whole orderly shutdown of the server, so a"
    ∷ codes "# stop never interrupts an instance that is still saving its state."
    ∷ codes "TimeoutStopSec=25s"
    ∷ codes "NoNewPrivileges=true"
    ∷ codes "UMask=0077"
    ∷ []

abbrev pub target_of : InstallScope → Bytes
target_of scope_user = codes "default.target"
target_of scope_system = codes "multi-user.target"

abbrev pub install_lines : InstallScope → List Bytes
install_lines scope = [] ∷ codes "[Install]" ∷ (codes "WantedBy=" ++ target_of scope) ∷ []

unfoldable pub unit_lines : InstallOptions → Option Account → Bytes → List Bytes
unfolding exec_start unit_identity systemd_quote
unit_lines opts account home =
    head_lines
    ++ (unit_identity account
        ++ ((codes "ExecStart=" ++ exec_start opts)
            ∷ (codes "WorkingDirectory=" ++ systemd_quote opts.state_dir)
            ∷ (middle_lines
                ++ ((codes "Environment=" ++ systemd_quote (codes "HOME=" ++ home))
                    ∷ install_lines opts.scope))))

-- Every line ends with a newline.
unfoldable pub text_of : List Bytes → Bytes
text_of [] = []
text_of (l ∷ ls) = l ++ b'\n' ∷ text_of ls

unfoldable pub render_unit : InstallOptions → Option Account → Bytes → Bytes
unfolding text_of unit_lines
render_unit opts account home = text_of (unit_lines opts account home)
