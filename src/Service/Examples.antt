-- ===== src/Service/Examples.antt =====
-- The theorems on the unit files of internal/service/manager_linux.go at an installation.
use hfdesk.Base.{◌≡◌, refl, Option, some, List, [], ◌∷◌, map, Bytes, codes}
use hfdesk.Service.Systemd.{
  systemd_quote_command, join_words, split_systemd_words, resolve_systemd_dollars,
  control_character,
}
use hfdesk.Service.Systemd.Quoting.{split-quote}
use hfdesk.Service.Units.{InstallOptions, Account, scope_system, render_unit, validate_unit_paths}
use hfdesk.Service.Reading.{parse_unit}
use hfdesk.Service.Reading.Registered.{registered, parse_unit-render_unit}

abbrev words : List Bytes
words = codes "run" ∷ [] ∷ codes "/a b/$HOME" ∷ codes "50%\\'\"" ∷ []

split-quote_example :
    resolve_systemd_dollars (split_systemd_words (join_words (map systemd_quote_command words)))
    ≡ words
unfolding control_character
split-quote_example = split-quote words (refl, (refl, (refl, (refl, tt))))

abbrev machine_wide : InstallOptions
machine_wide = record {
  scope = scope_system;
  executable = codes "/opt/hf desk/hfdesk";
  listen = codes "127.0.0.1:8080";
  config_file = codes "/etc/hfdesk/$1.json";
  state_dir = codes "/var/lib/100%/state";
  log_dir = codes "/var/log/hfdesk";
  cache_dir = [];
  hub_dir = codes "/srv/hub";
  local_dir = [];
  service_user = codes "hfdesk";
}

abbrev account : Option Account
account = some (record { name = codes "hfdesk"; group = some (codes "hf desk") })

parse_unit-render_unit_example :
    parse_unit (render_unit machine_wide account (codes "/var/lib/hfdesk"))
    ≡ registered machine_wide (codes "/var/lib/hfdesk")
unfolding validate_unit_paths control_character
parse_unit-render_unit_example =
    parse_unit-render_unit machine_wide account (codes "/var/lib/hfdesk") refl (refl, refl)
      ((refl, refl), (refl, refl)) (refl, refl)
      (refl, (refl, (refl, (refl, (refl, (refl, (refl, tt)))))))
