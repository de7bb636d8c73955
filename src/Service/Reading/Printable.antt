-- ===== src/Service/Reading/Printable.antt =====
-- The lines of a unit file of internal/service/manager_linux.go have no newline in them.
use hfdesk.Base.{
  ◌≡◌, refl, ap, ◌∙◌, Bool, true, false, not, ◌&&◌, Option, none, some, List, [], ◌∷◌, ◌++◌, arith,
  if-rule, any, Bytes, bytes_eq, codes, split, split_from, split_from-more,
}
use hfdesk.Service.Systemd.{systemd_quote, control_character}
use hfdesk.Service.Systemd.Quoting.{AllPrintable}
use hfdesk.Service.Units.{
  InstallOptions, optional_arg, run_args, unit_paths, first_control, Account, identity_lines,
  unit_identity, text_of,
}
use hfdesk.Service.Reading.Values.{IsPlain, AllPlain, is_newline, IsValue-append, quote-IsValue}

abbrev pub IsPrintableGroup : Option Bytes → Type 0
IsPrintableGroup none = Unit {0}
IsPrintableGroup (some g) = IsPlain g

-- The names of the account and of its group are plain.
abbrev pub IsPrintableAccount : Option Account → Type 0
IsPrintableAccount none = Unit {0}
IsPrintableAccount (some a) = IsPlain a.name × IsPrintableGroup a.group

abbrev pub Unbroken : List Bytes → Type 0
Unbroken [] = Unit {0}
Unbroken (l ∷ ls) = (any is_newline l ≡ false) × Unbroken ls

pub Unbroken-append : (ls ms : List Bytes) → Unbroken ls → Unbroken ms → Unbroken (ls ++ ms)
Unbroken-append [] ms h k = k
Unbroken-append (l ∷ ls) ms h k = (h.0, Unbroken-append ls ms h.1 k)

-- The lines of a text, and the empty one behind its last newline.
pub split-text_of : (ls : List Bytes) → Unbroken ls → split b'\n' (text_of ls) ≡ ls ++ ([] ∷ [])
unfolding split text_of split_from
split-text_of [] h = refl
split-text_of (l ∷ ls) h =
    split_from-more b'\n' l (text_of ls) h.0 ∙ ap (λ ms. l ∷ ms) (split-text_of ls h.1)

pub AllPlain-append : (ws vs : List Bytes) → AllPlain ws → AllPlain vs → AllPlain (ws ++ vs)
AllPlain-append [] vs h k = k
AllPlain-append (w ∷ ws) vs h k = (h.0, AllPlain-append ws vs h.1 k)

pub first_control-AllPrintable : (ps : List Bytes) → first_control ps ≡ none → AllPrintable ps
unfolding first_control
first_control-AllPrintable [] h = tt
first_control-AllPrintable (p ∷ ps) h =
    (ground (arith, h), first_control-AllPrintable ps (ground (arith, h)))

pub optional_arg-AllPlain :
    (flag value : Bytes) → IsPlain flag → IsPlain value → AllPlain (optional_arg flag value)
unfolding optional_arg
optional_arg-AllPlain flag value f h =
    if-rule AllPlain (bytes_eq value []) [] (flag ∷ value ∷ []) (λ _. tt) (λ _. (f, (h, tt)))

pub run_args-AllPlain :
    (opts : InstallOptions)
    → AllPlain (unit_paths opts)
    → IsPlain opts.listen
    → AllPlain (run_args opts)
unfolding run_args control_character
run_args-AllPlain opts (_, (config, (state, (log, (cache, (hub, (dir, _))))))) h = (
  (refl, refl),
  (
    (refl, refl),
    (
      (refl, refl),
      (config, ((refl, refl), (state, ((refl, refl), (log, ((refl, refl), (h, directories))))))),
    ),
  ),
)
  where
    directories : AllPlain (
        optional_arg (codes "--cache-dir") opts.cache_dir
        ++ (optional_arg (codes "--hub-dir") opts.hub_dir
            ++ optional_arg (codes "--local-dir") opts.local_dir))
    directories =
        AllPlain-append (optional_arg (codes "--cache-dir") opts.cache_dir) _
          (optional_arg-AllPlain (codes "--cache-dir") opts.cache_dir (refl, refl) cache)
          (AllPlain-append (optional_arg (codes "--hub-dir") opts.hub_dir) _
            (optional_arg-AllPlain (codes "--hub-dir") opts.hub_dir (refl, refl) hub)
            (optional_arg-AllPlain (codes "--local-dir") opts.local_dir (refl, refl) dir))

unfoldable pub all_unbroken : List Bytes → Bool
all_unbroken [] = true
all_unbroken (l ∷ ls) = not (any is_newline l) && all_unbroken ls

pub all_unbroken-Unbroken : (ls : List Bytes) → all_unbroken ls ≡ true → Unbroken ls
unfolding all_unbroken
all_unbroken-Unbroken [] h = tt
all_unbroken-Unbroken (l ∷ ls) h = (ground (arith, h), all_unbroken-Unbroken ls (ground (arith, h)))

pub names-Unbroken :
    (name : Bytes) (group : Option Bytes)
    → IsPlain name
    → IsPrintableGroup group
    → Unbroken (identity_lines name group)
unfolding identity_lines
names-Unbroken name none h k =
    ((IsValue-append (codes "User=") (systemd_quote name) refl (quote-IsValue name h)).unbroken, tt)
names-Unbroken name (some g) h k = (
  (IsValue-append (codes "User=") (systemd_quote name) refl (quote-IsValue name h)).unbroken,
  ((IsValue-append (codes "Group=") (systemd_quote g) refl (quote-IsValue g k)).unbroken, tt),
)

pub identity-Unbroken :
    (account : Option Account) → IsPrintableAccount account → Unbroken (unit_identity account)
unfolding unit_identity
identity-Unbroken none h = tt
identity-Unbroken (some a) h = names-Unbroken a.name a.group h.0 h.1
