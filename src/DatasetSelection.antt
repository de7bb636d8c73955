-- ===== src/DatasetSelection.antt =====
-- internal/datasetselection/membership.go: which files of a repository belong to which group of a
-- dataset. A map from labels is an association list in the order of first use.
pub mod Names
pub mod Evidences
pub mod Tokens
mod Examples
use hfdesk.Base.{
  ℕ, zero, suc, Bool, true, false, not, ◌&&◌, ◌||◌, Option, none, some, List, [], ◌∷◌, ◌++◌, ◌==◌,
  if◌then◌else◌, any, Bytes, bytes_eq, codes, lowered, path_base,
}
use hfdesk.DatasetSelection.Names.{
  normalized, extension_of, is_metadata, is_root_metadata, is_data_extension, path_groups,
  is_standard_group, sort_strings,
}

pub data EvidenceRole : Type 0 where
  data_role companion_role : EvidenceRole

pub data EvidenceReason : Type 0 where
  conventional custom conflicting unnamed_default unnamed_ambiguous root_metadata metadata_companion
        ordinary_companion :
      EvidenceReason

pub record Evidence : Type 0 where
  pub input_index : ℕ
  pub possible_labels : List Bytes
  pub definite_labels : List Bytes
  pub possible_roles : List EvidenceRole
  pub definite_role : Option EvidenceRole
  pub reason : EvidenceReason

pub record Result : Type 0 where
  pub groups : List (Bytes × List ℕ)
  pub unresolved : List ℕ
  pub evidence : List Evidence

-- `r.Groups[label] = append(r.Groups[label], i)`.
unfoldable pub add_to_group : Bytes → ℕ → List (Bytes × List ℕ) → List (Bytes × List ℕ)
add_to_group label i [] = (label, i ∷ []) ∷ []
add_to_group label i ((l, is) ∷ groups) =
    let rest = add_to_group label i groups in
    if bytes_eq l label then (l, is ++ i ∷ []) ∷ groups else (l, is) ∷ rest

unfoldable pub in_group : Bytes → EvidenceReason → ℕ → Result → Result
in_group label reason i r = record r {
  groups = add_to_group label i r.groups;
  evidence =
      r.evidence
      ++ record {
        input_index = i;
        possible_labels = label ∷ [];
        definite_labels = label ∷ [];
        possible_roles = data_role ∷ [];
        definite_role = some data_role;
        reason = reason;
      }
        ∷ [];
}

unfoldable pub left_open : List Bytes → List EvidenceRole → EvidenceReason → ℕ → Result → Result
left_open labels roles reason i r = record r {
  unresolved = r.unresolved ++ i ∷ [];
  evidence =
      r.evidence
      ++ record {
        input_index = i;
        possible_labels = labels;
        definite_labels = [];
        possible_roles = roles;
        definite_role = none;
        reason = reason;
      }
        ∷ [];
}

unfoldable pub as_companion : EvidenceReason → ℕ → Result → Result
as_companion reason i r = record r {
  evidence =
      r.evidence
      ++ record {
        input_index = i;
        possible_labels = [];
        definite_labels = [];
        possible_roles = companion_role ∷ [];
        definite_role = none;
        reason = reason;
      }
        ∷ [];
}

-- A data file, with the groups that its path names.
unfoldable pub place : List Bytes → Bytes → ℕ → Result → Result
unfolding in_group left_open
place (g ∷ h ∷ gs) ext i r = left_open (sort_strings (g ∷ h ∷ gs)) (data_role ∷ []) conflicting i r
place (g ∷ []) ext i r = in_group g (if is_standard_group g then conventional else custom) i r
place [] ext i r =
    if any (bytes_eq ext) (codes "json" ∷ codes "jsonl" ∷ codes "txt" ∷ [])
    then left_open (codes "default" ∷ []) (data_role ∷ companion_role ∷ []) unnamed_ambiguous i r
    else in_group (codes "default") unnamed_default i r

unfoldable pub recognize_file : ℕ → Bytes → Result → Result
unfolding place as_companion
recognize_file i path r =
    let p = normalized path in
    let lower = lowered p in
    let base = path_base lower in
    let ext = extension_of base in
    if is_metadata p
    then as_companion (if is_root_metadata p then root_metadata else metadata_companion) i r
    else (if is_data_extension ext
        then place (path_groups lower base) ext i r
        else as_companion ordinary_companion i r)

unfoldable pub recognize_from : ℕ → List Bytes → Result → Result
unfolding recognize_file
recognize_from i [] r = r
recognize_from i (path ∷ paths) r = recognize_from (suc i) paths (recognize_file i path r)

unfoldable pub recognize : List Bytes → Result
unfolding recognize_from
recognize paths = recognize_from 0 paths (record { groups = []; unresolved = []; evidence = [] })
