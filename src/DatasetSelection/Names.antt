-- ===== src/DatasetSelection/Names.antt =====
-- The tests on names of internal/datasetselection/membership.go.
use hfdesk.Base.{
  ℕ, zero, suc, Bool, true, false, not, ◌&&◌, ◌||◌, none, some, List, [], ◌∷◌, ◌==◌, ltb,
  if◌then◌else◌, any, keep_if, length, Bytes, bytes_eq, codes, cut_prefix, has_prefix, split,
  has_suffix, trim_prefix, with_slashes, lowered, path_base, path_ext, is_one_of, starts_free,
  index_from,
}
use hfdesk.HubTree.Paths.{clean}

unfoldable pub normalized : Bytes → Bytes
normalized path = trim_prefix (clean (with_slashes path)) (codes "./")

unfoldable pub extension_of : Bytes → Bytes
unfolding path_ext
extension_of base =
    if has_suffix base (codes ".tar.gz")
    then codes "tar.gz"
    else trim_prefix (path_ext base) (codes ".")

abbrev data_extensions : List Bytes
data_extensions =
    codes "parquet"
    ∷ codes "arrow"
    ∷ codes "json"
    ∷ codes "jsonl"
    ∷ codes "csv"
    ∷ codes "tsv"
    ∷ codes "txt"
    ∷ codes "tar"
    ∷ codes "tar.gz"
    ∷ codes "zip"
    ∷ codes "gz"
    ∷ codes "zst"
    ∷ []

unfoldable pub is_data_extension : Bytes → Bool
is_data_extension ext = is_one_of ext data_extensions

abbrev known_metadata_basenames : List Bytes
known_metadata_basenames =
    codes "dataset_info.json"
    ∷ codes "dataset_infos.json"
    ∷ codes "config.json"
    ∷ codes "generation_config.json"
    ∷ codes "preprocessor_config.json"
    ∷ codes "processor_config.json"
    ∷ codes "quantization_config.json"
    ∷ codes "adapter_config.json"
    ∷ codes "tokenizer.json"
    ∷ codes "tokenizer_config.json"
    ∷ codes "special_tokens_map.json"
    ∷ codes "added_tokens.json"
    ∷ codes "vocab.json"
    ∷ codes "merges.txt"
    ∷ codes "vocab.txt"
    ∷ codes "tokenizer.model"
    ∷ codes "sentencepiece.bpe.model"
    ∷ codes "spiece.model"
    ∷ codes "tokenizer.bin"
    ∷ codes "pyproject.toml"
    ∷ codes "setup.py"
    ∷ codes "setup.cfg"
    ∷ []

unfoldable pub is_known_metadata_basename : Bytes → Bool
is_known_metadata_basename base =
    is_one_of base known_metadata_basenames
    || ((has_prefix base (codes "requirements") && has_suffix base (codes ".txt"))
        || (has_prefix base (codes "environment")
            && (has_suffix base (codes ".yml") || has_suffix base (codes ".yaml"))))

abbrev metadata_text_extensions : List Bytes
metadata_text_extensions = codes ".md" ∷ codes ".markdown" ∷ codes ".rst" ∷ codes ".txt" ∷ []

unfoldable pub is_readme_variant : Bytes → Bool
unfolding path_ext
is_readme_variant base =
    has_prefix base (codes "readme")
    && (bytes_eq base (codes "readme") || is_one_of (path_ext base) metadata_text_extensions)

unfoldable pub is_license_variant : Bytes → Bool
is_license_variant base =
    if bytes_eq base (codes "license") then true else elim (cut_prefix base (codes "license")) [
      | none ↦ false
      | some rest ↦
          if bytes_eq rest []
          then false
          else (if has_prefix rest (codes "-")
              then ltb 1 (length rest)
              else is_one_of rest metadata_text_extensions)
    ]

unfoldable pub is_metadata : Bytes → Bool
unfolding path_base is_readme_variant is_license_variant is_known_metadata_basename
is_metadata p =
    let q = trim_prefix (with_slashes p) (codes "./") in
    if bytes_eq q []
    then false
    else (let base = lowered (path_base q) in
        is_readme_variant base || (is_license_variant base || is_known_metadata_basename base))

unfoldable pub is_root_metadata : Bytes → Bool
unfolding is_metadata
is_root_metadata p =
    let q = trim_prefix (with_slashes p) (codes "./") in
    not (bytes_eq q []) && (not (any (λ c. c == b'/') q) && is_metadata q)

abbrev pub standard_groups : List Bytes
standard_groups =
    codes "train" ∷ codes "test" ∷ codes "validation" ∷ codes "dev" ∷ codes "eval" ∷ []

unfoldable pub is_standard_group : Bytes → Bool
is_standard_group group = is_one_of group standard_groups

abbrev pub is_split_delimiter : ℕ → Bool
is_split_delimiter c = c == b'-' || (c == b'_' || c == b'.')

-- The search loop, with the text before `start` reversed; each round moves on by a byte.
unfoldable pub split_token_from : ℕ → Bytes → Bytes → Bytes → Bool
unfolding index_from
split_token_from zero token before s = false
split_token_from (suc fuel) token before s = elim (index_from token before s) [
  | none ↦ false
  | some (front, found) ↦
      if starts_free is_split_delimiter front && elim (cut_prefix found token) [
        | none ↦ false
        | some behind ↦ starts_free is_split_delimiter behind
      ]
      then true
      else elim found [
        | [] ↦ false
        | c ∷ rest ↦ elim rest [
          | [] ↦ false
          | d ∷ t ↦ split_token_from fuel token (c ∷ front) (d ∷ t)
        ]
      ]
]

unfoldable pub has_split_token : Bytes → Bytes → Bool
unfolding split_token_from
has_split_token base token = split_token_from (suc (length base)) token [] base

-- All parts but the last.
abbrev directories : List Bytes → List Bytes
directories [] = []
directories (p ∷ []) = []
directories (p ∷ q ∷ ps) = p ∷ directories (q ∷ ps)

abbrev custom_group : List Bytes → List Bytes
custom_group (a ∷ g ∷ c ∷ ps) =
    if bytes_eq a (codes "data") && not (bytes_eq g []) then g ∷ [] else []
custom_group _ = []

unfoldable pub path_groups : Bytes → Bytes → List Bytes
unfolding has_split_token
path_groups p base =
    let parts = split b'/' p in
    let found =
      keep_if (λ g. any (bytes_eq g) (directories parts) || has_split_token base g)
        standard_groups in
    elim found [ [] ↦ custom_group parts | g ∷ gs ↦ g ∷ gs ]

-- `sort.Strings`.
string_le : Bytes → Bytes → Bool
string_le [] t = true
string_le (c ∷ s) [] = false
string_le (c ∷ s) (d ∷ t) = let rest = string_le s t in if c == d then rest else ltb c d

insert_string : Bytes → List Bytes → List Bytes
unfolding string_le
insert_string s [] = s ∷ []
insert_string s (t ∷ ts) =
    let rest = insert_string s ts in if string_le s t then s ∷ t ∷ ts else t ∷ rest

unfoldable pub sort_strings : List Bytes → List Bytes
unfolding insert_string
sort_strings [] = []
sort_strings (s ∷ ss) = insert_string s (sort_strings ss)
