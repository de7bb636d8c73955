-- ===== src/Downloader/Kinds.antt =====
-- pkg/hfdownloader/plan.go: what kind of file a repository path names.
use hfdesk.Base.{
  ℕ, Bool, true, false, not, ◌&&◌, ◌||◌, Option, none, some, List, [], ◌∷◌, ◌++◌, ◌==◌, leb,
  if◌then◌else◌, any, Bytes, bytes_eq, codes, cut_prefix, has_prefix, equal_fold, contains,
  fields_by, has_suffix, trim_suffix, trim_prefix, with_slashes, lowered, path_base, path_ext,
  is_one_of,
}
use hfdesk.DatasetSelection.Names.{is_metadata}
use hfdesk.Downloader.Filters.{
  filter_matches_path, is_excluded_path, is_gguf_file_path, some_filter_matches,
}

-- The base name in lower case, behind either kind of slash.
abbrev lower_base : Bytes → Bytes
lower_base p = lowered (path_base (with_slashes p))

abbrev artifact_delimiter : ℕ → Bool
artifact_delimiter c = c == b'-' || (c == b'_' || (c == b'.' || c == b' '))

-- The scan over the tokens of a stem.
unfoldable pub training_tokens : List Bytes → Bool
training_tokens [] = false
training_tokens (token ∷ []) = bytes_eq token (codes "optimizer")
training_tokens (token ∷ next ∷ tokens) =
    let rest = training_tokens (next ∷ tokens) in
    if bytes_eq token (codes "optimizer")
    then true
    else (if is_one_of token (codes "training" ∷ codes "trainer" ∷ [])
          && is_one_of next (codes "args" ∷ codes "state" ∷ codes "states" ∷ [])
        then true
        else rest)

unfoldable pub is_training_artifact_base : Bytes → Bool
unfolding training_tokens path_ext fields_by
is_training_artifact_base base =
    training_tokens (fields_by artifact_delimiter (trim_suffix base (path_ext base)))

-- `strings.Split(shard, "-of-")` into two parts, neither with a further separator.
unfoldable pub split_of : Bytes → Option (Bytes × Bytes)
split_of [] = none
split_of (c ∷ s) =
    let rest = split_of s in
    elim (cut_prefix (c ∷ s) (codes "-of-")) [
      | some behind ↦ some ([], behind)
      | none ↦ elim rest [ none ↦ none | some (a, b) ↦ some (c ∷ a, b) ]
    ]

abbrev is_number : Bytes → Bool
is_number s = not (bytes_eq s []) && not (any (λ c. not (leb b'0' c && leb c b'9')) s)

unfoldable pub is_numbered_artifact_shard : Bytes → Bytes → Bytes → Bool
unfolding split_of
is_numbered_artifact_shard base stem extension =
    let prefix = stem ++ codes "-" in
    if not (has_prefix base prefix) || not (has_suffix base extension)
    then false
    else elim (split_of (trim_suffix (trim_prefix base prefix) extension)) [
      | none ↦ false
      | some (a, b) ↦ is_number a && is_number b
    ]

abbrev payload_extensions : List Bytes
payload_extensions =
    codes ".safetensors"
    ∷ codes ".onnx"
    ∷ codes ".pt"
    ∷ codes ".pth"
    ∷ codes ".ckpt"
    ∷ codes ".gguf-split"
    ∷ codes ".ggml"
    ∷ []

abbrev is_framework_weight : Bytes → Bool
is_framework_weight base =
    is_one_of base (codes "flax_model.msgpack" ∷ codes "diffusion_flax_model.msgpack" ∷ [])
    || (is_numbered_artifact_shard base (codes "flax_model") (codes ".msgpack")
        || (bytes_eq base (codes "tf_model.h5")
            || (is_numbered_artifact_shard base (codes "tf_model") (codes ".h5")
                || is_one_of base (codes "model.tflite" ∷ codes "rust_model.ot" ∷ []))))

unfoldable pub is_model_payload_path : Bytes → Bool
unfolding is_training_artifact_base is_numbered_artifact_shard path_base path_ext contains
is_model_payload_path path =
    let base = lower_base path in
    let ext = path_ext base in
    if is_training_artifact_base base
    then false
    else (if is_one_of ext payload_extensions
        then true
        else (if bytes_eq ext (codes ".bin")
            then not (contains base (codes "tokenizer"))
            else is_framework_weight base))

unfoldable pub is_readme_path : Bytes → Bool
unfolding path_base path_ext
is_readme_path path =
    let base = lower_base path in
    if bytes_eq base (codes "readme")
    then true
    else (if has_prefix base (codes "readme")
        then is_one_of (path_ext base)
            (codes ".md" ∷ codes ".markdown" ∷ codes ".rst" ∷ codes ".txt" ∷ [])
        else false)

abbrev model_metadata_names : List Bytes
model_metadata_names =
    codes "config.json"
    ∷ codes "tokenizer.json"
    ∷ codes "tokenizer_config.json"
    ∷ codes "special_tokens_map.json"
    ∷ codes "added_tokens.json"
    ∷ codes "vocab.json"
    ∷ codes "merges.txt"
    ∷ codes "vocab.txt"
    ∷ []

unfoldable pub is_recognized_model_metadata : Bytes → Bool
unfolding is_readme_path path_base
is_recognized_model_metadata path =
    is_one_of (lower_base path) model_metadata_names || is_readme_path path

unfoldable pub is_dataset_service_metadata : Bytes → Bool
unfolding path_base
is_dataset_service_metadata path =
    equal_fold (path_base (with_slashes path)) (codes "dataset_info.json")

unfoldable pub is_recognized_metadata_path : Bytes → Bool
unfolding is_recognized_model_metadata is_dataset_service_metadata
is_recognized_metadata_path path =
    is_recognized_model_metadata path || is_dataset_service_metadata path

unfoldable pub is_recognized_dataset_metadata_path : Bytes → Bool
unfolding is_recognized_metadata_path is_metadata path_base
is_recognized_dataset_metadata_path path =
    not (bytes_eq (lower_base path) (codes "vocab.txt"))
    && (is_recognized_metadata_path path || is_metadata path)

-- What one directly matched path adds to what was found of GGUF files and of other payloads.
abbrev note_kind : Bytes → Bool × Bool → Bool × Bool
note_kind path (gguf, other) =
    if is_gguf_file_path path
    then (true, other)
    else (if is_model_payload_path path then (gguf, true) else (gguf, other))

unfoldable pub matched_kinds :
    List Bytes → List Bytes → List Bytes → Bool → Bool × Bool → Bool × Bool
unfolding is_excluded_path filter_matches_path is_gguf_file_path is_model_payload_path
matched_kinds [] filters excludes exact found = found
matched_kinds (path ∷ paths) filters excludes exact found = elim (is_excluded_path path excludes) [
  | true ↦ matched_kinds paths filters excludes exact found
  | false ↦ elim (some_filter_matches path filters exact) [
    | true ↦ matched_kinds paths filters excludes exact (note_kind path found)
    | false ↦ matched_kinds paths filters excludes exact found
  ]
]

unfoldable pub is_gguf_filter_download_with_excludes :
    List Bytes → List Bytes → List Bytes → Bool → Bool
unfolding matched_kinds
is_gguf_filter_download_with_excludes names filters excludes exact = elim filters [
  | [] ↦ false
  | f ∷ fs ↦
      let found = matched_kinds names (f ∷ fs) excludes exact (false, false) in
      found.0 && not found.1
]
