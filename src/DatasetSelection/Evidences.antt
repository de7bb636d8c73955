-- ===== src/DatasetSelection/Evidences.antt =====
-- How the parts of a result of internal/datasetselection/membership.go fit together.
use hfdesk.Base.{
  ℕ, zero, suc, ◌≡◌, refl, ap, sym, ◌∙◌, Bool, true, false, ◌&&◌, none, some, List, [], ◌∷◌, ◌++◌,
  append-nil, append_assoc, arith, if◌then◌else◌, if-rule, any, keep_if, keep_if-append, length,
  Bytes, bytes_eq, bytes_eq_iff, Bool-cases, inl, inr, codes, lowered, path_base,
}
use hfdesk.DatasetSelection.{
  Result, Evidence, EvidenceRole, EvidenceReason, data_role, companion_role, conflicting,
  unnamed_ambiguous, unnamed_default, root_metadata, metadata_companion, ordinary_companion,
  add_to_group, in_group, left_open, as_companion, place, recognize_file, recognize_from, recognize,
}
use hfdesk.DatasetSelection.Names.{
  normalized, extension_of, is_metadata, is_root_metadata, is_data_extension, path_groups,
}

abbrev pub indexes : List Evidence → List ℕ
indexes [] = []
indexes (e ∷ es) = e.input_index ∷ indexes es

abbrev pub count_up : ℕ → ℕ → List ℕ
count_up i zero = []
count_up i (suc n) = i ∷ count_up (suc i) n

-- The indexes of a group, none where it does not exist.
unfoldable pub group_indexes : Bytes → List (Bytes × List ℕ) → List ℕ
group_indexes label [] = []
group_indexes label ((l, is) ∷ groups) =
    let rest = group_indexes label groups in if bytes_eq l label then is else rest

abbrev pub is_definite : Bytes → Evidence → Bool
is_definite label e = any (λ l. bytes_eq l label) e.definite_labels

abbrev pub is_data_role : EvidenceRole → Bool
is_data_role data_role = true
is_data_role companion_role = false

-- Possibly data, with no label that is settled.
abbrev pub is_open : Evidence → Bool
is_open e =
    any is_data_role e.possible_roles && elim e.definite_labels [ [] ↦ true | l ∷ ls ↦ false ]

-- The groups and the open files are what the evidence says.
pub record Agrees (r : Result) : Type 0 where
  pub grouped :
      (label : Bytes)
      → group_indexes label r.groups ≡ indexes (keep_if (is_definite label) r.evidence)
  pub left : r.unresolved ≡ indexes (keep_if is_open r.evidence)

indexes-append : (es fs : List Evidence) → indexes (es ++ fs) ≡ indexes es ++ indexes fs
indexes-append [] fs = refl
indexes-append (e ∷ es) fs = ap (λ t. e.input_index ∷ t) (indexes-append es fs)

picked-append :
    (p : Evidence → Bool) (es fs : List Evidence)
    → indexes (keep_if p (es ++ fs)) ≡ indexes (keep_if p es) ++ indexes (keep_if p fs)
picked-append p es fs =
    ap indexes (keep_if-append p es fs) ∙ indexes-append (keep_if p es) (keep_if p fs)

not_both :
    (k label l : Bytes) → bytes_eq k label ≡ false → (bytes_eq k l && bytes_eq label l) ≡ false
not_both k label l there = elim (Bool-cases (bytes_eq k l)) [
  | inr off ↦ ground arith
  | inl on ↦ elim (Bool-cases (bytes_eq label l)) [
    | inr off ↦ ground arith
    | inl too ↦
        (let same : k ≡ label = (bytes_eq_iff k l).0 on ∙ sym ((bytes_eq_iff label l).0 too) in
          absurd (ground (arith, (bytes_eq_iff k label).1 same)))
  ]
]

group_indexes-add_to_group :
    (label l : Bytes) (i : ℕ) (groups : List (Bytes × List ℕ))
    → group_indexes l (add_to_group label i groups)
      ≡ (if bytes_eq label l then group_indexes l groups ++ i ∷ [] else group_indexes l groups)
unfolding add_to_group group_indexes
group_indexes-add_to_group label l i [] = ground arith
group_indexes-add_to_group label l i ((k, is) ∷ groups) =
    let rec = group_indexes-add_to_group label l i groups in
    elim (Bool-cases (bytes_eq k label)) [
      | inl here ↦
          (let same = (bytes_eq_iff k label).0 here in
            let test : bytes_eq k l ≡ bytes_eq label l = ap (λ t. bytes_eq t l) same in
            ground arith)
      | inr there ↦ (let other = not_both k label l there in ground arith)
    ]

abbrev grouped_evidence : Bytes → EvidenceReason → ℕ → Evidence
grouped_evidence label reason i = record {
  input_index = i;
  possible_labels = label ∷ [];
  definite_labels = label ∷ [];
  possible_roles = data_role ∷ [];
  definite_role = some data_role;
  reason = reason;
}

in_group-Agrees :
    (label : Bytes) (reason : EvidenceReason) (i : ℕ) (r : Result)
    → Agrees r
    → Agrees (in_group label reason i r)
unfolding in_group
in_group-Agrees label reason i r a =
    let e = grouped_evidence label reason i in
    record {
      grouped = λ l.
          let added = group_indexes-add_to_group label l i r.groups in
          let picked = picked-append (is_definite l) r.evidence (e ∷ []) in
          let old = a.grouped l in
          let none_more = append-nil (indexes (keep_if (is_definite l) r.evidence)) in ground arith;
      left = a.left ∙ sym (append-nil _) ∙ sym (picked-append is_open r.evidence (e ∷ []));
    }

left_open-Agrees :
    (labels : List Bytes) (roles : List EvidenceRole) (reason : EvidenceReason) (i : ℕ) (r : Result)
    → any is_data_role roles ≡ true
    → Agrees r
    → Agrees (left_open labels roles reason i r)
unfolding left_open
left_open-Agrees labels roles reason i r d a =
    let e : Evidence = record {
      input_index = i;
      possible_labels = labels;
      definite_labels = [];
      possible_roles = roles;
      definite_role = none;
      reason = reason;
    } in
    record {
      grouped = λ l.
          a.grouped l
          ∙ sym (append-nil _)
          ∙ sym (picked-append (is_definite l) r.evidence (e ∷ []));
      left =
          let picked = picked-append is_open r.evidence (e ∷ []) in
          let old = a.left in ground arith;
    }

as_companion-Agrees :
    (reason : EvidenceReason) (i : ℕ) (r : Result) → Agrees r → Agrees (as_companion reason i r)
unfolding as_companion
as_companion-Agrees reason i r a =
    let e : Evidence = record {
      input_index = i;
      possible_labels = [];
      definite_labels = [];
      possible_roles = companion_role ∷ [];
      definite_role = none;
      reason = reason;
    } in
    record {
      grouped = λ l.
          a.grouped l
          ∙ sym (append-nil _)
          ∙ sym (picked-append (is_definite l) r.evidence (e ∷ []));
      left = a.left ∙ sym (append-nil _) ∙ sym (picked-append is_open r.evidence (e ∷ []));
    }

place-Agrees :
    (groups : List Bytes) (ext : Bytes) (i : ℕ) (r : Result)
    → Agrees r
    → Agrees (place groups ext i r)
unfolding place
place-Agrees (g ∷ h ∷ gs) ext i r a = left_open-Agrees _ (data_role ∷ []) conflicting i r refl a
place-Agrees (g ∷ []) ext i r a = in_group-Agrees g _ i r a
place-Agrees [] ext i r a =
    if-rule Agrees (any (bytes_eq ext) (codes "json" ∷ codes "jsonl" ∷ codes "txt" ∷ [])) _ _
      (λ _. left_open-Agrees _ (data_role ∷ companion_role ∷ []) unnamed_ambiguous i r refl a)
      (λ _. in_group-Agrees (codes "default") unnamed_default i r a)

recognize_file-Agrees :
    (i : ℕ) (path : Bytes) (r : Result) → Agrees r → Agrees (recognize_file i path r)
unfolding recognize_file
recognize_file-Agrees i path r a =
    let p = normalized path in
    let base = path_base (lowered p) in
    if-rule Agrees (is_metadata p) _ _
      (λ _.
        as_companion-Agrees (if is_root_metadata p then root_metadata else metadata_companion) i r
          a)
      (λ _.
        if-rule Agrees (is_data_extension (extension_of base)) _ _
          (λ _. place-Agrees (path_groups (lowered p) base) (extension_of base) i r a)
          (λ _. as_companion-Agrees ordinary_companion i r a))

recognize_from-Agrees :
    (i : ℕ) (paths : List Bytes) (r : Result) → Agrees r → Agrees (recognize_from i paths r)
unfolding recognize_from
recognize_from-Agrees i [] r a = a
recognize_from-Agrees i (path ∷ paths) r a =
    recognize_from-Agrees (suc i) paths (recognize_file i path r) (recognize_file-Agrees i path r a)

-- The two views of a result agree: a group holds the files, in input order, whose evidence settles
-- its label, and the unresolved files are those whose evidence leaves a data file without a label.
pub recognize-Agrees : (paths : List Bytes) → Agrees (recognize paths)
unfolding recognize group_indexes
recognize-Agrees paths =
    recognize_from-Agrees 0 paths (record { groups = []; unresolved = []; evidence = [] })
      (record { grouped = λ l. refl; left = refl })

-- A file adds one piece of evidence, with its own index.
IsNext : ℕ → Result → Result → Type 0
IsNext i r r' = indexes r'.evidence ≡ indexes r.evidence ++ i ∷ []

place-IsNext :
    (groups : List Bytes) (ext : Bytes) (i : ℕ) (r : Result) → IsNext i r (place groups ext i r)
unfolding place in_group left_open IsNext
place-IsNext (g ∷ h ∷ gs) ext i r = indexes-append r.evidence _
place-IsNext (g ∷ []) ext i r = indexes-append r.evidence _
place-IsNext [] ext i r =
    if-rule (λ (t : Result). indexes t.evidence ≡ indexes r.evidence ++ i ∷ [])
      (any (bytes_eq ext) (codes "json" ∷ codes "jsonl" ∷ codes "txt" ∷ [])) _ _
      (λ _. indexes-append r.evidence _) (λ _. indexes-append r.evidence _)

recognize_file-IsNext : (i : ℕ) (path : Bytes) (r : Result) → IsNext i r (recognize_file i path r)
unfolding recognize_file as_companion IsNext
recognize_file-IsNext i path r =
    let p = normalized path in
    let base = path_base (lowered p) in
    if-rule (λ (t : Result). indexes t.evidence ≡ indexes r.evidence ++ i ∷ []) (is_metadata p) _ _
      (λ _. indexes-append r.evidence _)
      (λ _.
        if-rule (λ (t : Result). indexes t.evidence ≡ indexes r.evidence ++ i ∷ [])
          (is_data_extension (extension_of base)) _ _
          (λ _. place-IsNext (path_groups (lowered p) base) (extension_of base) i r)
          (λ _. indexes-append r.evidence _))

recognize_from-indexes :
    (i : ℕ) (paths : List Bytes) (r : Result)
    → indexes (recognize_from i paths r).evidence ≡ indexes r.evidence ++ count_up i (length paths)
unfolding recognize_from IsNext
recognize_from-indexes i [] r = sym (append-nil _)
recognize_from-indexes i (path ∷ paths) r =
    recognize_from-indexes (suc i) paths (recognize_file i path r)
    ∙ ap (λ t. t ++ count_up (suc i) (length paths)) (recognize_file-IsNext i path r)
    ∙ append_assoc (indexes r.evidence) (i ∷ []) (count_up (suc i) (length paths))

-- Every file has exactly one piece of evidence, in input order.
pub recognize-indexes :
    (paths : List Bytes) → indexes (recognize paths).evidence ≡ count_up 0 (length paths)
unfolding recognize
recognize-indexes paths =
    recognize_from-indexes 0 paths (record { groups = []; unresolved = []; evidence = [] })
