-- ===== src/HubTree/Links.antt =====
-- The parser of `Link` headers in internal/hubtree/hubtree.go. A loop over an index is a recursion
-- on the text that is left; `skip` counts the bytes that an `i += n` passes over.
pub mod Split
pub mod Next
use hfdesk.Base.{
  ℕ, zero, suc, ◌+◌, Bool, true, false, not, ◌&&◌, ◌||◌, Option, none, some, List, [], ◌∷◌, ◌++◌,
  ◌==◌, if◌then◌else◌, any, length, Bytes, codes, bytes_eq, span, cut, fields, trim, trim_space,
  equal_fold, is_space,
}

-- The position of the closing angle bracket; `none` is -1.
unfoldable pub link_target_end : Bytes → Option ℕ
link_target_end [] = none
link_target_end (c ∷ s) =
    let rest = link_target_end s in
    if c == b'>'
    then some 0
    else (if c == b'<' || c == b'"'
        then none
        else elim rest [ none ↦ none | some n ↦ some (suc n) ])

abbrev pub is_blank : ℕ → Bool
is_blank c = c == 32 || c == 9

abbrev pub is_delimiter : ℕ → Bool
is_delimiter c = c == b';' || c == b','

-- The loop over a quoted value: the bytes consumed, the text, whether the quote was closed, and
-- what is left.
pub record Quoted : Type 0 where
  pub used : ℕ
  pub text : Bytes
  pub closed : Bool
  pub left : Bytes

unfoldable pub quoted : ℕ → Bytes → Quoted
quoted quote [] = record { used = 0; text = []; closed = false; left = [] }
quoted quote (c ∷ []) = record {
  used = 1;
  text = if c == b'\\' || c == quote then [] else c ∷ [];
  closed = not (c == b'\\') && c == quote;
  left = [];
}
quoted quote (c ∷ d ∷ s) =
    let escaped = quoted quote s in
    let plain = quoted quote (d ∷ s) in
    if c == b'\\'
    then record escaped { used = suc (suc escaped.used); text = d ∷ escaped.text }
    else (if c == quote
        then record { used = 1; text = []; closed = true; left = d ∷ s }
        else record plain { used = suc plain.used; text = c ∷ plain.text })

pub record LinkValue : Type 0 where
  pub consumed : ℕ
  pub decoded : Bytes
  pub valid : Bool

-- The quote that opens a value: a double quote, or a single one for `rel`.
quote_of : Bytes → Bytes → Option ℕ
quote_of [] key = none
quote_of (c ∷ s) key =
    if c == b'"' || (c == b'\'' && equal_fold (trim_space key) (codes "rel")) then some c else none

tail : Bytes → Bytes
tail [] = []
tail (c ∷ s) = s

unfoldable pub read_link_value : Bytes → Bytes → LinkValue
unfolding quote_of tail
read_link_value value key =
    let (blanks, rest) = span is_blank value in
    elim (quote_of rest key) [
      | none ↦
          (let bare = (span (λ c. not (is_delimiter c)) rest).0 in
            record {
              consumed = length blanks + length bare;
              decoded = trim_space (blanks ++ bare);
              valid = true;
            })
      | some quote ↦
          (let q = quoted quote (tail rest) in
            let junk = (span (λ c. not (is_delimiter c)) q.left).0 in
            record {
              consumed = length blanks + 1 + q.used + length junk;
              decoded = q.text;
              valid = q.closed && bytes_eq (trim_space junk) [];
            })
    ]

-- What one round of the splitting loop leaves for the next.
pub record Scan : Type 0 where
  pub emits : Bool
  pub part : Bytes
  pub key : Bytes
  pub entry_start : Bool
  pub skip : ℕ

-- A round at the byte `c` with `s` behind it.
visit : ℕ → ℕ → Bytes → Bytes → Bytes → Scan
visit sep c s part key = record {
  emits = c == sep;
  part = if c == sep then [] else part ++ c ∷ [];
  key = if is_delimiter c then [] else key ++ c ∷ [];
  entry_start = c == b',' && sep == b',';
  skip = if c == b'=' then (read_link_value s (trim_space key)).consumed else 0;
}

pass : ℕ → Bytes → Bytes → Bool → ℕ → Scan
pass c part key entry_start skip = record {
  emits = false;
  part = part ++ c ∷ [];
  key = key ++ c ∷ [];
  entry_start = entry_start;
  skip = skip;
}

round : ℕ → ℕ → Bytes → Bytes → Bytes → Bool → ℕ → Scan
unfolding visit pass
round sep c s part key entry_start (suc skip) = pass c part key entry_start skip
round sep c s part key false zero = visit sep c s part key
round sep c s part key true zero =
    if is_blank c
    then pass c part key true 0
    else (if c == b'<'
        then elim (link_target_end s) [
          | none ↦ visit sep c s part key
          | some end ↦ pass c part key false (end + 1)
        ]
        else visit sep c s part key)

-- The splitting loop, with `value[start:i]` and `value[keyStart:i]`.
pub scan : ℕ → Bytes → Bytes → Bytes → Bool → ℕ → List Bytes
scan sep [] part key entry_start skip = part ∷ []
scan sep (c ∷ s) part key entry_start skip =
    let r = round sep c s part key entry_start skip in
    let rest = scan sep s r.part r.key r.entry_start r.skip in if r.emits then part ∷ rest else rest

unfoldable pub split_link_parts : Bytes → ℕ → List Bytes
unfolding scan round
split_link_parts value sep = scan sep value [] [] (sep == b',') 0

-- One parameter: whether it is `rel` with the word `next`, and whether its value is well formed.
rel_next : Bytes → Option Bool
rel_next part = elim (cut b'=' (trim_space part)) [
  | none ↦ none
  | some (key, value) ↦
      if equal_fold (trim_space key) (codes "rel")
      then (let v = read_link_value value key in
          if any (λ rel. bytes_eq rel (codes "next")) (fields v.decoded)
          then some v.valid
          else none)
      else none
]

first_rel : List Bytes → Bool × Bool
unfolding rel_next
first_rel [] = (false, true)
first_rel (part ∷ parts) = elim (rel_next part) [
  | some valid ↦ (true, valid)
  | none ↦ first_rel parts
]

-- Whether `next` is advertised, and whether its value is well formed.
unfoldable pub link_has_rel_next : Bytes → Bool × Bool
unfolding first_rel
link_has_rel_next params = first_rel (split_link_parts params b';')

-- The error-free end, the target to follow, and the two errors.
pub data NextLink : Type 0 where
  exhausted : NextLink
  follow : Bytes → NextLink
  malformed : Bytes → NextLink
  empty_target : NextLink

pub record Entry : Type 0 where
  pub target : Bytes
  pub params : Bytes
  pub valid_target : Bool

-- `value[:n]` and `value[n:]`.
abbrev before : ℕ → Bytes → Bytes
before zero s = []
before (suc n) [] = []
before (suc n) (c ∷ s) = c ∷ before n s

abbrev behind : ℕ → Bytes → Bytes
behind zero s = s
behind (suc n) [] = []
behind (suc n) (c ∷ s) = behind n s

entry_of : Bytes → Entry
entry_of [] = record { target = []; params = []; valid_target = false }
entry_of (c ∷ s) =
    if c == b'<'
    then elim (link_target_end s) [
      | some end ↦ record {
        target = before end s;
        params = behind (end + 1) s;
        valid_target = true;
      }
      | none ↦ elim (cut b';' (c ∷ s)) [
        | none ↦ record { target = []; params = c ∷ s; valid_target = false }
        | some (_, rest) ↦ record { target = []; params = b';' ∷ rest; valid_target = false }
      ]
    ]
    else record { target = []; params = c ∷ s; valid_target = false }

-- One trimmed entry; `none` goes on to the next one.
unfoldable pub next_of_entry : Bytes → Option NextLink
unfolding entry_of
next_of_entry entry =
    let e = entry_of entry in
    let (next, valid_rel) = link_has_rel_next e.params in
    if next
    then (if e.valid_target && valid_rel
        then some (if bytes_eq (trim_space e.target) [] then empty_target else follow e.target)
        else some (malformed entry))
    else none

first_next : List Bytes → Option NextLink
first_next [] = none
first_next (entry ∷ entries) = elim (next_of_entry (trim_space entry)) [
  | some r ↦ some r
  | none ↦ first_next entries
]

unfoldable pub next_link : List Bytes → NextLink
unfolding first_next
next_link [] = exhausted
next_link (header ∷ headers) = elim (first_next (split_link_parts header b',')) [
  | some r ↦ r
  | none ↦ next_link headers
]
