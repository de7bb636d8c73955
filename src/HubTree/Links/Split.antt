-- ===== src/HubTree/Links/Split.antt =====
-- Splitting a `Link` header of internal/hubtree/hubtree.go gives the entries that it was made of.
use hfdesk.Base.{
  ℕ, suc, ◌+◌, ◌≡◌, ◌≢◌, refl, ap, ◌∙◌, sym, true, false, List, [], ◌∷◌, ◌++◌, arith, Bytes, not,
  append_assoc, append-nil, length, length-append, map, trim_space, span, ◌==◌, if◌then◌else◌,
}
use hfdesk.HubTree.Links.{
  split_link_parts, scan, round, read_link_value, quoted, Quoted, is_delimiter,
}
use hfdesk.HubTree.Links.Next.{IsReference, link_target_end_closed, scan-skip}

-- An entry with one parameter: a target between angle brackets, a key, and a quoted value.
pub record LinkEntry : Type 0 where
  pub target : Bytes
  pub key : Bytes
  pub value : Bytes

-- A key has none of the bytes that end it.
abbrev pub IsKey : Bytes → Type 0
IsKey [] = Unit {0}
IsKey (c ∷ s) = (c ≢ b'=') × (c ≢ b';') × (c ≢ b',') × IsKey s

-- A value without a double quote and without a backslash.
abbrev pub IsQuotable : Bytes → Type 0
IsQuotable [] = Unit {0}
IsQuotable (c ∷ s) = (c ≢ b'"') × (c ≢ b'\\') × IsQuotable s

abbrev pub AreEntries : List LinkEntry → Type 0
AreEntries [] = Unit {0}
AreEntries (e ∷ es) = IsReference e.target × IsKey e.key × IsQuotable e.value × AreEntries es

abbrev param : Bytes → Bytes → Bytes
param key value = b';' ∷ (key ++ b'=' ∷ b'"' ∷ (value ++ b'"' ∷ []))

unfoldable pub entry_text : LinkEntry → Bytes
entry_text e = b'<' ∷ (e.target ++ b'>' ∷ param e.key e.value)

-- The entries with commas between them.
unfoldable pub header_text : LinkEntry → List LinkEntry → Bytes
unfolding entry_text
header_text e [] = entry_text e
header_text e (f ∷ es) = entry_text e ++ b',' ∷ header_text f es

-- A byte that is neither a backslash nor the quote.
plain_byte :
    (c : ℕ) (escaped last plain : Quoted)
    → c ≢ b'"'
    → c ≢ b'\\'
    → (if c == b'\\' then escaped else (if c == b'"' then last else plain)) ≡ plain
plain_byte c escaped last plain q b = ground (arith, q, b)

abbrev add_byte : ℕ → Quoted → Quoted
add_byte c q = record q { used = suc q.used; text = c ∷ q.text }

quoted_closed :
    (value rest : Bytes)
    → IsQuotable value
    → quoted b'"' (value ++ b'"' ∷ rest)
      ≡ record { used = suc (length value); text = value; closed = true; left = rest }
unfolding quoted
quoted_closed [] [] h = refl
quoted_closed [] (c ∷ rest) h = refl
quoted_closed (c ∷ []) rest (q, b, h) =
    plain_byte c _ _ _ q b ∙ ap (add_byte c) (quoted_closed [] rest tt)
quoted_closed (c ∷ d ∷ s) rest (q, b, h) =
    plain_byte c _ _ _ q b ∙ ap (add_byte c) (quoted_closed (d ∷ s) rest h)

-- The bytes of a key are added to the part.
scan-key :
    (u s part key : Bytes)
    → IsKey u
    → scan b',' (u ++ s) part key false 0 ≡ scan b',' s (part ++ u) (key ++ u) false 0
unfolding scan round
scan-key [] s part key h = rw (append-nil, append-nil)
scan-key (c ∷ u) s part key (eq, semi, comma, h) =
    pass_key
    ∙ (scan-key u s (part ++ c ∷ []) (key ++ c ∷ []) h
        ∙ rw (append_assoc part (c ∷ []) u, append_assoc key (c ∷ []) u))
  where
    pass_key :
        scan b',' (c ∷ (u ++ s)) part key false 0
        ≡ scan b',' (u ++ s) (part ++ c ∷ []) (key ++ c ∷ []) false 0
    pass_key = ground (arith, eq, semi, comma)

-- What stands behind an entry: nothing, or a comma.
abbrev EndsEntry : Bytes → Type 0
EndsEntry [] = Unit {0}
EndsEntry (c ∷ s) = c ≡ b','

no_junk : (rest : Bytes) → EndsEntry rest → (span (λ c. not (is_delimiter c)) rest).0 ≡ []
unfolding span
no_junk [] ends = refl
no_junk (c ∷ s) ends = ground (arith, ends)

consumed_quoted :
    (value key rest : Bytes)
    → IsQuotable value
    → EndsEntry rest
    → (read_link_value (b'"' ∷ (value ++ b'"' ∷ rest)) key).consumed ≡ suc (suc (length value))
unfolding read_link_value span
consumed_quoted value key rest h ends =
    rw (quoted_closed value rest h, no_junk rest ends) (omega arith)

abbrev quotes : Bytes → Bytes
quotes value = b'"' ∷ (value ++ b'"' ∷ [])

scan_value :
    (value rest part key : Bytes)
    → IsQuotable value
    → EndsEntry rest
    → scan b',' (b'=' ∷ (quotes value ++ rest)) part key false 0
      ≡ scan b',' rest
          ((part ++ b'=' ∷ []) ++ quotes value)
          ((key ++ b'=' ∷ []) ++ quotes value)
          false
          0
unfolding scan round
scan_value value rest part key h ends =
    let long : length (quotes value) ≡ suc (suc (length value)) =
      omega (arith, length-append value (b'"' ∷ [])) in
    let used = consumed_quoted value (trim_space key) rest h ends in
    let spelled = append_assoc value (b'"' ∷ []) rest in
    ap (λ n. scan b',' (quotes value ++ rest) (part ++ b'=' ∷ []) (key ++ b'=' ∷ []) false n)
      (ap (λ t. (read_link_value (b'"' ∷ t) (trim_space key)).consumed) spelled ∙ (used ∙ sym long))
    ∙ scan-skip b',' (quotes value) rest (part ++ b'=' ∷ []) (key ++ b'=' ∷ [])

scan-param :
    (k value rest part key : Bytes)
    → IsKey k
    → IsQuotable value
    → EndsEntry rest
    → scan b',' (b';' ∷ (k ++ b'=' ∷ (quotes value ++ rest))) part key false 0
      ≡ scan b',' rest (part ++ param k value) (k ++ b'=' ∷ quotes value) false 0
unfolding scan round
scan-param k value rest part key keys h ends =
    scan-key k (b'=' ∷ (quotes value ++ rest)) (part ++ b';' ∷ []) [] keys
    ∙ (scan_value value rest ((part ++ b';' ∷ []) ++ k) k h ends ∙ simp append_assoc)

scan_target :
    (target rest : Bytes)
    → IsReference target
    → scan b',' (b'<' ∷ (target ++ b'>' ∷ rest)) [] [] true 0
      ≡ scan b',' rest (b'<' ∷ (target ++ b'>' ∷ [])) (b'<' ∷ (target ++ b'>' ∷ [])) false 0
unfolding scan round
scan_target target rest h =
    let u : Bytes = target ++ b'>' ∷ [] in
    let long : length u ≡ length target + 1 = omega (arith, length-append target (b'>' ∷ [])) in
    let open_ : scan b',' (b'<' ∷ (target ++ b'>' ∷ rest)) [] [] true 0
        ≡ scan b',' (target ++ b'>' ∷ rest) (b'<' ∷ []) (b'<' ∷ []) false (length target + 1) =
      rw (link_target_end_closed target rest h, round) in
    open_
    ∙ cc (append_assoc target (b'>' ∷ []) rest, long, scan-skip b',' u rest (b'<' ∷ []) (b'<' ∷ []))

entry_text-append :
    (e : LinkEntry) (rest : Bytes)
    → entry_text e ++ rest
      ≡ b'<' ∷ (e.target ++ b'>' ∷ b';' ∷ (e.key ++ b'=' ∷ (quotes e.value ++ rest)))
unfolding entry_text
entry_text-append e rest = simp append_assoc

scan_entry :
    (e : LinkEntry) (rest : Bytes)
    → IsReference e.target
    → IsKey e.key
    → IsQuotable e.value
    → EndsEntry rest
    → scan b',' (entry_text e ++ rest) [] [] true 0
      ≡ scan b',' rest (entry_text e) (e.key ++ b'=' ∷ quotes e.value) false 0
unfolding entry_text
scan_entry e rest target key value ends =
    ap (λ t. scan b',' t [] [] true 0) (entry_text-append e rest)
    ∙ (scan_target e.target (b';' ∷ (e.key ++ b'=' ∷ (quotes e.value ++ rest))) target
        ∙ (scan-param e.key e.value rest (b'<' ∷ (e.target ++ b'>' ∷ []))
              (b'<' ∷ (e.target ++ b'>' ∷ [])) key value ends
            ∙ ap (λ t. scan b',' rest (b'<' ∷ t) (e.key ++ b'=' ∷ quotes e.value) false 0)
                (append_assoc e.target (b'>' ∷ []) (param e.key e.value))))

-- A header of entries with commas between them is split into these entries, whatever commas and
-- semicolons their targets and quoted values hold, if the targets have no angle bracket and no double
-- quote, the keys none of the bytes that end a key, and the values no double quote and no backslash.
pub split_link_parts-header_text :
    (e : LinkEntry) (es : List LinkEntry)
    → AreEntries (e ∷ es)
    → split_link_parts (header_text e es) b',' ≡ map entry_text (e ∷ es)
unfolding split_link_parts header_text scan round
split_link_parts-header_text e [] (target, key, value, _) =
    ap (λ t. scan b',' t [] [] true 0) (sym (append-nil (entry_text e)))
    ∙ scan_entry e [] target key value tt
split_link_parts-header_text e (f ∷ es) (target, key, value, rest) =
    scan_entry e (b',' ∷ header_text f es) target key value refl
    ∙ ap (λ ps. entry_text e ∷ ps) (split_link_parts-header_text f es rest)
