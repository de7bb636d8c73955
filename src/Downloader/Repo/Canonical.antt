-- ===== src/Downloader/Repo/Canonical.antt =====
-- Which paths `unsafeRepoPath` of pkg/hfdownloader/plan.go accepts.
use hfdesk.Base.{
  ◌≡◌, refl, sym, ap, ◌∙◌, subst, ◌↔◌, Bool, true, false, some, List, [], ◌∷◌, ◌++◌, append-nil,
  append_assoc, arith, eq-false, ◌==◌, if◌then◌else◌, any, Bytes, bytes_eq, bytes_eq_iff,
  bytes_eq_self, codes, has_prefix, split, split_from, split_from-part, split_from-more,
}
use hfdesk.HubTree.Paths.{push_element, push_elements, joined, join_stack, clean, clean_child_dir}
use hfdesk.HubTree.Paths.Stack.{IsName, AllNames}
use hfdesk.HubTree.Paths.Proper.{IsUnder, clean_child_dir-IsUnder}
use hfdesk.Downloader.Repo.{unsafe_repo_path}

rev_onto : List Bytes → List Bytes → List Bytes
rev_onto [] stack = stack
rev_onto (e ∷ es) stack = rev_onto es (e ∷ stack)

push_element_name :
    (rooted : Bool) (stack : List Bytes) (e : Bytes)
    → IsName e
    → push_element rooted stack e ≡ e ∷ stack
unfolding push_element
push_element_name rooted stack e h = let filled = h.0 in let below = h.1 in ground arith

-- The names of a path stay on the stack of `path.Clean`.
push_elements_names :
    (rooted : Bool) (stack es : List Bytes)
    → AllNames es
    → push_elements rooted stack es ≡ rev_onto es stack
unfolding push_elements rev_onto
push_elements_names rooted stack [] h = refl
push_elements_names rooted stack (e ∷ es) h =
    ap (λ t. push_elements rooted t es) (push_element_name rooted stack e h.0)
    ∙ push_elements_names rooted (e ∷ stack) es h.1

joined-append : (stack : List Bytes) (a b : Bytes) → joined stack (a ++ b) ≡ joined stack a ++ b
unfolding joined
joined-append [] a b = refl
joined-append (e ∷ stack) a b =
    ap (joined stack) (sym (append_assoc e (b'/' ∷ a) b)) ∙ joined-append stack (e ++ b'/' ∷ a) b

-- The parts of a split, put together again.
join_split :
    (stack : List Bytes) (part s : Bytes)
    → join_stack (rev_onto (split_from b'/' part s) stack) ≡ joined stack part ++ s
unfolding join_stack split_from rev_onto joined
join_split stack part [] = sym (append-nil (joined stack part))
join_split stack part (c ∷ s) =
    go (c == b'/') refl (join_split (part ∷ stack) [] s) (join_split stack (part ++ c ∷ []) s)
  where
    go :
        (b : Bool)
        → (c == b'/') ≡ b
        → join_stack (rev_onto (split_from b'/' [] s) (part ∷ stack))
          ≡ joined (part ∷ stack) [] ++ s
        → join_stack (rev_onto (split_from b'/' (part ++ c ∷ []) s) stack)
          ≡ joined stack (part ++ c ∷ []) ++ s
        → join_stack (
            rev_onto
              (elim b [
                | true ↦ part ∷ split_from b'/' [] s
                | false ↦ split_from b'/' (part ++ c ∷ []) s
              ])
              stack)
          ≡ joined stack part ++ c ∷ s
    go true e here rest =
        let eq : c ≡ b'/' = ground (arith, e) in
        let moved = joined-append stack part (b'/' ∷ []) in
        let tail = append_assoc (joined stack part) (b'/' ∷ []) s in cc (here, eq, moved, tail)
    go false e here rest =
        let moved = joined-append stack part (c ∷ []) in
        let tail = append_assoc (joined stack part) (c ∷ []) s in cc (rest, moved, tail)

clean_names :
    (rel : Bytes)
    → has_prefix rel (codes "/") ≡ false
    → bytes_eq rel [] ≡ false
    → AllNames (split b'/' rel)
    → clean rel ≡ rel
unfolding clean split split_from
clean_names rel relative filled names =
    let kept : join_stack (push_elements false [] (split b'/' rel)) ≡ rel =
      ap join_stack (push_elements_names false [] (split b'/' rel) names) ∙ join_split [] [] rel in
    go (has_prefix rel (codes "/")) relative kept
  where
    go :
        (rooted : Bool)
        → rooted ≡ false
        → join_stack (push_elements false [] (split b'/' rel)) ≡ rel
        → (let k = join_stack (push_elements rooted [] (split b'/' rel)) in
            if rooted then b'/' ∷ k else (if bytes_eq k [] then codes "." else k))
          ≡ rel
    go true e kept = absurd (ground (arith, e))
    go false e kept = let same = ap (λ k. bytes_eq k []) kept in ground (arith, same, filled, kept)

-- A path that starts with a part and a slash has it as its first part.
starts_with_part :
    (rel part : Bytes)
    → has_prefix rel (part ++ codes "/") ≡ true
    → (r : Bytes) × (rel ≡ part ++ b'/' ∷ r)
unfolding has_prefix
starts_with_part [] [] h = absurd (ground arith)
starts_with_part (c ∷ s) [] h = (s, ground arith)
starts_with_part [] (d ∷ part) h = absurd (ground arith)
starts_with_part (c ∷ s) (d ∷ part) h =
    let (r, e) = starts_with_part s part (ground arith) in (r, ground (arith, e, h))

-- The first part is a name, so the path is neither empty nor a dot element, and it does not start with one.
module _ (rel : Bytes) (names : AllNames (split b'/' rel)) where
  not_spelled : (t : Bytes) → ¬ AllNames (split b'/' t) → bytes_eq rel t ≡ false
  not_spelled t off =
      eq-false (bytes_eq rel t)
        (λ e. off (subst (λ u. AllNames (split b'/' u)) ((bytes_eq_iff rel t).0 e) names))

  not_starting :
      (part : Bytes)
      → ((r : Bytes) → ¬ AllNames (split b'/' (part ++ b'/' ∷ r)))
      → has_prefix rel (part ++ codes "/") ≡ false
  not_starting part off = eq-false (has_prefix rel (part ++ codes "/")) (λ e.
      let (r, eq) = starts_with_part rel part e in
      off r (subst (λ u. AllNames (split b'/' u)) eq names))

dot_parts : (r : Bytes) → ¬ AllNames (split b'/' (codes "../" ++ r))
unfolding split split_from bytes_eq
dot_parts r h = ground (arith, h.0.1)

accepts-names :
    (rel : Bytes)
    → any (λ c. c == b'\\') rel ≡ false
    → AllNames (split b'/' rel)
    → unsafe_repo_path rel ≡ false
unfolding unsafe_repo_path split split_from bytes_eq
accepts-names rel plain names =
    let filled = not_spelled rel names [] (λ h. ground (arith, h.0.0)) in
    let relative = not_starting rel names [] (λ r h. ground (arith, h.0.0)) in
    let no_dot = not_spelled rel names (codes ".") (λ h. ground (arith, h.0.0)) in
    let no_dots = not_spelled rel names (codes "..") (λ h. ground (arith, h.0.1)) in
    let no_up = not_starting rel names (codes "..") dot_parts in
    let same = clean_names rel relative filled names in
    let same_dot = ap (λ k. bytes_eq k (codes ".")) same in
    let same_dots = ap (λ k. bytes_eq k (codes "..")) same in
    let same_up = ap (λ k. has_prefix k (codes "../")) same in
    let self = ap (λ k. bytes_eq k rel) same ∙ bytes_eq_self rel in
    ground
      (arith, filled, relative, no_dot, no_dots, no_up, same_dot, same_dots, same_up, self, plain)

AllNames-append : (es fs : List Bytes) → AllNames es → AllNames fs → AllNames (es ++ fs)
AllNames-append [] fs h k = k
AllNames-append (e ∷ es) fs h k = (h.0, AllNames-append es fs h.1 k)

split_one : (e : Bytes) → any (λ c. c == b'/') e ≡ false → split_from b'/' [] e ≡ e ∷ []
unfolding split_from
split_one e h = ap (split_from b'/' []) (sym (append-nil e)) ∙ split_from-part b'/' [] e [] h

split-joined :
    (stack : List Bytes) (rest : Bytes)
    → AllNames stack
    → AllNames (split_from b'/' [] rest)
    → AllNames (split_from b'/' [] (joined stack rest))
unfolding joined
split-joined [] rest h k = k
split-joined (e ∷ stack) rest h k =
    split-joined stack (e ++ b'/' ∷ rest) h.1
      (subst AllNames (sym (split_from-more b'/' e rest h.0.2)) (h.0, k))

IsUnder-AllNames : (rel : Bytes) → IsUnder [] rel → AllNames (split b'/' rel)
unfolding split join_stack
IsUnder-AllNames rel u =
    subst (λ t. AllNames (split_from b'/' [] t)) (sym u.spelled)
      (split-joined u.names u.name u.all.1
        (subst AllNames (sym (split_one u.name u.all.0.2)) (u.all.0, tt)))

accepted-names :
    (rel : Bytes)
    → unsafe_repo_path rel ≡ false
    → (any (λ c. c == b'\\') rel ≡ false) × AllNames (split b'/' rel)
unfolding unsafe_repo_path clean_child_dir bytes_eq
accepted-names rel h =
    let same : clean rel ≡ rel = (bytes_eq_iff (clean rel) rel).0 (ground (arith, h)) in
    let child : clean_child_dir [] rel ≡ some rel = ground (arith, h, same) in
    (ground (arith, h), IsUnder-AllNames rel (clean_child_dir-IsUnder [] rel rel child))

-- A path of the tree is accepted exactly if it has no backslash and each of its parts between slashes
-- is a name: not empty, not `.` and not `..`.
pub unsafe_repo_path_iff :
    (rel : Bytes)
    → (unsafe_repo_path rel ≡ false)
      ↔ ((any (λ c. c == b'\\') rel ≡ false) × AllNames (split b'/' rel))
unsafe_repo_path_iff rel = (accepted-names rel, λ h. accepts-names rel h.0 h.1)
