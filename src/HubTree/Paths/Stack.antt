-- ===== src/HubTree/Paths/Stack.antt =====
-- The stack of elements that `path.Clean` keeps, as the directories of internal/hubtree/hubtree.go use it.
use hfdesk.Base.{
  ℕ, ◌≡◌, refl, sym, subst, ◌⊎◌, inl, inr, Bool, true, false, ◌||◌, List, [], ◌∷◌, ◌++◌, ◌==◌, any,
  if◌then◌else◌, if-rule, Bytes, bytes_eq, bytes_eq_iff, codes, has_prefix, split_from, arith,
}
use hfdesk.HubTree.Paths.{push_element, push_elements, joined, join_stack}

-- A name: not empty, not one of the two dot elements, and without a slash.
abbrev pub IsName : Bytes → Type 0
IsName e =
    ((bytes_eq e [] || bytes_eq e (codes ".")) ≡ false)
    × (bytes_eq e (codes "..") ≡ false)
    × (any (λ c. c == b'/') e ≡ false)

abbrev pub AllNames : List Bytes → Type 0
AllNames [] = Unit {0}
AllNames (e ∷ es) = IsName e × AllNames es

-- The parts of a split have no separator.
abbrev pub Slashless : List Bytes → Type 0
Slashless [] = Unit {0}
Slashless (e ∷ es) = (any (λ c. c == b'/') e ≡ false) × Slashless es

pub any-snoc :
    (part : Bytes) (c : ℕ)
    → any (λ d. d == b'/') part ≡ false
    → (c == b'/') ≡ false
    → any (λ d. d == b'/') (part ++ c ∷ []) ≡ false
any-snoc [] c h k = ground arith
any-snoc (d ∷ part) c h k = let rec = any-snoc part c in ground arith

pub split_from-Slashless :
    (s part : Bytes) → any (λ c. c == b'/') part ≡ false → Slashless (split_from b'/' part s)
unfolding split_from
split_from-Slashless [] part h = (h, tt)
split_from-Slashless (c ∷ s) part h =
    go (c == b'/') refl (split_from-Slashless s [] refl) (split_from-Slashless s (part ++ c ∷ []))
  where
    go :
        (b : Bool)
        → (c == b'/') ≡ b
        → Slashless (split_from b'/' [] s)
        → (any (λ d. d == b'/') (part ++ c ∷ []) ≡ false
            → Slashless (split_from b'/' (part ++ c ∷ []) s))
        → Slashless (elim b [
          | true ↦ part ∷ split_from b'/' [] s
          | false ↦ split_from b'/' (part ++ c ∷ []) s
        ])
    go true e here rest = (h, here)
    go false e here rest = rest (any-snoc part c h e)

-- The elements that are kept: names, then steps up.
abbrev pub AllUp : List Bytes → Type 0
AllUp [] = Unit {0}
AllUp (e ∷ below) = (e ≡ codes "..") × AllUp below

abbrev pub IsKept : List Bytes → Type 0
IsKept [] = Unit {0}
IsKept (e ∷ below) = (IsName e × IsKept below) ⊎ ((e ≡ codes "..") × AllUp below)

pub IsKept-below : (e : Bytes) (below : List Bytes) → IsKept (e ∷ below) → IsKept below
IsKept-below e below (inl h) = h.1
IsKept-below e below (inr h) = up below h.1
  where
    up : (es : List Bytes) → AllUp es → IsKept es
    up [] h = tt
    up (e ∷ es) h = inr h

pub push_element-IsKept :
    (stack : List Bytes) (e : Bytes)
    → any (λ c. c == b'/') e ≡ false
    → IsKept stack
    → IsKept (push_element false stack e)
unfolding push_element
push_element-IsKept stack e h k =
    if-rule IsKept (bytes_eq e [] || bytes_eq e (codes ".")) _ _ (λ _. k)
      (λ named.
        if-rule IsKept (bytes_eq e (codes "..")) _ _
          (λ up. step_up stack k ((bytes_eq_iff e (codes "..")).0 up))
          (λ other. let named_on : IsKept (e ∷ stack) = inl ((named, other, h), k) in named_on))
  where
    step_up :
        (s : List Bytes)
        → IsKept s
        → e ≡ codes ".."
        → IsKept (elim s [
          | [] ↦ if false then [] else e ∷ []
          | top ∷ below ↦ if bytes_eq top (codes "..") then e ∷ top ∷ below else below
        ])
    step_up [] k eq = inr (eq, tt)
    step_up (top ∷ below) k eq =
        if-rule IsKept (bytes_eq top (codes "..")) _ _ (λ t. inr (eq, ups k t))
          (λ _. IsKept-below top below k)
      where
        ups : IsKept (top ∷ below) → bytes_eq top (codes "..") ≡ true → AllUp (top ∷ below)
        ups (inl n) t = absurd (ground (arith, n.0.1, t))
        ups (inr u) t = u

pub push_elements-IsKept :
    (es stack : List Bytes) → Slashless es → IsKept stack → IsKept (push_elements false stack es)
unfolding push_elements
push_elements-IsKept [] stack h k = k
push_elements-IsKept (e ∷ es) stack h k =
    push_elements-IsKept es (push_element false stack e) h.1 (push_element-IsKept stack e h.0 k)

-- A stack of names, or one whose outermost element is a step up.
abbrev pub EndsUp : List Bytes → Type 0
EndsUp [] = ⊥
EndsUp (e ∷ []) = e ≡ codes ".."
EndsUp (e ∷ f ∷ es) = EndsUp (f ∷ es)

pub IsKept-cases : (stack : List Bytes) → IsKept stack → AllNames stack ⊎ EndsUp stack
IsKept-cases [] k = inl tt
IsKept-cases (e ∷ []) (inl h) = inl (h.0, tt)
IsKept-cases (e ∷ []) (inr h) = inr h.0
IsKept-cases (e ∷ f ∷ es) (inl h) = elim (IsKept-cases (f ∷ es) h.1) [
  | inl names ↦ inl (h.0, names)
  | inr up ↦ inr up
]
IsKept-cases (e ∷ f ∷ es) (inr h) = inr (ends f es h.1)
  where
    ends : (g : Bytes) (gs : List Bytes) → AllUp (g ∷ gs) → EndsUp (g ∷ gs)
    ends g [] u = u.0
    ends g (g' ∷ gs) u = ends g' gs u.1

pub joined-EndsUp :
    (e : Bytes) (es : List Bytes) (acc : Bytes)
    → EndsUp (e ∷ es)
    → has_prefix (joined (e ∷ es) acc) (codes "../") ≡ true
unfolding joined has_prefix
joined-EndsUp e [] acc h =
    subst (λ t. has_prefix (t ++ b'/' ∷ acc) (codes "../") ≡ true) (sym h) refl
joined-EndsUp e (f ∷ es) acc h = joined-EndsUp f es (e ++ b'/' ∷ acc) h

-- A path whose first element is a step up is refused.
pub join_stack-EndsUp :
    (stack : List Bytes)
    → EndsUp stack
    → (bytes_eq (join_stack stack) (codes "..") || has_prefix (join_stack stack) (codes "../"))
      ≡ true
unfolding join_stack
join_stack-EndsUp [] h = elim h [ ]
join_stack-EndsUp (e ∷ []) h = ground (arith, (bytes_eq_iff e (codes "..")).1 h)
join_stack-EndsUp (e ∷ f ∷ es) h = ground (arith, joined-EndsUp f es e h)

pub join_stack_cases :
    (stack : List Bytes)
    → IsKept stack
    → (bytes_eq (join_stack stack) (codes "..") || has_prefix (join_stack stack) (codes "../"))
      ≡ false
    → AllNames stack
join_stack_cases stack k h = elim (IsKept-cases stack k) [
  | inl names ↦ names
  | inr up ↦ absurd (ground (arith, join_stack-EndsUp stack up, h))
]
