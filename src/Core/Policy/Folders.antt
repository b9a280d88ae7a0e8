-- ===== src/Core/Policy/Folders.antt =====
-- Which folders a policy of crates/nuncio-core/src/mcp_policy.rs opens.
use nuncio.Common.{
  ◌≡◌, ◌↔◌, refl, ap, ◌∙◌, String, Bool, true, false, ◌||◌, List, [], ◌∷◌, ◌++◌, any, arith, All,
  All-imp, ℕ, ◌&&◌, ◌==◌, ◌⊎◌, ◌≢◌, str_eq, eq_iff, map, inl, inr, Bool-cases, if_true, if_false,
  if_false_intro,
}
use mathlib.Core.Path.{subst}
use Prim.Native.Char.{code}
use nuncio.Common.Text.{codes, ascii_lower, codes_eq_iff, eq_ignore_ascii_case}
use nuncio.Core.Policy.{
  McpAgentPolicy, forbidden, names_folder, is_allowing, forbids, allows, is_folder_allowed,
}

module _ (test : String → Bool) where
  or_false : (a b : Bool) → ((a || b) ≡ false) ↔ ((a ≡ false) × (b ≡ false))
  or_false a b = ground arith

  none_iff : (xs : List String) → (any test xs ≡ false) ↔ All (λ x. test x ≡ false) xs
  none_iff [] = (λ h. tt, λ h. refl)
  none_iff (x ∷ xs) =
      let rest = none_iff xs in
      (
        λ h. let (a, b) = (or_false _ _).0 h in (a, rest.0 b),
        λ (a, b). (or_false _ _).1 (a, rest.1 b),
      )

  -- One of the texts passes.
  abbrev Passes : List String → Type 0
  Passes xs =
      (before : List String) × (x : String) × (after : List String) × (xs ≡ before ++ x ∷ after)
      × (test x ≡ true)

  or_true : (a b : Bool) → b ≡ true → (a || b) ≡ true
  or_true a b h = ground arith

  or_left : (a b : Bool) → a ≡ true → (a || b) ≡ true
  or_left a b h = ground arith

  or_right : (a b : Bool) → a ≡ false → (a || b) ≡ true → b ≡ true
  or_right a b h k = ground arith

  found : (xs : List String) → any test xs ≡ true → Passes xs
  found [] h = cc h
  found (x ∷ xs) h = elim (Bool-cases (test x)) [
    | inl here ↦ ([], x, xs, refl, here)
    | inr there ↦
        let (before, y, after, e, t) = found xs (or_right (test x) (any test xs) there h) in
        (x ∷ before, y, after, ap (λ l. x ∷ l) e, t)
  ]

  passed :
      (before : List String) (x : String) (after : List String)
      → test x ≡ true
      → any test (before ++ x ∷ after) ≡ true
  passed [] x after h = or_left (test x) (any test after) h
  passed (y ∷ before) x after h = or_true (test y) _ (passed before x after h)

-- The texts have the same letters, and differ at most in the case of the ASCII ones.
abbrev pub SameFolder : List ℕ → String → Type 0
SameFolder f folder_id = map ascii_lower f ≡ map ascii_lower (codes folder_id)

-- An exclamation mark, and a name of the folder.
abbrev pub Denies : String → String → Type 0
Denies folder_id pattern = (f : List ℕ) × (codes pattern ≡ b'!' ∷ f) × SameFolder f folder_id

-- No exclamation mark in front, and an asterisk or a name of the folder.
abbrev pub Opens : String → String → Type 0
Opens folder_id pattern =
    ((f : List ℕ) → codes pattern ≢ b'!' ∷ f)
    × ((pattern ≡ "*") ⊎ SameFolder (codes pattern) folder_id)

eq_ignore_ascii_case_iff :
    (f folder_id : String)
    → (eq_ignore_ascii_case f folder_id ≡ true) ↔ SameFolder (codes f) folder_id
unfolding eq_ignore_ascii_case
eq_ignore_ascii_case_iff f folder_id =
    codes_eq_iff (map ascii_lower (codes f)) (map ascii_lower (codes folder_id))

-- What a pattern forbids, by its first character.
forbids_iff :
    (folder_id pattern : String) → (forbids folder_id pattern ≡ true) ↔ Denies folder_id pattern
unfolding forbids names_folder forbidden
forbids_iff folder_id String.[] = (λ h. cc h, λ (f, e, s). cc e)
forbids_iff folder_id (String.◌∷◌ c s) = elim (Bool-cases (code c == b'!')) [
  | inl mark ↦
      let same : code c ≡ b'!' = ground arith in
      let named = eq_ignore_ascii_case_iff s folder_id in
      rw mark (
        λ h. (codes s, ap (λ n. n ∷ codes s) same, named.0 h),
        λ (f, e, k).
            let rest : f ≡ codes s = cc e in named.1 (subst (λ l. SameFolder l folder_id) rest k),
      )
  | inr other ↦
      rw other (λ h. cc h, λ (f, e, k). let same : code c ≡ b'!' = cc e in absurd (ground arith))
]

is_allowing_iff :
    (pattern : String)
    → (is_allowing (forbidden pattern) ≡ true) ↔ ((f : List ℕ) → codes pattern ≢ b'!' ∷ f)
unfolding is_allowing forbidden
is_allowing_iff String.[] = (λ h f e. cc e, λ h. refl)
is_allowing_iff (String.◌∷◌ c s) = elim (Bool-cases (code c == b'!')) [
  | inl mark ↦
      let same : code c ≡ b'!' = ground arith in
      rw mark (λ h. cc h, λ h. absurd (h (codes s) (ap (λ n. n ∷ codes s) same)))
  | inr other ↦ rw other (λ h f e. let same : code c ≡ b'!' = cc e in ground arith, λ h. refl)
]

either_iff : (a b c : Bool) → ((a && (b || c)) ≡ true) ↔ ((a ≡ true) × ((b ≡ true) ⊎ (c ≡ true)))
either_iff a b c = ground arith

allows_iff :
    (folder_id pattern : String) → (allows folder_id pattern ≡ true) ↔ Opens folder_id pattern
unfolding allows
allows_iff folder_id pattern =
    let all =
      either_iff (is_allowing (forbidden pattern)) (str_eq pattern "*")
        (eq_ignore_ascii_case pattern folder_id) in
    let mark = is_allowing_iff pattern in
    let named = eq_ignore_ascii_case_iff pattern folder_id in
    let star = eq_iff pattern "*" in
    (
      λ h.
          let (m, o) = all.0 h in
          (mark.0 m, elim o [ inl s ↦ inl (star.0 s) | inr n ↦ inr (named.0 n) ]),
      λ (m, o). all.1 (mark.1 m, elim o [ inl s ↦ inl (star.1 s) | inr n ↦ inr (named.1 n) ]),
    )

denied_not :
    (folder_id pattern : String)
    → (forbids folder_id pattern ≡ false) ↔ (Denies folder_id pattern → ⊥)
denied_not folder_id pattern = (
  λ h d. cc (h, (forbids_iff folder_id pattern).1 d),
  λ n. elim (Bool-cases (forbids folder_id pattern)) [
    | inl denied ↦ absurd (n ((forbids_iff folder_id pattern).0 denied))
    | inr clear ↦ clear
  ],
)

-- A folder is open exactly when no pattern of the policy is an exclamation mark with a name of the
-- folder, and some pattern, wherever in the list it stands, has no exclamation mark in front and is
-- an asterisk or a name of the folder; names are compared without regard to the case of ASCII
-- letters.
pub is_folder_allowed_iff :
    (policy : McpAgentPolicy) (folder_id : String)
    → (is_folder_allowed policy folder_id ≡ true) ↔ (
        All (λ q. Denies folder_id q → ⊥) policy.allowed_folders
        × ((before : List String) × (q : String) × (after : List String) × (policy.allowed_folders
              ≡ before ++ q ∷ after)
            × Opens folder_id q))
unfolding is_folder_allowed
is_folder_allowed_iff policy folder_id = (opened, opens)
  where
    opened :
        is_folder_allowed policy folder_id ≡ true
        → All (λ q. Denies folder_id q → ⊥) policy.allowed_folders
          × ((before : List String) × (q : String) × (after : List String) × (policy.allowed_folders
                ≡ before ++ q ∷ after)
              × Opens folder_id q)
    opened h = elim (Bool-cases (any (forbids folder_id) policy.allowed_folders)) [
      | inl denied ↦ cc (if_true _ _ _ denied h)
      | inr clear ↦
          let (before, q, after, e, t) =
            found (allows folder_id) policy.allowed_folders (if_false _ _ _ clear h) in
          (
            All-imp _ _ (λ q. (denied_not folder_id q).0) policy.allowed_folders
                ((none_iff (forbids folder_id) policy.allowed_folders).0 clear),
            (before, q, after, e, (allows_iff folder_id q).0 t),
          )
    ]

    opens :
        All (λ q. Denies folder_id q → ⊥) policy.allowed_folders
          × ((before : List String) × (q : String) × (after : List String) × (policy.allowed_folders
                ≡ before ++ q ∷ after)
              × Opens folder_id q)
        → is_folder_allowed policy folder_id ≡ true
    opens (clear, (before, q, after, e, t)) =
        if_false_intro _ _ _
          ((none_iff (forbids folder_id) policy.allowed_folders).1
            (All-imp _ _ (λ q. (denied_not folder_id q).1) policy.allowed_folders clear))
          (ap (any (allows folder_id)) e
            ∙ passed (allows folder_id) before q after ((allows_iff folder_id q).1 t))
