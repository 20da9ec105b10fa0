-- ===== src/Tools/Killtest/Leaks.antt =====
-- `grep_tripwires_under` of examples/killtest.rs finds what there is to find.
use remo_broker.Base.{
  ◌≡◌, ◌↔◌, ◌⊎◌, inl, inr, Option, none, some, List, [], ◌∷◌, ◌++◌, Text, contains, contains_iff,
  arith, Bool-cases, Option-cases,
}
use remo_broker.Base.Texts.{Among}
use remo_broker.Tools.Killtest.{
  tripwire_values, Node, Entries, file, dir, special, end, entry, walk, walk_all, has, first_value,
  hit_in, first_hit, grep_tripwires_under,
}
use remo_broker.Tools.Killtest.Texts.{Occurs, has_iff}

-- One of the values stands in the text.
abbrev Shows : List (Text × Text) → Text → Type 0
Shows [] content = ⊥
Shows ((name, value) ∷ rest) content = Occurs value content ⊎ Shows rest content

first_value_sound :
    (values : List (Text × Text)) (content v : Text)
    → first_value values content ≡ some v
    → Shows values content
unfolding first_value
first_value_sound [] content v h = cc
first_value_sound ((name, value) ∷ rest) content v h = elim (Bool-cases (has content value)) [
  | inl q ↦ inl ((has_iff content value).0 q)
  | inr q ↦ inr (first_value_sound rest content v (ground arith))
]

first_value_complete :
    (values : List (Text × Text)) (content : Text)
    → Shows values content
    → first_value values content ≡ none
    → ⊥
unfolding first_value
first_value_complete [] content h e = h
first_value_complete ((name, value) ∷ rest) content (inl o) e =
    ground (arith, (has_iff content value).1 o)
first_value_complete ((name, value) ∷ rest) content (inr o) e =
    first_value_complete rest content o (ground arith)

-- A file that is not excluded, with text in it that shows a value.
abbrev pub IsLeak : List Text → Text × Option Text → Type 0
IsLeak excluded (path, none) = ⊥
IsLeak excluded (path, some content) = (¬ Among path excluded) × Shows tripwire_values content

hit_in_sound :
    (excluded : List Text) (f : Text × Option Text) (hit : Text × Text)
    → hit_in excluded f ≡ some hit
    → IsLeak excluded f
unfolding hit_in
hit_in_sound excluded (path, none) hit h = cc
hit_in_sound excluded (path, some content) hit h = elim (Bool-cases (contains excluded path)) [
  | inl q ↦ absurd (ground arith)
  | inr q ↦ elim (Option-cases (first_value tripwire_values content)) [
    | inl e ↦ absurd (ground arith)
    | inr (v, e) ↦ (
      λ a. ground (arith, (contains_iff excluded path).1 a),
      first_value_sound tripwire_values content v e,
    )
  ]
]

hit_in_complete :
    (excluded : List Text) (f : Text × Option Text)
    → IsLeak excluded f
    → hit_in excluded f ≡ none
    → ⊥
unfolding hit_in
hit_in_complete excluded (path, none) l e = l
hit_in_complete excluded (path, some content) (out, shows) e =
    elim (Bool-cases (contains excluded path)) [
      | inl q ↦ out ((contains_iff excluded path).0 q)
      | inr q ↦ first_value_complete tripwire_values content shows (ground arith)
    ]

-- Somewhere in a directory, at any depth.
mutual
  pub data Leaks (excluded : List Text) : Node → Type 0 where
    at_file :
        {path : Text} {content : Option Text}
        → IsLeak excluded (path, content)
        → Leaks excluded (file path content)
    below : {entries : Entries} → LeaksIn excluded entries → Leaks excluded (dir entries)

  pub data LeaksIn (excluded : List Text) : Entries → Type 0 where
    first : {n : Node} {rest : Entries} → Leaks excluded n → LeaksIn excluded (entry n rest)
    further : {n : Node} {rest : Entries} → LeaksIn excluded rest → LeaksIn excluded (entry n rest)

-- The same, of the list of files.
abbrev SomeLeak : List Text → List (Text × Option Text) → Type 0
SomeLeak excluded [] = ⊥
SomeLeak excluded (f ∷ files) = IsLeak excluded f ⊎ SomeLeak excluded files

SomeLeak-left :
    (excluded : List Text) (xs ys : List (Text × Option Text))
    → SomeLeak excluded xs
    → SomeLeak excluded (xs ++ ys)
SomeLeak-left excluded [] ys l = absurd l
SomeLeak-left excluded (x ∷ xs) ys (inl l) = inl l
SomeLeak-left excluded (x ∷ xs) ys (inr l) = inr (SomeLeak-left excluded xs ys l)

SomeLeak-right :
    (excluded : List Text) (xs ys : List (Text × Option Text))
    → SomeLeak excluded ys
    → SomeLeak excluded (xs ++ ys)
SomeLeak-right excluded [] ys l = l
SomeLeak-right excluded (x ∷ xs) ys l = inr (SomeLeak-right excluded xs ys l)

SomeLeak-split :
    (excluded : List Text) (xs ys : List (Text × Option Text))
    → SomeLeak excluded (xs ++ ys)
    → SomeLeak excluded xs ⊎ SomeLeak excluded ys
SomeLeak-split excluded [] ys l = inr l
SomeLeak-split excluded (x ∷ xs) ys (inl l) = inl (inl l)
SomeLeak-split excluded (x ∷ xs) ys (inr l) = elim (SomeLeak-split excluded xs ys l) [
  | inl a ↦ inl (inr a)
  | inr b ↦ inr b
]

mutual
  unfolding walk

  walk_complete : (excluded : List Text) (n : Node) → Leaks excluded n → SomeLeak excluded (walk n)
  walk_complete excluded (file path content) (at_file l) = inl l
  walk_complete excluded (dir entries) (below l) = walk_all_complete excluded entries l
  walk_complete excluded special l = elim l [ ]

  walk_all_complete :
      (excluded : List Text) (es : Entries) → LeaksIn excluded es → SomeLeak excluded (walk_all es)
  walk_all_complete excluded end l = elim l [ ]
  walk_all_complete excluded (entry n rest) (first l) =
      SomeLeak-left excluded (walk n) (walk_all rest) (walk_complete excluded n l)
  walk_all_complete excluded (entry n rest) (further l) =
      SomeLeak-right excluded (walk n) (walk_all rest) (walk_all_complete excluded rest l)

mutual
  unfolding walk

  walk_sound : (excluded : List Text) (n : Node) → SomeLeak excluded (walk n) → Leaks excluded n
  walk_sound excluded (file path content) (inl l) = at_file l
  walk_sound excluded (file path content) (inr l) = absurd l
  walk_sound excluded (dir entries) l = below (walk_all_sound excluded entries l)
  walk_sound excluded special l = absurd l

  walk_all_sound :
      (excluded : List Text) (es : Entries) → SomeLeak excluded (walk_all es) → LeaksIn excluded es
  walk_all_sound excluded end l = absurd l
  walk_all_sound excluded (entry n rest) l =
      elim (SomeLeak-split excluded (walk n) (walk_all rest) l) [
        | inl a ↦ first (walk_sound excluded n a)
        | inr b ↦ further (walk_all_sound excluded rest b)
      ]

first_hit_sound :
    (excluded : List Text) (files : List (Text × Option Text)) (hit : Text × Text)
    → first_hit excluded files ≡ some hit
    → SomeLeak excluded files
unfolding first_hit
first_hit_sound excluded [] hit h = cc
first_hit_sound excluded (f ∷ files) hit h = elim (Option-cases (hit_in excluded f)) [
  | inr (x, q) ↦ inl (hit_in_sound excluded f x q)
  | inl q ↦ inr (first_hit_sound excluded files hit (ground arith))
]

first_hit_complete :
    (excluded : List Text) (files : List (Text × Option Text))
    → SomeLeak excluded files
    → first_hit excluded files ≡ none
    → ⊥
unfolding first_hit
first_hit_complete excluded [] l h = l
first_hit_complete excluded (f ∷ files) (inl l) h = elim (Option-cases (hit_in excluded f)) [
  | inl q ↦ hit_in_complete excluded f l q
  | inr (x, q) ↦ ground arith
]
first_hit_complete excluded (f ∷ files) (inr l) h = elim (Option-cases (hit_in excluded f)) [
  | inl q ↦ first_hit_complete excluded files l (ground arith)
  | inr (x, q) ↦ ground arith
]

-- Nothing is found exactly where no file leaks.
pub grep_tripwires_under_iff :
    (root : Entries) (excluded : List Text)
    → (grep_tripwires_under root excluded ≡ none) ↔ (¬ LeaksIn excluded root)
unfolding grep_tripwires_under
grep_tripwires_under_iff root excluded = (
  λ h l. first_hit_complete excluded (walk_all root) (walk_all_complete excluded root l) h,
  λ h. elim (Option-cases (first_hit excluded (walk_all root))) [
    | inl q ↦ q
    | inr (x, q) ↦
        absurd (h (walk_all_sound excluded root (first_hit_sound excluded (walk_all root) x q)))
  ],
)
