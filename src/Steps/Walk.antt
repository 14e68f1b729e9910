-- ===== src/Steps/Walk.antt =====
-- The flat list of the steps.
use enterprise_platform.Common.{
  ℕ, zero, suc, ◌+◌, String, Bool, true, false, Option, none, some, List, [], ◌∷◌, ◌++◌, ◌≡◌, refl,
  ap, sym, ◌∙◌, append_assoc, arith, if◌then◌else◌, Bool-cases, inl, inr, length, length-append,
}
use enterprise_platform.Steps.{
  StepDescriptor, Steps, done, step, FlatStep, StepsConfig, walk, flat_steps,
}

abbrev pub indices : List FlatStep → List ℕ
indices [] = []
indices (fs ∷ rest) = fs.index ∷ indices rest

-- The numbers from `i` on.
abbrev pub upward : ℕ → ℕ → List ℕ
upward i zero = []
upward i (suc n) = i ∷ upward (i + 1) n

indices-append : (xs ys : List FlatStep) → indices (xs ++ ys) ≡ indices xs ++ indices ys
indices-append [] ys = refl
indices-append (x ∷ xs) ys = ap (λ is. x.index ∷ is) (indices-append xs ys)

upward-append : (i m n : ℕ) → upward i (m + n) ≡ upward i m ++ upward (i + m) n
upward-append i zero n =
    let same : 0 + n ≡ n = omega arith in
    let start : i ≡ i + 0 = omega arith in ap (upward i) same ∙ ap (λ j. upward j n) start
upward-append i (suc m) n =
    let more : suc m + n ≡ suc (m + n) = omega arith in
    let start : i + 1 + m ≡ i + suc m = omega arith in
    ap (upward i) more
    ∙ ap (λ is. i ∷ is) (upward-append (i + 1) m n ∙ ap (λ j. upward (i + 1) m ++ upward j n) start)

indices-walk :
    (steps : Steps) (i depth : ℕ) (path : List ℕ) (parent : Option String) (index : ℕ)
    → indices (walk steps i depth path parent index)
      ≡ upward index (length (walk steps i depth path parent index))
unfolding walk
indices-walk done i depth path parent index = refl
indices-walk (step d children rest) i depth path parent index =
    let below = walk children 0 (depth + 1) (path ++ i ∷ []) (some d.key) (index + 1) in
    let others = walk rest (i + 1) depth path parent (index + 1 + length below) in
    elim (Bool-cases d.when) [
      | inr e ↦ rw e (indices-walk rest (i + 1) depth path parent index)
      | inl e ↦
          let here : List ℕ = upward (index + 1) (length below) in
          rw e (
            ap (λ is. index ∷ is)
              (indices-append below others
                ∙ ap (λ is. is ++ indices others)
                    (indices-walk children 0 (depth + 1) (path ++ i ∷ []) (some d.key) (index + 1))
                ∙ ap (λ is. here ++ is)
                    (indices-walk rest (i + 1) depth path parent (index + 1 + length below))
                ∙ sym (upward-append (index + 1) (length below) (length others))
                ∙ ap (upward (index + 1)) (sym (length-append below others))))
    ]

-- The step at a path of places.
unfoldable pub step_at : List ℕ → Steps → Option StepDescriptor
step_at path done = none
step_at [] (step d children rest) = none
step_at (zero ∷ []) (step d children rest) = some d
step_at (zero ∷ j ∷ path) (step d children rest) = step_at (j ∷ path) children
step_at (suc i ∷ path) (step d children rest) = step_at (i ∷ path) rest

abbrev pub Each {ℓ} : (FlatStep → Type ℓ) → List FlatStep → Type ℓ
Each P [] = Unit
Each P (fs ∷ rest) = P fs × Each P rest

Each-imp :
    {P Q : FlatStep → Type 0}
    → ((fs : FlatStep) → P fs → Q fs)
    → (xs : List FlatStep) → Each P xs
    → Each Q xs
Each-imp h [] each = tt
Each-imp h (fs ∷ xs) (first, each) = (h fs first, Each-imp h xs each)

Each-append :
    (P : FlatStep → Type 0) (xs ys : List FlatStep) → Each P xs → Each P ys → Each P (xs ++ ys)
Each-append P [] ys each each' = each'
Each-append P (fs ∷ xs) ys (first, each) each' = (first, Each-append P xs ys each each')

Each-if :
    (P : FlatStep → Type 0) (b : Bool) (xs ys : List FlatStep)
    → Each P xs
    → Each P ys
    → Each P (if b then xs else ys)
Each-if P true xs ys each each' = each
Each-if P false xs ys each each' = each'

-- The row's path, behind `path`, leads to its step in a list that begins at the place `i`.
Resolves : Steps → ℕ → List ℕ → FlatStep → Type 0
Resolves steps i path fs =
    (j : ℕ) × ((q : List ℕ) × ((fs.path ≡ path ++ (i + j) ∷ q)
        × (step_at (j ∷ q) steps ≡ some fs.descriptor)))

Resolves-later :
    (d : StepDescriptor) (children rest : Steps) (i : ℕ) (path : List ℕ) (fs : FlatStep)
    → Resolves rest (i + 1) path fs
    → Resolves (step d children rest) i path fs
unfolding Resolves step_at
Resolves-later d children rest i path fs (j, (q, (p, found))) =
    let shifted : i + 1 + j ≡ i + suc j = omega arith in
    (suc j, (q, (p ∙ ap (λ k. path ++ k ∷ q) shifted, found)))

Resolves-below :
    (d : StepDescriptor) (children rest : Steps) (i : ℕ) (path : List ℕ) (fs : FlatStep)
    → Resolves children 0 (path ++ i ∷ []) fs
    → Resolves (step d children rest) i path fs
unfolding Resolves step_at
Resolves-below d children rest i path fs (j, (q, (p, found))) =
    let at_i : i ≡ i + 0 = omega arith in
    let at_j : 0 + j ≡ j = omega arith in
    (
      0,
      (
        j ∷ q,
        (
          p
              ∙ append_assoc path (i ∷ []) ((0 + j) ∷ q)
              ∙ ap (λ k. path ++ i ∷ k ∷ q) at_j
              ∙ ap (λ k. path ++ k ∷ j ∷ q) at_i,
          found,
        ),
      ),
    )

resolved :
    (steps : Steps) (fs : FlatStep)
    → Resolves steps 0 [] fs
    → step_at fs.path steps ≡ some fs.descriptor
unfolding Resolves
resolved steps fs (j, (q, (p, found))) =
    let at_j : 0 + j ≡ j = omega arith in
    ap (λ path. step_at path steps) (p ∙ ap (λ k. k ∷ q) at_j) ∙ found

walk-Resolves :
    (steps : Steps) (i depth : ℕ) (path : List ℕ) (parent : Option String) (index : ℕ)
    → Each (Resolves steps i path) (walk steps i depth path parent index)
unfolding walk step_at Resolves
walk-Resolves done i depth path parent index = tt
walk-Resolves (step d children rest) i depth path parent index =
    let later = λ (fs : FlatStep) (r : Resolves rest (i + 1) path fs).
      Resolves-later d children rest i path fs r in
    let at_i : i ≡ i + 0 = omega arith in
    let below = walk children 0 (depth + 1) (path ++ i ∷ []) (some d.key) (index + 1) in
    let others = walk rest (i + 1) depth path parent (index + 1 + length below) in
    let resolves = Resolves (step d children rest) i path in
    Each-if resolves d.when _ (walk rest (i + 1) depth path parent index)
      (
        (0, ([], (ap (λ k. path ++ k ∷ []) at_i, refl))),
        Each-append resolves below others
            (Each-imp (Resolves-below d children rest i path) below
              (walk-Resolves children 0 (depth + 1) (path ++ i ∷ []) (some d.key) (index + 1)))
            (Each-imp later others
              (walk-Resolves rest (i + 1) depth path parent (index + 1 + length below))),
      )
      (Each-imp later (walk rest (i + 1) depth path parent index)
        (walk-Resolves rest (i + 1) depth path parent index))

-- The rows of the flat list are numbered 0, 1, 2, ... from the top, and the path of each row leads
-- through the tree of the steps to the step that the row shows.
pub flat_steps_lem :
    (config : StepsConfig)
    → (indices (flat_steps config) ≡ upward 0 (length (flat_steps config)))
      × Each (λ fs. step_at fs.path config.steps ≡ some fs.descriptor) (flat_steps config)
unfolding flat_steps Resolves
flat_steps_lem config = (
  indices-walk config.steps 0 0 [] none 0,
  Each-imp (resolved config.steps) (walk config.steps 0 0 [] none 0)
      (walk-Resolves config.steps 0 0 [] none 0),
)
