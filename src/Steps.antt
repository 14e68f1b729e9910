-- ===== src/Steps.antt =====
-- app/shared/components/dph/steps.component.ts: the steps of a wizard, which may have steps of
-- their own, and what its rows show. Labels, icons and badges are left out, and `when` is what the
-- predicate says at the time.
pub mod Walk
use enterprise_platform.Common.{
  ℕ, zero, suc, ◌+◌, ◌*◌, ◌-◌, ◌/◌, String, Bool, true, false, not, ◌&&◌, ◌||◌, Option, none, some,
  List, [], ◌∷◌, ◌++◌, if◌then◌else◌, ltb, leb, nat_eq, length, filter, is_some,
}

pub data StepState : Type 0 where
  pending active complete error : StepState

pub record StepDescriptor : Type 0 where
  pub key : String
  pub state : Option StepState
  pub when : Bool

-- A list of steps: the first with the steps below it, and the others.
pub data Steps : Type 0 where
  done : Steps
  step : StepDescriptor → Steps → Steps → Steps

pub record FlatStep : Type 0 where
  pub key : String
  pub index : ℕ
  pub depth : ℕ
  pub path : List ℕ
  pub descriptor : StepDescriptor
  pub parent_key : Option String
  pub has_children : Bool

pub record StepsConfig : Type 0 where
  pub steps : Steps
  pub active_index : ℕ
  pub readonly : Bool
  pub allow_free_nav : Bool

abbrev has_steps : Steps → Bool
has_steps done = false
has_steps (step d children rest) = true

-- `walk`, from the place `i` of a list and the counter `index`.
unfoldable pub walk : Steps → ℕ → ℕ → List ℕ → Option String → ℕ → List FlatStep
walk done i depth path parent index = []
walk (step d children rest) i depth path parent index =
    let below = walk children 0 (depth + 1) (path ++ i ∷ []) (some d.key) (index + 1) in
    let others = walk rest (i + 1) depth path parent (index + 1 + length below) in
    let hidden = walk rest (i + 1) depth path parent index in
    let here : FlatStep = record {
      key = d.key;
      index = index;
      depth = depth;
      path = path ++ i ∷ [];
      descriptor = d;
      parent_key = parent;
      has_children = has_steps children;
    } in
    if d.when then here ∷ below ++ others else hidden

unfoldable pub flat_steps : StepsConfig → List FlatStep
unfolding walk
flat_steps config = walk config.steps 0 0 [] none 0

unfoldable pub visible_top_steps : StepsConfig → List FlatStep
unfolding flat_steps
visible_top_steps config = filter (λ fs. nat_eq fs.depth 0) (flat_steps config)

unfoldable pub find_index : ℕ → List FlatStep → Option FlatStep
find_index i [] = none
find_index i (fs ∷ rest) = if nat_eq fs.index i then some fs else find_index i rest

unfoldable pub active_step : StepsConfig → Option StepDescriptor
unfolding find_index flat_steps
active_step config = elim (find_index config.active_index (flat_steps config)) [
  | none ↦ none
  | some fs ↦ some fs.descriptor
]

abbrev by_index : ℕ → ℕ → StepState
by_index index at = if ltb index at then complete else if nat_eq index at then active else pending

abbrev pub state_for : StepsConfig → FlatStep → StepState
state_for config fs = elim fs.descriptor.state [
  | some s ↦ s
  | none ↦ by_index fs.index config.active_index
]

abbrev pub is_complete : StepState → Bool
is_complete complete = true
is_complete _ = false

-- The progress in percent as a fraction: the numerator, and the denominator where there is a step.
unfoldable pub progress : StepsConfig → Option (ℕ × ℕ)
unfolding visible_top_steps find_index
progress config =
    let top = visible_top_steps config in
    let completed = length (filter (λ fs. is_complete (state_for config fs)) top) in
    let half = (if is_some (find_index config.active_index top) then 1 else 0) in
    let numerator = (2 * completed + half) * 100 in
    let denominator = 2 * length top in
    if nat_eq (length top) 0
    then none
    else if ltb (100 * denominator) numerator
    then some (100, 1)
    else some (numerator, denominator)

abbrev pub can_nav : StepsConfig → FlatStep → Bool
can_nav config fs =
    if config.readonly
    then false
    else if config.allow_free_nav
    then true
    else leb fs.index config.active_index

-- What a click emits: the key, the index and the path.
abbrev pub on_step_click : StepsConfig → FlatStep → Option (String × (ℕ × List ℕ))
on_step_click config fs = if can_nav config fs then some (fs.key, (fs.index, fs.path)) else none
