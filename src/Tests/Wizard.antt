-- ===== src/Tests/Wizard.antt =====
-- A wizard whose second step has two steps of its own.
use enterprise_platform.Common.{length, String, ◌≡◌, Bool, true, false, none, some}
use enterprise_platform.Steps.{StepDescriptor, done, step, StepsConfig, flat_steps}
use enterprise_platform.Steps.Walk.{indices, upward, step_at, Each, flat_steps_lem}

abbrev plain_step : String → Bool → StepDescriptor
plain_step key when = record { key = key; state = none; when = when }

abbrev wizard : StepsConfig
wizard = record {
  steps = step (plain_step "who" true) done (
      step (plain_step "where" true)
        (step (plain_step "old" false) done (step (plain_step "city" true) done done))
        (step (plain_step "check" true) done done));
  active_index = 1;
  readonly = false;
  allow_free_nav = false;
}

flat_steps_lem_example :
    (indices (flat_steps wizard) ≡ upward 0 (length (flat_steps wizard)))
    × Each (λ fs. step_at fs.path wizard.steps ≡ some fs.descriptor) (flat_steps wizard)
flat_steps_lem_example = flat_steps_lem wizard
