-- ===== src/Tests/Contexts.antt =====
-- Concrete runs of the correlation context.
use enterprise_platform.Common.{◌≡◌, refl, none, []}
use enterprise_platform.Http.Correlation.{Context, Nesting, idle, enclose, run, run-nested}

abbrev no_context : Context
no_context = record { current = none; stack = [] }

abbrev nesting : Nesting
nesting = enclose "a" (enclose "b" idle idle) (enclose "c" idle idle)

run-nested_example : run nesting no_context ≡ no_context
run-nested_example = run-nested nesting no_context (λ e. refl)
