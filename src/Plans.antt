-- ===== src/Plans.antt =====
-- `assertWithinPlan` of src/modules/plans/plans.service.js: the limit of the tenant's plan on a
-- resource, none where there is no plan row or the limit is null, against the rows counted.
use backend_pluseops.Base.{ℕ, Option, none, some, Result, ok, leb, plan_limit_reached}
use backend_pluseops.Base.Checks.{fail_if}

unfoldable pub assert_within_plan : Option ℕ → ℕ → Result (Unit {0})
assert_within_plan none used = ok tt
assert_within_plan (some limit) used = fail_if (leb limit used) plan_limit_reached
