-- ===== src/TaskScope/Tests.antt =====
-- A task with two files, and the theorems on its scope there. A path is one segment.
use automation.Prelude.{
  ◌≡◌, refl, String, str_eq, true, false, not, ◌&&◌, ◌||◌, none, some, List, [], ◌∷◌, includes, All,
  leb,
}
use Prim.Native.String.{count}
use automation.TaskScope.{
  PathTexts, TaskRecord, normalize_task_path, resolve_effective_task_scope, normalized_path_set,
  get_task_number,
}
use automation.TaskScope.Classes.{
  Bounds, bounds_of, class_of, is_permitted, permitted, drift, premature, protected, some_prefix,
  is_protected_task_path, downstream_required, sort_texts, sort_premature, candidate_map,
  classify_task_changes,
}
use automation.TaskScope.Boundaries.{check_task_boundaries, is_path_permitted_by_scope}
use automation.TaskScope.Permitted.{is_barred, is_reserved, class_of-is_permitted}
use automation.TaskScope.Clean.{is_allowed, check_task_boundaries-is_allowed}

abbrev texts : PathTexts
texts = record {
  segments = λ x. x ∷ [];
  starts_with = λ x y. false;
  ends_with = λ x y. false;
  parent = λ x. none;
  is_orchestrator_artifact = λ x. str_eq x "plan.json";
  text_le = λ x y. leb (count x) (count y);
  locale_le = λ x y. leb (count x) (count y);
}

abbrev task : TaskRecord
task = record {
  n = some 1;
  task_number = none;
  expected_files = some ("a.ts" ∷ []);
  files = none;
  may_extend = some ("long.ts" ∷ []);
  permitted_areas = none;
  non_goals = none;
  reference_files = some ("ref.ts" ∷ []);
}

abbrev later_task : TaskRecord
later_task = record task { n = some 2; expected_files = some ("b.ts" ∷ []); may_extend = none }

abbrev bounds : Bounds
bounds =
    bounds_of texts (resolve_effective_task_scope texts task)
      (record { tasks = later_task ∷ []; base_offset = 1; current_task_number = some 1 }) []
      (λ x. false)

some_classes :
    (class_of texts bounds "a.ts" true ≡ permitted)
    × (class_of texts bounds "b.ts" true ≡ premature 2)
    × (class_of texts bounds "c.ts" true ≡ drift)
    × (class_of texts bounds "plan.json" true ≡ protected)
unfolding class_of is_protected_task_path normalize_task_path resolve_effective_task_scope
    downstream_required get_task_number
some_classes = (refl, refl, refl, refl)

class_of-is_permitted_example : is_permitted (class_of texts bounds "long.ts" true) ≡ (
    not (is_barred texts bounds "long.ts")
    && (includes bounds.scope.required_files "long.ts"
        || (not (is_reserved texts bounds "long.ts")
            && (includes bounds.scope.may_extend_files "long.ts"
                || (some_prefix texts bounds.scope.permitted_areas "long.ts" && true)))))
class_of-is_permitted_example = class_of-is_permitted texts bounds "long.ts" true

abbrev committed : List String
committed = "a.ts" ∷ "plan.json" ∷ "x.ts" ∷ "long.ts" ∷ []

check_task_boundaries-is_allowed_example :
    All
      (λ raw. is_allowed texts (normalized_path_set texts ("x.ts" ∷ [])) (task ∷ []) raw ≡ true)
      committed
unfolding check_task_boundaries is_path_permitted_by_scope normalize_task_path
    resolve_effective_task_scope classify_task_changes sort_texts sort_premature candidate_map
    class_of is_protected_task_path downstream_required
check_task_boundaries-is_allowed_example =
    check_task_boundaries-is_allowed texts committed (task ∷ []) ("x.ts" ∷ []) refl
