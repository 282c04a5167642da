-- ===== src/TaskScope/Permitted.antt =====
-- Which paths are permitted: packages/application/src/task-file-boundaries.ts.
use automation.Prelude.{◌≡◌, String, str_eq, Bool, not, ◌&&◌, ◌||◌, arith, includes, is_none}
use automation.TaskScope.{PathTexts}
use automation.TaskScope.Classes.{
  Bounds, class_of, is_permitted, some_prefix, is_protected_task_path, find_required,
}

-- The paths that no declaration of a task permits: protected by the caller or for all, and not in
-- scope.
abbrev pub is_barred : PathTexts → Bounds → String → Bool
is_barred t b path =
    t.is_orchestrator_artifact path
    || str_eq path ".ai-orchestrator.json"
    || b.is_protected path
    || includes b.exempt_files path
    || some_prefix t b.scope.non_goals path

-- The paths that only the files that the task requires may include.
abbrev pub is_reserved : PathTexts → Bounds → String → Bool
is_reserved t b path =
    is_protected_task_path t path
    || not (is_none (find_required b.downstream path))
    || includes b.scope.reference_files path

-- A path is permitted exactly when it is not barred, and is a file that the task requires, or not
-- reserved and either a file that the task may extend or a tracked one in its areas.
pub class_of-is_permitted :
    (t : PathTexts) (b : Bounds) (path : String) (tracked : Bool)
    → is_permitted (class_of t b path tracked) ≡ (
        not (is_barred t b path)
        && (includes b.scope.required_files path
            || (not (is_reserved t b path)
                && (includes b.scope.may_extend_files path
                    || (some_prefix t b.scope.permitted_areas path && tracked)))))
unfolding class_of
class_of-is_permitted t b path tracked = ground arith
