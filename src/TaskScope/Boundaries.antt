-- ===== src/TaskScope/Boundaries.antt =====
-- The boundaries of a manifest: packages/application/src/task-file-boundaries.ts.
use automation.Prelude.{
  String, str_eq, Bool, true, false, not, ◌&&◌, ◌||◌, Option, none, some, List, [], ◌∷◌, ◌++◌,
  if◌then◌else◌, includes,
}
use automation.TaskScope.{
  PathTexts, TaskRecord, EffectiveTaskScope, normalize_task_path, resolve_effective_task_scope,
  normalized_path_set,
}
use automation.TaskScope.Classes.{classify_task_changes, LaterTasks, sort_texts}

abbrev pub no_later_tasks : LaterTasks
no_later_tasks = record { tasks = []; base_offset = 0; current_task_number = none }

unfoldable pub is_path_permitted_by_scope : PathTexts → String → EffectiveTaskScope → Bool
unfolding classify_task_changes normalize_task_path
is_path_permitted_by_scope t path scope =
    let norm = normalize_task_path t path in
    let c =
      classify_task_changes t (record { path = norm; tracked = true } ∷ []) scope no_later_tasks []
        (λ other. false) in
    not (str_eq norm "") && includes c.permitted_paths norm

abbrev pub some_scope_permits : PathTexts → String → List TaskRecord → Bool
some_scope_permits t path [] = false
some_scope_permits t path (task ∷ tasks) =
    is_path_permitted_by_scope t path (resolve_effective_task_scope t task)
    || some_scope_permits t path tasks

abbrev pub keep : (String → Bool) → List String → List String
keep test [] = []
keep test (x ∷ xs) = let rest = keep test xs in if test x then x ∷ rest else rest

pub record TaskBoundaryClassification : Type 0 where
  pub modified_reference_files : List String
  pub undeclared_files : List String

abbrev pub all_reference_files : PathTexts → List TaskRecord → List String
all_reference_files t [] = []
all_reference_files t (task ∷ tasks) =
    (resolve_effective_task_scope t task).reference_files ++ all_reference_files t tasks

abbrev pub all_writable_files : PathTexts → List TaskRecord → List String
all_writable_files t [] = []
all_writable_files t (task ∷ tasks) =
    (resolve_effective_task_scope t task).required_files
    ++ (resolve_effective_task_scope t task).may_extend_files
    ++ all_writable_files t tasks

pub record ManifestBoundaries : Type 0 where
  pub writable_set : List String
  pub reference_set : List String

unfoldable pub get_manifest_boundaries : PathTexts → Option (List TaskRecord) → ManifestBoundaries
unfolding resolve_effective_task_scope normalize_task_path
get_manifest_boundaries t none = record { writable_set = []; reference_set = [] }
get_manifest_boundaries t (some tasks) = record {
  writable_set = normalized_path_set t (all_writable_files t tasks);
  reference_set = normalized_path_set t (all_reference_files t tasks);
}

unfoldable pub classify_undeclared_files :
    PathTexts → List String → List String → List String → List String → TaskBoundaryClassification
unfolding normalize_task_path sort_texts
classify_undeclared_files t committed writable reference exempt =
    let undeclared = sort_texts t (
      keep
        (λ file.
          not (includes writable file)
          && not (includes exempt file)
          && not (t.is_orchestrator_artifact file))
        (normalized_path_set t committed)) in
    record {
      modified_reference_files = keep (λ file. includes reference file) undeclared;
      undeclared_files = keep (λ file. not (includes reference file)) undeclared;
    }

-- The committed files that are neither exempt nor artifacts.
abbrev pub candidates_of : PathTexts → List String → List String → List String
candidates_of t committed exempt =
    keep (λ file. not (includes exempt file) && not (t.is_orchestrator_artifact file))
      (normalized_path_set t committed)

-- The manifest is `none` if it is no object.
unfoldable pub check_task_boundaries :
    PathTexts → List String → Option (List TaskRecord) → List String → TaskBoundaryClassification
unfolding is_path_permitted_by_scope resolve_effective_task_scope normalize_task_path sort_texts
check_task_boundaries t committed none exempt_files =
    let exempt = normalized_path_set t exempt_files in
    record {
      modified_reference_files = [];
      undeclared_files = sort_texts t (candidates_of t committed exempt);
    }
check_task_boundaries t committed (some tasks) exempt_files =
    let exempt = normalized_path_set t exempt_files in
    let outside =
      keep (λ file. not (some_scope_permits t file tasks)) (candidates_of t committed exempt) in
    let reference = all_reference_files t tasks in
    record {
      modified_reference_files = sort_texts t (keep (λ file. includes reference file) outside);
      undeclared_files = sort_texts t (keep (λ file. not (includes reference file)) outside);
    }
