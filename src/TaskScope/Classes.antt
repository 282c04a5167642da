-- ===== src/TaskScope/Classes.antt =====
-- The classes of the changes of a task: packages/application/src/task-file-boundaries.ts.
use automation.Prelude.{
  ℕ, suc, String, str_eq, Bool, true, false, not, ◌&&◌, ◌||◌, Option, none, some, List, [], ◌∷◌,
  if◌then◌else◌, includes, leb, ltb,
}
use Prim.Native.String.{◌++◌ as ◌<>◌}
use automation.TaskScope.{
  PathTexts, TaskRecord, EffectiveTaskScope, normalize_task_path, resolve_effective_task_scope,
  get_task_number, normalized, normalized_path_set,
}

-- `isNormalizedSegmentPrefixMatch`.
abbrev pub is_prefix_match : PathTexts → String → String → Bool
is_prefix_match t prefix path =
    not (str_eq prefix "")
    && not (str_eq path "")
    && (str_eq path prefix || t.starts_with path (prefix <> "/"))

abbrev pub some_prefix : PathTexts → List String → String → Bool
some_prefix t [] path = false
some_prefix t (x ∷ xs) path = is_prefix_match t x path || some_prefix t xs path

unfoldable pub is_protected_task_path : PathTexts → String → Bool
unfolding normalize_task_path
is_protected_task_path t path =
    let norm = normalize_task_path t path in
    not (str_eq norm "")
    && (str_eq norm ".gitignore"
        || t.ends_with norm "/.gitignore"
        || str_eq norm ".ai-orchestrator.json"
        || str_eq norm ".github"
        || t.starts_with norm ".github/"
        || t.is_orchestrator_artifact norm)

abbrev pub Required : Type 0
Required = List (String × ℕ)

abbrev pub find_required : Required → String → Option ℕ
find_required [] path = none
find_required ((file, task) ∷ rest) path =
    if str_eq file path then some task else find_required rest path

-- A file that a task requires; of several tasks the one of the least number.
abbrev pub put_required : Required → ℕ → String → Required
put_required [] task file = (file, task) ∷ []
put_required ((f, old) ∷ rest) task file =
    let later = put_required rest task file in
    if str_eq f file then (f, if ltb task old then task else old) ∷ rest else (f, old) ∷ later

abbrev put_all : Required → ℕ → List String → Required
put_all required task [] = required
put_all required task (file ∷ files) = put_all (put_required required task file) task files

abbrev is_past : Option ℕ → ℕ → Bool
is_past none task = false
is_past (some current) task = leb task current

-- The files that the tasks after the current one require; `index` is that of the first of the tasks.
unfoldable pub downstream_required :
    PathTexts → Option ℕ → ℕ → Required → List TaskRecord → Required
unfolding get_task_number resolve_effective_task_scope
downstream_required t current index required [] = required
downstream_required t current index required (task ∷ tasks) =
    let number = get_task_number task index in
    let files = (resolve_effective_task_scope t task).required_files in
    downstream_required t current (suc index)
      (if is_past current number then required else put_all required number files) tasks

pub data TaskClass : Type 0 where
  protected exempt non_goal permitted modified_reference drift : TaskClass
  premature : ℕ → TaskClass

-- What a classification reads: the scope with its sets normalized, the files of later tasks, the
-- exempt files and the test for protected paths that the caller has.
pub record Bounds : Type 0 where
  pub scope : EffectiveTaskScope
  pub downstream : Required
  pub exempt_files : List String
  pub is_protected : String → Bool

-- The class of a normalized path, by the first test that holds.
unfoldable pub class_of : PathTexts → Bounds → String → Bool → TaskClass
unfolding is_protected_task_path
class_of t b path tracked =
    if t.is_orchestrator_artifact path || str_eq path ".ai-orchestrator.json" || b.is_protected path
    then protected
    else if includes b.exempt_files path
    then exempt
    else if some_prefix t b.scope.non_goals path
    then non_goal
    else if includes b.scope.required_files path
    then permitted
    else if is_protected_task_path t path
    then protected
    else elim (find_required b.downstream path) [
      | some task ↦ premature task
      | none ↦
          if includes b.scope.reference_files path
          then modified_reference
          else if includes b.scope.may_extend_files path
          then permitted
          else if some_prefix t b.scope.permitted_areas path && tracked
          then permitted
          else drift
    ]

-- A path, and whether it is tracked, which it is unless that is `false`.
pub record TaskChangeCandidate : Type 0 where
  pub path : String
  pub tracked : Bool

-- `normalizedCandidateMap`: a path is tracked if it is in one of its entries.
abbrev pub add_candidate : List (String × Bool) → String → Bool → List (String × Bool)
add_candidate [] path tracked = (path, tracked) ∷ []
add_candidate ((p, old) ∷ rest) path tracked =
    let later = add_candidate rest path tracked in
    if str_eq p path then (p, old || tracked) ∷ rest else (p, old) ∷ later

unfoldable pub candidate_map :
    PathTexts → List (String × Bool) → List TaskChangeCandidate → List (String × Bool)
unfolding normalize_task_path
candidate_map t entries [] = entries
candidate_map t entries (c ∷ cs) =
    let path = normalize_task_path t c.path in
    candidate_map t (if str_eq path "" then entries else add_candidate entries path c.tracked) cs

abbrev pub classed : PathTexts → Bounds → List (String × Bool) → List (String × TaskClass)
classed t b [] = []
classed t b ((path, tracked) ∷ rest) = (path, class_of t b path tracked) ∷ classed t b rest

abbrev pub paths_of : (TaskClass → Bool) → List (String × TaskClass) → List String
paths_of test [] = []
paths_of test ((path, c) ∷ rest) =
    let later = paths_of test rest in if test c then path ∷ later else later

abbrev pub is_permitted : TaskClass → Bool
is_permitted permitted = true
is_permitted _ = false

abbrev is_class_protected : TaskClass → Bool
is_class_protected protected = true
is_class_protected _ = false

abbrev is_non_goal : TaskClass → Bool
is_non_goal non_goal = true
is_non_goal _ = false

abbrev is_modified_reference : TaskClass → Bool
is_modified_reference modified_reference = true
is_modified_reference _ = false

abbrev is_drift : TaskClass → Bool
is_drift drift = true
is_drift _ = false

abbrev premature_of : List (String × TaskClass) → Required
premature_of [] = []
premature_of ((path, premature task) ∷ rest) = (path, task) ∷ premature_of rest
premature_of ((path, c) ∷ rest) = premature_of rest

abbrev pub insert_text : PathTexts → String → List String → List String
insert_text t x [] = x ∷ []
insert_text t x (y ∷ ys) =
    let rest = insert_text t x ys in if t.text_le x y then x ∷ y ∷ ys else y ∷ rest

-- `xs.sort()`.
unfoldable pub sort_texts : PathTexts → List String → List String
sort_texts t [] = []
sort_texts t (x ∷ xs) = insert_text t x (sort_texts t xs)

-- `a.path.localeCompare(b.path)`; the paths differ, so that the numbers are never compared.
abbrev insert_premature : PathTexts → String × ℕ → Required → Required
insert_premature t x [] = x ∷ []
insert_premature t x (y ∷ ys) =
    let rest = insert_premature t x ys in if t.locale_le x.0 y.0 then x ∷ y ∷ ys else y ∷ rest

unfoldable pub sort_premature : PathTexts → Required → Required
sort_premature t [] = []
sort_premature t (x ∷ xs) = insert_premature t x (sort_premature t xs)

pub record TaskScopeClassification : Type 0 where
  pub permitted_paths : List String
  pub modified_reference_files : List String
  pub non_goal_files : List String
  pub premature_implementation : Required
  pub drift_files : List String
  pub protected_files : List String

-- The paths of the candidates are distinct, so that a set of them is the list.
abbrev pub gather : PathTexts → List (String × TaskClass) → TaskScopeClassification
gather t paths = record {
  permitted_paths = sort_texts t (paths_of is_permitted paths);
  modified_reference_files = sort_texts t (paths_of is_modified_reference paths);
  non_goal_files = sort_texts t (paths_of is_non_goal paths);
  premature_implementation = sort_premature t (premature_of paths);
  drift_files = sort_texts t (paths_of is_drift paths);
  protected_files = sort_texts t (paths_of is_class_protected paths);
}

-- The tasks after which a file is premature, with the index of the first of them.
pub record LaterTasks : Type 0 where
  pub tasks : List TaskRecord
  pub base_offset : ℕ
  pub current_task_number : Option ℕ

abbrev pub bounds_of :
    PathTexts → EffectiveTaskScope → LaterTasks → List String → (String → Bool) → Bounds
bounds_of t scope later exempt_files is_protected = record {
  scope = record {
    required_files = normalized_path_set t scope.required_files;
    may_extend_files = normalized_path_set t scope.may_extend_files;
    permitted_areas = normalized t scope.permitted_areas;
    non_goals = normalized t scope.non_goals;
    reference_files = normalized_path_set t scope.reference_files;
  };
  downstream = downstream_required t later.current_task_number later.base_offset [] later.tasks;
  exempt_files = normalized_path_set t exempt_files;
  is_protected = is_protected;
}

unfoldable pub classify_task_changes :
    PathTexts
    → List TaskChangeCandidate
    → EffectiveTaskScope
    → LaterTasks
    → List String
    → (String → Bool)
    → TaskScopeClassification
unfolding class_of candidate_map sort_texts sort_premature downstream_required normalize_task_path
classify_task_changes t candidates scope later exempt_files is_protected =
    gather t (
      classed t (bounds_of t scope later exempt_files is_protected) (candidate_map t [] candidates))
