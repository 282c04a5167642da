-- ===== src/TaskScope.antt =====
-- packages/application/src/task-file-boundaries.ts, and the paths of packages/domain/src/step.ts: which
-- files a task may change. A manifest that has been parsed is given by its tasks, in each of which a
-- list that is missing or of another type is `none`. What the language does with texts, and which
-- paths are artifacts of the orchestrator, are arguments.
pub mod Classes
pub mod Boundaries
pub mod Permitted
pub mod Clean
mod Tests
use automation.Prelude.{
  ℕ, ◌+◌, String, str_eq, Bool, true, false, not, ◌&&◌, ◌||◌, Option, none, some, List, [], ◌∷◌,
  ◌++◌, if◌then◌else◌, map, non_empty, distinct,
}
use Prim.Native.String.{◌++◌ as ◌<>◌}

-- The segments of a text that is trimmed, with its backslashes turned, of which an empty one has none;
-- `startsWith`, `endsWith`; the part before the last `/`, if there is one and it is not the first
-- character; the artifacts; and the two orders of texts, as "not after".
pub record PathTexts : Type 0 where
  pub segments : String → List String
  pub starts_with : String → String → Bool
  pub ends_with : String → String → Bool
  pub parent : String → Option String
  pub is_orchestrator_artifact : String → Bool
  pub text_le : String → String → Bool
  pub locale_le : String → String → Bool

abbrev drop_last : List String → List String
drop_last [] = []
drop_last (x ∷ []) = []
drop_last (x ∷ y ∷ xs) = x ∷ drop_last (y ∷ xs)

-- The stack after one more segment: `..` takes one back, if there is one.
abbrev pub push_segment : List String → String → List String
push_segment stack segment =
    if str_eq segment "" || str_eq segment "."
    then stack
    else if str_eq segment ".."
    then drop_last stack
    else stack ++ segment ∷ []

abbrev push_all : List String → List String → List String
push_all stack [] = stack
push_all stack (x ∷ xs) = push_all (push_segment stack x) xs

abbrev join_more : List String → String
join_more [] = ""
join_more (x ∷ xs) = "/" <> x <> join_more xs

abbrev join_segments : List String → String
join_segments [] = ""
join_segments (x ∷ xs) = x <> join_more xs

unfoldable pub normalize_task_path : PathTexts → String → String
normalize_task_path t path = join_segments (push_all [] (t.segments path))

pub record TaskRecord : Type 0 where
  pub n : Option ℕ
  pub task_number : Option ℕ
  pub expected_files : Option (List String)
  pub files : Option (List String)
  pub may_extend : Option (List String)
  pub permitted_areas : Option (List String)
  pub non_goals : Option (List String)
  pub reference_files : Option (List String)

pub record EffectiveTaskScope : Type 0 where
  pub required_files : List String
  pub may_extend_files : List String
  pub permitted_areas : List String
  pub non_goals : List String
  pub reference_files : List String

abbrev pub list_of : Option (List String) → List String
list_of none = []
list_of (some xs) = xs

-- `xs.map(normalizeTaskPath).filter(Boolean)`.
abbrev pub normalized : PathTexts → List String → List String
normalized t xs = non_empty (map (normalize_task_path t) xs)

-- `normalizedPathSet`.
abbrev pub normalized_path_set : PathTexts → List String → List String
normalized_path_set t xs = distinct [] (normalized t xs)

-- The directories of files, but `.`.
abbrev pub derived_areas : PathTexts → List String → List String
derived_areas t [] = []
derived_areas t (file ∷ files) = elim (t.parent file) [
  | none ↦ derived_areas t files
  | some dir ↦
      if str_eq dir "" || str_eq dir "." then derived_areas t files else dir ∷ derived_areas t files
]

unfoldable pub resolve_effective_task_scope : PathTexts → TaskRecord → EffectiveTaskScope
unfolding normalize_task_path
resolve_effective_task_scope t task =
    let required =
      distinct []
        (normalized t (list_of task.expected_files) ++ normalized t (list_of task.files)) in
    record {
      required_files = required;
      may_extend_files = normalized_path_set t (list_of task.may_extend);
      permitted_areas =
          distinct [] (derived_areas t required ++ normalized t (list_of task.permitted_areas));
      non_goals = normalized_path_set t (list_of task.non_goals);
      reference_files = normalized_path_set t (list_of task.reference_files);
    }

unfoldable pub get_task_number : TaskRecord → ℕ → ℕ
get_task_number task fallback_index = elim task.n [
  | some n ↦ n
  | none ↦ elim task.task_number [ some k ↦ k | none ↦ fallback_index + 1 ]
]

abbrev is_given : Option (List String) → Bool
is_given none = false
is_given (some xs) = true

abbrev has_some : Option (List String) → Bool
has_some none = false
has_some (some []) = false
has_some (some (x ∷ xs)) = true

-- The version of the manifest is given as whether it is 2.
unfoldable pub has_declared_surface : Bool → TaskRecord → Bool
has_declared_surface true task =
    is_given task.expected_files
    || has_some task.reference_files
    || has_some task.files
    || has_some task.may_extend
    || has_some task.permitted_areas
has_declared_surface false task = has_some task.expected_files || has_some task.files
