-- ===== src/Revalidation.antt =====
-- packages/application/src/revalidation-plan.ts: which packages a revalidation needs to cover. The
-- functions of texts that the language has are arguments. A `Map` is the list of its entries in the
-- order of their insertion, and a `Set` the list of its members.
pub mod Graph
pub mod Commands
pub mod Plan
pub mod Closure
pub mod Found
pub mod Packages
pub mod Depth
pub mod Degrees
pub mod Acyclic
pub mod Kahn
pub mod Visits
pub mod Narrow
mod Tests
use automation.Prelude.{
  ℕ, String, str_eq, Bool, true, false, not, ◌&&◌, ◌||◌, Option, none, some, List, [], ◌∷◌, ◌++◌,
  if◌then◌else◌,
}
use Prim.Native.String.{◌++◌ as ◌<>◌}

pub record WorkspacePackageDescriptor : Type 0 where
  pub name : String
  pub directory : String
  pub workspace_dependencies : List String
  pub has_bats : Bool

pub data FullValidationReason : Type 0 where
  first_iteration pr_ready missing_baseline empty_changed_files multiple_packages outside_package :
      FullValidationReason
  upstream_package ambiguous_ownership invalid_descriptor unresolved_dependency :
      FullValidationReason
  cyclic_dependency unknown_command empty_narrowed_commands : FullValidationReason

-- A command as a text, or as the list of its words.
pub data ValidationCommand : Type 0 where
  line : String → ValidationCommand
  words : List String → ValidationCommand

-- What the source uses of texts: the two patterns of safe texts; a trimmed text, and one with its
-- backslashes turned too; `startsWith('/')` or a drive; `split('/')`; `split(/\s+/)`; `startsWith`;
-- `length`; and `localeCompare`, as "not after".
pub record Texts : Type 0 where
  pub is_safe_name : String → Bool
  pub is_safe_directory : String → Bool
  pub trim : String → String
  pub clean : String → String
  pub is_absolute : String → Bool
  pub split_path : String → List String
  pub split_words : String → List String
  pub starts_with : String → String → Bool
  pub text_length : String → ℕ
  pub locale_le : String → String → Bool

abbrev join_more : String → List String → String
join_more by [] = ""
join_more by (x ∷ xs) = by <> x <> join_more by xs

abbrev pub join : String → List String → String
join by [] = ""
join by (x ∷ xs) = x <> join_more by xs

abbrev drop_last : List String → List String
drop_last [] = []
drop_last (x ∷ []) = []
drop_last (x ∷ y ∷ xs) = x ∷ drop_last (y ∷ xs)

-- The parts after one more: `..` takes one back, and may not leave the root.
abbrev pub add_part : List String → String → Option (List String)
add_part done part =
    if str_eq part "" || str_eq part "."
    then some done
    else if str_eq part ".."
    then elim done [ [] ↦ none | x ∷ xs ↦ some (drop_last (x ∷ xs)) ]
    else some (done ++ part ∷ [])

unfoldable pub normalize_parts : List String → List String → Option (List String)
normalize_parts done [] = some done
normalize_parts done (part ∷ parts) = elim (add_part done part) [
  | none ↦ none
  | some next ↦ normalize_parts next parts
]

-- The loop that drops leading `./` is not written, since parts that are `.` are skipped.
unfoldable pub normalize_repo_relative_path : Texts → String → Option String
unfolding normalize_parts
normalize_repo_relative_path t raw =
    if str_eq (t.trim raw) "" || t.is_absolute (t.clean raw)
    then none
    else elim (normalize_parts [] (t.split_path (t.clean raw))) [
      | none ↦ none
      | some [] ↦ none
      | some (x ∷ xs) ↦ some (join "/" (x ∷ xs))
    ]

-- `path === directory || path.startsWith(directory + '/')`.
abbrev pub is_under : Texts → String → String → Bool
is_under t path directory = str_eq path directory || t.starts_with path (directory <> "/")

-- `descriptorMap.get(name)`.
unfoldable pub find_package :
    String → List WorkspacePackageDescriptor → Option WorkspacePackageDescriptor
find_package name [] = none
find_package name (d ∷ ds) = if str_eq d.name name then some d else find_package name ds
