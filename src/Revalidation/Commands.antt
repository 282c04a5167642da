-- ===== src/Revalidation/Commands.antt =====
-- The commands of a validation, and how they are narrowed to packages:
-- packages/application/src/revalidation-plan.ts.
use automation.Prelude.{
  non_empty, String, str_eq, Bool, false, ◌&&◌, ◌||◌, Option, none, some, List, [], ◌∷◌, ◌++◌,
  if◌then◌else◌, Result, ok, err,
}
use Prim.Native.String.{◌++◌ as ◌<>◌}
use automation.Revalidation.{
  WorkspacePackageDescriptor, FullValidationReason, unknown_command, ValidationCommand, line, words,
  Texts, join, is_under, find_package, normalize_repo_relative_path,
}

pub data CommandSemanticRole : Type 0 where
  build lint typecheck test bash_test boundaries : CommandSemanticRole
  scoped : List String → CommandSemanticRole

abbrev pub trim_all : Texts → List String → List String
trim_all t [] = []
trim_all t (x ∷ xs) = t.trim x ∷ trim_all t xs

abbrev pub tokens : Texts → ValidationCommand → List String
tokens t (line text) = non_empty (t.split_words (t.trim text))
tokens t (words ws) = non_empty (trim_all t ws)

unfoldable pub normalize_command_string : Texts → ValidationCommand → String
normalize_command_string t cmd = join " " (tokens t cmd)

-- `normalizedCommandScopes`: the entries of `commandScopes`, of which the last of a key holds.
abbrev pub Scopes : Type 0
Scopes = List (String × List String)

abbrev pub scope_of : Texts → Scopes → String → Option (List String)
scope_of t [] key = none
scope_of t ((k, scopes) ∷ rest) key = elim (scope_of t rest key) [
  | some later ↦ some later
  | none ↦ if str_eq (normalize_command_string t (line k)) key then some scopes else none
]

-- The four words that name a role by themselves.
abbrev pub simple_role : String → Option CommandSemanticRole
simple_role word =
    if str_eq word "build"
    then some build
    else if str_eq word "lint"
    then some lint
    else if str_eq word "typecheck"
    then some typecheck
    else if str_eq word "test"
    then some test
    else none

-- The tests on the first two words after `pnpm`, in the absence of which `sub[1]` is `undefined`.
abbrev pub special_role : String → String → Option CommandSemanticRole
special_role t0 t1 =
    if str_eq t0 "test:bash" || (str_eq t0 "run" && str_eq t1 "test:bash")
    then some bash_test
    else if str_eq t0 "boundaries" || (str_eq t0 "run" && str_eq t1 "boundaries")
    then some boundaries
    else if str_eq t0 "exec" && str_eq t1 "eslint"
    then some lint
    else none

abbrev pub or_special : String → String → Option CommandSemanticRole → Option CommandSemanticRole
or_special t0 t1 none = special_role t0 t1
or_special t0 t1 (some role) = some role

abbrev pub pnpm_role : List String → Option CommandSemanticRole
pnpm_role [] = none
pnpm_role (t0 ∷ []) = or_special t0 "" (simple_role t0)
pnpm_role (t0 ∷ t1 ∷ []) =
    or_special t0 t1 (if str_eq t0 "-r" || str_eq t0 "run" then simple_role t1 else none)
pnpm_role (t0 ∷ t1 ∷ t2 ∷ ts) = special_role t0 t1

abbrev pub role_of_tokens : List String → Option CommandSemanticRole
role_of_tokens [] = none
role_of_tokens (t ∷ ts) = if str_eq t "pnpm" then pnpm_role ts else none

unfoldable pub classify_command : Texts → Scopes → ValidationCommand → Option CommandSemanticRole
unfolding normalize_command_string
classify_command t scopes cmd = elim (scope_of t scopes (normalize_command_string t cmd)) [
  | some given ↦ some (scoped given)
  | none ↦ role_of_tokens (tokens t cmd)
]

abbrev in_package : Texts → String → Option WorkspacePackageDescriptor → Bool
in_package t path none = false
in_package t path (some d) = is_under t path d.directory

abbrev in_scope_path : Texts → String → Option String → Bool
in_scope_path t path none = false
in_scope_path t path (some scope) = is_under t path scope || t.starts_with scope (path <> "/")

unfoldable pub is_path_in_scope : Texts → List WorkspacePackageDescriptor → String → String → Bool
unfolding find_package normalize_repo_relative_path
is_path_in_scope t ds path scope =
    in_package t path (find_package scope ds)
    || in_scope_path t path (normalize_repo_relative_path t scope)

abbrev some_path_in_scope : Texts → List WorkspacePackageDescriptor → List String → String → Bool
some_path_in_scope t ds [] scope = false
some_path_in_scope t ds (raw ∷ paths) scope =
    elim (normalize_repo_relative_path t raw) [
      | none ↦ false
      | some path ↦ is_path_in_scope t ds path scope
    ]
    || some_path_in_scope t ds paths scope

abbrev pub some_scope_touched :
    Texts → List WorkspacePackageDescriptor → List String → List String → Bool
some_scope_touched t ds paths [] = false
some_scope_touched t ds paths (scope ∷ scopes) =
    some_path_in_scope t ds paths scope || some_scope_touched t ds paths scopes

-- The directories of the packages that are found.
abbrev pub closure_dirs : List WorkspacePackageDescriptor → List String → List String
closure_dirs ds [] = []
closure_dirs ds (name ∷ names) = elim (find_package name ds) [
  | none ↦ closure_dirs ds names
  | some d ↦
      if str_eq d.directory "" then closure_dirs ds names else d.directory ∷ closure_dirs ds names
]

-- What the rewriting of a command reads: the changed package, the narrowed ones, all packages,
-- whether one of the narrowed ones has Bats tests, and the changed paths.
pub record Narrowing : Type 0 where
  pub seed : String
  pub narrowed : List String
  pub packages : List WorkspacePackageDescriptor
  pub has_bats : Bool
  pub changed_paths : List String

abbrev pub filter_of : Narrowing → String
filter_of n = elim n.narrowed [
  | [] ↦ "..." <> n.seed
  | x ∷ xs ↦ elim xs [
    | [] ↦ if str_eq x n.seed then n.seed else "..." <> n.seed
    | y ∷ ys ↦ "..." <> n.seed
  ]
]

-- A command in the form, text or words, of another.
abbrev pub like : ValidationCommand → List String → ValidationCommand
like (line text) ws = line (join " " ws)
like (words old) ws = words ws

-- As text, the directories are joined even where there are none.
abbrev pub lint_command : ValidationCommand → List String → ValidationCommand
lint_command (line text) dirs = line ("pnpm exec eslint " <> join " " dirs <> " --max-warnings=0")
lint_command (words old) dirs =
    words ("pnpm" ∷ "exec" ∷ "eslint" ∷ (dirs ++ "--max-warnings=0" ∷ []))

abbrev pub filtered : ValidationCommand → Narrowing → String → Option ValidationCommand
filtered cmd n task = some (like cmd ("pnpm" ∷ "--filter" ∷ filter_of n ∷ task ∷ []))

unfoldable pub rewrite_command :
    Texts → Narrowing → ValidationCommand → CommandSemanticRole → Option ValidationCommand
unfolding is_path_in_scope normalize_repo_relative_path find_package
rewrite_command t n cmd build = filtered cmd n "build"
rewrite_command t n cmd typecheck = filtered cmd n "typecheck"
rewrite_command t n cmd test = filtered cmd n "test"
rewrite_command t n cmd lint = some (lint_command cmd (closure_dirs n.packages n.narrowed))
rewrite_command t n cmd bash_test =
    if n.has_bats then some (like cmd ("pnpm" ∷ "test:bash" ∷ [])) else none
rewrite_command t n cmd boundaries = some cmd
rewrite_command t n cmd (scoped scopes) =
    if some_scope_touched t n.packages n.changed_paths scopes then some cmd else none

-- The commands that are left; the first that has no role ends the narrowing.
unfoldable pub rewrite_commands :
    Texts
    → Scopes
    → Narrowing
    → List ValidationCommand
    → Result FullValidationReason (List ValidationCommand)
unfolding classify_command rewrite_command
rewrite_commands t scopes n [] = ok []
rewrite_commands t scopes n (cmd ∷ cmds) = elim (classify_command t scopes cmd) [
  | none ↦ err unknown_command
  | some role ↦ elim (rewrite_commands t scopes n cmds) [
    | err e ↦ err e
    | ok rest ↦ elim (rewrite_command t n cmd role) [ none ↦ ok rest | some c ↦ ok (c ∷ rest) ]
  ]
]
