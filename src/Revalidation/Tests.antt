-- ===== src/Revalidation/Tests.antt =====
-- Three packages in a row, and the theorems on a plan there. A path is one part.
use automation.Prelude.{
  ◌≡◌, ◌≢◌, ◌↔◌, ◌⊎◌, refl, arith, eq_iff, All, Memᴰ, Bool, String, true, false, none, some, List,
  [], ◌∷◌, leb, includes, ok,
}
use Prim.Native.String.{count}
use automation.Revalidation.{
  WorkspacePackageDescriptor, Texts, line, normalize_parts, normalize_repo_relative_path,
  find_package, first_iteration,
}
use automation.Revalidation.Graph.{
  closure, direct_dependents, add_new, search_dependents, is_cyclic, count_visited, lower,
}
use automation.Revalidation.Commands.{
  normalize_command_string, classify_command, rewrite_command, rewrite_commands,
}
use automation.Revalidation.Plan.{
  PlanRevalidationInput, NarrowPlan, full, narrow, plan_revalidation, narrow_plan, seed_of,
  narrowed_of, validate_descriptors, by_depth, owner_of, match_packages, single_package, sort_names,
  release_ready, order_closure, rewrite_optional_tiers,
}
use automation.Revalidation.Packages.{Unique}
use automation.Revalidation.Visits.{is_cyclic-Acyclic}
use automation.Revalidation.Closure.{Dependent}
use automation.Revalidation.Found.{closure-Dependent}
use automation.Revalidation.Narrow.{Seeded, plan_revalidation-Seeded}

abbrev make : String → List String → WorkspacePackageDescriptor
make name deps = record {
  name = name;
  directory = name;
  workspace_dependencies = deps;
  has_bats = false;
}

abbrev packages : List WorkspacePackageDescriptor
packages = make "core" [] ∷ make "cli" ("app" ∷ []) ∷ make "app" ("core" ∷ []) ∷ []

abbrev texts : Texts
texts = record {
  is_safe_name = λ x. true;
  is_safe_directory = λ x. true;
  trim = λ x. x;
  clean = λ x. x;
  is_absolute = λ x. false;
  split_path = λ x. x ∷ [];
  split_words = λ x. "pnpm" ∷ x ∷ [];
  starts_with = λ x y. false;
  text_length = count;
  locale_le = λ x y. leb (count x) (count y);
}

abbrev input : PlanRevalidationInput
input = record {
  changed_paths = "app" ∷ "app" ∷ [];
  iteration_index = 2;
  has_step_baseline = true;
  is_pr_ready = false;
  descriptors = packages;
  commands = line "test" ∷ [];
  tiers = none;
  command_scopes = [];
}

abbrev plan : NarrowPlan
plan = record {
  changed_package = "app";
  narrowed_packages = "app" ∷ "cli" ∷ [];
  commands = line "pnpm --filter ...app test" ∷ [];
  tiers = none;
}

app_changed : plan_revalidation texts input ≡ narrow plan
unfolding plan_revalidation narrow_plan seed_of narrowed_of validate_descriptors by_depth owner_of
    match_packages single_package sort_names release_ready order_closure rewrite_optional_tiers
    normalize_parts normalize_repo_relative_path find_package closure direct_dependents add_new
    search_dependents is_cyclic count_visited lower normalize_command_string classify_command
    rewrite_command rewrite_commands
app_changed = refl

first_is_full :
    plan_revalidation texts (record input { iteration_index = 1 })
    ≡ full first_iteration input.commands none
unfolding plan_revalidation narrow_plan seed_of
first_is_full = refl

plan_revalidation-Seeded_example :
    (ds : List WorkspacePackageDescriptor) × Seeded texts input ds "app"
    × (narrowed_of texts ds "app" ≡ ok ("app" ∷ "cli" ∷ []))
    × (plan.commands ≢ [])
plan_revalidation-Seeded_example = plan_revalidation-Seeded texts input plan app_changed

closure-Dependent_example :
    (found : List String) × (closure packages "app" ≡ some found)
    × ((y : String) → (includes found y ≡ true) ↔ Dependent packages "app" y)
closure-Dependent_example = closure-Dependent packages "app"

packages-Unique : Unique packages
packages-Unique = (
  (
    (ground (arith, eq_iff "cli" "core"), ground (arith, eq_iff "cli" "core")),
    ((ground (arith, eq_iff "app" "core"), ground (arith, eq_iff "app" "core")), tt),
  ),
  (((ground (arith, eq_iff "app" "cli"), ground (arith, eq_iff "app" "cli")), tt), (tt, tt)),
)

abbrev changed : String → Bool
changed name = includes ("cli" ∷ "app" ∷ []) name

is_cyclic-Acyclic_example :
    All (λ d. changed d.name ≡ false) packages
    ⊎ ((d : WorkspacePackageDescriptor) × Memᴰ d packages
        × (changed d.name ≡ true)
        × All (λ dep. changed dep ≡ false) d.workspace_dependencies)
unfolding is_cyclic count_visited lower direct_dependents
is_cyclic-Acyclic_example = is_cyclic-Acyclic packages changed packages-Unique refl
