-- ===== src/ValidateFix/Boundary.antt =====
-- The check of the files that a fix changed against the manifest of the task:
-- packages/application/src/validate-fix/validate-fix-loop.ts.
use automation.Prelude.{
  distinct, String, str_eq, Option, none, some, List, [], ◌∷◌, ◌++◌, Result, ok, err, if◌then◌else◌,
}
use Prim.Native.String.{◌++◌ as ◌<>◌}
use automation.ValidateFix.{
  ValidateFixLoopInput, ValidateFixAgentResult, ManifestLoadResult, found, missing, malformed, Call,
  GitPort, ValidateFixLoopDeps, State, emit,
}

-- `files.join(', ')`.
abbrev join_more : List String → String
join_more [] = ""
join_more (x ∷ xs) = ", " <> x <> join_more xs

abbrev pub join : List String → String
join [] = ""
join (x ∷ xs) = x <> join_more xs

-- A failure of the check itself, with its event.
abbrev pub check_failed : {W : Type 0} → String → State W → State W × Option String
check_failed error s =
    (emit "task_boundary.check_failed" s, some ("task boundary check failed: " <> error))

-- The files against the manifest: the message, if the boundary is not kept.
unfoldable pub check_files :
    {W : Type 0}
    → ValidateFixLoopInput
    → ManifestLoadResult
    → List String
    → State W
    → State W × Option String
check_files input manifest [] s = (s, none)
check_files input missing (x ∷ xs) s = check_failed "task-manifest.json not found" s
check_files input (malformed message) (x ∷ xs) s = check_failed message s
check_files input (found writable violations) (x ∷ xs) s = elim (violations (x ∷ xs)) [
  | [] ↦ (s, none)
  | y ∷ ys ↦ (
    emit "task_boundary.violated" s,
    some (input.phase_id <> " modified undeclared files: " <> join (y ∷ ys)),
  )
]

-- The files that were committed since the fix began.
abbrev committed_files : {W : Type 0} → GitPort W → String → String → Call W (List String)
committed_files git before head w =
    if str_eq head before then (w, ok []) else git.changed_files before head w

-- After the committed files are known.
unfoldable pub check_status :
    {W : Type 0}
    → ValidateFixLoopDeps W
    → GitPort W
    → ValidateFixLoopInput
    → ManifestLoadResult
    → Result String (List String)
    → State W
    → State W × Option String
unfolding check_files
check_status d git input manifest (err message) s = check_failed message s
check_status d git input manifest (ok committed) s =
    let (w, output) = git.status s.world in
    let s' = record s { world = w } in
    elim output [
      | err message ↦ check_failed message s'
      | ok text ↦
          check_files input manifest (distinct [] (committed ++ d.uncommitted_source_paths text)) s'
    ]

unfoldable pub check_git :
    {W : Type 0}
    → ValidateFixLoopDeps W
    → GitPort W
    → ValidateFixLoopInput
    → ManifestLoadResult
    → String
    → State W
    → State W × Option String
unfolding check_status
check_git d git input manifest before s =
    let (w, head) = git.head_commit_sha s.world in
    elim head [
      | err message ↦ check_failed message (record s { world = w })
      | ok sha ↦
          let (w', committed) = committed_files git before sha w in
          check_status d git input manifest committed (record s { world = w' })
    ]

-- The message of a failure, if the fix is to be checked and the boundary is not kept.
unfoldable pub check_boundary :
    {W : Type 0}
    → ValidateFixLoopDeps W
    → ValidateFixLoopInput
    → ManifestLoadResult
    → ValidateFixAgentResult
    → State W
    → State W × Option String
unfolding check_git
check_boundary d input manifest fix s = elim (d.git) [
  | none ↦ (s, none)
  | some git ↦ elim fix.head_before_fix [
    | none ↦ (s, none)
    | some head ↦ if str_eq head "" then (s, none) else check_git d git input manifest head s
  ]
]
