-- ===== src/Loop/Bounds.antt =====
-- The bound on the iterations of a loop, and how they are numbered: packages/domain/src/loop.ts.
use automation.Prelude.{
  ℕ, suc, ◌+◌, ◌≤◌, ◌<◌, ◌≡◌, ◌≢◌, refl, String, Bool, true, false, none, some, List, [], ◌∷◌, ◌++◌,
  Result, ok, err, Result-cases, arith, length, length-append, inl, inr, Option-cases, ◌↔◌, or_else,
  ap, ◌∙◌,
}
use automation.Loop.{
  Loop, LoopIteration, LoopStatus, LoopStateError, CreateLoopInput, StartInput, a_review, a_fix,
  CompleteInput, new_iteration, create_loop, start_iteration, complete_iteration,
  update_open_iteration, exhaust, open_of, replace_last, open_iteration, can_iterate, status_after,
  exhausted,
}

pub data LoopOp : Type 0 where
  start : StartInput → LoopOp
  complete : CompleteInput → LoopOp
  update : String → LoopOp
  give_up : ℕ → LoopOp

unfoldable pub apply : LoopOp → Loop → Result LoopStateError Loop
unfolding start_iteration complete_iteration update_open_iteration exhaust
apply (start input) loop = start_iteration loop input
apply (complete input) loop = complete_iteration loop input
apply (update id) loop = update_open_iteration loop id
apply (give_up now) loop = exhaust loop now

abbrev pub keep : Loop → Result LoopStateError Loop → Loop
keep old (ok new) = new
keep old (err e) = old

unfoldable pub apply_all : List LoopOp → Loop → Loop
apply_all [] loop = loop
apply_all (op ∷ ops) loop = apply_all ops (keep loop (apply op loop))

-- Every iteration but the last is completed, and they are numbered from `n`.
abbrev pub Numbered : ℕ → List LoopIteration → Type 0
Numbered n [] = Unit
Numbered n (x ∷ []) = x.index ≡ n
Numbered n (x ∷ y ∷ xs) = (x.index ≡ n) × (x.completed_at ≢ none) × Numbered (suc n) (y ∷ xs)

pub record LoopInv (l : Loop) : Type 0 where
  pub bounded : length l.iterations ≤ l.max_iterations
  pub numbered : Numbered 1 l.iterations

Numbered-append :
    (n : ℕ) (xs : List LoopIteration) (x : LoopIteration)
    → Numbered n xs
    → open_of xs ≡ none
    → x.index ≡ n + length xs
    → Numbered n (xs ++ x ∷ [])
Numbered-append n [] x h o e = omega arith
Numbered-append n (y ∷ []) x h o e = (h, ground arith, omega arith)
Numbered-append n (y ∷ z ∷ xs) x h o e =
    (h.0, h.1, Numbered-append (suc n) (z ∷ xs) x h.2 o (omega arith))

Numbered-replace_last :
    (n : ℕ) (xs : List LoopIteration) (x u : LoopIteration)
    → Numbered n xs
    → open_of xs ≡ some x
    → u.index ≡ x.index
    → Numbered n (replace_last xs u)
Numbered-replace_last n [] x u h o e = cc
Numbered-replace_last n (y ∷ []) x u h o e = ground arith
Numbered-replace_last n (y ∷ z ∷ []) x u h o e = (h.0, h.1, ground arith)
Numbered-replace_last n (y ∷ z ∷ w ∷ xs) x u h o e =
    (h.0, h.1, Numbered-replace_last (suc n) (z ∷ w ∷ xs) x u h.2 o e)

pub length-replace_last :
    (xs : List LoopIteration) (x u : LoopIteration)
    → open_of xs ≡ some x
    → length (replace_last xs u) ≡ length xs
length-replace_last [] x u o = cc
length-replace_last (y ∷ []) x u o = refl
length-replace_last (y ∷ z ∷ xs) x u o = omega (arith, length-replace_last (z ∷ xs) x u o)

-- A new loop has no iteration, and a bound of at least one.
pub create_loop-LoopInv :
    (input : CreateLoopInput) (l : Loop)
    → create_loop input ≡ ok l
    → LoopInv l × (1 ≤ l.max_iterations)
unfolding create_loop
create_loop-LoopInv input l h = ground arith

start_index : (n : ℕ) (input : StartInput) → (new_iteration (n + 1) input).index ≡ 1 + n
start_index n (a_review id now) = omega arith
start_index n (a_fix id now) = omega arith

replaced-LoopInv :
    (l l' : Loop) (x u : LoopIteration)
    → LoopInv l
    → open_of l.iterations ≡ some x
    → u.index ≡ x.index
    → l'.iterations ≡ replace_last l.iterations u
    → l'.max_iterations ≡ l.max_iterations
    → LoopInv l' × (l'.max_iterations ≡ l.max_iterations)
replaced-LoopInv l l' x u i o e its same = (
  record {
    bounded = omega (arith, ap length its, length-replace_last l.iterations x u o);
    numbered = rw its (Numbered-replace_last 1 l.iterations x u i.numbered o e);
  },
  same,
)

-- Every accepted operation keeps the invariant: at most `maxIterations` iterations, numbered 1, 2
-- and so on, of which all but the last are completed. The bound itself is never changed.
pub apply-LoopInv :
    (op : LoopOp) (l l' : Loop)
    → LoopInv l
    → apply op l ≡ ok l'
    → LoopInv l' × (l'.max_iterations ≡ l.max_iterations)
unfolding apply
apply-LoopInv (start input) l l' i h =
    let x : LoopIteration = new_iteration (length l.iterations + 1) input in
    let closed : open_of l.iterations ≡ none = ground arith in
    let room : length l.iterations < l.max_iterations = ground arith in
    let e : l' ≡ record l { iterations = l.iterations ++ x ∷ [] } = ground arith in
    let bound : length (l.iterations ++ x ∷ []) ≤ l.max_iterations =
      omega (arith, length-append l.iterations (x ∷ [])) in
    let at_end : x.index ≡ 1 + length l.iterations = start_index (length l.iterations) input in
    rw e (
      record {
        bounded = bound;
        numbered = Numbered-append 1 l.iterations x i.numbered closed at_end;
      },
      refl,
    )
apply-LoopInv (complete input) l l' i h = elim (Option-cases (open_of l.iterations)) [
  | inl closed ↦ ground arith
  | inr (x, last) ↦
      let u : LoopIteration = record x {
        outcome = some input.outcome;
        completed_at = some input.now;
        fix_invocation_id = or_else input.fix_invocation_id x.fix_invocation_id;
        revalidation_id = or_else input.revalidation_id x.revalidation_id;
      } in
      replaced-LoopInv l l' x u i last refl (ground arith) (ground arith)
]
apply-LoopInv (update id) l l' i h = elim (Option-cases (open_of l.iterations)) [
  | inl closed ↦ ground arith
  | inr (x, last) ↦
      let u : LoopIteration = record x { quality_review_invocation_id = some id } in
      replaced-LoopInv l l' x u i last refl (ground arith) (ground arith)
]
apply-LoopInv (give_up now) l l' i h = ground arith

keep-LoopInv :
    (op : LoopOp) (l : Loop)
    → LoopInv l
    → LoopInv (keep l (apply op l)) × ((keep l (apply op l)).max_iterations ≡ l.max_iterations)
keep-LoopInv op l i = elim (Result-cases (apply op l)) [
  | inl (l', h) ↦ rw h (apply-LoopInv op l l' i h)
  | inr (e, h) ↦ rw h (i, refl)
]

-- Whatever operations are tried on a loop, in any order, it never holds more iterations than the
-- bound that it was created with, and they stay numbered 1, 2 and so on.
pub apply_all-LoopInv :
    (ops : List LoopOp) (l : Loop)
    → LoopInv l
    → LoopInv (apply_all ops l) × ((apply_all ops l).max_iterations ≡ l.max_iterations)
unfolding apply_all
apply_all-LoopInv [] l i = (i, refl)
apply_all-LoopInv (op ∷ ops) l i =
    let (j, same) = keep-LoopInv op l i in
    let (k, still) = apply_all-LoopInv ops (keep l (apply op l)) j in (k, still ∙ same)

abbrev pub is_ok : Result LoopStateError Loop → Bool
is_ok (ok l) = true
is_ok (err e) = false

-- `startIteration` is accepted exactly when `canIterate` says so and no iteration is open.
pub start_iteration-can_iterate :
    (l : Loop) (input : StartInput)
    → (is_ok (start_iteration l input) ≡ true)
      ↔ ((can_iterate l ≡ true) × (open_iteration l ≡ none))
unfolding start_iteration can_iterate
start_iteration-can_iterate l input = ground arith

-- An exhausted loop with an iteration still open is set running again by completing that iteration
-- with an outcome other than `resolved` and `failed`, and keeps the end that `exhaust` wrote.
pub exhausted_revived :
    (l l' : Loop) (input : CompleteInput) (now : ℕ) (x : LoopIteration)
    → exhaust l now ≡ ok l'
    → open_iteration l ≡ some x
    → status_after input.outcome ≡ LoopStatus.running
    → (r : Loop) × (complete_iteration l' input ≡ ok r)
      × (l'.status ≡ exhausted)
      × (r.status ≡ LoopStatus.running)
      × (r.completed_at ≡ some now)
unfolding exhaust complete_iteration
exhausted_revived l l' input now x h o s =
    let u : LoopIteration = record x {
      outcome = some input.outcome;
      completed_at = some input.now;
      fix_invocation_id = or_else input.fix_invocation_id x.fix_invocation_id;
      revalidation_id = or_else input.revalidation_id x.revalidation_id;
    } in
    (
      record l {
        iterations = replace_last l.iterations u;
        status = LoopStatus.running;
        completed_at = some now;
      },
      ground arith,
      ground arith,
      refl,
      refl,
    )
