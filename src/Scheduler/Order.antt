-- ===== src/Scheduler/Order.antt =====
-- The order in which `scheduleOnce` visits the repositories: packages/application/src/fair-repository-scheduler.ts.
use automation.Prelude.{
  ℕ, suc, ◌+◌, ◌<◌, ◌≡◌, refl, sym, ap, ◌∙◌, String, str_eq, eq_iff, Bool, false, some, List, [],
  ◌∷◌, ◌++◌, arith, length, length-append, includes,
}
use native.Mathlib.Nat.{mod-eq_of_lt, add-mod_left, mod_self}
use Prim.Native.Nat.{◌%◌}
use mathlib.Core.List.{append_assoc, append-nil}
use automation.Scheduler.{
  Scheduler, Inspection, schedule_once, find_index, find_start_index, element, visits_from, visits,
}
use automation.Scheduler.Cursor.{schedule_once-cursor}

element-append : (xs ys : List String) (y : String) → element (xs ++ (y ∷ ys)) (length xs) ≡ some y
unfolding element
element-append [] ys y = refl
element-append (x ∷ xs) ys y = element-append xs ys y

visits_from_step :
    (all : List String) (start i left : ℕ) (z : String)
    → element all ((start + i) % length all) ≡ some z
    → visits_from all start i (suc left) ≡ z ∷ visits_from all start (suc i) left
unfolding visits_from
visits_from_step all start i left z e = rw (visits_from, e) refl

-- The visits walk along a stretch of the list, whether or not the index has wrapped around.
visits_along :
    (all pre zs post : List String) (base start i k : ℕ)
    → all ≡ pre ++ (zs ++ post)
    → ((at : ℕ) → at < length all → (base + at) % length all ≡ at)
    → start + i ≡ base + length pre
    → visits_from all start i (length zs + k) ≡ zs ++ visits_from all start (i + length zs) k
visits_along all pre [] post base start i k e wraps position =
    let no_more : 0 + k ≡ k = omega arith in
    let still : i + 0 ≡ i = omega arith in rw (no_more, still) refl
visits_along all pre (z ∷ zs) post base start i k e wraps position =
    let inside : length pre < length all =
      omega (arith, ap length e, length-append pre (z ∷ (zs ++ post))) in
    let found : element all ((start + i) % length all) ≡ some z =
      rw (position, wraps (length pre) inside, e) (element-append pre (zs ++ post) z) in
    let further : all ≡ (pre ++ (z ∷ [])) ++ (zs ++ post) =
      e ∙ sym (append_assoc pre (z ∷ []) (zs ++ post)) in
    let rest =
      visits_along all (pre ++ (z ∷ [])) zs post base start (suc i) k further wraps
        (omega (arith, position, length-append pre (z ∷ []))) in
    let one_more : suc (length zs) + k ≡ suc (length zs + k) = omega arith in
    let moved : i + suc (length zs) ≡ suc i + length zs = omega arith in
    rw (one_more, moved, visits_from_step all start i (length zs + k) z found, rest) refl

plus_zero : (n : ℕ) → 0 + n ≡ n
plus_zero n = omega arith

-- The visits from an index are the rotation of the list that starts there.
visits-rotation : (all xs ys : List String) → all ≡ xs ++ ys → visits all (length xs) ≡ ys ++ xs
unfolding visits visits_from
visits-rotation all xs ys e =
    let n : length all ≡ length ys + length xs = omega (arith, ap length e, length-append xs ys) in
    let plain : all ≡ xs ++ (ys ++ []) = e ∙ ap (λ zs. xs ++ zs) (sym (append-nil ys)) in
    let small : (at : ℕ) → at < length all → (0 + at) % length all ≡ at =
      λ at inside. ap (λ k. k % length all) (plus_zero at) ∙ mod-eq_of_lt inside in
    let wrapped : (at : ℕ) → at < length all → (length all + at) % length all ≡ at =
      λ at inside. add-mod_left (length all) at ∙ mod-eq_of_lt inside in
    let same_place : length xs + 0 ≡ length xs = omega arith in
    let first = visits_along all xs ys [] 0 (length xs) 0 (length xs) plain small (omega arith) in
    let second =
      visits_along all [] xs ys (length all) (length xs) (0 + length ys) 0 e wrapped
        (omega (arith, n)) in
    rw (n, first) (ap (λ zs. ys ++ zs) (rw same_place at second ∙ append-nil xs))

find_index-append :
    (xs ys : List String) (c : String)
    → includes xs c ≡ false
    → find_index (λ id. str_eq id c) (xs ++ (c ∷ ys)) ≡ some (length xs)
unfolding find_index
find_index-append [] ys c absent = rw ((eq_iff c c).1 refl) refl
find_index-append (x ∷ xs) ys c absent =
    let other : str_eq x c ≡ false = ground arith in
    let later : includes xs c ≡ false = ground arith in
    rw (other, find_index-append xs ys c later) refl

start-after :
    (gt : String → String → Bool) (xs ys : List String) (c : String)
    → includes xs c ≡ false
    → find_start_index gt (some c) (xs ++ (c ∷ ys)) ≡ (length xs + 1) % length (xs ++ (c ∷ ys))
unfolding find_start_index
start-after gt xs ys c absent = rw (find_start_index, find_index-append xs ys c absent) refl

-- With the cursor at a repository the visits come to it after all others.
visits-after :
    (gt : String → String → Bool) (xs ys : List String) (c : String)
    → includes xs c ≡ false
    → visits (xs ++ (c ∷ ys)) (find_start_index gt (some c) (xs ++ (c ∷ ys)))
      ≡ (ys ++ xs) ++ (c ∷ [])
visits-after gt xs [] c absent =
    let all = xs ++ (c ∷ []) in
    let n : length xs + 1 ≡ length all = omega (arith, length-append xs (c ∷ [])) in
    rw (start-after gt xs [] c absent, n, mod_self (length all))
      (visits-rotation all [] all refl ∙ append-nil all)
visits-after gt xs (y ∷ ys) c absent =
    let all = xs ++ (c ∷ (y ∷ ys)) in
    let n : length all ≡ suc (suc (length xs + length ys)) =
      omega (arith, length-append xs (c ∷ (y ∷ ys))) in
    let inside : length xs + 1 < length all = omega (arith, n) in
    let place : length xs + 1 ≡ length (xs ++ (c ∷ [])) =
      omega (arith, length-append xs (c ∷ [])) in
    rw (start-after gt xs (y ∷ ys) c absent, mod-eq_of_lt inside, place)
      (visits-rotation all (xs ++ (c ∷ [])) (y ∷ ys) (sym (append_assoc xs (c ∷ []) (y ∷ ys)))
        ∙ sym (append_assoc (y ∷ ys) xs (c ∷ [])))

-- When a call at whose `await`s nothing happens admits some repositories, the next one, if the last of
-- them is enabled still, visits it after all others: from the one that follows it in the order of the
-- ids to the end, then from the start. So whatever else has changed in between in the enabled ones.
pub last_admitted_last :
    (gt : String → String → Bool) (limit : ℕ) (factory : String → ℕ → String)
    (inspect : String → Inspection) (sorted : List String) (s : Scheduler) (earlier : List String)
    (c : String) (xs ys : List String)
    → (schedule_once gt limit factory inspect sorted s).1 ≡ earlier ++ (c ∷ [])
    → includes xs c ≡ false
    → visits (xs ++ (c ∷ ys)) (
        find_start_index gt
          (schedule_once gt limit factory inspect sorted s).0.cursor_id
          (xs ++ (c ∷ ys)))
      ≡ (ys ++ xs) ++ (c ∷ [])
last_admitted_last gt limit factory inspect sorted s earlier c xs ys e absent =
    ap (λ cursor. visits (xs ++ (c ∷ ys)) (find_start_index gt cursor (xs ++ (c ∷ ys))))
      (schedule_once-cursor gt limit factory inspect sorted s earlier c e)
    ∙ visits-after gt xs ys c absent
