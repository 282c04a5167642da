-- ===== src/JobQueue/Order.antt =====
-- The order of the queue: packages/infrastructure/src/sqlite/job-queue-repository.ts.
use automation.Prelude.{
  ◌≡◌, String, str_eq, Bool, true, false, ◌&&◌, ◌||◌, none, some, List, [], ◌∷◌, arith, find?, All,
  Bool-cases, inl, inr, ◌⊎◌, All-map, eq_iff,
}
use automation.Job.{Job, is_queued}
use automation.JobQueue.{is_before, insert_row, order_rows, queued_rows}

-- What SQLite's comparison of texts is: total and transitive.
pub record IsTextOrder (text_le : String → String → Bool) : Type 0 where
  pub total : (x y : String) → text_le x y || text_le y x ≡ true
  pub transitive : (x y z : String) → text_le x y ≡ true → text_le y z ≡ true → text_le x z ≡ true

module _ (text_le : String → String → Bool) (o : IsTextOrder text_le) where
  pub is_before_total :
      (j k : Job) → (is_before text_le j k ≡ true) ⊎ (is_before text_le k j ≡ true)
  is_before_total j k = ground (arith, o.total j.id k.id)

  pub is_before_transitive :
      (i j k : Job)
      → is_before text_le i j ≡ true
      → is_before text_le j k ≡ true
      → is_before text_le i k ≡ true
  is_before_transitive i j k a b = ground (arith, o.transitive i.id j.id k.id)

  abbrev pub Ordered : List Job → Type 0
  Ordered [] = Unit
  Ordered (j ∷ js) = All (λ k. is_before text_le j k ≡ true) js × Ordered js

module _ (text_le : String → String → Bool) (P : Job → Type 0) where
  pub All-insert_row : (j : Job) (js : List Job) → P j → All P js → All P (insert_row text_le j js)
  unfolding insert_row
  All-insert_row j [] p ps = (p, tt)
  All-insert_row j (k ∷ ks) p ps = elim (Bool-cases (is_before text_le j k)) [
    | inl first ↦ rw first (p, ps)
    | inr after ↦ rw after (ps.0, All-insert_row j ks p ps.1)
  ]

  pub insert_row-All : (j : Job) (js : List Job) → All P (insert_row text_le j js) → P j × All P js
  unfolding insert_row
  insert_row-All j [] ps = ps
  insert_row-All j (k ∷ ks) ps = elim (Bool-cases (is_before text_le j k)) [
    | inl first ↦ rw first at ps
    | inr after ↦
        let (pk, rest) = (rw after at ps) in
        let (pj, pks) = insert_row-All j ks rest in (pj, (pk, pks))
  ]

  pub order_rows-All : (js : List Job) → All P (order_rows text_le js) → All P js
  unfolding order_rows
  order_rows-All [] ps = tt
  order_rows-All (j ∷ js) ps =
      let (p, rest) = insert_row-All j (order_rows text_le js) ps in (p, order_rows-All js rest)

  -- The rows that `WHERE` selects have the predicate, so that a row has it or is not selected.
  pub queued_rows-All :
      (repo : String) (js : List Job)
      → All P (queued_rows repo js)
      → All (λ j. (is_queued j.status && str_eq j.repo_id repo ≡ false) ⊎ P j) js
  unfolding queued_rows
  queued_rows-All repo [] ps = tt
  queued_rows-All repo (j ∷ js) ps =
      elim (Bool-cases (is_queued j.status && str_eq j.repo_id repo)) [
        | inl selected ↦
            let (p, rest) = (rw selected at ps) in (inr p, queued_rows-All repo js rest)
        | inr left_out ↦ (inl left_out, queued_rows-All repo js (rw left_out at ps))
      ]

module _ (text_le : String → String → Bool) (P : Job → Type 0) where
  pub All-order_rows : (js : List Job) → All P js → All P (order_rows text_le js)
  unfolding order_rows
  All-order_rows [] ps = tt
  All-order_rows (j ∷ js) ps =
      All-insert_row text_le P j (order_rows text_le js) ps.0 (All-order_rows js ps.1)

  -- The rows that `WHERE` selects keep a predicate of all, and satisfy the condition.
  pub All-queued_rows :
      (repo : String) (js : List Job)
      → All P js
      → All (λ j. P j × (is_queued j.status ≡ true) × (j.repo_id ≡ repo)) (queued_rows repo js)
  unfolding queued_rows
  All-queued_rows repo [] ps = tt
  All-queued_rows repo (j ∷ js) ps =
      elim (Bool-cases (is_queued j.status && str_eq j.repo_id repo)) [
        | inl selected ↦ rw selected (
          (ps.0, ground arith, ground (arith, eq_iff j.repo_id repo)),
          All-queued_rows repo js ps.1,
        )
        | inr left_out ↦ rw left_out (All-queued_rows repo js ps.1)
      ]

  pub find?-found :
      (test : Job → Bool) (js : List Job) (c : Job)
      → All P js
      → find? test js ≡ some c
      → P c × (test c ≡ true)
  find?-found test [] c ps e = ground (arith, e)
  find?-found test (j ∷ js) c ps e = elim (Bool-cases (test j)) [
    | inl found ↦ let same : j ≡ c = ground (arith, e, found) in (rw same at ps.0, rw same at found)
    | inr passed_over ↦ find?-found test js c ps.1 (rw passed_over at e)
  ]

module _ (text_le : String → String → Bool) (o : IsTextOrder text_le) where
  insert_row-Ordered :
      (j : Job) (js : List Job) → Ordered text_le o js → Ordered text_le o (insert_row text_le j js)
  unfolding insert_row
  insert_row-Ordered j [] s = (tt, tt)
  insert_row-Ordered j (k ∷ ks) (least, s) = elim (Bool-cases (is_before text_le j k)) [
    | inl first ↦ rw first (
      (
        first,
        All-map (λ x. is_before text_le k x ≡ true) (λ x. is_before text_le j x ≡ true)
            (λ x kx. is_before_transitive text_le o j k x first kx) ks least,
      ),
      (least, s),
    )
    | inr after ↦
        let earlier : is_before text_le k j ≡ true = elim (is_before_total text_le o j k) [
          | inl jk ↦ ground (arith, jk, after)
          | inr kj ↦ kj
        ] in
        rw after (
          All-insert_row text_le (λ x. is_before text_le k x ≡ true) j ks earlier least,
          insert_row-Ordered j ks s,
        )
  ]

  pub order_rows-Ordered : (js : List Job) → Ordered text_le o (order_rows text_le js)
  unfolding order_rows
  order_rows-Ordered [] = tt
  order_rows-Ordered (j ∷ js) = insert_row-Ordered j (order_rows text_le js) (order_rows-Ordered js)

  -- The first row that passes a test is before all others that pass it.
  pub find?-least :
      (test : Job → Bool) (js : List Job) (c : Job)
      → Ordered text_le o js
      → find? test js ≡ some c
      → All (λ k. (test k ≡ false) ⊎ (is_before text_le c k ≡ true)) js
  find?-least test [] c s e = tt
  find?-least test (j ∷ js) c (least, s) e = elim (Bool-cases (test j)) [
    | inl found ↦
        let same : j ≡ c = ground (arith, e, found) in
        let itself : is_before text_le j j ≡ true = elim (is_before_total text_le o j j) [
          | inl jj ↦ jj
          | inr jj ↦ jj
        ] in
        (
          inr (rw (← same) itself),
          All-map (λ k. is_before text_le j k ≡ true)
              (λ k. (test k ≡ false) ⊎ (is_before text_le c k ≡ true)) (λ k jk. inr (rw same at jk))
              js least,
        )
    | inr passed_over ↦ (inl passed_over, find?-least test js c s (rw passed_over at e))
  ]

pub find?-none :
    (test : Job → Bool) (js : List Job) → find? test js ≡ none → All (λ k. test k ≡ false) js
find?-none test [] e = tt
find?-none test (j ∷ js) e = elim (Bool-cases (test j)) [
  | inl found ↦ ground (arith, e, found)
  | inr passed_over ↦ (passed_over, find?-none test js (rw passed_over at e))
]
