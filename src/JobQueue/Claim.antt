-- ===== src/JobQueue/Claim.antt =====
-- What `claimNext` claims: packages/infrastructure/src/sqlite/job-queue-repository.ts.
use automation.Prelude.{
  ℕ, ◌+◌, ◌<◌, ◌≡◌, refl, ap, includes, Memᴰ, All-Memᴰ, String, str_eq, Bool, true, false, not,
  ◌&&◌, Option, none, some, List, [], ◌∷◌, arith, find?, All, Option-cases, inl, inr, ◌⊎◌, All-map,
  eq_iff, ok,
}
use automation.Job.{Job, is_queued, claim_job, queued, claimed, expiry}
use automation.JobQueue.{
  is_before, order_rows, queued_rows, ClaimNextInput, is_skipped, claim_tx, claim_next,
  is_out_of_scope, update_claimed, write_claim,
}
use automation.JobQueue.Order.{
  IsTextOrder, All-order_rows, All-queued_rows, find?-found, order_rows-Ordered, find?-least,
  find?-none, order_rows-All, queued_rows-All,
}

-- A job that a claim may take: it is queued, of the repository, and not to be skipped.
abbrev pub is_eligible : ClaimNextInput → Job → Bool
is_eligible input j =
    is_queued j.status && str_eq j.repo_id input.repo_id && not (is_skipped input j)

pub All-true : (js : List Job) → All {0, 0} (λ j. Unit {0}) js
All-true [] = tt
All-true (j ∷ js) = (tt, All-true js)

pub claim_job-queued :
    (job : Job) (worker token : String) (now : ℕ) (ttl : Option ℕ)
    → is_queued job.status ≡ true
    → (c : Job) × (claim_job job worker token now ttl ≡ ok c)
      × (c.id ≡ job.id)
      × (is_queued c.status ≡ false)
      × (c.claim_token ≡ some token)
unfolding claim_job
claim_job-queued job worker token now ttl q = rw q (_, refl, refl, refl, refl)

module _ (text_le : String → String → Bool) (scope : Option String) (input : ClaimNextInput)
    (token : String) (now : ℕ) (rows : List Job)
    (scoped : is_out_of_scope scope input.repo_id ≡ false) where
  abbrev pub first_row : Option Job
  first_row =
      find? (λ r. not (is_skipped input r)) (order_rows text_le (queued_rows input.repo_id rows))

  pub claim_next-none :
      first_row ≡ none → claim_next text_le scope input token now rows ≡ ok (none, rows)
  unfolding claim_next claim_tx
  claim_next-none nothing = rw (scoped, claim_tx, nothing) refl

  pub claim_next-some :
      (job c : Job)
      → first_row ≡ some job
      → claim_job job input.worker_id token now input.ttl_ms ≡ ok c
      → claim_next text_le scope input token now rows
        ≡ ok (some c, update_claimed c input.repo_id rows)
  unfolding claim_next claim_tx
  claim_next-some job c found claims = rw (scoped, claim_tx, found, claims) refl

-- The rows that pass a test or are last in the order are, among all rows, the eligible ones.
of_rows :
    (text_le : String → String → Bool) (input : ClaimNextInput) (rows : List Job) (P : Job → Type 0)
    → All
        (λ k. (not (is_skipped input k) ≡ false) ⊎ P k)
        (order_rows text_le (queued_rows input.repo_id rows))
    → All (λ k. (is_eligible input k ≡ false) ⊎ P k) rows
of_rows text_le input rows P a =
    let Q : Job → Type 0 = λ k. (not (is_skipped input k) ≡ false) ⊎ P k in
    All-map (λ k. (is_queued k.status && str_eq k.repo_id input.repo_id ≡ false) ⊎ Q k)
      (λ k. (is_eligible input k ≡ false) ⊎ P k)
      (λ k h. elim h [
        | inl other ↦ inl (ground (arith, other))
        | inr (inl skipped) ↦ inl (ground (arith, skipped))
        | inr (inr p) ↦ inr p
      ])
      rows
      (queued_rows-All text_le Q input.repo_id rows
        (order_rows-All text_le Q (queued_rows input.repo_id rows) a))

pub found_facts :
    (text_le : String → String → Bool) (input : ClaimNextInput) (rows : List Job) (job : Job)
    (R : Job → Type 0)
    → All R rows
    → find? (λ r. not (is_skipped input r)) (order_rows text_le (queued_rows input.repo_id rows))
      ≡ some job
    → (R job × (is_queued job.status ≡ true) × (job.repo_id ≡ input.repo_id))
      × (not (is_skipped input job) ≡ true)
found_facts text_le input rows job R rs e =
    let P : Job → Type 0 = λ j. R j × (is_queued j.status ≡ true) × (j.repo_id ≡ input.repo_id) in
    let selected = queued_rows input.repo_id rows in
    find?-found text_le P (λ r. not (is_skipped input r)) (order_rows text_le selected) job
      (All-order_rows text_le P selected (All-queued_rows text_le R input.repo_id rows rs)) e

-- A job comes before another one, or is the same: its priority is higher; or equal, and it is older;
-- or it is of the same time too, and its id is not greater.
abbrev pub ComesFirst : (String → String → Bool) → Job → Job → Type 0
ComesFirst text_le j k =
    (k.priority < j.priority)
    ⊎ ((j.priority ≡ k.priority)
        × ((j.created_at < k.created_at)
            ⊎ ((j.created_at ≡ k.created_at) × (text_le j.id k.id ≡ true))))

is_before-ComesFirst :
    (text_le : String → String → Bool) (j k : Job)
    → is_before text_le j k ≡ true
    → ComesFirst text_le j k
is_before-ComesFirst text_le j k h = ground (arith, h)

-- A queued job of the repository that is not among those to skip.
abbrev pub Eligible : ClaimNextInput → Job → Type 0
Eligible input j =
    (j.status ≡ queued)
    × (j.repo_id ≡ input.repo_id)
    × ((input.skip_job_ids ≡ none)
        ⊎ ((ids : List String) × (input.skip_job_ids ≡ some ids) × (includes ids j.id ≡ false)))

unskipped :
    (input : ClaimNextInput) (j : Job)
    → not (is_skipped input j) ≡ true
    → (input.skip_job_ids ≡ none)
      ⊎ ((ids : List String) × (input.skip_job_ids ≡ some ids) × (includes ids j.id ≡ false))
unskipped input j h = elim (Option-cases input.skip_job_ids) [
  | inl unasked ↦ inl unasked
  | inr (ids, asked) ↦ inr (ids, asked, ground (arith, (rw asked at h)))
]

expiry_cases :
    (now : ℕ) (ttl old : Option ℕ)
    → ((ttl ≡ none) × (expiry now ttl old ≡ old))
      ⊎ ((t : ℕ) × (ttl ≡ some t) × (expiry now ttl old ≡ some (now + t)))
expiry_cases now none old = inl (refl, refl)
expiry_cases now (some t) old = inr (t, refl, refl)

ineligible : (input : ClaimNextInput) (k : Job) → is_eligible input k ≡ false → ¬ Eligible input k
ineligible input k h (queue, repo, inl unasked) =
    ground (arith, h, queue, eq_iff k.repo_id input.repo_id, unasked)
ineligible input k h (queue, repo, inr (ids, asked, free)) =
    ground (arith, h, queue, eq_iff k.repo_id input.repo_id, asked, free)

-- The job that `claimJob` makes of a queued one.
abbrev claimed_from : Job → String → String → ℕ → Option ℕ → Job
claimed_from job worker token now ttl = record job {
  status = claimed;
  claimed_by = some worker;
  claim_token = some token;
  claimed_at = some now;
  attempts = job.attempts + 1;
  claim_expires_at = expiry now ttl job.claim_expires_at;
}

claim_job-claimed_from :
    (job : Job) (worker token : String) (now : ℕ) (ttl : Option ℕ)
    → is_queued job.status ≡ true
    → claim_job job worker token now ttl ≡ ok (claimed_from job worker token now ttl)
unfolding claim_job
claim_job-claimed_from job worker token now ttl q = rw q refl

update_claimed-Memᴰ :
    (c job : Job) (repo : String) (rows : List Job)
    → c.id ≡ job.id
    → job.repo_id ≡ repo
    → Memᴰ job rows
    → Memᴰ (write_claim c job) (update_claimed c repo rows)
unfolding update_claimed
update_claimed-Memᴰ c job repo [] same here m = elim m [ ]
update_claimed-Memᴰ c job repo (k ∷ ks) same here (Memᴰ.head e) =
    let found : str_eq k.id c.id && str_eq k.repo_id repo ≡ true =
      rw (← e) (ground (arith, same, here, eq_iff job.id c.id, eq_iff job.repo_id repo)) in
    rw found (Memᴰ.head (ap (write_claim c) e))
update_claimed-Memᴰ c job repo (k ∷ ks) same here (Memᴰ.tail m) =
    Memᴰ.tail (update_claimed-Memᴰ c job repo ks same here m)

-- In its scope, a claim on a queue fails exactly when no job of the table is eligible, and then it
-- leaves the table as it was. Otherwise it claims an eligible job of the table before which no other
-- eligible one comes, by priority, then age, then id: the job with the worker and the token that
-- asked, claimed now, for one attempt more,
-- and with an expiry after the time to live, if one is asked for, and that job is in the table then.
pub claim_next_outcome :
    (text_le : String → String → Bool) (scope : Option String) (input : ClaimNextInput)
    (token : String) (now : ℕ) (rows : List Job)
    → IsTextOrder text_le
    → is_out_of_scope scope input.repo_id ≡ false
    → (claim_next text_le scope input token now rows ≡ ok (none, rows))
        × All (λ k. ¬ Eligible input k) rows
      ⊎ ((job : Job) × (rows' : List Job) × (expires : Option ℕ) × Memᴰ job rows
          × Eligible input job
          × (((input.ttl_ms ≡ none) × (expires ≡ job.claim_expires_at))
              ⊎ ((ttl : ℕ) × (input.ttl_ms ≡ some ttl) × (expires ≡ some (now + ttl))))
          × All (λ k. ¬ Eligible input k ⊎ ComesFirst text_le job k) rows
          × (claim_next text_le scope input token now rows
              ≡ ok (
                some (record job {
                  status = claimed;
                  claimed_by = some input.worker_id;
                  claim_token = some token;
                  claimed_at = some now;
                  attempts = job.attempts + 1;
                  claim_expires_at = expires;
                }),
                rows',
              ))
          × Memᴰ
              (record job {
                status = claimed;
                claimed_by = some input.worker_id;
                claim_token = some token;
                claimed_at = some now;
                attempts = job.attempts + 1;
                claim_expires_at = expires;
              })
              rows')
claim_next_outcome text_le scope input token now rows o scoped =
    let selected = queued_rows input.repo_id rows in
    let test : Job → Bool = λ r. not (is_skipped input r) in
    elim (Option-cases (find? test (order_rows text_le selected))) [
      | inl nothing ↦
          let skipped = find?-none test (order_rows text_le selected) nothing in
          let none_left =
            of_rows text_le input rows (λ k. is_eligible input k ≡ false)
              (All-map (λ k. test k ≡ false) (λ k. (test k ≡ false) ⊎ (is_eligible input k ≡ false))
                (λ k h. inl h) (order_rows text_le selected) skipped) in
          inl (
            claim_next-none text_le scope input token now rows scoped nothing,
            All-map (λ k. (is_eligible input k ≡ false) ⊎ (is_eligible input k ≡ false))
                (λ k. ¬ Eligible input k)
                (λ k h. ineligible input k (elim h [ inl x ↦ x | inr x ↦ x ])) rows none_left,
          )
      | inr (job, e) ↦
          let (facts, passes) =
            found_facts text_le input rows job (λ j. Memᴰ j rows) (All-Memᴰ rows) e in
          let c : Job = claimed_from job input.worker_id token now input.ttl_ms in
          let claims = claim_job-claimed_from job input.worker_id token now input.ttl_ms facts.1 in
          inr (
            job,
            update_claimed c input.repo_id rows,
            c.claim_expires_at,
            facts.0,
            (ground (arith, facts.1), facts.2, unskipped input job passes),
            expiry_cases now input.ttl_ms job.claim_expires_at,
            All-map (λ k. (is_eligible input k ≡ false) ⊎ (is_before text_le job k ≡ true))
                (λ k. ¬ Eligible input k ⊎ ComesFirst text_le job k)
                (λ k h. elim h [
                  | inl other ↦ inl (ineligible input k other)
                  | inr first ↦ inr (is_before-ComesFirst text_le job k first)
                ])
                rows
                (of_rows text_le input rows (λ k. is_before text_le job k ≡ true)
                  (find?-least text_le o test (order_rows text_le selected) job
                    (order_rows-Ordered text_le o selected) e)),
            claim_next-some text_le scope input token now rows scoped job c e claims,
            update_claimed-Memᴰ c job input.repo_id rows refl facts.2 facts.0,
          )
    ]
