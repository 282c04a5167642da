-- ===== src/JobQueue/Exclusion.antt =====
-- No two claims of one job: packages/infrastructure/src/sqlite/job-queue-repository.ts.
use automation.Prelude.{
  ℕ, ◌≡◌, ◌≢◌, refl, String, str_eq, Bool, true, false, not, ◌&&◌, Option, none, some, List, [],
  ◌∷◌, arith, find?, All, Bool-cases, Option-cases, inl, inr, eq_iff, ok,
}
use automation.Job.{Job, is_queued}
use automation.JobQueue.{
  order_rows, queued_rows, ClaimNextInput, is_skipped, claim_next, is_out_of_scope, update_claimed,
}
use automation.JobQueue.Claim.{
  All-true, claim_next-none, claim_next-some, claim_job-queued, found_facts,
}

-- What a claim that returned a job did.
pub record Claimed (text_le : String → String → Bool) (input : ClaimNextInput) (token : String)
    (rows rows' : List Job) (c : Job) : Type 0 where
  pub job : Job
  pub found :
      find? (λ r. not (is_skipped input r)) (order_rows text_le (queued_rows input.repo_id rows))
      ≡ some job
  pub same_id : c.id ≡ job.id
  pub busy : is_queued c.status ≡ false
  pub tokened : c.claim_token ≡ some token
  pub table : rows' ≡ update_claimed c input.repo_id rows

pub claim_next-Claimed :
    (text_le : String → String → Bool) (scope : Option String) (input : ClaimNextInput)
    (token : String) (now : ℕ) (rows rows' : List Job) (c : Job)
    → claim_next text_le scope input token now rows ≡ ok (some c, rows')
    → Claimed text_le input token rows rows' c
unfolding claim_next
claim_next-Claimed text_le scope input token now rows rows' c e =
    let outside_none : is_out_of_scope scope input.repo_id ≡ true
        → claim_next text_le scope input token now rows ≡ ok (none, rows) =
      λ o. rw o refl in
    elim (Bool-cases (is_out_of_scope scope input.repo_id)) [
      | inl outside ↦ ground (arith, outside_none outside, e)
      | inr scoped ↦
          elim (Option-cases (
            find? (λ r. not (is_skipped input r))
              (order_rows text_le (queued_rows input.repo_id rows)))) [
                | inl nothing ↦
                    ground
                      (arith, claim_next-none text_le scope input token now rows scoped nothing, e)
                | inr (job, f) ↦
                    let (facts, passes) =
                      found_facts text_le input rows job (λ j. Unit {0}) (All-true rows) f in
                    let (c', claims, same, idle, drawn) =
                      claim_job-queued job input.worker_id token now input.ttl_ms facts.1 in
                    let e' =
                      claim_next-some text_le scope input token now rows scoped job c' f claims in
                    let same_c : c' ≡ c = ground (arith, e, e') in
                    let same_rows : rows' ≡ update_claimed c' input.repo_id rows =
                      ground (arith, e, e') in
                    record {
                      job = job;
                      found = f;
                      same_id = rw (← same_c) same;
                      busy = rw (← same_c) idle;
                      tokened = rw (← same_c) drawn;
                      table = rw (← same_c) same_rows;
                    }
              ]
    ]

-- A row that a claim wrote is not queued any more.
update_claimed-busy :
    (c : Job) (repo : String) (rows : List Job)
    → is_queued c.status ≡ false
    → All
        (λ k. is_queued k.status && str_eq k.id c.id && str_eq k.repo_id repo ≡ false)
        (update_claimed c repo rows)
unfolding update_claimed
update_claimed-busy c repo [] busy = tt
update_claimed-busy c repo (j ∷ js) busy =
    elim (Bool-cases (str_eq j.id c.id && str_eq j.repo_id repo)) [
      | inl written ↦ (ground (arith, written, busy), update_claimed-busy c repo js busy)
      | inr kept ↦ (ground (arith, kept), update_claimed-busy c repo js busy)
    ]

-- Two claims on the queue of one repository, one after the other, never return the same job.
pub claimed_once :
    (text_le : String → String → Bool) (scope scope' : Option String)
    (input input' : ClaimNextInput) (token token' : String) (now now' : ℕ)
    (rows rows' rows'' : List Job) (c d : Job)
    → claim_next text_le scope input token now rows ≡ ok (some c, rows')
    → input'.repo_id ≡ input.repo_id
    → claim_next text_le scope' input' token' now' rows' ≡ ok (some d, rows'')
    → c.id ≢ d.id
claimed_once text_le scope scope' input input' token token' now now' rows rows' rows'' c d e
      same_repo e' =
    let i = claim_next-Claimed text_le scope input token now rows rows' c e in
    let j = claim_next-Claimed text_le scope' input' token' now' rows' rows'' d e' in
    let busy = rw (← i.table) at (update_claimed-busy c input.repo_id rows i.busy) in
    let (facts, passes) =
      found_facts text_le input' rows' j.job
        (λ k. is_queued k.status && str_eq k.id c.id && str_eq k.repo_id input.repo_id ≡ false) busy
        j.found in
    λ same. ground (
      arith,
      facts.0,
      facts.1,
      facts.2,
      same,
      j.same_id,
      same_repo,
      eq_iff j.job.id c.id,
      eq_iff j.job.repo_id input.repo_id,
    )
