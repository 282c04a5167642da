-- ===== src/Job/Ownership.antt =====
-- Ownership tokens of jobs: packages/domain/src/job.ts, the `...WithOwnership` operations.
use automation.Prelude.{
  ℕ, ◌+◌, ◌≡◌, ◌≢◌, String, Bool, true, false, Option, none, some, List, [], ◌∷◌, Result, ok, err,
  Result-cases, arith, refl, ◌↔◌, eq_iff, opt_is_str, ◌<◌, inl, inr, ◌>>=◌, ◌⊎◌,
}
use automation.Job.{
  Job, JobStatus, JobOwnership, JobError, claim_job, claim_job_with_ownership, unclaim_job,
  reset_job_to_queued, is_claimed, is_running, is_held, expiry, token_mismatch, queued, claimed,
  succeeded,
}
use automation.Job.Ops.{
  Action, run, succeed, fail, cancel, release, reset, JobOp, claim, act, act_as, apply_owned, apply,
  apply_all, keep, JobInv, apply-JobInv, is_ended,
}

opt_is_str_iff : (o : Option String) (s : String) → (opt_is_str o s ≡ true) ↔ (o ≡ some s)
opt_is_str_iff none s = (λ h. cc, λ h. cc)
opt_is_str_iff (some t) s = ground (arith, eq_iff t s)

-- The status that an action expects.
abbrev pub expects : Action → JobStatus → Bool
expects run s = is_claimed s
expects succeed s = is_running s
expects fail s = is_running s
expects cancel s = is_running s
expects release s = is_claimed s
expects reset s = is_held s

abbrev pub Succeeds : Result JobError Job → Type 0
Succeeds r = (j : Job) × (r ≡ ok j)

abbrev pub is_ok : Result JobError Job → Bool
is_ok (ok j) = true
is_ok (err e) = false

-- An operation with an ownership is accepted exactly when the token is the job's own and the job
-- is in the status that the operation expects: starting and releasing a claim from claimed, ending
-- from running, resetting from either.
pub apply_owned-accepts :
    (a : Action) (j : Job) (owner : JobOwnership) (now : ℕ)
    → (is_ok (apply_owned a j owner now) ≡ true)
      ↔ ((j.claim_token ≡ some owner.claim_token) × (expects a j.status ≡ true))
unfolding apply_owned
apply_owned-accepts run j owner now = ground (arith, opt_is_str_iff j.claim_token owner.claim_token)
apply_owned-accepts a j owner now = ground (arith, opt_is_str_iff j.claim_token owner.claim_token)

-- Fencing. Once a job has been reset or released and claimed again under another token, every
-- operation of the owner before is refused, whatever the job's status, and so is every operation
-- of any owner while the job is queued.
pub stale_owner_refused :
    (a : Action) (j q c : Job) (owner : JobOwnership) (worker token : String) (ttl : Option ℕ)
    (now later : ℕ)
    → (reset_job_to_queued j ≡ ok q) ⊎ (unclaim_job j ≡ ok q)
    → claim_job q worker token now ttl ≡ ok c
    → token ≢ owner.claim_token
    → (apply_owned a q owner later ≡ err token_mismatch)
      × (apply_owned a c owner later ≡ err token_mismatch)
unfolding apply_owned reset_job_to_queued unclaim_job claim_job
stale_owner_refused run j q c owner worker token ttl now later h k ne =
    ground (arith, eq_iff token owner.claim_token)
stale_owner_refused a j q c owner worker token ttl now later h k ne =
    ground (arith, eq_iff token owner.claim_token)

-- Claiming a queued job under a non-empty token returns the ownership that the job then accepts:
-- the owner can start it and end it, and the ended job counts one more attempt.
pub claim_then_finish :
    (j : Job) (worker token : String) (ttl : Option ℕ) (now later last : ℕ)
    → j.status ≡ queued
    → token ≢ ""
    → (claim_job_with_ownership j worker token now ttl >>= λ r.
        apply_owned run r.0 r.1 later >>= λ s. apply_owned succeed s r.1 last)
      ≡ ok (record j {
        status = succeeded;
        claimed_by = some worker;
        claim_token = some token;
        claimed_at = some now;
        started_at = some later;
        completed_at = some last;
        attempts = j.attempts + 1;
        claim_expires_at = expiry now ttl j.claim_expires_at;
      })
unfolding claim_job_with_ownership apply_owned
claim_then_finish j worker token ttl now later last q ne =
    ground (arith, eq_iff token "", eq_iff token token)

-- A job that is claimed with a time to live, released, and claimed again without one carries the
-- expiry of the first claim, also when the second claim is made after it.
pub reclaim_expired :
    (j : Job) (first second w1 w2 : String) (ttl now later : ℕ)
    → j.status ≡ queued
    → now + ttl < later
    → (c : Job) × ((claim_job j w1 first now (some ttl) >>= unclaim_job >>= λ q.
          claim_job q w2 second later none)
        ≡ ok c)
      × (c.status ≡ claimed)
      × (c.claimed_at ≡ some later)
      × (c.claim_expires_at ≡ some (now + ttl))
unfolding claim_job unclaim_job
reclaim_expired j first second w1 w2 ttl now later q lt = (
  record j {
    status = claimed;
    claimed_by = some w2;
    claim_token = some second;
    claimed_at = some later;
    attempts = j.attempts + 1 + 1;
    claim_expires_at = some (now + ttl);
  },
  ground arith,
  refl,
  refl,
  refl,
)

keep-JobInv : (op : JobOp) (j : Job) → JobInv j → JobInv (keep j (apply op j))
keep-JobInv op j i = elim (Result-cases (apply op j)) [
  | inl (j', h) ↦ rw h (apply-JobInv op j j' i h)
  | inr (e, h) ↦ rw h i
]

-- Whatever operations are tried on a job, in any order and by any owner, the invariant holds after.
pub apply_all-JobInv : (ops : List JobOp) (j : Job) → JobInv j → JobInv (apply_all ops j)
unfolding apply_all
apply_all-JobInv [] j i = i
apply_all-JobInv (op ∷ ops) j i = apply_all-JobInv ops (keep j (apply op j)) (keep-JobInv op j i)

keep_of_ended : (op : JobOp) (j : Job) → is_ended j.status ≡ true → keep j (apply op j) ≡ j
unfolding apply
keep_of_ended (claim worker token now ttl) j e = ground arith
keep_of_ended (act run now) j e = ground arith
keep_of_ended (act a now) j e = ground arith
keep_of_ended (act_as owner run now) j e = ground arith
keep_of_ended (act_as owner a now) j e = ground arith

-- An ended job never changes again, whatever is tried on it.
pub apply_all_of_ended :
    (ops : List JobOp) (j : Job) → is_ended j.status ≡ true → apply_all ops j ≡ j
unfolding apply_all
apply_all_of_ended [] j e = refl
apply_all_of_ended (op ∷ ops) j e = rw (keep_of_ended op j e) (apply_all_of_ended ops j e)
