-- ===== src/Backfill/Claim.antt =====
-- Claiming and cancelling jobs: `claim_next` of src/voiceobs/worker/backfill.py and `cancel` of
-- src/voiceobs/api/backfill.py. The table is the list of its rows.
use actioneer_pulse.Common.{
  Bool, true, false, not, String, Option, none, some, List, [], ◌∷◌, ◌&&◌, count, filter, head?,
  any, All, str_eq, str_eq_refl, if◌then◌else◌, leb, ◌≡◌, refl, sym, ◌∙◌, ℕ, ◌≤◌, ◌<◌, arith,
}
use actioneer_pulse.Common.Sort.{sort_by, sort_by-IsAscending, any-sort_by, IsAscending}
use actioneer_pulse.Backfill.{Status, BackfillJob}
use actioneer_pulse.Backfill.Accounting.{is_terminal}

abbrev pub is_queued : BackfillJob → Bool
is_queued j = elim j.status [ Status.queued ↦ true | _ ↦ false ]

abbrev pub older : BackfillJob → BackfillJob → Bool
older a b = leb a.created_at b.created_at

-- Assignments to the row with this key.
unfoldable pub with_status : String → Status → ℕ → List BackfillJob → List BackfillJob
with_status id status now [] = []
with_status id status now (j ∷ jobs) =
    (if str_eq j.id id then record j { status = status; updated_at = some now } else j)
    ∷ with_status id status now jobs

-- The oldest job that is queued.
unfoldable pub next_queued : List BackfillJob → Option BackfillJob
next_queued jobs = head? (sort_by older (filter is_queued jobs))

unfoldable pub claim_next : ℕ → List BackfillJob → Option BackfillJob × List BackfillJob
claim_next now jobs = elim (next_queued jobs) [
  | none ↦ (none, jobs)
  | some j ↦ (
    some (record j { status = Status.scanning; updated_at = some now }),
    with_status j.id Status.scanning now jobs,
  )
]

-- What `cancel` does to a job that exists.
unfoldable pub cancel : ℕ → BackfillJob → BackfillJob
cancel now job =
    if is_terminal job.status
    then job
    else record job { status = Status.cancelled; updated_at = some now }

with_status-queued_le :
    (id : String) (now : ℕ) (jobs : List BackfillJob)
    → count is_queued (with_status id Status.scanning now jobs) ≤ count is_queued jobs
unfolding with_status
with_status-queued_le id now [] = omega arith
with_status-queued_le id now (j ∷ jobs) = ground (arith, with_status-queued_le id now jobs)

with_status-queued :
    (id : String) (now : ℕ) (jobs : List BackfillJob)
    → any (λ j. is_queued j && str_eq j.id id) jobs ≡ true
    → count is_queued (with_status id Status.scanning now jobs) < count is_queued jobs
unfolding with_status
with_status-queued id now [] h = ground (arith, h)
with_status-queued id now (j ∷ jobs) h =
    ground (arith, h, with_status-queued id now jobs, with_status-queued_le id now jobs)

any-filter_queued :
    (p : BackfillJob → Bool) (jobs : List BackfillJob)
    → any p (filter is_queued jobs) ≡ any (λ j. is_queued j && p j) jobs
any-filter_queued p [] = refl
any-filter_queued p (j ∷ jobs) = ground (arith, any-filter_queued p jobs)

ascending-head :
    (c : ℕ) (j : BackfillJob) (jobs : List BackfillJob)
    → c ≤ j.created_at
    → IsAscending older (j ∷ jobs)
    → any (λ q. not (leb c q.created_at)) (j ∷ jobs) ≡ false
ascending-head c j [] le h = ground (arith, le)
ascending-head c j (k ∷ jobs) le h =
    ground (arith, le, h.0, ascending-head c k jobs (ground (arith, le, h.0)) h.1)

queued-All :
    (c : ℕ) (jobs : List BackfillJob)
    → any (λ q. is_queued q && not (leb c q.created_at)) jobs ≡ false
    → All (λ q. is_queued q ≡ true → c ≤ q.created_at) jobs
queued-All c [] h = tt
queued-All c (j ∷ jobs) h = (λ q. ground (arith, h, q), queued-All c jobs (ground (arith, h)))

head-has :
    (j : BackfillJob) (jobs : List BackfillJob)
    → head? jobs ≡ some j
    → any (λ q. str_eq q.id j.id) jobs ≡ true
head-has j [] found = ground (arith, found)
head-has j (k ∷ jobs) found = ground (arith, found, str_eq_refl j.id)

head-oldest :
    (j : BackfillJob) (jobs : List BackfillJob)
    → head? jobs ≡ some j
    → IsAscending older jobs
    → any (λ q. not (leb j.created_at q.created_at)) jobs ≡ false
head-oldest j [] found h = refl
head-oldest j (k ∷ jobs) found h = ascending-head j.created_at k jobs (ground (arith, found)) h

queued-has :
    (j : BackfillJob) (jobs : List BackfillJob)
    → next_queued jobs ≡ some j
    → any (λ q. is_queued q && str_eq q.id j.id) jobs ≡ true
unfolding next_queued
queued-has j jobs found =
    let p = λ (q : BackfillJob). str_eq q.id j.id in
    sym (any-filter_queued p jobs)
    ∙ sym (any-sort_by older p (filter is_queued jobs))
    ∙ head-has j (sort_by older (filter is_queued jobs)) found

queued-oldest :
    (j : BackfillJob) (jobs : List BackfillJob)
    → next_queued jobs ≡ some j
    → any (λ q. is_queued q && not (leb j.created_at q.created_at)) jobs ≡ false
unfolding next_queued
queued-oldest j jobs found =
    let p = λ (q : BackfillJob). not (leb j.created_at q.created_at) in
    let queued = filter is_queued jobs in
    sym (any-filter_queued p jobs)
    ∙ sym (any-sort_by older p queued)
    ∙ head-oldest j (sort_by older queued) found
        (sort_by-IsAscending older (λ a b h. ground (arith, h)) queued)

-- A claim that returns a job returns it as scanning, leaves fewer queued jobs than before, so that
-- claiming until there is none ends, and no queued job was created before the claimed one.
pub claim_next-oldest :
    (now : ℕ) (jobs : List BackfillJob) (j : BackfillJob)
    → next_queued jobs ≡ some j
    → ((claim_next now jobs).0
        ≡ some (record j { status = Status.scanning; updated_at = some now }))
      × (count is_queued (claim_next now jobs).1 < count is_queued jobs)
      × All (λ q. is_queued q ≡ true → j.created_at ≤ q.created_at) jobs
unfolding claim_next
claim_next-oldest now jobs j found = (
  ground (arith, found),
  ground (arith, found, with_status-queued j.id now jobs (queued-has j jobs found)),
  queued-All j.created_at jobs (queued-oldest j jobs found),
)
