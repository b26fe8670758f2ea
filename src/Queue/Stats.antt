-- ===== src/Queue/Stats.antt =====
-- src/engine/syncEventStore.ts: what `stats` counts.
use hubspot_salesforce_conne.Prelude.{
  ℕ, ◌+◌, ◌≡◌, List, [], ◌∷◌, arith, length, count_if, if◌then◌else◌,
}
use hubspot_salesforce_conne.Prelude.Dict.{values}
use hubspot_salesforce_conne.Queue.{
  SyncJob, SyncJobStatus, queued, processing, retry, completed, dead_letter, manual_review,
  dismissed, SyncJobStats, Store, status_eq, stats, stats_loop, increment_stats, empty_stats,
}

-- the counter of a status
abbrev pub count_of : SyncJobStatus → SyncJobStats → ℕ
count_of queued r = r.queued
count_of processing r = r.processing
count_of retry r = r.retry
count_of completed r = r.completed
count_of dead_letter r = r.dead_letter
count_of manual_review r = r.manual_review
count_of dismissed r = r.dismissed

abbrev pub total : SyncJobStats → ℕ
total r =
    r.queued + r.processing + r.retry + r.completed + r.dead_letter + r.manual_review + r.dismissed

increment_stats_lem :
    (r : SyncJobStats) (a b : SyncJobStatus)
    → (count_of a (increment_stats r b) ≡ count_of a r + (if status_eq b a then 1 else 0))
      × (total (increment_stats r b) ≡ total r + 1)
unfolding increment_stats
increment_stats_lem r queued b = ground arith
increment_stats_lem r processing b = ground arith
increment_stats_lem r retry b = ground arith
increment_stats_lem r completed b = ground arith
increment_stats_lem r dead_letter b = ground arith
increment_stats_lem r manual_review b = ground arith
increment_stats_lem r dismissed b = ground arith

stats_loop_lem :
    (r : SyncJobStats) (a : SyncJobStatus) (jobs : List SyncJob)
    → (count_of a (stats_loop r jobs)
        ≡ count_of a r + count_if (λ (job : SyncJob). status_eq job.status a) jobs)
      × (total (stats_loop r jobs) ≡ total r + length jobs)
unfolding stats_loop
stats_loop_lem r a [] = omega arith
stats_loop_lem r a (job ∷ jobs) =
    let (here, all) = increment_stats_lem r a job.status in
    let (later, rest) = stats_loop_lem (increment_stats r job.status) a jobs in ground arith

-- `stats` gives for each status the number of stored jobs in it, and its seven counters add up to
-- the number of jobs.
pub stats_lem :
    (s : Store) (a : SyncJobStatus)
    → (count_of a (stats s) ≡ count_if (λ (job : SyncJob). status_eq job.status a) (values s.jobs))
      × (total (stats s) ≡ length (values s.jobs))
unfolding stats
stats_lem s a =
    let (each, all) = stats_loop_lem empty_stats a (values s.jobs) in
    (ground (arith, each, count_of), ground (arith, all))
