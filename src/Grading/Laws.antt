-- ===== src/Grading/Laws.antt =====
-- What `addGradingJob` of lib/grading.ts leaves in the queue.
use test_platform.Base.{ℕ, ◌+◌, ◌≡◌, ◌∙◌, some, [], ◌∷◌, ◌++◌, arith, ◌==◌, if◌then◌else◌}
use test_platform.Platform.{GradingJob, Stream, stream_eq, JobHash, Streams, App}
use test_platform.Grading.{stream_of, add_grading_job}

module _ {A B T Q : Type 0} (streams : Streams Q) where
  -- A job goes to the end of the stream of its kind, that of previews or that of submissions; the
  -- other stream stays. It gets a hash of its own, other jobs' hashes stay, and the counter of queued
  -- jobs grows by one.
  pub add_grading_job_lem :
      (now id x : ℕ) (i : Stream) (job : GradingJob) (app : App A B T Q)
      → let q = (add_grading_job streams now id job app).queue in
        (streams.entries i q ≡ (
          if stream_eq i (stream_of job)
          then streams.entries i app.queue ++ (id, job) ∷ []
          else streams.entries i app.queue))
        × (streams.job x q ≡ (
            if x == id
            then some (record {
              attempt_id = job.attempt_id;
              stream = stream_of job;
              created_at = now;
              is_preview = job.is_preview;
              payload = job;
            })
            else streams.job x app.queue))
        × (streams.queued q ≡ streams.queued app.queue + 1)
  unfolding add_grading_job
  add_grading_job_lem now id x i job app =
      let h : JobHash = record {
        attempt_id = job.attempt_id;
        stream = stream_of job;
        created_at = now;
        is_preview = job.is_preview;
        payload = job;
      } in
      let added = streams.xadd (stream_of job) id job app.queue in
      let stored = streams.hset_job now id h added in
      (
        streams.entries-incr_queued i stored
            ∙ streams.entries-hset_job i now id h added
            ∙ streams.entries-xadd i (stream_of job) id job app.queue,
        ground (
          arith,
          streams.job-incr_queued x stored,
          streams.job-hset_job now x id h added,
          streams.job-xadd x (stream_of job) id job app.queue,
        ),
        ground (
          arith,
          streams.queued-incr_queued stored,
          streams.queued-hset_job now id h added,
          streams.queued-xadd (stream_of job) id job app.queue,
        ),
      )
