-- ===== src/Grading.antt =====
-- apps/api/src/lib/grading.ts: a job is put on a stream of Redis, with a hash of its own and a counter.
-- The identifier of the job, drawn at random there, and the time are arguments.
pub mod Laws
use test_platform.Base.{ℕ, if◌then◌else◌, Bool, true, false}
use test_platform.Platform.{GradingJob, Stream, high, low, JobHash, Streams, App}

abbrev pub stream_of : GradingJob → Stream
stream_of job = if job.is_preview then low else high

module _ {A B T Q : Type 0} (streams : Streams Q) where
  unfoldable pub add_grading_job : ℕ → ℕ → GradingJob → App A B T Q → App A B T Q
  add_grading_job now job_id job app = record app {
    queue = streams.incr_queued (
        streams.hset_job now job_id
          (record {
            attempt_id = job.attempt_id;
            stream = stream_of job;
            created_at = now;
            is_preview = job.is_preview;
            payload = job;
          })
          (streams.xadd (stream_of job) job_id job app.queue));
  }
