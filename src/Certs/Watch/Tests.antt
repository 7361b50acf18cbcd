-- ===== src/Certs/Watch/Tests.antt =====
-- Runs of the loop that loads the certificate.
use maroonedpods.Prelude.{ℕ, ◌<◌, ◌≡◌, refl, ◌⊎◌, true, false, none, some, ok, err, failure}
use maroonedpods.Certs.Watch.{Manager, looping, started, on_updated, stop, Step, Reach}
use maroonedpods.Certs.Watch.Progress.{SinceFailure, failed_load-retried}
use maroonedpods.Certs.Watch.Stopping.{stop_safe}

-- the first load fails
failed : Reach ℕ (started ℕ) (
    on_updated ℕ
      (err (failure "no file"))
      (record (started ℕ) { place = looping; object_updated = true }))
unfolding started on_updated
failed =
    Reach.next (Reach.next Reach.here (Step.first_token refl refl))
      (Step.reload (err (failure "no file")) refl refl)

abbrev retrying : Manager ℕ
retrying = record {
  place = looping;
  object_updated = false;
  sleeping = 1;
  stopped = false;
  stop_ch_closed = false;
  cert = none;
}

failed_retrying : Reach ℕ (started ℕ) retrying
unfolding started on_updated
failed_retrying = failed

-- a certificate was loaded, then the files changed and the next load failed
abbrev again : Manager ℕ
again = record {
  place = looping;
  object_updated = true;
  sleeping = 0;
  stopped = false;
  stop_ch_closed = false;
  cert = some 7;
}

loaded_again : Reach ℕ (started ℕ) again
unfolding started on_updated
loaded_again =
    Reach.next
      (Reach.next (Reach.next Reach.here (Step.first_token refl refl))
        (Step.reload (ok 7) refl refl))
      Step.file_event

abbrev kept_waiting : Manager ℕ
kept_waiting = record again { object_updated = false; sleeping = 1 }

failed_again : SinceFailure (some 7) kept_waiting
unfolding on_updated
failed_again = SinceFailure.failed (failure "no file") loaded_again refl refl refl

failed_load-retried_example :
    (kept_waiting.cert ≡ some 7)
    × ((kept_waiting.object_updated ≡ true) ⊎ (0 < kept_waiting.sleeping))
failed_load-retried_example = failed_load-retried failed_again

stop_safe_example :
    (f' : Manager ℕ) × (stop ℕ retrying ≡ some f')
    × (f' ≡ record retrying { stopped = true; stop_ch_closed = true })
    × (stop ℕ f' ≡ some f')
stop_safe_example = stop_safe retrying failed_retrying
