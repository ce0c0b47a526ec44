-- ===== src/Ramdisk/Task.antt =====
-- The processing task of emulator_kernel/nctuss_ramdisk_main.c: how it is started, and how it sleeps
-- until the time of the next response.
use nctusde.Base.{
  ℕ, ◌≡◌, refl, Bool, true, false, List, [], ◌∷◌, ◌++◌, All, if◌then◌else◌, Outcome, done, hang,
  ◌>>=◌,
}
use nctusde.Ramdisk.{Ramdisk, process_responses}

-- setup_nctuss_emudisk_processing_task: `created` and `scheduled` are what kthread_create and
-- sched_setscheduler come to. The result says that the task was woken.
unfoldable pub setup_ramdisk_task : (created scheduled : Bool) → Outcome Bool
setup_ramdisk_task created scheduled =
    if created then if scheduled then done true else hang else hang

-- The task is woken: the disk as it is then, `Emudisk.stopping`, whether the sleep was interrupted,
-- and what the clock reads in the turn that follows.
pub record Wake : Type 0 where
  pub disk : Ramdisk
  pub stopping : Bool
  pub interrupted : Bool
  pub now : ℕ
  pub readings : List ℕ

-- What the task does in one pass of its loop.
pub data Pass : Type 0 where
  asleep ends : Pass
  turned : Ramdisk → Bool → Pass

-- From `resleep` on. The first sleep, without a time, ends by an interruption, too, and leads here.
unfoldable pub task_pass : List Wake → Outcome Pass
task_pass [] = done asleep
task_pass (w ∷ wakes) =
    if w.stopping
    then done ends
    else if w.interrupted
    then task_pass wakes
    else (process_responses w.disk w.now w.readings >>= λ (d, finished). done (turned d finished))

-- However often the sleep is interrupted, the turn that follows is that of the first wake at the time
-- slept for, on the disk as it is then.
task_pass-interrupted :
    (before after : List Wake) (w : Wake) (d : Ramdisk) (finished : Bool)
    → All (λ v. (v.stopping ≡ false) × (v.interrupted ≡ true)) before
    → w.stopping ≡ false
    → w.interrupted ≡ false
    → process_responses w.disk w.now w.readings ≡ done (d, finished)
    → task_pass (before ++ w ∷ after) ≡ done (turned d finished)
unfolding task_pass
task_pass-interrupted [] after w d finished woken runs slept h = rw (runs, slept, h) refl
task_pass-interrupted (v ∷ before) after w d finished woken runs slept h =
    rw (woken.0.0, woken.0.1) (task_pass-interrupted before after w d finished woken.1 runs slept h)
