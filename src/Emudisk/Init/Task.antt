-- ===== src/Emudisk/Init/Task.antt =====
-- setup_nctuss_emudisk_processing_task of emulator_kernel/nctuss_emudisk_main.c, which stands behind
-- the action `start_task`.
use nctusde.Base.{
  ◌≡◌, refl, ap, ◌⊎◌, inl, inr, Bool, true, false, List, [], ◌∷◌, ◌++◌, if◌then◌else◌, Outcome,
  done, hang,
}

-- `while(state != TASK_INTERRUPTIBLE)`, over whether each reading of the state shows the task
-- asleep. The result says whether one of them did.
unfoldable pub await_sleep : List Bool → Bool
await_sleep [] = false
await_sleep (asleep ∷ states) = if asleep then true else await_sleep states

-- `created` and `scheduled` are what kthread_create and sched_setscheduler come to.
unfoldable pub setup_processing_task : (created scheduled : Bool) → List Bool → Outcome Bool
unfolding await_sleep
setup_processing_task created scheduled states =
    if created then if scheduled then done (await_sleep states) else hang else hang

await_sleep-true : (before after : List Bool) → await_sleep (before ++ true ∷ after) ≡ true
unfolding await_sleep
await_sleep-true [] after = refl
await_sleep-true (true ∷ before) after = refl
await_sleep-true (false ∷ before) after = await_sleep-true before after

-- Loading goes on as soon as the new task has gone to sleep for the first time.
setup_processing_task-done :
    (before after : List Bool)
    → setup_processing_task true true (before ++ true ∷ after) ≡ done true
unfolding setup_processing_task
setup_processing_task-done before after = ap done (await_sleep-true before after)

-- If the task cannot be created, or not be given its priority, loading the module never ends.
setup_processing_task-hangs :
    (created scheduled : Bool) (states : List Bool)
    → (created ≡ false) ⊎ (scheduled ≡ false)
    → setup_processing_task created scheduled states ≡ hang
unfolding setup_processing_task
setup_processing_task-hangs true scheduled states h = elim h [ inl e ↦ cc | inr e ↦ rw e refl ]
setup_processing_task-hangs false scheduled states h = refl
