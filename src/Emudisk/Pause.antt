-- ===== src/Emudisk/Pause.antt =====
-- pause_OS and resume_OS of emulator_kernel/nctuss_emudisk_main.c: emulated time stands still while
-- the module talks to the emulator.
use nctusde.Base.{ℕ, ◌+◌, ◌-◌, ◌≡◌, ◌≢◌, true, false, arith, if◌then◌else◌, Outcome, done, hang}
use nctusde.Emudisk.{Os}

-- `counter` is the value of the stopped global timer. The spin lock is not recursive: taking it
-- twice on one CPU never ends. The interrupt sent to the other CPU keeps it in `ipi_function`
-- while `os_paused` holds.
unfoldable pub pause_os : Os → ℕ → Outcome Os
pause_os os counter =
    if os.gt_locked
    then hang
    else done (record os {
      saved_irqs_off = os.irqs_off;
      irqs_off = true;
      os_paused = true;
      gt_locked = true;
      gt_stopped = true;
      ttc_stopped = true;
      preempt_count = os.preempt_count + 1;
      paused_counter = counter;
    })

unfoldable pub resume_os : Os → Os
resume_os os = record os {
  os_paused = false;
  gt_stopped = false;
  gt_locked = false;
  ttc_stopped = false;
  preempt_count = os.preempt_count - 1;
  irqs_off = os.saved_irqs_off;
}

-- The OS runs: time passes, and the timer's lock is free.
pub record IsRunning (os : Os) : Type 0 where
  pub not_paused : os.os_paused ≡ false
  pub unlocked : os.gt_locked ≡ false
  pub timers : (os.gt_stopped ≡ false) × (os.ttc_stopped ≡ false)

-- All that keeps other code from running or time from passing.
pub record IsFrozen (os : Os) : Type 0 where
  pub paused : os.os_paused ≡ true
  pub masked : os.irqs_off ≡ true
  pub pinned : os.preempt_count ≢ 0
  pub timers : (os.gt_stopped ≡ true) × (os.ttc_stopped ≡ true)

-- Pausing a running OS freezes it, a second pause before the resume would never return, and the
-- resume brings back a running OS with interrupts and preemption as they were.
pub resume-pause :
    (os : Os) (counter : ℕ)
    → IsRunning os
    → (os' : Os) × (pause_os os counter ≡ done os')
      × IsFrozen os'
      × (pause_os os' counter ≡ hang)
      × IsRunning (resume_os os')
      × ((resume_os os').irqs_off ≡ os.irqs_off)
      × ((resume_os os').preempt_count ≡ os.preempt_count)
unfolding pause_os resume_os
resume-pause os counter r = (
  record os {
    saved_irqs_off = os.irqs_off;
    irqs_off = true;
    os_paused = true;
    gt_locked = true;
    gt_stopped = true;
    ttc_stopped = true;
    preempt_count = os.preempt_count + 1;
    paused_counter = counter;
  },
  ground arith,
  ground arith,
  ground arith,
  ground arith,
  ground arith,
  ground arith,
)
