-- ===== src/Private/Steps.antt =====
-- What may happen to the private store: the controller's ticks and sweeps and the chain reader's
-- signals, in any order, and what all of them keep of every row.
use albedo.Prelude.{All, In, ℕ, String, ◌≡◌, ◌≢◌}
use albedo.Private.{Registration, RegistrationState, World, update_row}
use albedo.Private.Sweep.{close_upload_window, reset_for_retry}
use albedo.Private.Intake.{IntakeCall, PrivateSignal, apply_activate, apply_ready}
use albedo.Private.Controller.{Answers, tick}

-- `max_attempts` is PrivateStoreSettings.max_attempts. A new row has a new key. A window is closed for a
-- row as the sweep read it, which may have changed since. A row that is reset is still the SUBMITTED row that resubmit_terminal read: no
-- signal changes a row that has a submission.
pub data Step (max_attempts : ℕ) : World → World → Type 0 where
  ticked : {w : World} (a : Answers) → Step max_attempts w (tick a w).0
  activated_by :
      {w : World} (call : IntakeCall) (signal : PrivateSignal)
      → call.max_attempts ≡ max_attempts
      → All (λ r. r.id ≢ call.row_id) w.registrations
      → Step max_attempts w (apply_activate call signal w).0
  readied_by :
      {w : World} (call : IntakeCall) (signal : PrivateSignal)
      → Step max_attempts w (apply_ready call signal w).0
  window_closed :
      {w : World} (a : Answers) (reason : String) (r : Registration)
      → Step max_attempts w (close_upload_window a reason r w).0
  retry_offered :
      {w : World} (r : Registration) (now newest_block : ℕ)
      → In r w.registrations
      → r.state ≡ RegistrationState.submitted
      → Step max_attempts w (update_row r.id (reset_for_retry now newest_block) w)

pub data Steps (max_attempts : ℕ) : World → World → Type 0 where
  stop : {w : World} → Steps max_attempts w w
  step : {u v w : World} → Steps max_attempts u v → Step max_attempts v w → Steps max_attempts u w
