-- ===== src/SimpleClient/Timer.antt =====
-- What `SimpleClient` uses of asio's `steady_timer`.
use libasio.Prelude.{ℕ, ◌+◌, ◌-◌, ◌≡◌}

-- Setting the expiry cancels the waits that are pending, whose handlers then run too, each with an
-- error code. `waiting` counts the pending waits and `due` the handlers that are to run: when the
-- timer expires, all that wait become due. The error code has no field, since it is not looked at.
pub record SteadyTimer : Type 1 where
  pub Timer : Type 0
  pub expiry : Timer → ℕ
  pub waiting : Timer → ℕ
  pub due : Timer → ℕ
  pub expires_at : ℕ → Timer → Timer
  pub async_wait : Timer → Timer
  pub expire : Timer → Timer  -- the time of the expiry comes
  pub run_handler : Timer → Timer  -- one handler that is due starts
  pub expiry-expires_at : (x : ℕ) (t : Timer) → expiry (expires_at x t) ≡ x
  pub waiting-expires_at : (x : ℕ) (t : Timer) → waiting (expires_at x t) ≡ 0
  pub due-expires_at : (x : ℕ) (t : Timer) → due (expires_at x t) ≡ due t + waiting t
  pub expiry-async_wait : (t : Timer) → expiry (async_wait t) ≡ expiry t
  pub waiting-async_wait : (t : Timer) → waiting (async_wait t) ≡ waiting t + 1
  pub due-async_wait : (t : Timer) → due (async_wait t) ≡ due t
  pub expiry-expire : (t : Timer) → expiry (expire t) ≡ expiry t
  pub waiting-expire : (t : Timer) → waiting (expire t) ≡ 0
  pub due-expire : (t : Timer) → due (expire t) ≡ due t + waiting t
  pub expiry-run_handler : (t : Timer) → expiry (run_handler t) ≡ expiry t
  pub waiting-run_handler : (t : Timer) → waiting (run_handler t) ≡ waiting t
  pub due-run_handler : (t : Timer) → due (run_handler t) ≡ due t - 1
