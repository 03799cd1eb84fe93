-- ===== src/Auth/Settings.antt =====
-- The settings of a session.
use mail_gable.Base.{◌≤◌, ◌*◌, arith}
use mail_gable.Helpers.Range.{as_int-bound}
use mail_gable.Auth.Tables.{AuthEnv, iterations_of, hours_of, idle_minutes_of}

hours_of-bound : (env : AuthEnv) → (1 ≤ hours_of env) × (hours_of env ≤ 72)
unfolding hours_of
hours_of-bound env = as_int-bound env.session_hours 12 1 72 (omega arith) (omega arith)

-- Whatever the settings are, a session lives for 1 to 72 hours, its idle limit is no longer than
-- its life (0 stands for none), and a password is hashed in 8,000 to 100,000 rounds.
pub idle_minutes_of-bound :
    (env : AuthEnv)
    → ((1 ≤ hours_of env) × (hours_of env ≤ 72))
      × (idle_minutes_of env ≤ hours_of env * 60)
      × ((8000 ≤ iterations_of env) × (iterations_of env ≤ 100000))
unfolding idle_minutes_of iterations_of
idle_minutes_of-bound env =
    let life = hours_of-bound env in
    let idle =
      as_int-bound env.session_idle_minutes 60 0 (hours_of env * 60) (omega arith) (omega arith) in
    (
      life,
      idle.1,
      as_int-bound env.password_iterations 8000 8000 100000 (omega arith) (omega arith),
    )
