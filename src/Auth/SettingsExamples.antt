-- ===== src/Auth/SettingsExamples.antt =====
-- A session of two hours with an idle limit of a day, and too few rounds.
use mail_gable.Base.{◌≤◌, ◌*◌, ◌≡◌, refl}
use mail_gable.Auth.Tables.{AuthEnv, iterations_of, hours_of, idle_minutes_of}
use mail_gable.Auth.Settings.{idle_minutes_of-bound}
use mail_gable.Auth.Samples.{settings}

abbrev short : AuthEnv
short = record settings {
  session_hours = "2";
  session_idle_minutes = "1440";
  password_iterations = "7999";
}

hours_read : hours_of short ≡ 2
unfolding hours_of mail_gable.Helpers.as_int
hours_read = refl

-- the idle limit is out of range, so it is the default
idle_read : idle_minutes_of short ≡ 60
unfolding idle_minutes_of hours_of mail_gable.Helpers.as_int
idle_read = refl

idle_minutes_of-bound_example :
    ((1 ≤ hours_of short) × (hours_of short ≤ 72))
    × (idle_minutes_of short ≤ hours_of short * 60)
    × ((8000 ≤ iterations_of short) × (iterations_of short ≤ 100000))
idle_minutes_of-bound_example = idle_minutes_of-bound short
