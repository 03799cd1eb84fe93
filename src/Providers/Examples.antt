-- ===== src/Providers/Examples.antt =====
-- A send through Brevo whose answer does not arrive in time.
use mail_gable.Base.{true, false, []}
use mail_gable.Store.Samples.{no_rows}
use mail_gable.Providers.Defs.{Env}
use mail_gable.Providers.Send.{Answers, Outbox, no_answer, send_error}

abbrev env : Env
env = record {
  outbound_provider = "brevo";
  resend_api_key = "";
  brevo_api_key = "key";
  has_email_binding = false;
}

abbrev answers : Answers
answers = record {
  resend_answer = no_answer false;
  brevo_answer = no_answer true;
  cloudflare_answer = send_error "E_RATE_LIMIT_EXCEEDED" "slow down";
  estimated_bytes = 900;
}

abbrev empty : Outbox
empty = record { db = record no_rows { messages = [] }; submissions = []; bucket = [] }
