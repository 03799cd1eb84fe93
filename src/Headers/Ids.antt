-- ===== src/Headers/Ids.antt =====
-- Tests of the Message-ID functions.
use mail_gable.Base.{◌≡◌, refl, [], ◌∷◌}
use mail_gable.Headers.{normalize_internet_message_id, references}

ids_tests :
    (normalize_internet_message_id "  x <a@b> <c@d>" ≡ "<a@b>")
    × (normalize_internet_message_id "a@b\r\n" ≡ "<a@b>")
    × (normalize_internet_message_id "a @b" ≡ "")
    × (references "<a@b>\n <<c> <> <d e> <f>" ≡ "<a@b>" ∷ "<c>" ∷ "<f>" ∷ [])
unfolding normalize_internet_message_id references
ids_tests = (refl, refl, refl, refl)
