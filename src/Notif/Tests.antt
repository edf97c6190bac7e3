-- ===== src/Notif/Tests.antt =====
-- The form for a channel of Telegram, and an event that is chosen a second time.
use marshal_pm.Base.{
  ℕ, refl, zero, suc, ap, length, is_blank, Floats, true, false, List, some, none, [], ◌∷◌, Text,
  codes, has, text_eq,
}
use marshal_pm.Base.{◌≤◌, ◌≡◌, arith}
use marshal_pm.Notif.Chips.{clicks, times, has-clicks}
use marshal_pm.Api.Http.{nullish}
use marshal_pm.Notif.{config_fields, secret_fields}
use marshal_pm.Notif.Channels.{field_value, config_of, secrets_of, is_secret}
use marshal_pm.Notif.Settings.{override_value, init_settings, settings_of}
use marshal_pm.Notif.Overrides.{settings_of-init_settings}
use marshal_pm.Samples.{whole_numbers}
use marshal_pm.Api.Types.{NotifSettings}
use marshal_pm.Notif.Forms.{field_value-submitted, typed}

abbrev fields : List (Text × Text)
fields = (codes "chat_id", codes "42") ∷ (codes "bot_token", codes "s3cret") ∷ []

field_value-submitted_example :
    (is_secret (codes "telegram") (codes "bot_token") ≡ true
      → (field_value (codes "bot_token") (config_of fields (config_fields (codes "telegram")))
          ≡ none)
        × (field_value (codes "bot_token") (secrets_of fields (secret_fields (codes "telegram")))
            ≡ typed (field_value (codes "bot_token") fields)))
    × (has (codes "bot_token") (config_fields (codes "telegram")) ≡ true
        → (field_value (codes "bot_token") (config_of fields (config_fields (codes "telegram")))
            ≡ some (nullish (field_value (codes "bot_token") fields) []))
          × (field_value (codes "bot_token") (secrets_of fields (secret_fields (codes "telegram")))
              ≡ none))
field_value-submitted_example = field_value-submitted fields (codes "telegram") (codes "bot_token")

-- Numbers that are shown as strokes, and read by counting them.
abbrev strokes : ℕ → Text
strokes zero = codes "|"
strokes (suc n) = 124 ∷ strokes n

abbrev counted : Text → ℕ
counted [] = 0
counted (c ∷ t) = length t

abbrev numbers : Floats
numbers = record whole_numbers { parse = counted }

length-strokes : (n : ℕ) → length (strokes n) ≡ suc n
length-strokes zero = refl
length-strokes (suc n) = ap suc (length-strokes n)

strokes_read : (n : ℕ) → (counted (strokes n) ≡ n) × (is_blank (strokes n) ≡ false)
strokes_read zero = (refl, refl)
strokes_read (suc n) = (length-strokes n, refl)

abbrev settings : NotifSettings ℕ
settings = record {
  cooldown_seconds = 300;
  suppress_recovery = some true;
  cooldown_overrides = some ((codes "recovered", 9) ∷ (codes "crash", 5) ∷ []);
  coalesce_window_seconds = none;
}

settings_of-init_settings_example :
    ((settings_of numbers strokes (init_settings numbers strokes settings)).cooldown_overrides
      ≡ some ((codes "crash", 5) ∷ (codes "recovered", 9) ∷ []))
    × ((settings_of numbers strokes (init_settings numbers strokes settings)).cooldown_seconds
        ≡ 300)
    × ((settings_of numbers strokes (init_settings numbers strokes settings)).suppress_recovery
        ≡ some true)
    × ((settings_of numbers strokes
          (init_settings numbers strokes settings)).coalesce_window_seconds
        ≡ some 10)
unfolding override_value text_eq
settings_of-init_settings_example = settings_of-init_settings numbers strokes settings strokes_read

abbrev chosen_events : List Text
chosen_events = codes "crash" ∷ []

has-clicks_example :
    (has
        (codes "crash")
        (clicks chosen_events (codes "crash" ∷ codes "agent_up" ∷ codes "crash" ∷ []))
      ≡ true)
    × (times
          (codes "crash")
          (clicks chosen_events (codes "crash" ∷ codes "agent_up" ∷ codes "crash" ∷ []))
        ≤ 1)
unfolding text_eq has
has-clicks_example =
    has-clicks chosen_events (codes "crash" ∷ codes "agent_up" ∷ codes "crash" ∷ []) (codes "crash")
      (omega arith)
