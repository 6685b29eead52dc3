-- ===== src/Tests/Scripts.antt =====
-- The setup of the webhook, in one environment.
use birr_track_backend.Base.{
  ◌≡◌, refl, true, none, some, Text, codes, text_eq, trim, is_space, trim_start, if◌then◌else◌,
}
use birr_track_backend.Base.Results.{Result, ok, err}
use birr_track_backend.Scripts.{
  Env, TelegramApiResponse, get_required_env, normalize_url, webhook_secret, base_url_of,
  webhook_url, main,
}
use birr_track_backend.Scripts.Address.{IsSetUp, main-IsSetUp}

-- What a run of the script computes with.
setup : Unit {0}
unfolding text_eq trim is_space trim_start get_required_env normalize_url webhook_secret base_url_of
    webhook_url main
setup = tt

abbrev env : Env
env name =
    if text_eq name (codes "TELEGRAM_BOT_TOKEN")
    then some (codes "12:ab ")
    else if text_eq name (codes "APP_BASE_URL")
    then some (codes "https://birr.example/")
    else if text_eq name (codes "TELEGRAM_WEBHOOK_SECRET")
    then some (codes "s3cret")
    else none

abbrev address : Text
address = codes "https://birr.example/telegram/webhook/s3cret"

-- Telegram accepts the one address only.
abbrev post : Text → Text → Result (TelegramApiResponse (Unit {0}))
post url webhook =
    if text_eq webhook address
    then ok (record { is_ok = true; result = some tt; description = none })
    else err (codes "404")

abbrev get : Text → Result (TelegramApiResponse Text)
get url = ok (record { is_ok = true; result = some address; description = none })

setup_runs : main env post get ≡ ok address
unfolding setup
setup_runs = refl

main-IsSetUp_example : IsSetUp env post
unfolding setup
main-IsSetUp_example = main-IsSetUp env post get address setup_runs refl
