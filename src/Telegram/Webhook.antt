-- ===== src/Telegram/Webhook.antt =====
-- src/telegram/telegram.controller.ts.
use birr_track_backend.Base.{
  ◌≡◌, ◌≢◌, inl, inr, refl, true, Bool, Option, none, some, [], ◌∷◌, Text, codes, text_eq,
  text_eq_iff, Bool-cases, if◌then◌else◌,
}
use birr_track_backend.Base.Effects.{M, ◌>>◌, pure, throw, Call-cases}
use birr_track_backend.Base.Results.{Result, ok, err}
use birr_track_backend.Processing.Services.{Config}

abbrev pub invalid_secret : Text
invalid_secret = codes "Invalid Telegram webhook secret"

-- A secret that is configured, and not empty, is the one that a request must have.
abbrev pub IsAllowed : Option Text → Text → Type 0
IsAllowed configured secret =
    (expected : Text) → configured ≡ some expected → expected ≢ [] → secret ≡ expected

-- `handle_update` is `telegramBot.handleUpdate`; the route returns `{ ok: true }`.
module _ {S Update : Type 0} (handle_update : Update → M S (Unit {0})) where
  abbrev pub accept : Update → M S Bool
  accept update = do handle_update update; pure true

  abbrev checked : Option Text → Text → Update → M S Bool
  checked none secret update = accept update
  checked (some []) secret update = accept update
  checked (some (c ∷ s)) secret update =
      if text_eq secret (c ∷ s) then accept update else throw invalid_secret

  -- `handleWebhook`.
  unfoldable pub handle_webhook : Config → Text → Update → M S Bool
  handle_webhook config secret update =
      checked (config (codes "TELEGRAM_WEBHOOK_SECRET")) secret update

  -- What a request that got `r` has done.
  pub data Guarded (configured : Option Text) (secret : Text) (update : Update) (s : S)
      : Result Bool × S → Type 0 where
    handled :
        (s' : S)
        → IsAllowed configured secret
        → handle_update update s ≡ (ok tt, s')
        → Guarded configured secret update s (ok true, s')
    failed :
        (e : Text) (s' : S)
        → IsAllowed configured secret
        → handle_update update s ≡ (err e, s')
        → Guarded configured secret update s (err e, s')
    refused :
        ¬ IsAllowed configured secret
        → Guarded configured secret update s (err (codes "Invalid Telegram webhook secret"), s)

  accept-Guarded :
      (configured : Option Text) (secret : Text) (update : Update) (s : S)
      → IsAllowed configured secret
      → Guarded configured secret update s (accept update s)
  accept-Guarded configured secret update s allowed = elim (Call-cases (handle_update update s)) [
    | inl (u, s', done) ↦ rw done (handled s' allowed done)
    | inr (e, s', threw) ↦ rw threw (failed e s' allowed threw)
  ]

  checked-Guarded :
      (configured : Option Text) (secret : Text) (update : Update) (s : S)
      → Guarded configured secret update s (checked configured secret update s)
  checked-Guarded none secret update s = accept-Guarded none secret update s (λ t e. absurd (cc))
  checked-Guarded (some []) secret update s =
      accept-Guarded (some []) secret update s (λ t e some_text. absurd (some_text (cc e)))
  checked-Guarded (some (c ∷ w)) secret update s = elim (Bool-cases (text_eq secret (c ∷ w))) [
    | inl same ↦ rw same (
        accept-Guarded (some (c ∷ w)) secret update s
          (λ t e some_text. cc (e, (text_eq_iff secret (c ∷ w)).0 same)))
    | inr other ↦ rw other (
        refused
          (λ allowed. cc (other, (text_eq_iff secret (c ∷ w)).1 (allowed (c ∷ w) refl (λ e. cc)))))
  ]

  -- A request is let through if it has the secret that is configured, or if none is configured or it is
  -- empty: then the bot is handed its update, and the answer is `true`, or the bot's error. Any other
  -- request is refused with "Invalid Telegram webhook secret", and nothing has changed.
  pub handle_webhook-Guarded :
      (config : Config) (secret : Text) (update : Update) (s : S)
      → Guarded
          (config (codes "TELEGRAM_WEBHOOK_SECRET"))
          secret
          update
          s
          (handle_webhook config secret update s)
  unfolding handle_webhook
  handle_webhook-Guarded config secret update s =
      checked-Guarded (config (codes "TELEGRAM_WEBHOOK_SECRET")) secret update s
