-- ===== src/Scripts/Address.antt =====
-- That the address that Telegram is given is one that the webhook lets through.
use birr_track_backend.Base.{
  ◌≡◌, ◌≢◌, inl, inr, refl, sym, ap, subst, ◌∙◌, true, Option, none, some, [], ◌∷◌, ◌++◌, Text,
  codes, trim, Bool-cases,
}
use birr_track_backend.Base.Results.{Result, ok, Result-cases}
use birr_track_backend.Processing.Files.{trimmed}
use birr_track_backend.Processing.Services.{required, required_ok}
use birr_track_backend.Telegram.Webhook.{IsAllowed}
use birr_track_backend.Scripts.{
  Env, TelegramApiResponse, trimmed_env, or_else_text, get_required_env, webhook_secret,
  base_url_of, webhook_url, api, no_base, main,
}

-- The secret of the environment has no blanks around it.
abbrev pub IsTrimmed : Option Text → Type 0
IsTrimmed none = Unit
IsTrimmed (some secret) = trim secret ≡ secret

secret-IsAllowed :
    (o : Option Text) (env : Env)
    → env (codes "TELEGRAM_WEBHOOK_SECRET") ≡ o
    → IsTrimmed o
    → IsAllowed o (webhook_secret env)
unfolding webhook_secret
secret-IsAllowed none env e h = λ t is. absurd (cc)
secret-IsAllowed (some []) env e h = λ t is some_text. absurd (some_text (cc is))
secret-IsAllowed (some (c ∷ s)) env e h = λ t is some_text.
    ap (λ o. or_else_text (trimmed o) (codes "default-webhook-secret")) e
    ∙ (ap (λ t. or_else_text (some t) (codes "default-webhook-secret")) h ∙ cc is)

raw_of_trimmed :
    (o : Option Text) (w : Text)
    → trimmed o ≡ some w
    → (raw : Text) × (o ≡ some raw) × (trim raw ≡ w)
raw_of_trimmed none w e = absurd (cc)
raw_of_trimmed (some raw) w e = (raw, refl, cc)

-- What a setup that succeeded has done.
pub record IsSetUp {A : Type 0} (env : Env) (post : Text → Text → Result (TelegramApiResponse A))
    : Type 0 where
  pub token : Text
  pub response : TelegramApiResponse A
  pub secret : Text
  pub token_of : (raw : Text) × (env (codes "TELEGRAM_BOT_TOKEN") ≡ some raw) × (trim raw ≡ token)
  pub some_token : token ≢ []
  pub some_base : base_url_of env ≢ []
  pub posted :
      post
        (codes "https://api.telegram.org/bot" ++ token ++ codes "/" ++ codes "setWebhook")
        (base_url_of env ++ (codes "/telegram/webhook/" ++ secret))
      ≡ ok response
  pub allowed : IsAllowed (env (codes "TELEGRAM_WEBHOOK_SECRET")) secret
  pub accepted : response.is_ok ≡ true

-- A setup that succeeds, where the configured secret has no blanks around it, has called `setWebhook`
-- with the token of TELEGRAM_BOT_TOKEN, without the blanks around it and not empty. The address that it
-- told Telegram is a base address that is not empty, `/telegram/webhook/` and a secret that the webhook
-- lets through; and Telegram has accepted it.
pub main-IsSetUp :
    {A Info : Type 0} (env : Env) (post : Text → Text → Result (TelegramApiResponse A))
    (get : Text → Result (TelegramApiResponse Info)) (info : Info)
    → main env post get ≡ ok info
    → IsTrimmed (env (codes "TELEGRAM_WEBHOOK_SECRET"))
    → IsSetUp env post
unfolding main get_required_env
main-IsSetUp env post get info e h =
    elim (Result-cases (
      required (trimmed_env env (codes "TELEGRAM_BOT_TOKEN"))
        (codes "TELEGRAM_BOT_TOKEN" ++ codes " is required"))) [
          | inr (m, h1) ↦ absurd (cc (rw h1 at e))
          | inl (token, h1) ↦ elim (Result-cases (required (some (base_url_of env)) no_base)) [
            | inr (m, h2) ↦ absurd (cc (rw (h1, h2) at e))
            | inl (base, h2) ↦
                let (base_is, some_base) = required_ok (some (base_url_of env)) no_base base h2 in
                let same : base_url_of env ≡ base = cc in
                elim (Result-cases
                  (post (api token (codes "setWebhook")) (webhook_url base (webhook_secret env)))) [
                    | inr (m, h3) ↦ absurd (cc (rw (h1, h2, h3) at e))
                    | inl (response, h3) ↦ elim (Bool-cases response.is_ok) [
                      | inr refused ↦ absurd (cc (rw (h1, h2, h3, refused) at e))
                      | inl accepted ↦ record {
                        token = token;
                        secret = webhook_secret env;
                        token_of =
                            raw_of_trimmed (env (codes "TELEGRAM_BOT_TOKEN")) token
                              (required_ok (trimmed_env env (codes "TELEGRAM_BOT_TOKEN")) _ token
                                h1).0;
                        response = response;
                        some_token =
                            (required_ok (trimmed_env env (codes "TELEGRAM_BOT_TOKEN")) _ token
                              h1).1;
                        some_base = subst (λ z. z ≢ []) (sym same) some_base;
                        posted =
                            ap
                              (λ z.
                                post (api token (codes "setWebhook"))
                                  (z ++ (codes "/telegram/webhook/" ++ webhook_secret env)))
                              same
                            ∙ unfold webhook_url in h3;
                        allowed =
                            secret-IsAllowed (env (codes "TELEGRAM_WEBHOOK_SECRET")) env refl h;
                        accepted = accepted;
                      }
                    ]
                  ]
          ]
        ]
