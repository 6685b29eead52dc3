-- ===== src/Tests/Telegram.antt =====
-- The theorems on src/telegram at single updates, with a list for the queue.
use birr_track_backend.Base.{ℕ, ◌≡◌, none, some, List, [], ◌∷◌, ◌++◌, Text, codes}
use birr_track_backend.Base.Results.{ok}
use birr_track_backend.Base.Effects.{M, pure}
use birr_track_backend.Processing.Reading.{ImageProcessingJobPayload}
use birr_track_backend.Processing.Services.{Config}
use birr_track_backend.Telegram.Service.{
  PhotoSize, User, Message, photo, message, edited_message, Context,
}
use birr_track_backend.Telegram.Updates.{handle_edited_message, handle_edited_message-ignores}
use birr_track_backend.Telegram.Webhook.{handle_webhook, Guarded, handle_webhook-Guarded}

abbrev Jobs : Type 0
Jobs = List (Text × ImageProcessingJobPayload)

abbrev add_job : Text → ImageProcessingJobPayload → M Jobs (Unit {0})
add_job name payload jobs = (ok tt, jobs ++ (name, payload) ∷ [])

abbrev size : ℕ → Text → PhotoSize
size n file_id = record { width = n; height = n; file_id = file_id }

abbrev two_sizes : Message
two_sizes = photo (size 90 (codes "small") ∷ size 320 (codes "large") ∷ [])

abbrev abel : User
abel = record { id = 7; first_name = some (codes "Abel"); last_name = none; username = none }

abbrev new_photo : Context
new_photo = record { update = message two_sizes; from = some abel }

abbrev edited_photo : Context
edited_photo = record { update = edited_message two_sizes; from = some abel }

handle_edited_message-ignores_example : handle_edited_message add_job edited_photo ≡ pure tt
handle_edited_message-ignores_example = handle_edited_message-ignores add_job edited_photo

abbrev add_update : ℕ → M (List ℕ) (Unit {0})
add_update n updates = (ok tt, updates ++ n ∷ [])

abbrev secret_config : Config
secret_config key = some (codes "s3cret")

handle_webhook-Guarded_example :
    Guarded add_update
      (some (codes "s3cret"))
      (codes "guess")
      1
      []
      (handle_webhook add_update secret_config (codes "guess") 1 [])
handle_webhook-Guarded_example =
    handle_webhook-Guarded add_update secret_config (codes "guess") 1 []
