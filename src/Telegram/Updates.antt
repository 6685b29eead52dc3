-- ===== src/Telegram/Updates.antt =====
-- The handlers of src/telegram/telegram.update.ts.
use birr_track_backend.Base.{◌≡◌, refl, Option, some, [], ◌∷◌, Text, codes}
use birr_track_backend.Base.Effects.{M, pure}
use birr_track_backend.Processing.Reading.{ImageProcessingJobPayload}
use birr_track_backend.Telegram.Service.{
  Message, photo, text, other, Update, message, edited_message, no_message, Context, User,
  edited_message_of, handle_photo_message, handle_text_message,
}

module _ {S : Type 0} (reply : Text → M S (Unit {0})) where
  unfoldable pub start : Context → M S (Unit {0})
  start ctx = reply (codes "Welcome!")

  unfoldable pub handle_text : Context → M S (Unit {0})
  handle_text context = handle_text_message reply context

module _ {S : Type 0} (add : Text → ImageProcessingJobPayload → M S (Unit {0})) where
  unfoldable pub handle_photo : Context → M S (Unit {0})
  handle_photo context = handle_photo_message add context

  abbrev edited_photos : Context → Option Message → M S (Unit {0})
  edited_photos context (some (photo (p ∷ ps))) = handle_photo_message add context
  edited_photos context _ = pure tt

  -- `handleEditedMessage`.
  unfoldable pub handle_edited_message : Context → M S (Unit {0})
  handle_edited_message context = edited_photos context (edited_message_of context.update)

  -- No edited message is ever queued, whatever it holds: its photos are looked for in
  -- `context.message`, which an update with an edited message does not have.
  pub handle_edited_message-ignores : (context : Context) → handle_edited_message context ≡ pure tt
  unfolding handle_edited_message handle_photo_message
  handle_edited_message-ignores context = ignored context.update context.from
    where
      ignored :
          (u : Update) (from : Option User)
          → handle_edited_message (record { update = u; from = from }) ≡ pure tt
      ignored (message m) from = refl
      ignored no_message from = refl
      ignored (edited_message (text t)) from = refl
      ignored (edited_message other) from = refl
      ignored (edited_message (photo [])) from = refl
      ignored (edited_message (photo (p ∷ ps))) from = refl
