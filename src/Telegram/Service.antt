-- ===== src/Telegram/Service.antt =====
-- src/telegram/telegram.service.ts, src/telegram/telegram.constants.ts and the call
-- `enqueueImageProcessingJob` of src/queue/queue.service.ts. The queue and the chat are parameters.
use birr_track_backend.Base.{
  ℕ, ◌*◌, Bool, Option, none, some, List, [], ◌∷◌, ◌++◌, Text, codes, leb, ◌==◌, trim,
  if◌then◌else◌,
}
use birr_track_backend.Base.Sorting.{insert_by, sort_by}
use birr_track_backend.Base.Effects.{M, pure}
use birr_track_backend.Js.Numbers.{decimal}
use birr_track_backend.Processing.Reading.{ImageProcessingJobPayload}

-- A size of a photo of the Bot API.
pub record PhotoSize : Type 0 where
  pub width : ℕ
  pub height : ℕ
  pub file_id : Text

-- A message of the Bot API, by the key that tells its kind.
pub data Message : Type 0 where
  photo : List PhotoSize → Message
  text : Text → Message
  other : Message

pub record User : Type 0 where
  pub id : ℕ
  pub first_name : Option Text
  pub last_name : Option Text
  pub username : Option Text

-- An update holds a new message, an edited one, or something else: never two of them.
pub data Update : Type 0 where
  message edited_message : Message → Update
  no_message : Update

-- Telegraf's `Context`: its sender is that of whichever message the update holds.
pub record Context : Type 0 where
  pub update : Update
  pub from : Option User

-- `context.message`, `context.editedMessage`.
abbrev pub message_of : Update → Option Message
message_of (message m) = some m
message_of _ = none

abbrev pub edited_message_of : Update → Option Message
edited_message_of (edited_message m) = some m
edited_message_of _ = none

abbrev pub default_unknown_telegram_user : Text
default_unknown_telegram_user = codes "Unknown User"

abbrev pub image_processing_job : Text
image_processing_job = codes "process-image"

-- `[name].filter(Boolean)`.
abbrev pub non_empty : Option Text → List Text
non_empty none = []
non_empty (some []) = []
non_empty (some (c ∷ s)) = (c ∷ s) ∷ []

-- `names.join(' ')`.
abbrev pub join : List Text → Text
join [] = []
join (name ∷ []) = name
join (name ∷ more) = name ++ (b' ' ∷ join more)

abbrev pub full_name : Option Text → Option Text → Text
full_name first_name last_name = trim (join (non_empty first_name ++ non_empty last_name))

abbrev pub or_default : List Text → Text
or_default [] = default_unknown_telegram_user
or_default (name ∷ _) = name

-- `if (name) return name`, else the next.
abbrev pub first_non_empty : Text → Text → Text
first_non_empty [] next = next
first_non_empty (c ∷ s) next = c ∷ s

-- `buildDisplayName`.
unfoldable pub build_display_name : Option Text → Option Text → Option Text → Text
build_display_name first_name last_name username =
    first_non_empty (full_name first_name last_name) (or_default (non_empty username))

-- The number of pixels of a size.
abbrev pub pixels : PhotoSize → ℕ
pixels p = p.width * p.height

-- The comparator `b.width * b.height - a.width * a.height` is not positive.
abbrev pub not_smaller : PhotoSize → PhotoSize → Bool
not_smaller a b = leb (pixels b) (pixels a)

abbrev pub head_of {ℓ} : {A : Type ℓ} → List A → Option A
head_of [] = none
head_of (x ∷ xs) = some x

-- `sortedPhotos[0]`.
unfoldable pub select_photo : List PhotoSize → Option PhotoSize
unfolding sort_by insert_by
select_photo photos = head_of (sort_by not_smaller photos)

-- The payload of `enqueueImageProcessingJob`.
unfoldable pub photo_payload : User → PhotoSize → ImageProcessingJobPayload
unfolding build_display_name decimal
photo_payload user selected = record {
  telegram_user_id = decimal user.id;
  telegram_name = build_display_name user.first_name user.last_name user.username;
  file_id = selected.file_id;
}

-- `context.from?.id`, which is falsy if it is missing or zero.
abbrev pub sender : Option User → Option User
sender none = none
sender (some user) = if user.id == 0 then none else some user

module _ {S : Type 0} (add : Text → ImageProcessingJobPayload → M S (Unit {0})) where
  abbrev pub enqueue_image_processing_job : ImageProcessingJobPayload → M S (Unit {0})
  enqueue_image_processing_job payload = add image_processing_job payload

  abbrev enqueue_selected : User → Option PhotoSize → M S (Unit {0})
  enqueue_selected user none = pure tt
  enqueue_selected user (some selected) = enqueue_image_processing_job (photo_payload user selected)

  abbrev photos_from : Option Message → Option User → M S (Unit {0})
  photos_from (some (photo photos)) (some user) = enqueue_selected user (select_photo photos)
  photos_from _ _ = pure tt

  -- `handlePhotoMessage`.
  unfoldable pub handle_photo_message : Context → M S (Unit {0})
  handle_photo_message context = photos_from (message_of context.update) (sender context.from)

module _ {S : Type 0} (reply : Text → M S (Unit {0})) where
  abbrev greet : Option Message → M S (Unit {0})
  greet (some (text _)) = reply (codes "Hello")
  greet _ = pure tt

  -- `handleTextMessage`.
  unfoldable pub handle_text_message : Context → M S (Unit {0})
  handle_text_message context = greet (message_of context.update)
