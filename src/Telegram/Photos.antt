-- ===== src/Telegram/Photos.antt =====
-- Which photo is queued, and under which name.
use birr_track_backend.Base.{
  ◌≡◌, ◌≢◌, inl, inr, refl, ap, ◌∙◌, ◌≤◌, ◌<◌, arith, Option, none, some, List, [], ◌∷◌, ◌++◌, Text,
  All, Bool-cases, if◌then◌else◌,
}
use birr_track_backend.Base.Sorting.{insert_by, sort_by}
use birr_track_backend.Base.Effects.{M}
use birr_track_backend.Processing.Reading.{ImageProcessingJobPayload}
use birr_track_backend.Telegram.Service.{
  PhotoSize, photo, User, message, Context, pixels, not_smaller, head_of, select_photo,
  photo_payload, sender, handle_photo_message, image_processing_job,
}

-- The first of the sizes with the most pixels.
pub record IsLargest (photos : List PhotoSize) (p : PhotoSize) : Type 0 where
  pub before : List PhotoSize
  pub after : List PhotoSize
  pub split : photos ≡ before ++ p ∷ after
  pub smaller_before : All (λ q. pixels q < pixels p) before
  pub not_larger : All (λ q. pixels q ≤ pixels p) photos

abbrev better : PhotoSize → Option PhotoSize → PhotoSize
better x none = x
better x (some y) = if not_smaller x y then x else y

head-insert :
    (x : PhotoSize) (xs : List PhotoSize)
    → head_of (insert_by not_smaller x xs) ≡ some (better x (head_of xs))
unfolding insert_by
head-insert x [] = refl
head-insert x (y ∷ ys) = elim (Bool-cases (not_smaller x y)) [
  | inl first ↦ rw first
  | inr later ↦ rw later
]

All-up_to :
    (x p : PhotoSize) (photos : List PhotoSize)
    → pixels p ≤ pixels x
    → All (λ q. pixels q ≤ pixels p) photos
    → All (λ q. pixels q ≤ pixels x) photos
All-up_to x p [] h all = tt
All-up_to x p (q ∷ qs) h all = (omega (arith, all.0), All-up_to x p qs h all.1)

-- The largest of one more size, from the largest of the rest.
better-IsLargest :
    (x : PhotoSize) (xs : List PhotoSize) (y : PhotoSize)
    → IsLargest xs y
    → IsLargest (x ∷ xs) (better x (some y))
better-IsLargest x xs y l = elim (Bool-cases (not_smaller x y)) [
  | inl first ↦
      let le : pixels y ≤ pixels x = ground arith in
      rw first (record {
        before = [];
        after = xs;
        split = refl;
        smaller_before = tt;
        not_larger = (omega arith, All-up_to x y xs le l.not_larger);
      })
  | inr later ↦
      let lt : pixels x < pixels y = ground arith in
      rw later (record {
        before = x ∷ l.before;
        after = l.after;
        split = ap (λ z. x ∷ z) l.split;
        smaller_before = (lt, l.smaller_before);
        not_larger = (omega (arith, lt), l.not_larger);
      })
]

pub select_photo-IsLargest :
    (p : PhotoSize) (ps : List PhotoSize)
    → (selected : PhotoSize) × (select_photo (p ∷ ps) ≡ some selected) × IsLargest (p ∷ ps) selected
unfolding select_photo sort_by
select_photo-IsLargest p [] = (
  p,
  refl,
  record {
    before = [];
    after = [];
    split = refl;
    smaller_before = tt;
    not_larger = (omega arith, tt);
  },
)
select_photo-IsLargest p (q ∷ qs) =
    let (y, found, largest) = select_photo-IsLargest q qs in
    (
      better p (some y),
      head-insert p (sort_by not_smaller (q ∷ qs)) ∙ ap (λ o. some (better p o)) found,
      better-IsLargest p (q ∷ qs) y largest,
    )

-- What a context has that is queued: a new message with a photo, and a sender with an id.
pub record HasPhoto (context : Context) : Type 0 where
  pub sizes : List PhotoSize
  pub user : User
  pub is_new : context.update ≡ message (photo sizes)
  pub some_size : sizes ≢ []
  pub sent_by : sender context.from ≡ some user

module _ {S : Type 0} (add : Text → ImageProcessingJobPayload → M S (Unit {0}))
    (context : Context) where
  -- The one job of a photo message.
  pub record Queued : Type 0 where
    pub has : HasPhoto context
    pub selected : PhotoSize
    pub largest : IsLargest has.sizes selected
    pub name_given : (photo_payload has.user selected).telegram_name ≢ []
    pub added :
        handle_photo_message add context
        ≡ add image_processing_job (photo_payload has.user selected)
