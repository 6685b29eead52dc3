-- ===== src/Js/Dates.antt =====
-- `Date` objects where the program only passes them on, behind an interface: which texts other than
-- ISO ones `new Date(text)` reads is left to the implementation by the language.
use birr_track_backend.Base.{◌≡◌, Bool, true, Option, Text, codes}

pub record JsDate (Time : Type 0) : Type 0 where
  -- `new Date(text)`; `none` is an Invalid Date.
  pub date_of : Text → Option Time
  -- `new Date(null)`, which is `new Date(0)`.
  pub epoch : Time
  -- `toISOString`.
  pub iso_of : Time → Text
  pub epoch_iso : iso_of epoch ≡ codes "1970-01-01T00:00:00.000Z"
  -- `a <= b`, and `a` and `b` are one instant.
  pub le : Time → Time → Bool
  pub same : Time → Time → Bool
  pub le_refl : (t : Time) → le t t ≡ true
  pub same_refl : (t : Time) → same t t ≡ true
