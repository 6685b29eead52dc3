-- ===== src/Tests/Settings.antt =====
-- The settings of one environment.
use birr_track_backend.Base.{◌≡◌, refl, none, some, [], ◌∷◌, codes, text_eq, if◌then◌else◌}
use birr_track_backend.Processing.Services.{Config}
use birr_track_backend.Settings.{cors_origin, split_comma, listen_port}

abbrev env : Config
env name =
    if text_eq name (codes "PORT")
    then some (codes "8080")
    else if text_eq name (codes "CORS_ALLOWED_ORIGINS")
    then some (codes "http://a, http://b")
    else none

-- The variable PORT does not move the server.
test_port : listen_port env ≡ codes "3000"
unfolding text_eq listen_port
test_port = refl

-- A blank after a comma is part of the origin.
test_origins : cors_origin env ≡ some (codes "http://a" ∷ codes " http://b" ∷ [])
unfolding text_eq cors_origin split_comma
test_origins = refl
