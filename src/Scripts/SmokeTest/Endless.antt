-- ===== src/Scripts/SmokeTest/Endless.antt =====
-- A wait that is not a number: the loop has no deadline.
use birr_track_backend.Base.{ℕ, zero, suc, ◌≡◌, refl, false, none, Text}
use birr_track_backend.Scripts.SmokeSettings.{not_a_number, Readings, is_healthy}
use birr_track_backend.Scripts.SmokeTest.{Instance, wait_for_health}

-- With `SMOKE_WAIT_FOR_BACKEND_MS` set to a text that is no number, and an instance that never answers
-- well, no number of rounds ends the loop: each comparison with NaN is false.
pub wait_for_health-none :
    {S Summary : Type 0} (js : Readings) (app : Instance S Summary) (url : Text) (from fuel : ℕ)
    (s : S)
    → ((s' : S) → is_healthy (app.get_health url s').0 ≡ false)
    → wait_for_health js app fuel url not_a_number from s ≡ none
unfolding wait_for_health
wait_for_health-none js app url from zero s down = refl
wait_for_health-none js app url from (suc fuel) s down =
    rw (down s) (wait_for_health-none js app url from fuel _ down)
