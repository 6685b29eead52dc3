-- ===== src/Scripts/SmokeTest/Passed.antt =====
-- That the smoke test ends, and what the instance has done when it passes.
use birr_track_backend.Base.{
  ℕ, suc, ◌*◌, ◌≤◌, ◌<◌, ◌≡◌, inl, inr, refl, ap, subst, arith, Option, none, some, Text, codes, [],
  ◌∷◌, ◌++◌,
}
use birr_track_backend.Base.Results.{Result, ok, Result-cases}
use birr_track_backend.Base.Effects.{Call-cases}
use mathlib.Core.Option
use birr_track_backend.Js.Numbers.{decimal, parse_int}
use birr_track_backend.Telegram.Service.{Context, User, message, photo}
use birr_track_backend.Scripts.{Env, webhook_secret, webhook_url}
use birr_track_backend.Scripts.SmokeSettings.{
  Readings, get_required_env_of, app_base_url, wait_for_backend_ms, timeout_ms,
}
use birr_track_backend.Scripts.SmokeTest.{
  Instance, and_then, ◌>>=◌, call, given_result, found_id, smoke_update, smoke_run, smoke_test,
}
use birr_track_backend.Scripts.SmokeTest.Ending.{
  IsAtMost, IsClock, Ends, Ends-and_then, Later, wait_for_health-Ends,
}
use birr_track_backend.Scripts.SmokeTest.Polling.{IsWithin, IsListed, IsFound, poll-Ends}

Ends-call :
    {S A : Type 0} (f : S → Result A × S) (s : S) → Ends (call f s) (λ a s'. f s ≡ (ok a, s'))
Ends-call f s = elim (Call-cases (f s)) [
  | inl (a, s', done) ↦ inr (a, s', ap some done, done)
  | inr (e, s', failed) ↦ inl (e, s', ap some failed)
]

module _ {S Summary : Type 0} (js : Readings) (app : Instance S Summary) (env : Env) where
  -- The instance has taken an update with a photo from the user.
  pub record IsPosted (user : Text) : Type 0 where
    pub context : Context
    pub at : S
    pub next : S
    pub photo_id : Text
    pub is_required : get_required_env_of env (codes "SMOKE_TELEGRAM_FILE_ID") ≡ ok photo_id
    pub photo_is :
        context.update
        ≡ message (photo (record { width = 1280; height = 960; file_id = photo_id } ∷ []))
    pub sender_is : Option.map (λ (u : User). u.id) context.from ≡ some (parse_int user)
    pub taken :
        app.post_update
          (app_base_url js env ++ (codes "/telegram/webhook/" ++ webhook_secret env))
          context
          at
        ≡ (ok tt, next)

module _ {S Summary : Type 0} (js : Readings) (app : Instance S Summary) (clock : S → ℕ)
    (env : Env) where
  -- What has happened when the test passes with an id and a summary, from the time of a state on.
  pub record IsPassed (s0 : S) (result : Text × Summary) (s : S) : Type 0 where
    pub user : Text
    pub start : ℕ
    pub since : clock s0 ≤ start
    pub posted : IsPosted js app env user
    pub listed : IsListed js app (app_base_url js env) user start result.0
    pub before : S
    pub summed : app.get_summary (app_base_url js env) user before ≡ (ok result.1, s)

module _ {S Summary : Type 0} (js : Readings) (app : Instance S Summary) (clock : S → ℕ)
    (laws : IsClock app clock) (env : Env) where
  abbrev url : Text
  url = app_base_url js env

  -- The end of the run, from what the loop has found.
  summed :
      (s0 : S) (user : Text) (start : ℕ) (found : Option Text) (s : S)
      → clock s0 ≤ start
      → IsPosted js app env user
      → IsFound js app url user start found s
      → Ends
          (and_then
            (some (found_id found, s))
            λ id. call (app.get_summary url user) >>= λ summary. given_result (ok (id, summary)))
          (IsPassed js app clock env s0)
  summed s0 user start none s since posted listed = inl (_, s, refl)
  summed s0 user start (some []) s since posted listed = inl (_, s, refl)
  summed s0 user start (some (c ∷ id)) s since posted listed =
      elim (Call-cases (app.get_summary url user s)) [
        | inr (e, s', failed) ↦ rw failed (inl (e, s', refl))
        | inl (summary, s', done) ↦ rw done (
            inr (
              (c ∷ id, summary),
              s',
              refl,
              record {
                user = user;
                start = start;
                since = since;
                posted = posted;
                listed = listed;
                before = s;
                summed = done;
              },
            ))
      ]

  after_call :
      {A : Type 0} (s : S) (r : Result A × S) (a : A) (s' : S)
      → r ≡ (ok a, s')
      → clock s ≤ clock r.1
      → clock s ≤ clock s'
  after_call s r a s' same later = subst (λ z. clock s ≤ clock z) (cc) later

  smoke_run-Ends :
      (f w t : ℕ) (file_id user : Text) (start : ℕ) (s0 s : S)
      → IsAtMost w (wait_for_backend_ms js env)
      → IsWithin t (timeout_ms js env)
      → w < 2000 * f
      → t ≤ 3000 * f
      → clock s0 ≤ start
      → start ≤ clock s
      → get_required_env_of env (codes "SMOKE_TELEGRAM_FILE_ID") ≡ ok file_id
      → Ends (smoke_run js app (suc f) env file_id user start s) (IsPassed js app clock env s0)
  smoke_run-Ends f w t file_id user start s0 s most within few_waits few_polls since started given =
      let read = laws.now_read s in
      let s1 = (app.date_now s).1 in
      Ends-and_then (Later js app clock laws s1) (IsPassed js app clock env s0) _ _
        (wait_for_health-Ends js app clock laws f url w (wait_for_backend_ms js env)
          (app.date_now s).0 s1 most (omega (arith, read, few_waits)))
        λ u s2 later.
          let post =
            app.post_update (webhook_url url (webhook_secret env)) (smoke_update user file_id) in
          let P : Unit → S → Type 0 = λ v s3. post s2 ≡ (ok v, s3) in
          Ends-and_then P (IsPassed js app clock env s0) (call post s2) _ (Ends-call post s2)
            λ v s3 posted.
              Ends-and_then (IsFound js app url user start) (IsPassed js app clock env s0) _ _
                (poll-Ends js app clock laws url user start f t (timeout_ms js env) s3 within (
                  omega (
                    arith,
                    started,
                    read,
                    later,
                    after_call s2 (post s2) v s3 posted (laws.after_post _ _ s2),
                    few_polls,
                  )))
                λ found s4 is_found.
                  summed s0 user start found s4 since
                    (record {
                      context = smoke_update user file_id;
                      at = s2;
                      next = s3;
                      photo_id = file_id;
                      is_required = given;
                      photo_is = refl;
                      sender_is = refl;
                      taken = unfold webhook_url in posted;
                    })
                    is_found

  -- The smoke test ends, with an error or with success, if the wait for the instance and the timeout are
  -- at most `w` and `t` milliseconds and the loops may have more rounds than `w / 2000` and `t / 3000`,
  -- on a clock that does not go back and whose pauses take their time. When it succeeds with an id,
  -- the instance has taken an update from a user, at the webhook's address and with the photo that is
  -- set, and has listed a transaction of that id and of the same user, made since a time that is not
  -- before the test's start, and the first such one of the list; and the summary is the instance's
  -- answer for that user.
  pub smoke_test-Ends :
      (f w t : ℕ) (s : S)
      → IsAtMost w (wait_for_backend_ms js env)
      → IsWithin t (timeout_ms js env)
      → w < 2000 * f
      → t ≤ 3000 * f
      → Ends (smoke_test js app (suc f) env s) (IsPassed js app clock env s)
  unfolding smoke_test
  smoke_test-Ends f w t s most within few_waits few_polls =
      elim (Result-cases (get_required_env_of env (codes "SMOKE_TELEGRAM_FILE_ID"))) [
        | inr (e, missing) ↦ rw missing (inl (e, s, refl))
        | inl (file_id, given) ↦
            let user_read = laws.now_read s in
            let s1 = (app.date_now s).1 in
            let start_read = laws.now_read s1 in
            rw given (
              smoke_run-Ends f w t file_id (codes "99" ++ decimal (app.date_now s).0)
                (app.date_now s1).0 s (app.date_now s1).1 most within few_waits few_polls
                (omega (arith, user_read, start_read)) start_read.1 given)
      ]
