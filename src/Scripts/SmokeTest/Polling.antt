-- ===== src/Scripts/SmokeTest/Polling.antt =====
-- That the loop that waits for the transaction ends, and what it finds.
use birr_track_backend.Base.{
  ℕ, zero, suc, ◌+◌, ◌-◌, ◌*◌, ◌≤◌, ◌<◌, ◌≡◌, inl, inr, refl, arith, true, Option, none, some, List,
  Text, find_first, IsFirst, find_first_sound, Bool-cases, Option-cases, text_eq, text_eq_iff,
  and_true,
}
use birr_track_backend.Base.Results.{Result, ok, err}
use birr_track_backend.Scripts.SmokeSettings.{
  Number, not_a_number, negative, natural, Item, Readings, poll_interval_ms, is_waiting, is_since,
  is_recent,
}
use birr_track_backend.Scripts.SmokeTest.{Instance, seen, poll}
use birr_track_backend.Scripts.SmokeTest.Ending.{IsClock, Ends}

-- At most `n` milliseconds, or none that a time is less than.
abbrev pub IsWithin : ℕ → Number → Type 0
IsWithin n (natural k) = k ≤ n
IsWithin n _ = Unit

waiting_lem :
    (n : ℕ) (timeout : Number) (start now : ℕ)
    → IsWithin n timeout
    → is_waiting timeout start now ≡ true
    → now - start < n
waiting_lem n (natural k) start now most h = ground arith
waiting_lem n not_a_number start now most h = absurd (cc)
waiting_lem n negative start now most h = absurd (cc)

since_made :
    (start : ℕ) (o : Option ℕ) → is_since start o ≡ true → (t : ℕ) × (o ≡ some t) × (start ≤ t)
since_made start none h = absurd (cc)
since_made start (some t) h = (t, refl, ground (arith, h))

is_recent_made :
    (js : Readings) (user : Text) (start : ℕ) (item : Item)
    → is_recent js user start item ≡ true
    → (item.telegram_user_id ≡ user)
      × ((t : ℕ) × (js.get_time item.created_at ≡ some t) × (start ≤ t))
is_recent_made js user start item h =
    let (same, since) =
      and_true (text_eq item.telegram_user_id user) (is_since start (js.get_time item.created_at))
        h in
    (
      (text_eq_iff item.telegram_user_id user).0 same,
      since_made start (js.get_time item.created_at) since,
    )

module _ {S Summary : Type 0} (js : Readings) (app : Instance S Summary) where
  -- The instance has listed a transaction of the user with the id, made since the start.
  pub record IsListed (url user : Text) (start : ℕ) (id : Text) : Type 0 where
    pub before : S
    pub after : S
    pub items : List Item
    pub item : Item
    pub listed : app.get_transactions url user before ≡ (ok items, after)
    pub is_first : IsFirst (is_recent js user start) items item
    pub of_user : item.telegram_user_id ≡ user
    pub made : (t : ℕ) × (js.get_time item.created_at ≡ some t) × (start ≤ t)
    pub id_is : id ≡ item.id

  abbrev pub IsFound : Text → Text → ℕ → Option Text → S → Type 0
  IsFound url user start none s = Unit
  IsFound url user start (some id) s = IsListed url user start id

module _ {S Summary : Type 0} (js : Readings) (app : Instance S Summary) (clock : S → ℕ)
    (laws : IsClock app clock) (url user : Text) (start : ℕ) where
  abbrev round_start : S → ℕ
  round_start s = (app.date_now s).0

  abbrev answered : S → Result (List Item) × S
  answered s = app.get_transactions url user (app.date_now s).1

  abbrev next_round : S → S
  next_round s = app.sleep poll_interval_ms (answered s).1

  round_takes : (s : S) → (clock s ≤ round_start s) × (clock s + 3000 ≤ clock (next_round s))
  round_takes s =
      let read = laws.now_read s in
      let listed = laws.after_listing url user (app.date_now s).1 in
      let slept = laws.slept 3000 (answered s).1 in (read.0, omega (arith, read, listed, slept))

  seen-Ends :
      (before after : S) (answer : Result (List Item)) (rest : Option (Result (Option Text) × S))
      → app.get_transactions url user before ≡ (answer, after)
      → Ends rest (IsFound js app url user start)
      → Ends (seen js app user start answer after rest) (IsFound js app url user start)
  seen-Ends before after (err e) rest listed later = inl (e, after, refl)
  seen-Ends before after (ok items) rest listed later =
      elim (Option-cases (find_first (is_recent js user start) items)) [
        | inl nothing ↦ rw nothing later
        | inr (item, found) ↦ rw found (
            inr (
              some item.id,
              after,
              refl,
              record {
                before = before;
                after = after;
                items = items;
                item = item;
                listed = listed;
                is_first = find_first_sound (is_recent js user start) items item found;
                of_user =
                    (is_recent_made js user start item
                      (find_first_sound (is_recent js user start) items item found).passes).0;
                made =
                    (is_recent_made js user start item
                      (find_first_sound (is_recent js user start) items item found).passes).1;
                id_is = refl;
              },
            ))
      ]

  poll_round :
      (f n : ℕ) (timeout : Number) (s : S)
      → IsWithin n timeout
      → (round_start s - start < n
          → Ends
              (poll js app f url user start timeout (next_round s))
              (IsFound js app url user start))
      → Ends (poll js app (suc f) url user start timeout s) (IsFound js app url user start)
  unfolding poll
  poll_round f n timeout s most rest =
      elim (Bool-cases (is_waiting timeout start (round_start s))) [
        | inl waiting ↦ rw waiting (
            seen-Ends (app.date_now s).1 (answered s).1 (answered s).0 _ refl
              (rest (waiting_lem n timeout start (round_start s) most waiting)))
        | inr over ↦ rw over (inr (none, (app.date_now s).1, refl, tt))
      ]

  -- No round of the loop begins after the timeout, and a transaction that it finds was listed.
  pub poll-Ends :
      (f n : ℕ) (timeout : Number) (s : S)
      → IsWithin n timeout
      → start + n ≤ clock s + 3000 * f
      → Ends (poll js app (suc f) url user start timeout s) (IsFound js app url user start)
  poll-Ends zero n timeout s most few =
      poll_round zero n timeout s most λ on. absurd (omega (arith, few, on, round_takes s))
  poll-Ends (suc f) n timeout s most few =
      poll_round (suc f) n timeout s most
        λ on. poll-Ends f n timeout (next_round s) most (omega (arith, few, round_takes s))
