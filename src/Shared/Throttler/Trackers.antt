-- ===== src/Shared/Throttler/Trackers.antt =====
-- Which contexts are throttled together.
use mathlib.Core.Path.{ap₂}
use birr_track_backend.Base.{
  ◌↔◌, ℕ, ◌≡◌, ◌≢◌, refl, sym, ap, ◌∙◌, arith, Option, none, some, [], ◌∷◌, ◌++◌, Text, codes, All,
}
use birr_track_backend.Shared.Throttler.{
  ContextArg, build_non_http_tracker, other, Req, get_tracker, get_request,
}

-- Who a context is counted for.
pub data Client : Type 0 where
  from chat update : Text → Client
  anonymous : Client

abbrev pub client_of : Option Text → Option Text → Option Text → Client
client_of (some id) _ _ = from id
client_of none (some id) _ = chat id
client_of none none (some id) = update id
client_of none none none = anonymous

abbrev pub client : ContextArg → Client
client arg = client_of arg.from_id arg.chat_id arg.update_id

abbrev label : Client → Text
label (from id) = codes "from:" ++ id
label (chat id) = codes "chat:" ++ id
label (update id) = codes "update:" ++ id
label anonymous = codes "anonymous"

first_unit : Text → ℕ
first_unit [] = 0
first_unit (c ∷ s) = c

label_injective : (a b : Client) → label a ≡ label b → a ≡ b
unfolding first_unit
label_injective (from a) (from b) e = ap from (cc)
label_injective (chat a) (chat b) e = ap chat (cc)
label_injective (update a) (update b) e = ap update (cc)
label_injective anonymous anonymous e = refl
label_injective _ _ e = absurd (omega (arith, ap first_unit e))

tracker_is :
    (context_type : Text) (arg : ContextArg)
    → build_non_http_tracker context_type arg ≡ context_type ++ (b':' ∷ label (client arg))
unfolding build_non_http_tracker
tracker_is context_type arg = of_ids arg.from_id arg.chat_id arg.update_id
  where
    of_ids :
        (sender chat_id update_id : Option Text)
        → build_non_http_tracker context_type
            (record { from_id = sender; chat_id = chat_id; update_id = update_id })
          ≡ context_type ++ (b':' ∷ label (client_of sender chat_id update_id))
    of_ids (some id) _ _ = refl
    of_ids none (some id) _ = refl
    of_ids none none (some id) = refl
    of_ids none none none = refl

-- No colon in a type of context: Nest's are "http", "ws" and "rpc", and Telegraf's is "telegraf".
abbrev pub HasNoColon : Text → Type 0
HasNoColon = All (λ c. c ≢ b':')

split_at_colon :
    (s t v w : Text)
    → HasNoColon s
    → HasNoColon t
    → s ++ (b':' ∷ v) ≡ t ++ (b':' ∷ w)
    → (s ≡ t) × (v ≡ w)
unfolding first_unit
split_at_colon [] [] v w hs ht e = (refl, cc)
split_at_colon [] (d ∷ t) v w hs ht e = absurd (ht.0 (ap first_unit (sym e)))
split_at_colon (c ∷ s) [] v w hs ht e = absurd (hs.0 (ap first_unit e))
split_at_colon (c ∷ s) (d ∷ t) v w hs ht e =
    let (same, rest) = split_at_colon s t v w hs.1 ht.1 (cc) in
    (ap₂ (λ x xs. x ∷ xs) (ap first_unit e) same, rest)

-- Two contexts that are not HTTP ones have one tracker exactly if they are of one type and of one
-- client: the same sender, else the same chat, else the same update, else both without any.
pub build_non_http_tracker_iff :
    (s t : Text) (a b : ContextArg)
    → HasNoColon s
    → HasNoColon t
    → (build_non_http_tracker s a ≡ build_non_http_tracker t b) ↔ ((s ≡ t) × (client a ≡ client b))
build_non_http_tracker_iff s t a b hs ht = (
  λ e.
      let (same, labels) =
        split_at_colon s t (label (client a)) (label (client b)) hs ht
          (sym (tracker_is s a) ∙ (e ∙ tracker_is t b)) in
      (same, label_injective (client a) (client b) labels),
  λ h. tracker_is s a ∙ (ap₂ (λ z c. z ++ (b':' ∷ label c)) h.0 h.1 ∙ sym (tracker_is t b)),
)

-- A context that is not an HTTP one is counted by its own tracker, and never by that of the guard that is extended.
pub get_tracker-get_request :
    {Request HttpContext : Type 0} (super_tracker : Req Request → Text)
    (super_request : HttpContext → Req Request) (context_type : Text) (arg : ContextArg)
    → get_tracker super_tracker (get_request super_request (other context_type arg))
      ≡ build_non_http_tracker context_type arg
unfolding get_tracker get_request
get_tracker-get_request super_tracker super_request [] arg = rw (tracker_is [] arg)
get_tracker-get_request super_tracker super_request (c ∷ s) arg = rw (tracker_is (c ∷ s) arg)
