-- ===== src/Shared/Throttler.antt =====
-- src/shared/guards/context-aware-throttler.guard.ts. The guard that it extends is a parameter.
pub mod Trackers
use birr_track_backend.Base.{
  Bool, true, false, Option, none, some, List, [], ◌∷◌, ◌++◌, Text, codes, text_eq, if◌then◌else◌,
}

-- The first argument of a handler that is not an HTTP one, with its ids as texts; `none` is null or
-- undefined, at whichever step of the path.
pub record ContextArg : Type 0 where
  pub from_id : Option Text
  pub chat_id : Option Text
  pub update_id : Option Text

-- `buildNonHttpTracker`.
unfoldable pub build_non_http_tracker : Text → ContextArg → Text
build_non_http_tracker context_type arg = elim arg.from_id [
  | some id ↦ context_type ++ (codes ":from:" ++ id)
  | none ↦ elim arg.chat_id [
    | some id ↦ context_type ++ (codes ":chat:" ++ id)
    | none ↦ elim arg.update_id [
      | some id ↦ context_type ++ (codes ":update:" ++ id)
      | none ↦ context_type ++ codes ":anonymous"
    ]
  ]
]

-- An execution context: an HTTP one, or one of another type.
pub data ExecutionContext (HttpContext : Type 0) : Type 0 where
  http : HttpContext → ExecutionContext HttpContext
  other : Text → ContextArg → ExecutionContext HttpContext

-- What `getRequestResponse` hands on: a request with its own `contextTracker`, if that is a string,
-- or the object made for a context without a request.
pub data Req (Request : Type 0) : Type 0 where
  request : Request → Option Text → Req Request
  tracked : Text → Req Request

abbrev context_tracker : {Request : Type 0} → Req Request → Option Text
context_tracker (request r t) = t
context_tracker (tracked t) = some t

abbrev or_super : Text → Option Text → Text
or_super from_super (some (c ∷ s)) = c ∷ s
or_super from_super _ = from_super

-- `getTracker`.
unfoldable pub get_tracker : {Request : Type 0} → (Req Request → Text) → Req Request → Text
get_tracker super_tracker req = or_super (super_tracker req) (context_tracker req)

-- `getRequestResponse`, without the response.
unfoldable pub get_request :
    {Request HttpContext : Type 0}
    → (HttpContext → Req Request)
    → ExecutionContext HttpContext
    → Req Request
unfolding build_non_http_tracker
get_request super_request (http context) = super_request context
get_request super_request (other context_type arg) =
    tracked (build_non_http_tracker context_type arg)
