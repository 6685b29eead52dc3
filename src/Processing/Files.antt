-- ===== src/Processing/Files.antt =====
-- The Telegram files of src/processing/processing.service.ts: `resolveTelegramFileDownloadUrl` and
-- `stringifyAxiosBody`.
pub mod Address
use birr_track_backend.Base.{
  ℕ, Bool, ◌&&◌, Option, none, some, [], ◌∷◌, ◌++◌, Text, codes, trim, take, ◌==◌, if◌then◌else◌,
}
use birr_track_backend.Base.Results.{Result, ok, err, ◌>>=◌}
use birr_track_backend.Js.Numbers.{decimal}
use birr_track_backend.Processing.Services.{Config, required}

-- A JSON object of the Bot API, as far as it is read, with what `JSON.stringify` makes of it.
pub record GetFileObject : Type 0 where
  pub is_ok : Bool
  -- `description`, if it is a string.
  pub description : Option Text
  -- `result?.file_path`.
  pub file_path : Option Text
  pub json : Result Text

-- The body of a response, whatever its status.
pub data Body : Type 0 where
  empty binary : Body
  text : Text → Body
  object : GetFileObject → Body

pub record Response : Type 0 where
  pub status : ℕ
  pub body : Body

abbrev json_or_mark : Result Text → Text
json_or_mark (ok json) = take 500 json
json_or_mark (err _) = codes "[unserializable body]"

unfoldable pub stringify_axios_body : Body → Text
stringify_axios_body empty = codes "(empty body)"
stringify_axios_body (text t) = take 500 t
stringify_axios_body binary = codes "[binary]"
stringify_axios_body (object o) = json_or_mark o.json

abbrev hint : Text
hint =
    codes
      "Ensure TELEGRAM_BOT_TOKEN is the same bot that received the photo; file_id values are not portable across bots."

abbrev description_or_body : Body → Option Text → Text
description_or_body body (some d) = d
description_or_body body none = stringify_axios_body body

abbrev description_of : Body → Option Text
description_of (object o) = o.description
description_of _ = none

unfoldable pub get_file_failed : Response → Text
unfolding stringify_axios_body
get_file_failed response =
    codes "Telegram getFile failed (HTTP "
    ++ decimal response.status
    ++ codes "): "
    ++ description_or_body response.body (description_of response.body)
    ++ codes ". "
    ++ hint

-- `response.status === 200 && data?.ok === true && filePath`.
unfoldable pub file_path_of : Response → Option Text
file_path_of response = elim response.body [
  | object o ↦ elim o.file_path [
    | some path ↦ elim path [
      | [] ↦ none
      | c ∷ s ↦ if (response.status == 200) && o.is_ok then some (c ∷ s) else none
    ]
    | none ↦ none
  ]
  | _ ↦ none
]

abbrev download_url : Text → Response → Option Text → Result Text
download_url token response (some path) =
    ok (codes "https://api.telegram.org/file/bot" ++ token ++ codes "/" ++ path)
download_url token response none = err (get_file_failed response)

abbrev pub trimmed : Option Text → Option Text
trimmed none = none
trimmed (some t) = some (trim t)

-- `get` is `axios.get` of `getFile` by its address and file id, with every status accepted.
unfoldable pub resolve_telegram_file_download_url :
    Config → (Text → Text → Result Response) → Text → Result Text
resolve_telegram_file_download_url config get file_id = do
  token ←
      required (trimmed (config (codes "TELEGRAM_BOT_TOKEN")))
        (codes "TELEGRAM_BOT_TOKEN is not configured")
  trimmed_file_id ← required (some (trim file_id)) (codes "Telegram file_id is empty")
  response ← get (codes "https://api.telegram.org/bot" ++ token ++ codes "/getFile") trimmed_file_id
  download_url token response (file_path_of response)
