-- ===== src/Processing/Files/Address.antt =====
-- When the address of a Telegram file is found.
use birr_track_backend.Base.{
  ℕ, ◌≡◌, ◌≢◌, inl, inr, refl, sym, ap, subst, ◌∙◌, arith, true, ◌&&◌, Option, none, some, [], ◌∷◌,
  ◌++◌, Text, codes, trim, ◌==◌, ==_iff, and_true, Bool-cases, Option-cases, if◌then◌else◌,
}
use birr_track_backend.Base.Results.{Result, ok, >>=-eq-ok, ok-injective}
use birr_track_backend.Processing.Services.{Config, required, required_ok}
use birr_track_backend.Processing.Files.{
  GetFileObject, Body, empty, binary, text, object, Response, trimmed, download_url, file_path_of,
  resolve_telegram_file_download_url,
}

-- A response of `getFile` that names a file.
pub record HasFile (response : Response) (path : Text) : Type 0 where
  pub file : GetFileObject
  pub answered : response.status ≡ 200
  pub body_is : response.body ≡ object file
  pub ok_is : file.is_ok ≡ true
  pub path_is : file.file_path ≡ some path
  pub some_path : path ≢ []

file_path_of-HasFile :
    (response : Response) (path : Text) → file_path_of response ≡ some path → HasFile response path
unfolding file_path_of
file_path_of-HasFile response path e = of_body response.status response.body e
  where
    of_body :
        (status : ℕ) (body : Body)
        → file_path_of (record { status = status; body = body }) ≡ some path
        → HasFile (record { status = status; body = body }) path
    of_body status empty e = absurd (cc)
    of_body status binary e = absurd (cc)
    of_body status (text t) e = absurd (cc)
    of_body status (object o) e = elim (Option-cases o.file_path) [
      | inl missing ↦ absurd (cc (rw missing at e))
      | inr (found, given) ↦ of_file status o found given (rw given at e)
    ]
      where
        of_file :
            (status : ℕ) (o : GetFileObject) (found : Text)
            → o.file_path ≡ some found
            → (elim found [
              | [] ↦ none
              | c ∷ s ↦ if (status == 200) && o.is_ok then some (c ∷ s) else none
            ])
              ≡ some path
            → HasFile (record { status = status; body = object o }) path
        of_file status o [] given e = absurd (cc)
        of_file status o (c ∷ s) given e = elim (Bool-cases ((status == 200) && o.is_ok)) [
          | inr failed ↦ absurd (cc (rw failed at e))
          | inl good ↦
              let same : c ∷ s ≡ path = ground arith in
              let (answered, is_ok) = and_true (status == 200) o.is_ok good in
              record {
                file = o;
                answered = (==_iff status 200).0 answered;
                body_is = refl;
                ok_is = is_ok;
                path_is = given ∙ ap some same;
                some_path = subst (λ p. p ≢ []) same (λ n. cc);
              }
        ]

-- What an address was made of.
pub record Resolved (config : Config) (get : Text → Text → Result Response) (file_id url : Text)
    : Type 0 where
  pub token : Text
  pub response : Response
  pub path : Text
  pub token_is : trimmed (config (codes "TELEGRAM_BOT_TOKEN")) ≡ some token
  pub some_token : token ≢ []
  pub some_file_id : trim file_id ≢ []
  pub asked :
      get (codes "https://api.telegram.org/bot" ++ token ++ codes "/getFile") (trim file_id)
      ≡ ok response
  pub has_file : HasFile response path
  pub url_is : url ≡ codes "https://api.telegram.org/file/bot" ++ token ++ codes "/" ++ path

download_url_ok :
    (token url : Text) (response : Response) (o : Option Text)
    → download_url token response o ≡ ok url
    → (path : Text) × (o ≡ some path)
      × (url ≡ codes "https://api.telegram.org/file/bot" ++ token ++ codes "/" ++ path)
download_url_ok token url response none e = absurd (cc)
download_url_ok token url response (some path) e = (path, refl, sym (ok-injective e))

-- An address is found only with a token that is set and not blank and a file id that is not blank,
-- from an answer with status 200 that is marked as good and has a path that is not empty; it is made
-- of the trimmed token and that path.
pub resolve_telegram_file_download_url-Resolved :
    (config : Config) (get : Text → Text → Result Response) (file_id url : Text)
    → resolve_telegram_file_download_url config get file_id ≡ ok url
    → Resolved config get file_id url
unfolding resolve_telegram_file_download_url
resolve_telegram_file_download_url-Resolved config get file_id url e =
    let (token, has_token, e1) =
      >>=-eq-ok (required (trimmed (config (codes "TELEGRAM_BOT_TOKEN"))) _) _ e in
    let (id, has_id, e2) = >>=-eq-ok (required (some (trim file_id)) _) _ e1 in
    let (response, asked, e3) = >>=-eq-ok (get _ id) _ e2 in
    let (path, found, url_is) = download_url_ok token url response (file_path_of response) e3 in
    let (token_is, some_token) =
      required_ok (trimmed (config (codes "TELEGRAM_BOT_TOKEN"))) _ token has_token in
    let (id_is, some_id) = required_ok (some (trim file_id)) _ id has_id in
    let same : trim file_id ≡ id = cc in
    record {
      token = token;
      response = response;
      path = path;
      token_is = token_is;
      some_token = some_token;
      some_file_id = subst (λ z. z ≢ []) (sym same) some_id;
      asked =
          ap (get (codes "https://api.telegram.org/bot" ++ token ++ codes "/getFile")) same ∙ asked;
      has_file = file_path_of-HasFile response path found;
      url_is = url_is;
    }
