-- ===== src/Settings.antt =====
-- What the program reads from its environment when it starts: src/config/typeorm.config.ts,
-- src/database/data-source.ts, the connections of src/queue, the factory of
-- src/telegram/telegram.module.ts, the throttler of src/app.module.ts, CORS and the port in src/main.ts,
-- and the two routes of src/app.controller.ts.
pub mod Agreement
pub mod Origins
use birr_track_backend.Base.{
  ℕ, Bool, true, false, not, Option, none, some, List, [], ◌∷◌, Text, codes, text_eq, is_some, ◌==◌,
  if◌then◌else◌,
}
use birr_track_backend.Base.Results.{Result, ok, err, ◌>>=◌}
use birr_track_backend.Js.Numbers.{JsNumber}
use birr_track_backend.Js.Dates.{JsDate}
use birr_track_backend.Processing.Services.{Config, required}

abbrev pub or_fallback : Option Text → Text → Text
or_fallback (some value) fallback = value
or_fallback none fallback = fallback

-- `config.get(key, fallback)`, and `process.env[key] ?? fallback`.
abbrev pub get_or : Config → Text → Text → Text
get_or config key fallback = or_fallback (config key) fallback

-- The entities of the program.
pub data EntityName : Type 0 where
  transaction edit_log business manager : EntityName

-- What a connection to PostgreSQL needs; the port is a number.
pub record Connection (Num : Type 0) : Type 0 where
  pub host : Text
  pub port : Num
  pub username : Text
  pub password : Text
  pub database : Text
  pub entities : List EntityName
  pub synchronize : Bool

pub record TypeOrmOptions (Num : Type 0) : Type 0 where
  pub connection : Connection Num
  pub logging : Bool

pub record DataSource (Num : Type 0) : Type 0 where
  pub connection : Connection Num
  pub migrations : List Text

pub record RedisOptions (Num : Type 0) : Type 0 where
  pub host : Text
  pub port : Num
  pub max_retries_per_request : Option ℕ

abbrev pub default_postgres_port : Text
default_postgres_port = codes "5432"

abbrev pub default_database_name : Text
default_database_name = codes "birr_track"

abbrev pub default_redis_port : Text
default_redis_port = codes "6379"

module _ {Num : Type 0} ⦃js : JsNumber Num⦄ where
  unfoldable pub create_type_orm_config : Config → TypeOrmOptions Num
  unfolding text_eq
  create_type_orm_config config = record {
    connection = record {
      host = get_or config (codes "DATABASE_HOST") (codes "localhost");
      port = js.number_of (get_or config (codes "DATABASE_PORT") default_postgres_port);
      username = get_or config (codes "DATABASE_USER") (codes "postgres");
      password = get_or config (codes "DATABASE_PASSWORD") (codes "postgres");
      database = get_or config (codes "DATABASE_NAME") default_database_name;
      entities = transaction ∷ edit_log ∷ business ∷ manager ∷ [];
      synchronize = false;
    };
    logging = elim (config (codes "NODE_ENV")) [
      | some value ↦ not (text_eq value (codes "production"))
      | none ↦ true
    ];
  }

  -- The default export of src/database/data-source.ts, with `process.env`.
  unfoldable pub data_source : Config → DataSource Num
  data_source env = record {
    connection = record {
      host = get_or env (codes "DATABASE_HOST") (codes "localhost");
      port = js.number_of (get_or env (codes "DATABASE_PORT") default_postgres_port);
      username = get_or env (codes "DATABASE_USER") (codes "postgres");
      password = get_or env (codes "DATABASE_PASSWORD") (codes "postgres");
      database = get_or env (codes "DATABASE_NAME") default_database_name;
      entities = transaction ∷ edit_log ∷ business ∷ manager ∷ [];
      synchronize = false;
    };
    migrations = codes "src/database/migrations/*.ts" ∷ [];
  }

  -- The connection of `QueueService`, and that of `ImageProcessingWorker`.
  unfoldable pub queue_redis : Config → RedisOptions Num
  queue_redis config = record {
    host = get_or config (codes "REDIS_HOST") (codes "127.0.0.1");
    port = js.number_of (get_or config (codes "REDIS_PORT") default_redis_port);
    max_retries_per_request = none;
  }

  unfoldable pub worker_redis : Config → RedisOptions Num
  worker_redis config = record {
    host = get_or config (codes "REDIS_HOST") (codes "127.0.0.1");
    port = js.number_of (get_or config (codes "REDIS_PORT") default_redis_port);
    max_retries_per_request = none;
  }

-- The options of the bot.
pub record TelegrafOptions : Type 0 where
  pub token : Text
  pub launch_options : Bool

unfoldable pub telegraf_options : Config → Result TelegrafOptions
telegraf_options config = do
  token ← required (config (codes "TELEGRAM_BOT_TOKEN")) (codes "TELEGRAM_BOT_TOKEN is required")
  ok (record { token = token; launch_options = false })

-- The one throttler; its settings stay as they are written.
pub record ThrottlerOptions : Type 0 where
  pub ttl : Option Text
  pub limit : Option Text

abbrev pub throttlers : Config → List ThrottlerOptions
throttlers config =
    record { ttl = config (codes "THROTTLER_TTL"); limit = config (codes "THROTTLER_LIMIT") } ∷ []

-- A unit before the first part.
abbrev pub onto_first : ℕ → List Text → List Text
onto_first c [] = (c ∷ []) ∷ []
onto_first c (p ∷ ps) = (c ∷ p) ∷ ps

-- `text.split(',')`.
unfoldable pub split_comma : Text → List Text
split_comma [] = [] ∷ []
split_comma (c ∷ s) =
    let parts = split_comma s in if c == b',' then [] ∷ parts else onto_first c parts

-- The origins that CORS allows; `none` is `false`.
unfoldable pub cors_origin : Config → Option (List Text)
cors_origin config = elim (config (codes "CORS_ALLOWED_ORIGINS")) [
  | some (c ∷ s) ↦ some (split_comma (c ∷ s))
  | some [] ↦ none
  | none ↦ none
]

unfoldable pub listen_port : Config → Text
listen_port config = get_or config (codes "APP_PORT") (codes "3000")

-- The answers of `GET /` and `GET /health`.
pub record Health : Type 0 where
  pub status : Text
  pub timestamp : Text

abbrev pub get_hello : Text
get_hello = codes "Hello World!"

abbrev pub get_health : {Time : Type 0} ⦃dates : JsDate Time⦄ → Time → Health
get_health ⦃dates⦄ now = record { status = codes "ok"; timestamp = dates.iso_of now }
