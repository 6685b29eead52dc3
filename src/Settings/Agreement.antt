-- ===== src/Settings/Agreement.antt =====
-- That the program and the command that runs its migrations connect to one database.
use birr_track_backend.Base.{◌≡◌, refl, List, [], ◌∷◌, Text, codes, All}
use birr_track_backend.Js.Numbers.{JsNumber}
use birr_track_backend.Processing.Services.{Config}
use birr_track_backend.Settings.{create_type_orm_config, data_source, queue_redis, worker_redis}

abbrev pub database_keys : List Text
database_keys =
    codes "DATABASE_HOST"
    ∷ codes "DATABASE_PORT"
    ∷ codes "DATABASE_USER"
    ∷ codes "DATABASE_PASSWORD"
    ∷ codes "DATABASE_NAME"
    ∷ []

module _ {Num : Type 0} ⦃js : JsNumber Num⦄ where
  -- Where the configuration, whose variables are expanded, and the process's environment have the same
  -- values under the five keys of the database, the program and its migrations use one connection.
  pub create_type_orm_config-data_source :
      (config env : Config)
      → All (λ key. config key ≡ env key) database_keys
      → (create_type_orm_config {Num = Num} config).connection ≡ (data_source env).connection
  unfolding create_type_orm_config data_source
  create_type_orm_config-data_source config env same =
      let (host, (port, (user, (password, (name, _))))) = same in
      rw (host, port, user, password, name) refl

  -- The queue and its worker use one Redis.
  pub queue_redis-worker_redis :
      (config : Config) → queue_redis {Num = Num} config ≡ worker_redis config
  unfolding queue_redis worker_redis
  queue_redis-worker_redis config = refl
