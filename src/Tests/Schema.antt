-- ===== src/Tests/Schema.antt =====
-- The theorems on the migration, with a database that holds the list of its tables.
use birr_track_backend.Base.{
  ◌≡◌, refl, Bool, true, false, Option, none, some, List, [], ◌∷◌, ◌++◌, Text, codes, text_eq, All,
}
use birr_track_backend.Base.Results.{ok, err}
use birr_track_backend.Base.Effects.{M, ◌>>◌}
use birr_track_backend.Database.{column, Table, new_table, QueryRunner}
use birr_track_backend.Database.Migration.{up, down}
use birr_track_backend.Database.Schema.{
  find_table, change, remove, has_index, is_referenced, add_index, add_key, without_key, Does,
  IsQueryRunner,
}
use birr_track_backend.Database.Created.{IsFree}
use birr_track_backend.Database.Removed.{down-up}
use birr_track_backend.Database.Entities.{primary_generated_uuid, plain, create_date, entities}
use birr_track_backend.Database.Agreement.{
  written, written_pair, TypeOrm, IsTypeOrm, table_of, up-table_of,
}

abbrev tables_of : List Table → List Table
tables_of ts = ts

abbrev create_if : Option Table → Table → M (List Table) (Unit {0})
create_if (some taken) t ts = (err (codes "already exists"), ts)
create_if none t ts = (ok tt, ts ++ t ∷ [])

abbrev drop_if : Option Table → Bool → Text → M (List Table) (Unit {0})
drop_if none referenced name ts = (err (codes "does not exist"), ts)
drop_if (some t) true name ts = (err (codes "other objects depend on it"), ts)
drop_if (some t) false name ts = (ok tt, remove name ts)

abbrev change_if : Option Table → Text → (Table → Table) → M (List Table) (Unit {0})
change_if none name f ts = (err (codes "does not exist"), ts)
change_if (some t) name f ts = (ok tt, change name f ts)

abbrev memory_runner : QueryRunner (List Table)
memory_runner = record {
  query = λ q ts. (ok tt, ts);
  create_table = λ t ts. create_if (find_table t.name ts) t ts;
  create_index = λ name index ts. change_if (find_table name ts) name (add_index index) ts;
  create_foreign_key = λ name key ts. change_if (find_table name ts) name (add_key key) ts;
  get_table = λ name ts. (ok (find_table name ts), ts);
  drop_foreign_key = λ name key ts. change_if (find_table name ts) name (without_key key) ts;
  drop_table = λ name ts. drop_if (find_table name ts) (is_referenced name ts) name ts;
}

memory_runner-IsQueryRunner : IsQueryRunner tables_of memory_runner
memory_runner-IsQueryRunner = record {
  extension_ok = λ s. (s, refl, refl);
  create_table_ok = λ t s new. (_, rw new refl, refl);
  create_index_ok = λ name index s t there columns unused. (_, rw there refl, refl);
  create_foreign_key_ok =
      λ name key s t other there columns there' columns'. (_, rw there refl, refl);
  get_table_ok = λ name s. (s, refl, refl);
  drop_foreign_key_ok = λ name key s t there. (_, rw there refl, refl);
  drop_table_ok = λ name s t there free. (_, rw (there, free) refl, refl);
}

-- TypeORM's own table of the migrations that have been run.
abbrev before : List Table
before = new_table (codes "migrations") (column (codes "id") (codes "integer") ∷ []) ∷ []

before-IsFree : IsFree before
unfolding find_table has_index is_referenced text_eq
before-IsFree = record {
  businesses = record { absent = refl; unreferenced = refl };
  managers = record { absent = refl; unreferenced = refl };
  transactions = record { absent = refl; unreferenced = refl };
  edit_logs = record { absent = refl; unreferenced = refl };
  on_managers = refl;
  on_duplicates = refl;
  on_users = refl;
  on_created = refl;
  on_edit_logs = refl;
}

down-up_example : Does tables_of ((up memory_runner >> down memory_runner) before) tt before
down-up_example = down-up tables_of memory_runner memory_runner-IsQueryRunner before before-IsFree

abbrev typeorm : TypeOrm
typeorm = record {
  column_of = λ p. elim p [
    | primary_generated_uuid name ↦ record (column name (codes "uuid")) {
      is_primary = true;
      generation_strategy = some (codes "uuid");
      default = some (codes "uuid_generate_v4()");
    }
    | plain name o ↦ record (column name o.type) {
      length = written o.length;
      precision_and_scale = written_pair o.precision_and_scale;
      default = o.default;
      is_nullable = o.nullable;
      is_unique = o.unique;
    }
    | create_date name type ↦ record (column name type) { default = some (codes "now()") }
  ];
  key_of = λ r. record {
    column_names = r.join_column ∷ [];
    referenced_table_name = r.other;
    referenced_column_names = codes "id" ∷ [];
    on_delete = r.on_delete;
  };
}

typeorm-IsTypeOrm : IsTypeOrm typeorm
typeorm-IsTypeOrm = record {
  generated = λ name. refl;
  given = λ name o. refl;
  created_at = λ name type. refl;
  joined = λ r. refl;
}

up-table_of_example :
    (ts : List Table) × (up memory_runner before ≡ (ok tt, ts))
    × All (λ e. find_table e.name ts ≡ some (table_of typeorm e)) entities
up-table_of_example =
    up-table_of typeorm typeorm-IsTypeOrm tables_of memory_runner memory_runner-IsQueryRunner before
      before-IsFree
