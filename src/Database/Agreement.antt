-- ===== src/Database/Agreement.antt =====
-- That the migration makes the tables that the entities describe.
use birr_track_backend.Base.{
  ℕ, ◌≡◌, true, Option, none, some, List, [], ◌∷◌, map, Text, codes, text_eq, All,
}
use birr_track_backend.Base.Results.{ok}
use birr_track_backend.Js.Numbers.{decimal}
use birr_track_backend.Database.{TableColumn, column, TableForeignKey, Table, QueryRunner}
use birr_track_backend.Database.Tables.{
  businesses_table, managers_table, transactions_table, edit_logs_table,
}
use birr_track_backend.Database.Migration.{up}
use birr_track_backend.Database.Schema.{find_table, IsQueryRunner}
use birr_track_backend.Database.Calls.{found}
use birr_track_backend.Database.Created.{IsFree, created, up_creates}
use birr_track_backend.Database.Entities.{
  ColumnOptions, Property, primary_generated_uuid, plain, create_date, Relation, Entity, business,
  manager, transaction, edit_log, entities,
}

abbrev pub written : Option ℕ → Option Text
written none = none
written (some n) = some (decimal n)

abbrev pub written_pair : Option (ℕ × ℕ) → Option (Text × Text)
written_pair none = none
written_pair (some (m, n)) = some (decimal m, decimal n)

-- How TypeORM reads the decorators, on PostgreSQL.
pub record TypeOrm : Type 0 where
  pub column_of : Property → TableColumn
  pub key_of : Relation → TableForeignKey

-- What it documents: the defaults of the options, that a generated uuid is the primary column and is
-- set by `uuid_generate_v4()`, that a creation date is set by `now()`, and that a relation refers to
-- the column `id` of the other entity.
pub record IsTypeOrm (orm : TypeOrm) : Type 0 where
  pub generated :
      (name : Text)
      → orm.column_of (primary_generated_uuid name) ≡ record (column name (codes "uuid")) {
        is_primary = true;
        generation_strategy = some (codes "uuid");
        default = some (codes "uuid_generate_v4()");
      }
  pub given :
      (name : Text) (o : ColumnOptions)
      → orm.column_of (plain name o) ≡ record (column name o.type) {
        length = written o.length;
        precision_and_scale = written_pair o.precision_and_scale;
        default = o.default;
        is_nullable = o.nullable;
        is_unique = o.unique;
      }
  pub created_at :
      (name type : Text)
      → orm.column_of (create_date name type)
        ≡ record (column name type) { default = some (codes "now()") }
  pub joined :
      (r : Relation)
      → orm.key_of r ≡ record {
        column_names = r.join_column ∷ [];
        referenced_table_name = r.other;
        referenced_column_names = codes "id" ∷ [];
        on_delete = r.on_delete;
      }

-- The table that an entity describes.
abbrev pub table_of : TypeOrm → Entity → Table
table_of orm e = record {
  name = e.name;
  columns = map orm.column_of e.properties;
  indices = e.indices;
  foreign_keys = map orm.key_of e.relations;
}

module _ (orm : TypeOrm) (reads : IsTypeOrm orm) where
  -- The created tables hold the table of each entity.
  created-table_of : All (λ e. find_table e.name created ≡ some (table_of orm e)) entities
  unfolding find_table text_eq decimal businesses_table managers_table transactions_table
      edit_logs_table business manager transaction edit_log
  created-table_of = (
    simp (reads.generated, reads.given, reads.created_at),
    (
      simp (reads.generated, reads.given, reads.joined),
      (
        simp (reads.generated, reads.given, reads.created_at),
        (simp (reads.generated, reads.given, reads.created_at, reads.joined), tt),
      ),
    ),
  )

  -- Where the names of its tables and indices are free, `up` returns, and then the table of each
  -- entity is as the entity's decorators describe it: its columns in their order, with their types,
  -- lengths and defaults, its indices and its foreign keys.
  pub up-table_of :
      {S : Type 0} (schema : S → List Table) (runner : QueryRunner S)
      (laws : IsQueryRunner schema runner) (s : S)
      → IsFree (schema s)
      → (s' : S) × (up runner s ≡ (ok tt, s'))
        × All (λ e. find_table e.name (schema s') ≡ some (table_of orm e)) entities
  unfolding business manager transaction edit_log
  up-table_of schema runner laws s free =
      let (s', done, at) = up_creates schema runner laws s free in
      let (b, (m, (t, (e, _)))) = created-table_of in
      let find = found schema runner laws (schema s) created s' at in
      (
        s',
        done,
        (
          find business.name _ free.businesses.absent b,
          (
            find manager.name _ free.managers.absent m,
            (
              find transaction.name _ free.transactions.absent t,
              (find edit_log.name _ free.edit_logs.absent e, tt),
            ),
          ),
        ),
      )
