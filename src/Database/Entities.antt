-- ===== src/Database/Entities.antt =====
-- The decorators of the entities in src/businesses/entities and src/transactions/entities.
use birr_track_backend.Base.{ℕ, Bool, true, false, Option, none, some, List, [], ◌∷◌, Text, codes}
use birr_track_backend.Database.{TableIndex}

-- What `@Column` is given.
pub record ColumnOptions : Type 0 where
  pub type : Text
  pub length : Option ℕ
  pub precision_and_scale : Option (ℕ × ℕ)
  pub nullable : Bool
  pub unique : Bool
  pub default : Option Text

abbrev options : Text → ColumnOptions
options type = record {
  type = type;
  length = none;
  precision_and_scale = none;
  nullable = false;
  unique = false;
  default = none;
}

-- A property of an entity: `@PrimaryGeneratedColumn('uuid')`, `@Column` or `@CreateDateColumn` of a
-- type, and its name.
pub data Property : Type 0 where
  primary_generated_uuid : Text → Property
  plain : Text → ColumnOptions → Property
  create_date : Text → Text → Property

-- `@ManyToOne` with `@JoinColumn`: the column, the table of the other entity, and `onDelete`.
pub record Relation : Type 0 where
  pub join_column : Text
  pub other : Text
  pub on_delete : Text

pub record Entity : Type 0 where
  pub name : Text
  pub indices : List TableIndex
  pub properties : List Property
  pub relations : List Relation

abbrev id : Property
id = primary_generated_uuid (codes "id")

abbrev text : Text → ℕ → Property
text name length = plain name (record (options (codes "varchar")) { length = some length })

abbrev nullable_text : Text → Property
nullable_text name = plain name (record (options (codes "text")) { nullable = true })

abbrev unique_text : Text → ℕ → Property
unique_text name length =
    plain name (record (options (codes "varchar")) { length = some length; unique = true })

abbrev date : Text → Property
date name = create_date name (codes "timestamptz")

unfoldable pub business : Entity
business = record {
  name = codes "businesses";
  indices = [];
  properties = id ∷ unique_text (codes "name") 255 ∷ date (codes "createdAt") ∷ [];
  relations = [];
}

unfoldable pub manager : Entity
manager = record {
  name = codes "managers";
  indices =
      record { name = codes "idx_manager_business_id"; column_names = codes "businessId" ∷ [] }
      ∷ [];
  properties =
      id
      ∷ plain (codes "businessId") (options (codes "uuid"))
      ∷ unique_text (codes "email") 255
      ∷ text (codes "passwordHash") 255
      ∷ [];
  relations =
      record {
        join_column = codes "businessId";
        other = codes "businesses";
        on_delete = codes "CASCADE";
      }
      ∷ [];
}

unfoldable pub transaction : Entity
transaction = record {
  name = codes "transactions";
  indices =
      record {
        name = codes "idx_transaction_duplicate_lookup";
        column_names = codes "transactionId" ∷ codes "amount" ∷ codes "timestamp" ∷ [];
      }
      ∷ record {
        name = codes "idx_transaction_telegram_user_id";
        column_names = codes "telegramUserId" ∷ [];
      }
      ∷ record { name = codes "idx_transaction_created_at"; column_names = codes "createdAt" ∷ [] }
      ∷ [];
  properties =
      id
      ∷ plain (codes "telegramUserId") (options (codes "bigint"))
      ∷ text (codes "telegramName") 255
      ∷ plain (codes "amount")
          (record (options (codes "numeric")) { precision_and_scale = some (14, 2) })
      ∷ text (codes "transactionId") 128
      ∷ plain (codes "timestamp") (options (codes "timestamptz"))
      ∷ text (codes "bankName") 120
      ∷ plain (codes "confidence") (options (codes "float"))
      ∷ plain (codes "isDuplicate")
          (record (options (codes "boolean")) { default = some (codes "false") })
      ∷ nullable_text (codes "imageUrl")
      ∷ date (codes "createdAt")
      ∷ [];
  relations = [];
}

unfoldable pub edit_log : Entity
edit_log = record {
  name = codes "edit_logs";
  indices =
      record {
        name = codes "idx_edit_log_transaction_id";
        column_names = codes "transactionId" ∷ [];
      }
      ∷ [];
  properties =
      id
      ∷ plain (codes "transactionId") (options (codes "uuid"))
      ∷ text (codes "fieldName") 80
      ∷ nullable_text (codes "oldValue")
      ∷ nullable_text (codes "newValue")
      ∷ text (codes "editedBy") 120
      ∷ date (codes "editedAt")
      ∷ [];
  relations =
      record {
        join_column = codes "transactionId";
        other = codes "transactions";
        on_delete = codes "CASCADE";
      }
      ∷ [];
}

abbrev pub entities : List Entity
entities = business ∷ manager ∷ transaction ∷ edit_log ∷ []
