-- ===== src/Migrations/Actions/Types.antt =====
-- The types of mountaineer/migrations/actions.py: the enums with their values, the constraints'
-- arguments, and what a dry run records.
use mountaineer.Base.{List, String, Eq, string_eq, nat_eq, option_eq, bool_eq}

pub data ColumnType : Type 0 where
  smallint integer bigint decimal numeric real double_precision serial bigserial : ColumnType
  money : ColumnType
  char varchar text : ColumnType
  bytea : ColumnType
  date time time_with_time_zone timestamp timestamp_with_time_zone interval : ColumnType
  boolean : ColumnType
  point line lseg box path polygon circle : ColumnType
  cidr inet macaddr macaddr8 : ColumnType
  bit bit_varying : ColumnType
  tsvector tsquery : ColumnType
  uuid : ColumnType
  xml : ColumnType
  json jsonb : ColumnType
  int4range numrange tsrange tstzrange daterange : ColumnType
  oid : ColumnType

-- The member's value, which is also what an f-string prints of it.
unfoldable pub column_type_value : ColumnType → String
column_type_value smallint = "smallint"
column_type_value integer = "integer"
column_type_value bigint = "bigint"
column_type_value decimal = "decimal"
column_type_value numeric = "numeric"
column_type_value real = "real"
column_type_value double_precision = "double precision"
column_type_value serial = "serial"
column_type_value bigserial = "bigserial"
column_type_value money = "money"
column_type_value char = "char"
column_type_value varchar = "character varying"
column_type_value text = "text"
column_type_value bytea = "bytea"
column_type_value date = "date"
column_type_value time = "time"
column_type_value time_with_time_zone = "time with time zone"
column_type_value timestamp = "timestamp"
column_type_value timestamp_with_time_zone = "timestamp with time zone"
column_type_value interval = "interval"
column_type_value boolean = "boolean"
column_type_value point = "point"
column_type_value line = "line"
column_type_value lseg = "lseg"
column_type_value box = "box"
column_type_value path = "path"
column_type_value polygon = "polygon"
column_type_value circle = "circle"
column_type_value cidr = "cidr"
column_type_value inet = "inet"
column_type_value macaddr = "macaddr"
column_type_value macaddr8 = "macaddr8"
column_type_value bit = "bit"
column_type_value bit_varying = "bit varying"
column_type_value tsvector = "tsvector"
column_type_value tsquery = "tsquery"
column_type_value uuid = "uuid"
column_type_value xml = "xml"
column_type_value json = "json"
column_type_value jsonb = "jsonb"
column_type_value int4range = "int4range"
column_type_value numrange = "numrange"
column_type_value tsrange = "tsrange"
column_type_value tstzrange = "tstzrange"
column_type_value daterange = "daterange"
column_type_value oid = "oid"

-- The member's name.
unfoldable pub column_type_name : ColumnType → String
column_type_name smallint = "SMALLINT"
column_type_name integer = "INTEGER"
column_type_name bigint = "BIGINT"
column_type_name decimal = "DECIMAL"
column_type_name numeric = "NUMERIC"
column_type_name real = "REAL"
column_type_name double_precision = "DOUBLE_PRECISION"
column_type_name serial = "SERIAL"
column_type_name bigserial = "BIGSERIAL"
column_type_name money = "MONEY"
column_type_name char = "CHAR"
column_type_name varchar = "VARCHAR"
column_type_name text = "TEXT"
column_type_name bytea = "BYTEA"
column_type_name date = "DATE"
column_type_name time = "TIME"
column_type_name time_with_time_zone = "TIME_WITH_TIME_ZONE"
column_type_name timestamp = "TIMESTAMP"
column_type_name timestamp_with_time_zone = "TIMESTAMP_WITH_TIME_ZONE"
column_type_name interval = "INTERVAL"
column_type_name boolean = "BOOLEAN"
column_type_name point = "POINT"
column_type_name line = "LINE"
column_type_name lseg = "LSEG"
column_type_name box = "BOX"
column_type_name path = "PATH"
column_type_name polygon = "POLYGON"
column_type_name circle = "CIRCLE"
column_type_name cidr = "CIDR"
column_type_name inet = "INET"
column_type_name macaddr = "MACADDR"
column_type_name macaddr8 = "MACADDR8"
column_type_name bit = "BIT"
column_type_name bit_varying = "BIT_VARYING"
column_type_name tsvector = "TSVECTOR"
column_type_name tsquery = "TSQUERY"
column_type_name uuid = "UUID"
column_type_name xml = "XML"
column_type_name json = "JSON"
column_type_name jsonb = "JSONB"
column_type_name int4range = "INT4RANGE"
column_type_name numrange = "NUMRANGE"
column_type_name tsrange = "TSRANGE"
column_type_name tstzrange = "TSTZRANGE"
column_type_name daterange = "DATERANGE"
column_type_name oid = "OID"

pub data ConstraintType : Type 0 where
  primary_key foreign_key unique check : ConstraintType

unfoldable pub constraint_type_value : ConstraintType → String
constraint_type_value primary_key = "PRIMARY KEY"
constraint_type_value foreign_key = "FOREIGN KEY"
constraint_type_value unique = "UNIQUE"
constraint_type_value check = "CHECK"

-- The member's name.
unfoldable pub constraint_type_name : ConstraintType → String
constraint_type_name primary_key = "PRIMARY_KEY"
constraint_type_name foreign_key = "FOREIGN_KEY"
constraint_type_name unique = "UNIQUE"
constraint_type_name check = "CHECK"

-- A frozenset is the list of its items, in the order in which it is iterated over.
pub record ForeignKeyConstraint : Type 0 where
  pub target_table : String
  pub target_columns : List String

pub record CheckConstraint : Type 0 where
  pub check_condition : String

ColumnType-discrete : Discrete ColumnType
ColumnType-discrete = hlevel

ConstraintType-discrete : Discrete ConstraintType
ConstraintType-discrete = hlevel

instance unfoldable pub column_type_eq : Eq ColumnType
unfolding ColumnType-discrete
column_type_eq = record { dec = ColumnType-discrete }

instance unfoldable pub constraint_type_eq : Eq ConstraintType
unfolding ConstraintType-discrete
constraint_type_eq = record { dec = ConstraintType-discrete }
