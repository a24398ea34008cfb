-- ===== src/Config.antt =====
-- internal/config/config.go: the settings of the server, from a file of lines `KEY=VALUE`.
pub mod Values
pub mod Bounds
pub mod File
mod Tests
use r0rpc.Prelude.{
  ℕ, zero, suc, String, ℤ, pos, negsuc, lt_const, not_positive, lt_int, times, quotient, Bool, true,
  false, not, Option, none, some, List, [], ◌∷◌, ◌==◌, string_eq, if◌then◌else◌,
}
use r0rpc.Prelude.Map.{Map}
use r0rpc.Prelude.Text.{trim_space}
use r0rpc.Config.Values.{get_string, get_int}

pub record MysqlConfig : Type 0 where
  pub host : String
  pub port : ℤ
  pub user : String
  pub password : String
  pub db : String
  pub params : String
  pub max_open_conns : ℤ
  pub max_idle_conns : ℤ
  pub conn_max_lifetime_minutes : ℤ

pub record RedisConfig : Type 0 where
  pub addr : String
  pub password : String
  pub db : ℤ

-- `RequestTimeout` is in nanoseconds.
pub record Config : Type 0 where
  pub app_name : String
  pub server_id : String
  pub http_addr : String
  pub jwt_secret : String
  pub request_timeout : ℤ
  pub raw_retention_days : ℤ
  pub raw_request_keep_latest : ℤ
  pub aggregate_retention_days : ℤ
  pub device_offline_seconds : ℤ
  pub device_offline_minutes : ℤ
  pub heartbeat_interval_seconds : ℤ
  pub presence_flush_seconds : ℤ
  pub persist_queue_size : ℤ
  pub persist_workers : ℤ
  pub client_queue_size : ℤ
  pub client_max_in_flight : ℤ
  pub time_zone : String
  pub bootstrap_admin_user : String
  pub bootstrap_admin_pass : String
  pub mysql : MysqlConfig
  pub redis : RedisConfig

unfoldable pub mysql_settings : Map String String → MysqlConfig
mysql_settings values = record {
  host = get_string values "MYSQL_HOST" "mysql";
  port = get_int values "MYSQL_PORT" (pos 3306);
  user = get_string values "MYSQL_USER" "root";
  password = get_string values "MYSQL_PASSWORD" "";
  db = get_string values "MYSQL_DB" "r0rpc";
  params =
      get_string values "MYSQL_PARAMS"
        "charset=utf8mb4&parseTime=true&loc=Asia%2FShanghai&timeout=5s&readTimeout=30s&writeTimeout=30s";
  max_open_conns = get_int values "MYSQL_MAX_OPEN_CONNS" (pos 256);
  max_idle_conns = get_int values "MYSQL_MAX_IDLE_CONNS" (pos 64);
  conn_max_lifetime_minutes = get_int values "MYSQL_CONN_MAX_LIFETIME_MINUTES" (pos 10);
}

-- The configuration as the file has it.
unfoldable pub settings : Map String String → Config
unfolding mysql_settings
settings values = record {
  app_name = get_string values "APP_NAME" "r0rpc-demo";
  server_id = get_string values "SERVER_ID" "r0rpc-node-1";
  http_addr = get_string values "HTTP_ADDR" ":8080";
  jwt_secret = get_string values "JWT_SECRET" "";
  request_timeout = times (get_int values "REQUEST_TIMEOUT_SECONDS" (pos 25)) 1000000000;
  raw_retention_days = get_int values "RAW_RETENTION_DAYS" (pos 3);
  raw_request_keep_latest = get_int values "RAW_REQUEST_KEEP_LATEST_PER_SCOPE" (pos 100);
  aggregate_retention_days = get_int values "AGGREGATE_RETENTION_DAYS" (pos 30);
  device_offline_seconds = get_int values "DEVICE_OFFLINE_SECONDS" (pos 0);
  device_offline_minutes = get_int values "DEVICE_OFFLINE_MINUTES" (pos 0);
  heartbeat_interval_seconds = get_int values "HEARTBEAT_INTERVAL_SECONDS" (pos 5);
  presence_flush_seconds = get_int values "PRESENCE_FLUSH_SECONDS" (pos 5);
  persist_queue_size = get_int values "PERSIST_QUEUE_SIZE" (pos 131072);
  persist_workers = get_int values "PERSIST_WORKERS" (pos 32);
  client_queue_size = get_int values "CLIENT_QUEUE_SIZE" (pos 2048);
  client_max_in_flight = get_int values "CLIENT_MAX_IN_FLIGHT" (pos 256);
  time_zone = get_string values "TIME_ZONE" "Asia/Shanghai";
  bootstrap_admin_user = get_string values "BOOTSTRAP_ADMIN_USERNAME" "admin";
  bootstrap_admin_pass = get_string values "BOOTSTRAP_ADMIN_PASSWORD" "";
  mysql = mysql_settings values;
  redis = record {
    addr = get_string values "REDIS_ADDR" "";
    password = get_string values "REDIS_PASSWORD" "";
    db = get_int values "REDIS_DB" (pos 0);
  };
}

unfoldable pub min_int : ℤ → ℤ → ℤ
min_int a b = if lt_int a b then a else b

unfoldable pub max_int : ℤ → ℤ → ℤ
max_int a b = if lt_int b a then a else b

-- `if x <= 0 { x = d }`
abbrev pub or_default : ℕ → ℤ → ℤ
or_default d x = if not_positive x then pos d else x

-- `if x < low { x = low }`
abbrev pub at_least : ℕ → ℤ → ℤ
at_least low x = if lt_const x low then pos low else x

unfoldable pub offline_seconds : ℤ → ℤ → ℤ
offline_seconds seconds minutes =
    if not_positive seconds
    then (if not_positive minutes then pos 20 else times minutes 60)
    else seconds

-- `if x >= offline { x = maxInt(1, offline / 2) }`
unfoldable pub below_offline : ℤ → ℤ → ℤ
unfolding max_int
below_offline x offline = if lt_int x offline then x else max_int (pos 1) (quotient offline 2)

unfoldable pub heartbeat_seconds : ℤ → ℤ → ℤ
unfolding below_offline
heartbeat_seconds x offline = below_offline (or_default 5 x) offline

unfoldable pub flush_seconds : ℤ → ℤ → ℤ
unfolding below_offline min_int
flush_seconds x offline =
    below_offline (if not_positive x then min_int (pos 5) offline else x) offline

unfoldable pub normalize_mysql : MysqlConfig → MysqlConfig
normalize_mysql m = record m {
  max_open_conns = at_least 256 m.max_open_conns;
  max_idle_conns = at_least 64 m.max_idle_conns;
  conn_max_lifetime_minutes = or_default 10 m.conn_max_lifetime_minutes;
}

-- The part of `Load` behind the settings that it requires.
unfoldable pub normalize : Config → Config
unfolding offline_seconds heartbeat_seconds flush_seconds normalize_mysql
normalize cfg =
    let offline = offline_seconds cfg.device_offline_seconds cfg.device_offline_minutes in
    record cfg {
      raw_retention_days = or_default 3 cfg.raw_retention_days;
      raw_request_keep_latest = or_default 100 cfg.raw_request_keep_latest;
      aggregate_retention_days = or_default 30 cfg.aggregate_retention_days;
      device_offline_seconds = offline;
      device_offline_minutes = quotient offline 60;
      heartbeat_interval_seconds = heartbeat_seconds cfg.heartbeat_interval_seconds offline;
      presence_flush_seconds = flush_seconds cfg.presence_flush_seconds offline;
      persist_queue_size = at_least 131072 cfg.persist_queue_size;
      persist_workers = at_least 32 cfg.persist_workers;
      client_queue_size = at_least 2048 cfg.client_queue_size;
      client_max_in_flight = at_least 256 cfg.client_max_in_flight;
      mysql = normalize_mysql cfg.mysql;
      time_zone = if cfg.time_zone == "" then "Asia/Shanghai" else cfg.time_zone;
    }

-- What `Load` makes of the values of a file: a configuration, or the first setting that is required
-- and missing.
pub data Loaded : Type 0 where
  loaded : Config → Loaded
  required : String → Loaded

abbrev pub is_blank : String → Bool
is_blank s = trim_space s == ""

unfoldable pub load : Map String String → Loaded
unfolding settings normalize
load values =
    let cfg = settings values in
    if is_blank cfg.jwt_secret
    then required "JWT_SECRET"
    else if is_blank cfg.bootstrap_admin_pass
    then required "BOOTSTRAP_ADMIN_PASSWORD"
    else if is_blank cfg.mysql.host
    then required "MYSQL_HOST"
    else if is_blank cfg.mysql.user
    then required "MYSQL_USER"
    else if is_blank cfg.mysql.db
    then required "MYSQL_DB"
    else loaded (normalize cfg)
