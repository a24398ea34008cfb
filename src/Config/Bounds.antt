-- ===== src/Config/Bounds.antt =====
-- internal/config/config.go, `Load`: what holds of every configuration that it returns.
use r0rpc.Prelude.{
  ℕ, zero, suc, ◌*◌, ◌/◌, ◌^◌, ◌≤◌, ◌<◌, ◌≡◌, refl, ap, by_if, ◌⊎◌, inl, inr, String, ℤ, pos,
  negsuc, magnitude, lt_const, not_positive, lt_int, quotient, true, false, List, [], ◌∷◌, member,
  arith, if◌then◌else◌, ltb, string_eq,
}
use r0rpc.Prelude.Map.{Map}
use r0rpc.Config.Values.{get_int}
use r0rpc.Config.{
  Config, settings, offline_seconds, below_offline, heartbeat_seconds, flush_seconds, min_int,
  max_int, normalize_mysql, normalize, Loaded, loaded, required, is_blank, load, or_default,
  at_least,
}

-- A setting that is at least a constant.
abbrev pub AtLeast : ℕ → ℤ → Type 0
AtLeast low x = lt_const x low ≡ false

-- A period of at least a second, below the time after which a device counts as offline, or as short as
-- that time when it is a second.
pub record Fits (offline x : ℤ) : Type 0 where
  pub positive : AtLeast 1 x
  pub below : (lt_int x offline ≡ true) ⊎ ((offline ≡ pos 1) × (x ≡ pos 1))

pub record IsConsistent (cfg : Config) : Type 0 where
  pub secret : is_blank cfg.jwt_secret ≡ false
  pub admin_pass : is_blank cfg.bootstrap_admin_pass ≡ false
  pub mysql_host : is_blank cfg.mysql.host ≡ false
  pub mysql_user : is_blank cfg.mysql.user ≡ false
  pub mysql_db : is_blank cfg.mysql.db ≡ false
  pub raw_days : AtLeast 1 cfg.raw_retention_days
  pub keep_latest : AtLeast 1 cfg.raw_request_keep_latest
  pub aggregate_days : AtLeast 1 cfg.aggregate_retention_days
  pub offline : AtLeast 1 cfg.device_offline_seconds
  pub offline_minutes : cfg.device_offline_minutes ≡ quotient cfg.device_offline_seconds 60
  pub heartbeat : Fits cfg.device_offline_seconds cfg.heartbeat_interval_seconds
  pub flush : Fits cfg.device_offline_seconds cfg.presence_flush_seconds
  pub queue_size : AtLeast 131072 cfg.persist_queue_size
  pub workers : AtLeast 32 cfg.persist_workers
  pub client_queue : AtLeast 2048 cfg.client_queue_size
  pub in_flight : AtLeast 256 cfg.client_max_in_flight
  pub open_conns : AtLeast 256 cfg.mysql.max_open_conns
  pub idle_conns : AtLeast 64 cfg.mysql.max_idle_conns
  pub lifetime : AtLeast 1 cfg.mysql.conn_max_lifetime_minutes

default_AtLeast : (d : ℕ) (x : ℤ) → 1 ≤ d → AtLeast 1 (or_default d x)
default_AtLeast d (pos zero) h = ground arith
default_AtLeast d (pos (suc n)) h = ground arith
default_AtLeast d (negsuc n) h = ground arith

raised_AtLeast : (low : ℕ) (x : ℤ) → AtLeast low (at_least low x)
raised_AtLeast low (pos n) = ground arith
raised_AtLeast low (negsuc n) = ground arith

offline_AtLeast :
    (seconds minutes : ℤ)
    → magnitude minutes * 60 < 2 ^ 63
    → AtLeast 1 (offline_seconds seconds minutes)
unfolding offline_seconds
offline_AtLeast (pos (suc n)) minutes h = ground arith
offline_AtLeast (pos zero) (pos zero) h = ground arith
offline_AtLeast (pos zero) (pos (suc m)) h = ground arith
offline_AtLeast (pos zero) (negsuc m) h = ground arith
offline_AtLeast (negsuc n) (pos zero) h = ground arith
offline_AtLeast (negsuc n) (pos (suc m)) h = ground arith
offline_AtLeast (negsuc n) (negsuc m) h = ground arith

below-Fits :
    (x offline : ℤ) → AtLeast 1 x → AtLeast 1 offline → Fits offline (below_offline x offline)
unfolding below_offline max_int
below-Fits (pos x) (pos o) h k =
    by_if (Fits (pos o)) (ltb x o) (λ lt. record { positive = h; below = inl lt })
      λ ge.
        by_if (Fits (pos o)) (ltb (o / 2) 1)
          (λ one.
            let o_one : o ≡ 1 = ground arith in
            record { positive = refl; below = inr (ap pos o_one, refl) })
          λ more. record { positive = ground arith; below = inl (ground arith) }
below-Fits (pos x) (negsuc o) h k = ground arith
below-Fits (negsuc x) o h k = ground arith

heartbeat-Fits : (x offline : ℤ) → AtLeast 1 offline → Fits offline (heartbeat_seconds x offline)
unfolding heartbeat_seconds
heartbeat-Fits x offline h =
    below-Fits (or_default 5 x) offline (default_AtLeast 5 x (omega arith)) h

flush_positive :
    (x offline : ℤ)
    → AtLeast 1 offline
    → AtLeast 1 (if not_positive x then min_int (pos 5) offline else x)
unfolding min_int
flush_positive (pos zero) (pos o) h = ground arith
flush_positive (pos zero) (negsuc o) h = ground arith
flush_positive (pos (suc x)) offline h = ground arith
flush_positive (negsuc x) (pos o) h = ground arith
flush_positive (negsuc x) (negsuc o) h = ground arith

flush-Fits : (x offline : ℤ) → AtLeast 1 offline → Fits offline (flush_seconds x offline)
unfolding flush_seconds
flush-Fits x offline h =
    below-Fits (if not_positive x then min_int (pos 5) offline else x) offline
      (flush_positive x offline h) h

normalize-IsConsistent :
    (cfg : Config)
    → magnitude cfg.device_offline_minutes * 60 < 2 ^ 63
    → is_blank cfg.jwt_secret ≡ false
    → is_blank cfg.bootstrap_admin_pass ≡ false
    → is_blank cfg.mysql.host ≡ false
    → is_blank cfg.mysql.user ≡ false
    → is_blank cfg.mysql.db ≡ false
    → IsConsistent (normalize cfg)
unfolding normalize normalize_mysql
normalize-IsConsistent cfg h a b c d e =
    let offline = offline_AtLeast cfg.device_offline_seconds cfg.device_offline_minutes h in
    record {
      secret = a;
      admin_pass = b;
      mysql_host = c;
      mysql_user = d;
      mysql_db = e;
      raw_days = default_AtLeast 3 cfg.raw_retention_days (omega arith);
      keep_latest = default_AtLeast 100 cfg.raw_request_keep_latest (omega arith);
      aggregate_days = default_AtLeast 30 cfg.aggregate_retention_days (omega arith);
      offline = offline;
      offline_minutes = refl;
      heartbeat = heartbeat-Fits cfg.heartbeat_interval_seconds _ offline;
      flush = flush-Fits cfg.presence_flush_seconds _ offline;
      queue_size = raised_AtLeast 131072 cfg.persist_queue_size;
      workers = raised_AtLeast 32 cfg.persist_workers;
      client_queue = raised_AtLeast 2048 cfg.client_queue_size;
      in_flight = raised_AtLeast 256 cfg.client_max_in_flight;
      open_conns = raised_AtLeast 256 cfg.mysql.max_open_conns;
      idle_conns = raised_AtLeast 64 cfg.mysql.max_idle_conns;
      lifetime = default_AtLeast 10 cfg.mysql.conn_max_lifetime_minutes (omega arith);
    }

-- The settings without which `Load` fails.
abbrev pub required_keys : List String
required_keys =
    "JWT_SECRET" ∷ "BOOTSTRAP_ADMIN_PASSWORD" ∷ "MYSQL_HOST" ∷ "MYSQL_USER" ∷ "MYSQL_DB" ∷ []

-- What `Load` returns: a consistent configuration, or the name of a setting that is required. The
-- product of the minutes and 60 must not overflow.
abbrev pub Loads : Loaded → Type 0
Loads (loaded cfg) = IsConsistent cfg
Loads (required key) = member key required_keys ≡ true

-- `Load` returns only configurations in which the required settings are not blank, every limit is at
-- least the server's minimum, and the periods of heartbeats and of presence flushes are positive and
-- shorter than the time after which a device counts as offline (or both are one second). The minutes
-- that the file states must not overflow when they are turned into seconds. Otherwise `Load` names a
-- required setting.
pub load-Loads :
    (values : Map String String)
    → magnitude (get_int values "DEVICE_OFFLINE_MINUTES" (pos 0)) * 60 < 2 ^ 63
    → Loads (load values)
unfolding load settings
load-Loads values h =
    let cfg = settings values in
    by_if Loads (is_blank cfg.jwt_secret) (λ _. refl)
      λ a.
        by_if Loads (is_blank cfg.bootstrap_admin_pass) (λ _. refl)
          λ b.
            by_if Loads (is_blank cfg.mysql.host) (λ _. refl)
              λ c.
                by_if Loads (is_blank cfg.mysql.user) (λ _. refl)
                  λ d.
                    by_if Loads (is_blank cfg.mysql.db) (λ _. refl)
                      λ e. normalize-IsConsistent cfg h a b c d e
