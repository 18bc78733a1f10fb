-- ===== src/Smtp/Server/Config.antt =====
-- internal/smtp/config.go: the server's limits.
pub mod Limits
use mailx.Base.{
  ℕ, ◌*◌, Bool, false, Option, none, ◌==◌, ◌&&◌, ◌||◌, not, if◌then◌else◌, Result, ok, err, guard,
  ◌>>=◌, ◌>>◌,
}
use mailx.Base.Int.{ℤ, pos, negsuc, ltb_ℤ, pos_part}
use mailx.Base.Text.{Text}

-- Timeouts in nanoseconds; the observer is left out.
pub record Config : Type 0 where
  pub command_line_limit : ℤ
  pub read_timeout : ℤ
  pub write_timeout : ℤ
  pub max_message_size : ℤ
  pub max_connections : ℤ
  pub max_recipients : ℤ
  pub require_auth : Bool
  pub authenticator : Option (Text → Text → Option Text)

abbrev pub default_command_line_limit : ℕ
default_command_line_limit = 512

abbrev pub default_max_message_size : ℕ
default_max_message_size = 10 * 1024 * 1024

abbrev pub default_max_connections : ℕ
default_max_connections = 100

abbrev pub default_max_recipients : ℕ
default_max_recipients = 100

abbrev default_timeout : ℤ
default_timeout = pos (5 * 60 * 1000000000)

-- `DefaultConfig`
abbrev pub default_config : Config
default_config = record {
  command_line_limit = pos default_command_line_limit;
  read_timeout = default_timeout;
  write_timeout = default_timeout;
  max_message_size = pos default_max_message_size;
  max_connections = pos default_max_connections;
  max_recipients = pos default_max_recipients;
  require_auth = false;
  authenticator = none;
}

abbrev or_default : ℤ → ℕ → ℤ
or_default (pos n) d = if n == 0 then pos d else pos n
or_default (negsuc n) d = negsuc n

pub data ConfigError : Type 0 where
  short_command_line : ConfigError
  negative_timeout : ConfigError
  negative_message_size : ConfigError
  negative_connections : ConfigError
  negative_recipients : ConfigError

-- `Config.normalized`
unfoldable pub normalized_config : Config → Result ConfigError Config
normalized_config config = do
  let c = record config {
    max_message_size = or_default config.max_message_size default_max_message_size;
    max_connections = or_default config.max_connections default_max_connections;
    max_recipients = or_default config.max_recipients default_max_recipients;
  }
  guard (not (ltb_ℤ c.command_line_limit (pos default_command_line_limit))) short_command_line
  guard (not (ltb_ℤ c.read_timeout (pos 0) || ltb_ℤ c.write_timeout (pos 0))) negative_timeout
  guard (not (ltb_ℤ c.max_message_size (pos 0))) negative_message_size
  guard (not (ltb_ℤ c.max_connections (pos 0))) negative_connections
  guard (not (ltb_ℤ c.max_recipients (pos 0))) negative_recipients
  ok c
