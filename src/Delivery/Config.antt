-- ===== src/Delivery/Config.antt =====
-- internal/delivery/delivery.go: the engine's configuration, and its validation.
use mailx.Base.{
  Bool, false, Option, none, some, List, [], ◌∷◌, ◌||◌, ◌&&◌, not, ltb, leb, ◌==◌, if◌then◌else◌,
  Result, ok, ◌>>◌, guard,
}
use mailx.Base.Int.{ℤ, pos, negsuc}
use mailx.Base.Text.{Text, trim_space, is_empty, contains_any}
use mailx.Smtp.Validation.{Credentials, credentials_ok}
use mailx.Delivery.Candidates.{Mx}

pub record Relay : Type 0 where
  pub host : Text
  pub port : ℤ
  pub auth : Option Credentials

pub record Config : Type 0 where
  pub smtp_port : ℤ
  pub shuffle : List Mx → List Mx
  pub relay : Option Relay

pub data ConfigError : Type 0 where
  port_out_of_range relay_host_invalid relay_port_out_of_range relay_credentials_invalid :
      ConfigError

-- 1 to 65535.
is_port : ℤ → Bool
is_port (pos n) = ltb 0 n && leb n 65535
is_port (negsuc n) = false

check_relay : Option Relay → Result ConfigError (Unit {0})
unfolding is_port trim_space is_empty contains_any credentials_ok
check_relay none = ok tt
check_relay (some r) = do
  guard
      (not
        (is_empty (trim_space r.host) || contains_any r.host (32 ∷ 9 ∷ 13 ∷ 10 ∷ b'/' ∷ b'@' ∷ [])))
      relay_host_invalid
  guard (is_port r.port) relay_port_out_of_range
  guard (credentials_ok r.auth) relay_credentials_invalid

is_zero : ℤ → Bool
is_zero (pos n) = n == 0
is_zero (negsuc n) = false

-- `NewEngine`: the configuration that the engine keeps. The nil checks on the interfaces have no
-- counterpart, and `shuffle` is the one that `NewEngine` settles on.
unfoldable pub new_engine : Config → Result ConfigError Config
unfolding is_port check_relay is_zero
new_engine c = do
  let port = if is_zero c.smtp_port then pos 25 else c.smtp_port
  guard (is_port port) port_out_of_range
  check_relay c.relay
  ok (record c { smtp_port = port })
