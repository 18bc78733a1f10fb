-- ===== src/Smtp/Server/Config/Limits.antt =====
-- internal/smtp/config.go: what a configuration that is taken guarantees.
use mailx.Base.{ℕ, ◌≤◌, ◌<◌, ◌≡◌, refl, ap, sym, ◌∙◌, >>=-eq-ok, ok, arith, guard, not, ◌||◌}
use mailx.Base.Int.{ℤ, pos, negsuc, ltb_ℤ, pos_part}
use mailx.Smtp.Server.Config.{
  Config, normalized_config, or_default, default_max_message_size, default_max_connections,
  default_max_recipients, default_command_line_limit,
}

pub record IsLimited (c : Config) : Type 0 where
  pub command_line : 512 ≤ pos_part c.command_line_limit
  pub message_size : 0 < pos_part c.max_message_size
  pub connections : 0 < pos_part c.max_connections
  pub recipients : 0 < pos_part c.max_recipients

default-IsLimited : (c d : Config) → normalized_config c ≡ ok d → IsLimited d
unfolding normalized_config
default-IsLimited c d h = ground (arith, h)

or_default_twice : (x : ℤ) (n : ℕ) → or_default (or_default x n) n ≡ or_default x n
or_default_twice (pos m) n = ground arith
or_default_twice (negsuc m) n = refl

with_defaults : Config → Config
with_defaults c = record c {
  max_message_size = or_default c.max_message_size default_max_message_size;
  max_connections = or_default c.max_connections default_max_connections;
  max_recipients = or_default c.max_recipients default_max_recipients;
}

normalized-with_defaults : (c : Config) → normalized_config (with_defaults c) ≡ normalized_config c
unfolding normalized_config with_defaults
normalized-with_defaults c =
    simp
      (
        or_default_twice c.max_message_size default_max_message_size,
        or_default_twice c.max_connections default_max_connections,
        or_default_twice c.max_recipients default_max_recipients,
      )
      refl

taken : (c d : Config) → normalized_config c ≡ ok d → with_defaults c ≡ d
unfolding normalized_config with_defaults
taken c d h =
    let (_, _, h1) =
      >>=-eq-ok (guard (not (ltb_ℤ c.command_line_limit (pos default_command_line_limit))) _) _ h in
    let (_, _, h2) =
      >>=-eq-ok (guard (not (ltb_ℤ c.read_timeout (pos 0) || ltb_ℤ c.write_timeout (pos 0))) _) _
        h1 in
    let (_, _, h3) =
      >>=-eq-ok
        (guard (not (ltb_ℤ (or_default c.max_message_size default_max_message_size) (pos 0))) _) _
        h2 in
    let (_, _, h4) =
      >>=-eq-ok
        (guard (not (ltb_ℤ (or_default c.max_connections default_max_connections) (pos 0))) _) _
        h3 in
    let (_, _, h5) =
      >>=-eq-ok (guard (not (ltb_ℤ (or_default c.max_recipients default_max_recipients) (pos 0))) _)
        _ h4 in
    cc

-- A configuration that `normalized` takes bounds command lines, by 512 bytes or more, messages,
-- connections and recipients, each by a positive number; and `normalized` takes the result as
-- it stands.
normalized_config-IsLimited :
    (c d : Config) → normalized_config c ≡ ok d → IsLimited d × (normalized_config d ≡ ok d)
normalized_config-IsLimited c d h = (
  default-IsLimited c d h,
  ap normalized_config (sym (taken c d h)) ∙ normalized-with_defaults c ∙ h,
)
