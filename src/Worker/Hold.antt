-- ===== src/Worker/Hold.antt =====
-- internal/worker/routing.go: the hold of a message whose sending member is disabled.
use mailx.Base.{Bool, true, false, Option, none, some, not, if◌then◌else◌, ◌*◌}
use mailx.Base.Int.{ℤ, pos}
use mailx.Base.Text.{Text}
use mailx.Retry.Backoff.{second}
use mailx.Worker.World.{World}

abbrev pub member_disabled_hold : ℤ
member_disabled_hold = pos (30 * second)

unfoldable pub is_known : World → Text → Bool
is_known w member = elim w.member_known_locally [ none ↦ true | some known ↦ known member ]

-- An error of the gate counts as disabled.
unfoldable pub is_enabled : World → Text → Bool
is_enabled w member = elim w.member_routing_enabled [
  | none ↦ true
  | some enabled ↦ elim (enabled member) [ none ↦ false | some b ↦ b ]
]

-- `holdIfMemberDisabled`: whether the job is held.
unfoldable pub hold_if_member_disabled : World → Text → Bool
unfolding is_known is_enabled
hold_if_member_disabled w member =
    if not (is_known w member) then true else not (is_enabled w member)

unfoldable pub is_held : World → Option Text → Bool
unfolding hold_if_member_disabled
is_held w none = false
is_held w (some member) = hold_if_member_disabled w member
