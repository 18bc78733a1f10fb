-- ===== src/Smtp/Server/Command.antt =====
-- internal/smtp/server.go: the syntax of a command line and of its argument.
pub mod Paths
pub mod Words
pub mod Brackets
use mailx.Base.{
  ℕ, ◌+◌, ◌-◌, Bool, true, false, Option, none, some, List, [], ◌∷◌, ◌++◌, ◌&&◌, ◌||◌, not, leb,
  ltb, ◌==◌, if◌then◌else◌, length, take, drop,
}
use mailx.Base.Text.{Text, codes, text_eq, is_empty, contains_any, to_upper, cut, equal_fold}
use mailx.Smtp.Validation.{ends_with}

-- What `command` returns.
pub record Command : Type 0 where
  pub verb : Text
  pub argument : Text
  pub has_argument : Bool
  pub is_valid : Bool

unfoldable pub is_printable : ℕ → Bool
is_printable c = leb 0x20 c && leb c 0x7e

-- `isASCIICommandText`
unfoldable pub is_ascii_command_text : Text → Bool
unfolding is_printable
is_ascii_command_text [] = true
is_ascii_command_text (c ∷ s) = is_printable c && is_ascii_command_text s

abbrev prefix_after : ℕ → Option Text → Option Text
prefix_after c none = none
prefix_after c (some s) = some (c ∷ s)

-- What stands before the first byte that is not printable, if that comes before a space.
unfoldable pub bad_prefix : Text → Option Text
unfolding is_printable
bad_prefix [] = none
bad_prefix (c ∷ s) =
    if c == 32 then none else if is_printable c then prefix_after c (bad_prefix s) else some []

starts_with : ℕ → Text → Bool
starts_with d [] = false
starts_with d (c ∷ s) = c == d

-- The line's verb and argument, at the first space.
split_command : Text → Option (Text × Text) → Command
unfolding to_upper is_ascii_command_text is_empty starts_with
split_command line none = record {
  verb = to_upper line;
  argument = [];
  has_argument = false;
  is_valid = is_ascii_command_text line;
}
split_command line (some (verb, argument)) =
    if is_empty argument || starts_with 32 argument
    then record { verb = to_upper verb; argument = []; has_argument = true; is_valid = false }
    else record {
      verb = to_upper verb;
      argument = argument;
      has_argument = true;
      is_valid = is_ascii_command_text line;
    }

-- `command`
unfoldable pub command : Text → Command
unfolding bad_prefix split_command cut starts_with to_upper is_empty
command line =
    if is_empty line || starts_with 32 line || starts_with 9 line
    then record { verb = []; argument = []; has_argument = false; is_valid = false }
    else elim (bad_prefix line) [
      | some before ↦ record {
        verb = to_upper before;
        argument = [];
        has_argument = true;
        is_valid = false;
      }
      | none ↦ split_command line (cut 32 line)
    ]

-- The verbs of the switch in `serve`.
pub data Verb : Type 0 where
  ehlo : Verb
  helo : Verb
  noop : Verb
  rset : Verb
  auth : Verb
  mail : Verb
  rcpt : Verb
  message_data : Verb
  quit : Verb
  unknown : Verb

unfoldable pub verb_of : Text → Verb
unfolding text_eq
verb_of v =
    if text_eq v (codes "EHLO")
    then ehlo
    else if text_eq v (codes "HELO")
    then helo
    else if text_eq v (codes "NOOP")
    then noop
    else if text_eq v (codes "RSET")
    then rset
    else if text_eq v (codes "AUTH")
    then auth
    else if text_eq v (codes "MAIL")
    then mail
    else if text_eq v (codes "RCPT")
    then rcpt
    else if text_eq v (codes "DATA")
    then message_data
    else if text_eq v (codes "QUIT")
    then quit
    else unknown

-- `isKnownCommand`
unfoldable pub is_known : Verb → Bool
is_known unknown = false
is_known _ = true

-- `validGreetingArgument`
unfoldable pub valid_greeting_argument : Text → Bool
unfolding is_empty contains_any
valid_greeting_argument argument =
    not (is_empty argument) && not (contains_any argument (32 ∷ 9 ∷ []))

-- Lines 447 to 456 of `parsePathArgument`: the mailbox between the brackets.
unfoldable pub checked_path : Bool → Text → Option Text
unfolding is_empty contains_any is_ascii_command_text
checked_path allow_empty path =
    let mailbox = take (length path - 2) (drop 1 path) in
    if (not allow_empty && is_empty mailbox)
      || contains_any mailbox (32 ∷ b'<' ∷ b'>' ∷ 9 ∷ [])
      || not (is_ascii_command_text mailbox)
    then none
    else some path

-- `parsePathArgument`
unfoldable pub parse_path_argument : Text → Bool → Text → Bool → Option Text
unfolding equal_fold ends_with checked_path
parse_path_argument argument has_argument keyword allow_empty =
    let start = keyword ++ (b':' ∷ b'<' ∷ []) in
    if not has_argument
      || ltb (length argument) (length start + 1)
      || not (equal_fold (take (length start) argument) start)
      || not (ends_with b'>' argument)
    then none
    else checked_path allow_empty (drop (length start - 1) argument)
