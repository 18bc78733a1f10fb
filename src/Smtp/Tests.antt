-- ===== src/Smtp/Tests.antt =====
-- Sessions of the SMTP client, and the theorems about them at concrete peers.
use mailx.Base.{◌≡◌, refl, true, false, none, some, [], ◌∷◌, ◌++◌}
use mailx.Base.Text.{codes}
use mailx.Smtp.Channel
use mailx.Smtp.Channel.{Channel, opportunistic, unset, none_yet}
use mailx.Smtp.StartTls.{Setup}
use mailx.Smtp.Upgrade.{upgrade}
use mailx.Smtp.StartTls.{secure}
use mailx.Smtp.Upgrade.Secrecy.{IsUpgraded, upgrade-IsUpgraded}
use mailx.Errors.{other, smtp, quit}
use mailx.Smtp.Session.{reply, Peer, Envelope, SendResult, run}
use mailx.Smtp.Session.Safety.{IsAcceptance, run_ok}

abbrev letter : Envelope
letter = record { mail_from = []; recipients = (b'a' ∷ []) ∷ [] }

-- EHLO is refused with 502, and HELO taken.
abbrev accepting : Peer
accepting = record {
  replies =
      reply 220 [] []
      ∷ reply 502 [] []
      ∷ reply 250 [] []
      ∷ reply 250 [] []
      ∷ reply 251 [] []
      ∷ reply 354 [] []
      ∷ reply 250 [] (b'q' ∷ [])
      ∷ [];
  secure = none;
  authenticate = none;
  write_message = none;
}

abbrev accepted_send : SendResult
accepted_send = record {
  accepted = true;
  final_code = 250;
  final_message = b'q' ∷ [];
  quit_error = some (
      smtp
        (record {
          stage = quit;
          code = 0;
          enhanced = [];
          remote = [];
          recipient = [];
          temporary = false;
        })
        other);
}

run_ok_example : IsAcceptance accepting letter accepted_send
unfolding run
run_ok_example = run_ok accepting letter accepted_send refl

-- A session that upgrades to TLS and authenticates.
abbrev upgrading : Setup
upgrading = record {
  policy = opportunistic;
  identity = codes "a";
  credentials = some (record { username = codes "ann"; password = codes "pw" });
  max_reply_line_bytes = 512;
  early_bytes = false;
  handshake = none;
}

abbrev open_channel : Channel
open_channel = record {
  capabilities = (codes "STARTTLS", []) ∷ [];
  tls = record {
    policy = opportunistic;
    advertised = false;
    attempted = false;
    established = false;
    outcome = unset;
  };
  auth = record { attempted = false; mechanism = []; outcome = none_yet };
  written = [];
  answers =
      Channel.reply 220 [] []
      ∷ Channel.reply 250 [] (codes "host" ++ (10 ∷ codes "AUTH PLAIN"))
      ∷ Channel.reply 235 [] []
      ∷ [];
}

upgrading_passes : (upgrade upgrading open_channel).1 ≡ none
unfolding upgrade
upgrading_passes = refl

upgrade-IsUpgraded_example :
    IsUpgraded upgrading (secure upgrading open_channel).0.answers (upgrade upgrading open_channel)
upgrade-IsUpgraded_example = upgrade-IsUpgraded upgrading open_channel tt
