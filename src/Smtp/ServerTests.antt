-- ===== src/Smtp/ServerTests.antt =====
-- Sessions of the SMTP server at concrete inputs, and the theorems about them there.
use mailx.Base.{
  ℕ, suc, ◌≡◌, refl, true, false, Option, none, some, List, [], ◌∷◌, ◌++◌, All, ok, arith,
}
use mailx.Base.Text.{Text, codes}
use mailx.Smtp.Data.{serialize_for_data, normalized}
use mailx.Smtp.Validation.{Credentials, validate_credentials}
use mailx.Smtp.Replies.{read_reply}
use mailx.Smtp.Replies.RoundTrip.{read_reply-wire}
use mailx.Smtp.Server.Config.{default_config}
use mailx.Smtp.Server.Reader.{read_data, read}
use mailx.Smtp.Server.Reader.RoundTrip.{read_data-serialize_for_data}
use mailx.Smtp.Server.Reply.{enhanced_reply, wire}
use mailx.Smtp.Server.Serve.{Server, Event, heard, replied, handed, serve, handle_connection}
use mailx.Smtp.Server.Serve.Fuel.{handle_connection-ends}
use mailx.Smtp.Server.Serve.Transcript.{IsTranscript, serve-IsTranscript}
use mailx.Smtp.Server.Transaction.Ledger.{blank}
use mailx.Smtp.Server.Serve.Promises.{IsSafe, IsHonest}
use mailx.Smtp.Server.Serve.Safety.{serve-IsSafe, serve-IsHonest}

abbrev plain_server : Server Text
plain_server = record {
  config = default_config;
  parse_message = λ raw. some raw;
  sink = some (λ n s m. true);
}

abbrev crlf : Text → Text
crlf s = s ++ (13 ∷ 10 ∷ [])

abbrev dialogue : Text
dialogue =
    crlf (codes "EHLO a")
    ++ (crlf (codes "MAIL FROM:<>")
        ++ (crlf (codes "RCPT TO:<b@c>")
            ++ (crlf (codes "DATA")
                ++ (crlf (codes "hi") ++ (crlf (codes ".") ++ crlf (codes "QUIT"))))))

code_of : Event Text → List ℕ
code_of (heard line) = []
code_of (replied r) = r.code ∷ []
code_of (handed s m taken) = 1 ∷ []

codes_of : List (Event Text) → List ℕ
unfolding code_of
codes_of [] = []
codes_of (e ∷ es) = code_of e ++ codes_of es

code_list : Option (List (Event Text)) → List ℕ
unfolding codes_of
code_list none = []
code_list (some es) = codes_of es

dialogue_codes :
    code_list (serve plain_server [] dialogue) ≡ 220 ∷ 250 ∷ 250 ∷ 250 ∷ 354 ∷ 1 ∷ 250 ∷ 221 ∷ []
unfolding serve code_list
dialogue_codes = refl

-- What happens in the dialogue.
abbrev events : List (Event Text)
unfolding serve
events = elim (serve plain_server [] dialogue) [ none ↦ [] | some es ↦ es ]

served : serve plain_server [] dialogue ≡ some events
unfolding serve
served = refl

serve-IsSafe_example : All (IsSafe plain_server dialogue) events
serve-IsSafe_example = serve-IsSafe plain_server dialogue [] events served

serve-IsHonest_example : IsHonest none events
serve-IsHonest_example = serve-IsHonest plain_server dialogue (λ n s m. true) [] events refl served

serve-IsTranscript_example : IsTranscript blank events
serve-IsTranscript_example = serve-IsTranscript plain_server [] dialogue events served

connected : handle_connection plain_server [] dialogue ≡ ok (some events)
unfolding handle_connection
connected = refl

handle_connection-ends_example :
    (es : List (Event Text)) × (◌≡◌ {A = Option (List (Event Text))} (some events) (some es))
handle_connection-ends_example =
    handle_connection-ends plain_server [] dialogue (some events) connected

-- Its third line would end the data if it were not stuffed.
abbrev letter : Text
letter = codes "a" ++ (10 ∷ (codes "..b" ++ (13 ∷ 10 ∷ (codes "." ++ (10 ∷ [])))))

read_data-serialize_for_data_example :
    read_data (suc (suc (suc 2))) 20 (serialize_for_data letter ++ codes "QUIT")
    ≡ read (record { raw = normalized letter; oversized = false; malformed = false }) (codes "QUIT")
unfolding normalized
read_data-serialize_for_data_example =
    read_data-serialize_for_data letter (codes "QUIT") 2 20 (omega arith) (omega arith)

abbrev accepted_line : Text
accepted_line = codes "250 2.6.0 OK" ++ (13 ∷ 10 ∷ [])

accepted_wire : wire (enhanced_reply 250 (codes "2.6.0") (codes "OK")) ≡ some accepted_line
unfolding wire
accepted_wire = refl

read_reply-wire_example :
    read_reply 50 512 (accepted_line ++ codes "221")
    ≡ some (record { code = 250; enhanced = codes "2.6.0"; text = codes "OK"; rest = codes "221" })
read_reply-wire_example =
    read_reply-wire 250 b'2' (codes ".6.0") (codes "OK") accepted_line (codes "221") 49 512
      accepted_wire (omega arith)

abbrev account : Credentials
account = record { username = codes "ann"; password = codes "pw" }

account_valid : validate_credentials account ≡ true
unfolding validate_credentials
account_valid = refl
