-- ===== src/Smtp/Server/Command/Words.antt =====
-- internal/smtp/server.go: the verbs that the switch of `serve` knows, as words.
use mailx.Base.{◌≤◌, ◌≡◌, refl, sym, subst, true, false, [], ◌∷◌, arith, if_cases, All}
use mailx.Base.Text.{Text, codes, text_eq, eq_of_text_eq, contains_any}
use mailx.Smtp.Server.Command.{Verb, is_known, verb_of}

abbrev pub IsWord : Text → Type 0
IsWord text = All (λ c. b'A' ≤ c) text

of_literal : (text literal : Text) → IsWord literal → text_eq text literal ≡ true → IsWord text
of_literal text literal h e = subst IsWord (sym (eq_of_text_eq text literal e)) h

-- A verb that the switch knows is one of its words.
pub known_verb-IsWord : (text : Text) → is_known (verb_of text) ≡ true → IsWord text
unfolding verb_of is_known
known_verb-IsWord text =
    let P : Verb → Type 0 = λ v. is_known v ≡ true → IsWord text in
    if_cases P (text_eq text (codes "EHLO")) (λ e _. of_literal text (codes "EHLO") (omega arith) e)
      λ _.
        if_cases P (text_eq text (codes "HELO"))
          (λ e _. of_literal text (codes "HELO") (omega arith) e)
          λ _.
            if_cases P (text_eq text (codes "NOOP"))
              (λ e _. of_literal text (codes "NOOP") (omega arith) e)
              λ _.
                if_cases P (text_eq text (codes "RSET"))
                  (λ e _. of_literal text (codes "RSET") (omega arith) e)
                  λ _.
                    if_cases P (text_eq text (codes "AUTH"))
                      (λ e _. of_literal text (codes "AUTH") (omega arith) e)
                      λ _.
                        if_cases P (text_eq text (codes "MAIL"))
                          (λ e _. of_literal text (codes "MAIL") (omega arith) e)
                          λ _.
                            if_cases P (text_eq text (codes "RCPT"))
                              (λ e _. of_literal text (codes "RCPT") (omega arith) e)
                              λ _.
                                if_cases P (text_eq text (codes "DATA"))
                                  (λ e _. of_literal text (codes "DATA") (omega arith) e)
                                  λ _.
                                    if_cases P (text_eq text (codes "QUIT"))
                                      (λ e _. of_literal text (codes "QUIT") (omega arith) e)
                                      λ _ k. absurd (cc)

abbrev pub OneLine : Text → Type 0
OneLine text = contains_any text (13 ∷ 10 ∷ []) ≡ false

IsWord-OneLine : (text : Text) → IsWord text → OneLine text
unfolding contains_any
IsWord-OneLine [] h = refl
IsWord-OneLine (c ∷ text) h = ground (arith, h.0, IsWord-OneLine text h.1)

pub known_verb : (text : Text) → is_known (verb_of text) ≡ true → OneLine text
known_verb text h = IsWord-OneLine text (known_verb-IsWord text h)
