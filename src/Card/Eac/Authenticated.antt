-- ===== src/Card/Eac/Authenticated.antt =====
-- src/card/base/command/DidAuthenticateEAC2Command.cpp as a whole: what has happened where it has
-- succeeded.
use mathlib.Core.Path.{subst}
use ausweisapp2_android_sdk.Base.{
  ℕ, ◌≡◌, ◌↔◌, refl, ap, sym, ◌∙◌, Option, none, some, List, [], ◌∷◌, ◌++◌, inl, inr, Option-cases,
}
use ausweisapp2_android_sdk.Status.{CardReturnCode, ok, command_failed}
use ausweisapp2_android_sdk.Card.Certificates.{Cvc, get_terminal_cvc}
use ausweisapp2_android_sdk.Card.Connection.{
  Worker, Device, Answer, read_file, stop_secure_messaging,
}
use ausweisapp2_android_sdk.Card.Commands.{to_hex}
use ausweisapp2_android_sdk.Card.Eac.{
  ef_card_security, build_ea, build_ga, ChipAuthenticationInfo, Decoders, Eac2, Eac2Output,
  with_prefix, compressed, put_certificate_chain, mse_terminal, perform_terminal_authentication,
  mse_chip, perform_chip_authentication, failed_with, agreed_output, note_agreed, choose_info,
  with_card_security, after_file, authenticate_terminal, execute_eac2,
}
use ausweisapp2_android_sdk.Card.Eac.Accepted.{
  Accepted, Accepted-append, Accepted-put_certificate_chain,
  Accepted-perform_terminal_authentication, Accepted-perform_chip_authentication, ga_response,
  goes_on, chain_commands, continues, put_certificate_chain-Accepted,
  perform_terminal_authentication-Accepted, perform_chip_authentication-Accepted,
}

-- Chip authentication with the first info of EF.CardSecurity, and the end of the channel.
pub record IsAgreed {S K : Type 0} (d : Device S K) (x : Decoders) (w : Worker S K)
    (key content : List ℕ) (out : Worker S K × Eac2Output) : Type 0 where
  pub info : ChipAuthenticationInfo
  pub infos : List ChipAuthenticationInfo
  pub agreed : Worker S K
  pub file_decoded : x.chip_authentication_infos content ≡ some (info ∷ infos)
  pub chip_accepted : Accepted d w (mse_chip d info ∷ build_ga d.encode key ∷ []) agreed
  pub told :
      out ≡ (stop_secure_messaging agreed, agreed_output x content (ga_response d w info key))

-- Terminal authentication for the certificate at the end of the chain, the content of
-- EF.CardSecurity, and chip authentication.
pub record IsAuthenticated {S K : Type 0} (fuel : ℕ) (d : Device S K) (x : Decoders)
    (w : Worker S K) (e : Eac2) (out : Worker S K × Eac2Output) : Type 0 where
  pub terminal : Cvc
  pub content : List ℕ
  pub authenticated : Worker S K
  pub read : Worker S K
  pub ends_chain : get_terminal_cvc e.cvc_chain ≡ some terminal
  pub terminal_accepted :
      Accepted d w
        (chain_commands d e.cvc_chain
          ++ (mse_terminal d
                (x.key_oid terminal)
                terminal.holder
                e.auxiliary_data
                (compressed (with_prefix e.ephemeral_public_key))
              ∷ build_ea e.signature
              ∷ []))
        authenticated
  pub file_read : read_file fuel d authenticated ef_card_security [] ≡ some (read, (ok, content))
  pub chip_agreed : IsAgreed d x read (with_prefix e.ephemeral_public_key) content out

some_value : {A : Type 0} {a b : A} → some a ≡ some b → a ≡ b
some_value {a = a} h =
    let value_of : Option _ → _ = λ o. elim o [ none ↦ a | some v ↦ v ] in ap value_of h

module _ {S K : Type 0} (d : Device S K) (x : Decoders) where
  note_agreed-ok :
      (content : List ℕ) (z : Worker S K × Answer)
      → (note_agreed x content z).1.return_code ≡ ok
      → z.1.0 ≡ ok
  unfolding note_agreed
  note_agreed-ok content (w, (code, response)) h =
      let code_of : Worker S K × Eac2Output → CardReturnCode = λ z. z.1.return_code in
      (continues code_of code (w, failed_with code (to_hex content)) _ refl h).0

  note_agreed-agreed_output :
      (content response : List ℕ) (w : Worker S K)
      → note_agreed x content (w, (ok, response))
        ≡ (stop_secure_messaging w, agreed_output x content response)
  unfolding note_agreed
  note_agreed-agreed_output content response w =
      goes_on ok (w, failed_with ok (to_hex content)) _ refl

  perform_chip_authentication-told :
      (w w' : Worker S K) (info : ChipAuthenticationInfo) (key content : List ℕ)
      → Accepted d w (mse_chip d info ∷ build_ga d.encode key ∷ []) w'
      → note_agreed x content (perform_chip_authentication d w info key)
        ≡ (stop_secure_messaging w', agreed_output x content (ga_response d w info key))
  perform_chip_authentication-told w w' info key content a =
      ap (note_agreed x content) (Accepted-perform_chip_authentication d w w' info key a)
      ∙ note_agreed-agreed_output content (ga_response d w info key) w'

  choose_info-ok :
      (w : Worker S K) (key content : List ℕ) (infos : Option (List ChipAuthenticationInfo))
      → (choose_info d x w key content infos).1.return_code ≡ ok
      → (info : ChipAuthenticationInfo) × (rest : List ChipAuthenticationInfo) × (infos
          ≡ some (info ∷ rest))
        × (choose_info d x w key content infos
            ≡ note_agreed x content (perform_chip_authentication d w info key))
  unfolding choose_info
  choose_info-ok w key content none h = absurd (cc h)
  choose_info-ok w key content (some []) h = absurd (cc h)
  choose_info-ok w key content (some (info ∷ rest)) h = (info, rest, refl, refl)

  with_card_security-ok :
      (w : Worker S K) (key content : List ℕ) (code : CardReturnCode)
      → (with_card_security d x key (w, (code, content))).1.return_code ≡ ok
      → (code ≡ ok)
        × (with_card_security d x key (w, (code, content))
            ≡ choose_info d x w key content (x.chip_authentication_infos content))
  unfolding with_card_security
  with_card_security-ok w key content code h =
      let code_of : Worker S K × Eac2Output → CardReturnCode = λ z. z.1.return_code in
      continues code_of code (w, failed_with code []) _ refl h

  after_file-some :
      (key : List ℕ) (read : Option (Worker S K × Answer)) (out : Worker S K × Eac2Output)
      → after_file d x key read ≡ some out
      → (r : Worker S K × Answer) × (read ≡ some r) × (with_card_security d x key r ≡ out)
  unfolding after_file
  after_file-some key none out h = absurd (cc h)
  after_file-some key (some r) out h = (r, refl, some_value h)

  with_card_security-IsAgreed :
      (w : Worker S K) (key content : List ℕ) (code : CardReturnCode)
      → (with_card_security d x key (w, (code, content))).1.return_code ≡ ok
      → (code ≡ ok) × IsAgreed d x w key content (with_card_security d x key (w, (code, content)))
  with_card_security-IsAgreed w key content code o =
      let code_of : Worker S K × Eac2Output → CardReturnCode = λ z. z.1.return_code in
      let (read_ok, c) = with_card_security-ok w key content code o in
      let (info, rest, decoded, a) =
        choose_info-ok w key content (x.chip_authentication_infos content)
          (sym (ap code_of c) ∙ o) in
      let ca = perform_chip_authentication d w info key in
      let accepted =
        perform_chip_authentication-Accepted d w info key
          (note_agreed-ok content ca (sym (ap code_of (c ∙ a)) ∙ o)) in
      (
        read_ok,
        record {
          info = info;
          infos = rest;
          agreed = ca.0;
          file_decoded = decoded;
          chip_accepted = accepted;
          told = c ∙ a ∙ perform_chip_authentication-told w ca.0 info key content accepted;
        },
      )

  authenticate_terminal-IsAuthenticated :
      (fuel : ℕ) (w : Worker S K) (e : Eac2) (terminal : Cvc) (out : Worker S K × Eac2Output)
      → get_terminal_cvc e.cvc_chain ≡ some terminal
      → authenticate_terminal fuel d x w e terminal ≡ some out
      → out.1.return_code ≡ ok
      → IsAuthenticated fuel d x w e out
  unfolding authenticate_terminal
  authenticate_terminal-IsAuthenticated fuel w e terminal out t h o =
      let key = with_prefix e.ephemeral_public_key in
      let code_of : Option (Worker S K × Eac2Output) → CardReturnCode =
        λ z. elim z [ none ↦ command_failed | some r ↦ r.1.return_code ] in
      let put = put_certificate_chain d w e.cvc_chain in
      let mse =
        mse_terminal d (x.key_oid terminal) terminal.holder e.auxiliary_data (compressed key) in
      let ta = perform_terminal_authentication d put.0 mse e.signature in
      let file = read_file fuel d ta.0 ef_card_security [] in
      let (put_ok, p) =
        continues code_of put.1 (some (put.0, failed_with put.1 [])) _ refl (ap code_of h ∙ o) in
      let (ta_ok, q) =
        continues code_of ta.1 (some (ta.0, failed_with ta.1 [])) (after_file d x key file) refl
          (ap code_of (sym p ∙ h) ∙ o) in
      let ((read, (code, content)), f, r) = after_file-some key file out (sym (p ∙ q) ∙ h) in
      let (read_ok, a) =
        with_card_security-IsAgreed read key content code (ap (λ z. z.1.return_code) r ∙ o) in
      record {
        terminal = terminal;
        content = content;
        authenticated = ta.0;
        read = read;
        ends_chain = t;
        terminal_accepted =
            Accepted-append d (chain_commands d e.cvc_chain) (mse ∷ build_ea e.signature ∷ []) w
              put.0 ta.0 (put_certificate_chain-Accepted d w e.cvc_chain put_ok)
              (perform_terminal_authentication-Accepted d put.0 mse e.signature ta_ok);
        file_read = f ∙ ap (λ z. some (read, (z, content))) read_ok;
        chip_agreed = subst (IsAgreed d x read key content) r a;
      }

  execute_eac2-IsAuthenticated :
      (fuel : ℕ) (w : Worker S K) (e : Eac2) (out : Worker S K × Eac2Output)
      → execute_eac2 fuel d x w e ≡ some out
      → out.1.return_code ≡ ok
      → IsAuthenticated fuel d x w e out
  unfolding execute_eac2
  execute_eac2-IsAuthenticated fuel w e out h o =
      elim (Option-cases (get_terminal_cvc e.cvc_chain)) [
        | inl missing ↦ absurd (cc (rw (missing, execute_eac2) at h))
        | inr (terminal, t) ↦
            authenticate_terminal-IsAuthenticated fuel w e terminal out t
              (rw (t, execute_eac2) at h) o
      ]

  IsAgreed-with_card_security :
      (w : Worker S K) (key content : List ℕ) (out : Worker S K × Eac2Output)
      → IsAgreed d x w key content out
      → with_card_security d x key (w, (ok, content)) ≡ out
  unfolding with_card_security choose_info
  IsAgreed-with_card_security w key content out a =
      goes_on ok (w, failed_with ok []) _ refl
      ∙ ap (choose_info d x w key content) a.file_decoded
      ∙ perform_chip_authentication-told w a.agreed a.info key content a.chip_accepted
      ∙ sym a.told

  IsAuthenticated-authenticate_terminal :
      (fuel : ℕ) (w : Worker S K) (e : Eac2) (out : Worker S K × Eac2Output)
      → (a : IsAuthenticated fuel d x w e out)
      → authenticate_terminal fuel d x w e a.terminal ≡ some out
  unfolding authenticate_terminal after_file
  IsAuthenticated-authenticate_terminal fuel w e out a =
      let key = with_prefix e.ephemeral_public_key in
      let put = put_certificate_chain d w e.cvc_chain in
      let mse =
        mse_terminal d (x.key_oid a.terminal) a.terminal.holder e.auxiliary_data (compressed key) in
      let ta = perform_terminal_authentication d put.0 mse e.signature in
      let (put_ok, rest) =
        Accepted-put_certificate_chain d w a.authenticated e.cvc_chain
          (mse ∷ build_ea e.signature ∷ []) a.terminal_accepted in
      let t =
        Accepted-perform_terminal_authentication d put.0 a.authenticated mse e.signature rest in
      let after : Worker S K → Option (Worker S K × Eac2Output) =
        λ v. after_file d x key (read_file fuel d v ef_card_security []) in
      goes_on put.1 (some (put.0, failed_with put.1 [])) _ put_ok
      ∙ goes_on ta.1 (some (ta.0, failed_with ta.1 [])) (after ta.0) (ap (λ z. z.1) t)
      ∙ ap (λ z. after z.0) t
      ∙ ap (after_file d x key) a.file_read
      ∙ ap some (IsAgreed-with_card_security a.read key a.content out a.chip_agreed)

  IsAuthenticated-execute_eac2 :
      (fuel : ℕ) (w : Worker S K) (e : Eac2) (out : Worker S K × Eac2Output)
      → IsAuthenticated fuel d x w e out
      → execute_eac2 fuel d x w e ≡ some out
  unfolding execute_eac2
  IsAuthenticated-execute_eac2 fuel w e out a =
      let run : Option Cvc → Option (Worker S K × Eac2Output) =
        λ t. elim t [ none ↦ none | some terminal ↦ authenticate_terminal fuel d x w e terminal ] in
      ap run a.ends_chain ∙ IsAuthenticated-authenticate_terminal fuel w e out a

  -- DIDAuthenticate EAC2 succeeds, with this connection and these outputs, exactly if the card
  -- has answered with SUCCESS, in this order, to the two commands for each certificate of the
  -- chain and to MSE:Set AT and External Authenticate for the certificate at its end;
  -- EF.CardSecurity has been read then and has infos for chip authentication; the card has
  -- answered with SUCCESS to MSE:Set AT for the first info and to General Authenticate; secure
  -- messaging has stopped; and the outputs are the content of EF.CardSecurity and the nonce and
  -- the token of the last answer.
  pub execute_eac2_iff :
      (fuel : ℕ) (w : Worker S K) (e : Eac2) (out : Worker S K × Eac2Output)
      → ((execute_eac2 fuel d x w e ≡ some out) × (out.1.return_code ≡ ok))
        ↔ IsAuthenticated fuel d x w e out
  execute_eac2_iff fuel w e out = (
    λ (h, o). execute_eac2-IsAuthenticated fuel w e out h o,
    λ a.
        (IsAuthenticated-execute_eac2 fuel w e out a, ap (λ z. z.1.return_code) a.chip_agreed.told),
  )
