-- ===== src/Card/Eac/Accepted.antt =====
-- What a card has answered where src/card/base/command/DidAuthenticateEAC2Command.cpp has succeeded.
use mathlib.Core.Path.{subst}
use ausweisapp2_android_sdk.Base.{
  ℕ, ◌≡◌, ◌≢◌, refl, ap, sym, ◌∙◌, ◌==◌, true, false, not, List, [], ◌∷◌, ◌++◌, if◌then◌else◌, inl,
  inr, Bool-cases,
}
use ausweisapp2_android_sdk.Status.{CardReturnCode, ok}
use ausweisapp2_android_sdk.Pace.Establish.{is_ok, is_ok→≡}
use ausweisapp2_android_sdk.Card.ResponseApdu.{value, success, get_return_code}
use ausweisapp2_android_sdk.Card.Certificates.{Cvc}
use ausweisapp2_android_sdk.Card.Connection.{Worker, Device, Answer, is_answered, transmit}
use ausweisapp2_android_sdk.Card.Eac.{
  build_pso, build_ea, build_ga, ChipAuthenticationInfo, checked, mse_certificate,
  put_certificate_chain, perform_terminal_authentication, mse_chip, perform_chip_authentication,
}

module _ {S K : Type 0} where
  -- From the first worker to the second, all commands have been sent, in this order, and each has been
  -- answered with SUCCESS.
  unfoldable pub Accepted : Device S K → Worker S K → List (List ℕ) → Worker S K → Type 0
  unfolding transmit is_answered
  Accepted d w [] w' = w ≡ w'
  Accepted d w (apdu ∷ apdus) w' =
      (is_answered success (transmit d w apdu).1 ≡ true) × Accepted d (transmit d w apdu).0 apdus w'

  pub Accepted-append :
      (d : Device S K) (apdus apdus' : List (List ℕ)) (w w' w'' : Worker S K)
      → Accepted d w apdus w'
      → Accepted d w' apdus' w''
      → Accepted d w (apdus ++ apdus') w''
  unfolding Accepted
  Accepted-append d [] apdus' w w' w'' a a' = subst (λ v. Accepted d v apdus' w'') (sym a) a'
  Accepted-append d (apdu ∷ apdus) apdus' w w' w'' (h, a) a' =
      (h, Accepted-append d apdus apdus' _ w' w'' a a')

pub is_refused→≢ : (code : CardReturnCode) → is_ok code ≡ false → code ≢ ok
unfolding is_ok
is_refused→≢ code lost e = absurd (cc (sym (ap is_ok e) ∙ lost))

checked-is_answered : (a : Answer) → checked a ≡ ok → is_answered success a ≡ true
unfolding checked is_answered
checked-is_answered (code, response) h = elim (Bool-cases (is_ok code)) [
  | inl there ↦ elim (Bool-cases (value (get_return_code response) == value success)) [
    | inl same ↦ rw (there, same) refl
    | inr other ↦ absurd (cc (rw other at (rw there at h)))
  ]
  | inr lost ↦ absurd (is_refused→≢ code lost (rw lost at h))
]

pub is_answered-checked : (a : Answer) → is_answered success a ≡ true → checked a ≡ ok
unfolding checked is_answered
is_answered-checked (code, response) h = elim (Bool-cases (is_ok code)) [
  | inl there ↦ elim (Bool-cases (value (get_return_code response) == value success)) [
    | inl same ↦ rw (there, same) refl
    | inr other ↦ absurd (cc (rw other at (rw there at h)))
  ]
  | inr lost ↦ absurd (cc (rw lost at h))
]

is_ok-ok : is_ok ok ≡ true
unfolding is_ok
is_ok-ok = refl

pub goes_on :
    {Z : Type 0} (code : CardReturnCode) (failed rest : Z)
    → code ≡ ok
    → (if not (is_ok code) then failed else rest) ≡ rest
goes_on code failed rest e = rw (e, is_ok-ok) refl

-- A command that returns unless a code is OK.
pub continues :
    {Z : Type 0} (code_of : Z → CardReturnCode) (code : CardReturnCode) (failed rest : Z)
    → code_of failed ≡ code
    → code_of (if not (is_ok code) then failed else rest) ≡ ok
    → (code ≡ ok) × ((if not (is_ok code) then failed else rest) ≡ rest)
continues code_of code failed rest f h = elim (Bool-cases (is_ok code)) [
  | inl there ↦ (is_ok→≡ code there, rw there refl)
  | inr lost ↦ absurd (is_refused→≢ code lost (sym f ∙ (rw lost at h)))
]

module _ {S K : Type 0} (d : Device S K) where
  unfoldable pub chain_commands : List Cvc → List (List ℕ)
  chain_commands [] = []
  chain_commands (c ∷ cvcs) = mse_certificate d c ∷ build_pso c ∷ chain_commands cvcs

  pub put_certificate_chain-Accepted :
      (w : Worker S K) (cvcs : List Cvc)
      → (put_certificate_chain d w cvcs).1 ≡ ok
      → Accepted d w (chain_commands cvcs) (put_certificate_chain d w cvcs).0
  unfolding put_certificate_chain chain_commands Accepted
  put_certificate_chain-Accepted w [] h = refl
  put_certificate_chain-Accepted w (c ∷ cvcs) h =
      let mse = transmit d w (mse_certificate d c) in
      let pso = transmit d mse.0 (build_pso c) in
      let rest = put_certificate_chain d pso.0 cvcs in
      let code_of : Worker S K × CardReturnCode → CardReturnCode = λ z. z.1 in
      let (e, p) = continues code_of (checked mse.1) (mse.0, checked mse.1) _ refl h in
      let (e', p') =
        continues code_of (checked pso.1) (pso.0, checked pso.1) rest refl
          (sym (ap code_of p) ∙ h) in
      (
        checked-is_answered mse.1 e,
        (
          checked-is_answered pso.1 e',
          subst (λ z. Accepted d pso.0 (chain_commands cvcs) z.0) (sym (p ∙ p'))
              (put_certificate_chain-Accepted pso.0 cvcs (sym (ap code_of (p ∙ p')) ∙ h)),
        ),
      )

  pub perform_terminal_authentication-Accepted :
      (w : Worker S K) (mse_command signature : List ℕ)
      → (perform_terminal_authentication d w mse_command signature).1 ≡ ok
      → Accepted d w
          (mse_command ∷ build_ea signature ∷ [])
          (perform_terminal_authentication d w mse_command signature).0
  unfolding perform_terminal_authentication Accepted
  perform_terminal_authentication-Accepted w mse_command signature h =
      let mse = transmit d w mse_command in
      let ea = transmit d mse.0 (build_ea signature) in
      let code_of : Worker S K × CardReturnCode → CardReturnCode = λ z. z.1 in
      let (e, p) =
        continues code_of (checked mse.1) (mse.0, checked mse.1) (ea.0, checked ea.1) refl h in
      (
        checked-is_answered mse.1 e,
        (checked-is_answered ea.1 (sym (ap code_of p) ∙ h), sym (ap (λ z. z.0) p)),
      )

  pub perform_chip_authentication-Accepted :
      (w : Worker S K) (info : ChipAuthenticationInfo) (key : List ℕ)
      → (perform_chip_authentication d w info key).1.0 ≡ ok
      → Accepted d w
          (mse_chip d info ∷ build_ga d.encode key ∷ [])
          (perform_chip_authentication d w info key).0
  unfolding perform_chip_authentication Accepted
  perform_chip_authentication-Accepted w info key h =
      let mse = transmit d w (mse_chip d info) in
      let ga = transmit d mse.0 (build_ga d.encode key) in
      let code_of : Worker S K × Answer → CardReturnCode = λ z. z.1.0 in
      let (e, p) = continues code_of (checked mse.1) (mse.0, (checked mse.1, [])) _ refl h in
      let (e', p') =
        continues code_of (checked ga.1) (ga.0, (checked ga.1, [])) (ga.0, (ok, ga.1.1)) refl
          (sym (ap code_of p) ∙ h) in
      (checked-is_answered mse.1 e, (checked-is_answered ga.1 e', sym (ap (λ z. z.0) (p ∙ p'))))

  pub Accepted-put_certificate_chain :
      (w w' : Worker S K) (cvcs : List Cvc) (apdus : List (List ℕ))
      → Accepted d w (chain_commands cvcs ++ apdus) w'
      → ((put_certificate_chain d w cvcs).1 ≡ ok)
        × Accepted d (put_certificate_chain d w cvcs).0 apdus w'
  unfolding put_certificate_chain chain_commands Accepted
  Accepted-put_certificate_chain w w' [] apdus a = (refl, a)
  Accepted-put_certificate_chain w w' (c ∷ cvcs) apdus (m, (s, a)) =
      let mse = transmit d w (mse_certificate d c) in
      let pso = transmit d mse.0 (build_pso c) in
      let rest = put_certificate_chain d pso.0 cvcs in
      let (e, a') = Accepted-put_certificate_chain pso.0 w' cvcs apdus a in
      let p =
        goes_on (checked mse.1) (mse.0, checked mse.1) _ (is_answered-checked mse.1 m)
        ∙ goes_on (checked pso.1) (pso.0, checked pso.1) rest (is_answered-checked pso.1 s) in
      (ap (λ z. z.1) p ∙ e, subst (λ z. Accepted d z.0 apdus w') (sym p) a')

  pub Accepted-perform_terminal_authentication :
      (w w' : Worker S K) (mse_command signature : List ℕ)
      → Accepted d w (mse_command ∷ build_ea signature ∷ []) w'
      → perform_terminal_authentication d w mse_command signature ≡ (w', ok)
  unfolding perform_terminal_authentication Accepted
  Accepted-perform_terminal_authentication w w' mse_command signature (m, (s, e)) =
      let mse = transmit d w mse_command in
      let ea = transmit d mse.0 (build_ea signature) in
      goes_on (checked mse.1) (mse.0, checked mse.1) (ea.0, checked ea.1)
        (is_answered-checked mse.1 m)
      ∙ (λ i. (e i, is_answered-checked ea.1 s i))

  -- The response to General Authenticate.
  unfoldable pub ga_response : Worker S K → ChipAuthenticationInfo → List ℕ → List ℕ
  ga_response w info key =
      (transmit d (transmit d w (mse_chip d info)).0 (build_ga d.encode key)).1.1

  pub Accepted-perform_chip_authentication :
      (w w' : Worker S K) (info : ChipAuthenticationInfo) (key : List ℕ)
      → Accepted d w (mse_chip d info ∷ build_ga d.encode key ∷ []) w'
      → perform_chip_authentication d w info key ≡ (w', (ok, ga_response w info key))
  unfolding perform_chip_authentication Accepted ga_response
  Accepted-perform_chip_authentication w w' info key (m, (s, e)) =
      let mse = transmit d w (mse_chip d info) in
      let ga = transmit d mse.0 (build_ga d.encode key) in
      goes_on (checked mse.1) (mse.0, (checked mse.1, [])) _ (is_answered-checked mse.1 m)
      ∙ goes_on (checked ga.1) (ga.0, (checked ga.1, [])) (ga.0, (ok, ga.1.1))
          (is_answered-checked ga.1 s)
      ∙ (λ i. (e i, (ok, ga.1.1)))
