-- ===== src/Card/Commands/Unblock.antt =====
-- src/card/base/command/UnblockPinCommand.cpp: what has reached the card where the PIN has been
-- unblocked.
use ausweisapp2_android_sdk.Base.{
  ◌≡◌, refl, ap, sym, ◌∙◌, ◌≢◌, inl, inr, true, false, not, if◌then◌else◌, ◌||◌, List, [], ◌∷◌,
  Bool-cases, ℕ, arith, none, some, is_empty, Option-cases, Option,
}
use ausweisapp2_android_sdk.Status.{CardReturnCode, ok}
use ausweisapp2_android_sdk.Pace.Context.{pace_puk}
use ausweisapp2_android_sdk.Pace.Reader.{is_eid}
use ausweisapp2_android_sdk.Pace.Establish.{is_ok, is_ok→≡}
use ausweisapp2_android_sdk.Card.Builders.{build_reset_retry_counter}
use ausweisapp2_android_sdk.Card.ResponseApdu.{get_sw1, error_command_not_allowed}
use ausweisapp2_android_sdk.Card.Connection.{
  Worker, Device, transmit, transmit_secured, unwrap, secure, establish_pace_channel,
}
use ausweisapp2_android_sdk.Card.Commands.{is_positive, is_refused, note_unblocked, unblock_pin}

module _ {S K : Type 0} (d : Device S K) where
  -- The command 00 2C 03 03, sealed with this key, has been answered by the card; the answer has been
  -- opened with the key, and does not say that the command is not allowed.
  unfoldable pub IsAnswered : K → S → Type 0
  IsAnswered k s =
      let sealed = d.encrypt k (0x00 ∷ 0x2c ∷ 3 ∷ 3 ∷ []) in
      let answer = (d.card_transmit s sealed.1).1 in
      let opened = (d.decrypt sealed.0 answer.1).1 in
      (is_empty sealed.1 ≡ false)
      × (is_empty opened ≡ false)
      × (answer.0 ≡ ok)
      × (get_sw1 opened ≢ error_command_not_allowed)

  transmit-IsAnswered :
      (w : Worker S K) (k : K) (card : Option S)
      → (note_unblocked (
          transmit d
            (record w { card = card; secure_messaging = some k })
            (build_reset_retry_counter none))).1
        ≡ ok
      → (s : S) × (card ≡ some s) × IsAnswered k s
  unfolding transmit transmit_secured unwrap note_unblocked build_reset_retry_counter is_ok
      IsAnswered
  transmit-IsAnswered w k none done = cc
  transmit-IsAnswered w k (some s) done =
      let sealed = d.encrypt k (0x00 ∷ 0x2c ∷ 3 ∷ 3 ∷ []) in
      let answer = (d.card_transmit s sealed.1).1 in
      let opened = (d.decrypt sealed.0 answer.1).1 in
      elim (Bool-cases (is_empty sealed.1)) [
        | inl unsealed ↦ absurd (cc (rw unsealed at done))
        | inr there ↦ elim (Bool-cases (is_empty opened)) [
          | inl lost ↦ absurd (cc (rw lost at (rw there at done)))
          | inr read ↦ elim (Bool-cases (is_refused (answer.0, opened))) [
            | inl refused ↦ absurd (cc (rw refused at (rw read at (rw there at done))))
            | inr free ↦
                let arrived : answer.0 ≡ ok = rw free at (rw read at (rw there at done)) in
                (s, refl, (there, read, arrived, λ e. absurd (cc (rw e at (rw arrived at free)))))
          ]
        ]
      ]

  establish_pace_channel-basic :
      (w : Worker S K) (s : S) (puk : List ℕ)
      → w.card ≡ some s
      → w.reader_info.basic_reader ≡ true
      → establish_pace_channel d w pace_puk puk [] [] ≡ secure (d.pace_handler w pace_puk puk [])
  unfolding establish_pace_channel
  establish_pace_channel-basic w s puk there basic = rw there (rw basic refl)

  -- What follows PACE.
  abbrev after_pace : Worker S K × CardReturnCode → CardReturnCode
  after_pace paced =
      (if not (is_ok paced.1)
        then paced
        else note_unblocked (transmit d paced.0 (build_reset_retry_counter none))).1

  -- On a reader without a keypad, the PIN is said to be unblocked only for an eID card with no
  -- tries left or an unknown counter and no deactivated PIN, after PACE with the PUK has
  -- succeeded; the card has then got the command 00 2C 03 03 sealed with the key of this PACE,
  -- never in plain, and its answer has been opened with the key and does not say that the command
  -- is not allowed.
  pub unblock_pin-IsAnswered :
      (w : Worker S K) (puk : List ℕ)
      → w.reader_info.basic_reader ≡ true
      → (unblock_pin d w puk).1 ≡ ok
      → let paced = d.pace_handler w pace_puk puk [] in
        (is_eid w.reader_info.card_info ≡ true)
        × (is_positive w.reader_info.card_info.retry_counter ≡ false)
        × (w.reader_info.card_info.pin_deactivated ≡ false)
        × (paced.1.0 ≡ ok)
        × ((s : S) × (paced.0.card ≡ some s) × IsAnswered paced.1.1 s)
  unfolding unblock_pin establish_pace_channel secure is_ok
  unblock_pin-IsAnswered w puk basic done =
      let i = w.reader_info.card_info in
      let paced = d.pace_handler w pace_puk puk [] in
      elim (Bool-cases (is_eid i)) [
        | inr other ↦ absurd (cc (rw other at done))
        | inl eid ↦ elim (Bool-cases (is_positive i.retry_counter || i.pin_deactivated)) [
          | inl usable ↦ absurd (cc (rw usable at (rw eid at done)))
          | inr blocked ↦ elim (Option-cases w.card) [
            | inl gone ↦ absurd (cc (rw gone at (rw blocked at (rw eid at done))))
            | inr (s, there) ↦
                let finished : after_pace (secure paced) ≡ ok =
                  sym (ap after_pace (establish_pace_channel-basic w s puk there basic))
                  ∙ (rw blocked at (rw eid at done)) in
                elim (Bool-cases (is_ok paced.1.0)) [
                  | inr failed ↦
                      let e : paced.1.0 ≡ ok = rw failed at finished in absurd (cc (rw e at failed))
                  | inl up ↦
                      let answered = rw up at finished in
                      (
                        eid,
                        ground arith,
                        ground arith,
                        is_ok→≡ paced.1.0 up,
                        transmit-IsAnswered paced.0 paced.1.1 paced.0.card answered,
                      )
                ]
          ]
        ]
      ]
