-- ===== src/Tests/CardTests.antt =====
-- Commands and responses of a card, byte by byte.
use ausweisapp2_android_sdk.Base.{ℕ, ◌≡◌, inl, List, [], ◌∷◌, arith}
use ausweisapp2_android_sdk.Card.CommandApdu.{
  get_cla, get_ins, get_p1, get_p2, command_apdu, get_lc, get_le,
}
use ausweisapp2_android_sdk.Card.CommandApdu
use ausweisapp2_android_sdk.Card.CommandApdu.RoundTrip.{
  get_le_lost, get_data-command_apdu, get_le-command_apdu,
}

abbrev challenge : List ℕ
challenge = command_apdu 0x00 0x84 0x00 0x00 (1 ∷ 2 ∷ []) 8

get_data-command_apdu_example :
    (get_cla challenge ≡ 0x00)
    × (get_ins challenge ≡ 0x84)
    × (get_p1 challenge ≡ 0x00)
    × (get_p2 challenge ≡ 0x00)
    × (CommandApdu.get_data challenge ≡ 1 ∷ 2 ∷ [])
get_data-command_apdu_example =
    get_data-command_apdu 0x00 0x84 0x00 0x00 (1 ∷ 2 ∷ []) 8 (omega arith) (omega arith)

get_le-command_apdu_example : get_le challenge ≡ 8
get_le-command_apdu_example =
    get_le-command_apdu 0x00 0x84 0x00 0x00 (1 ∷ 2 ∷ []) 8 (omega arith) (omega arith)
      (inl (omega arith))

get_le_lost_example :
    let apdu = command_apdu 0x00 0xb0 0x00 0x00 [] 1000 in (get_lc apdu ≡ 1000) × (get_le apdu ≡ 0)
get_le_lost_example = get_le_lost 0x00 0xb0 0x00 0x00 1000 (omega arith) (omega arith)

abbrev trailer : List ℕ
trailer = 0x90 ∷ 0x00 ∷ []
