-- ===== src/Card/Detection/Detected.antt =====
-- src/card/base/CardInfo.cpp: what CardInfoFactory::create leaves of a card that serves
-- EF.CardAccess.
use ausweisapp2_android_sdk.Base.{ℕ, ◌≡◌, Bool, true, false, Option, none, some, List}
use mathlib.Core.Option
use ausweisapp2_android_sdk.Pace.Reader.{unknown_card, eid_card}
use ausweisapp2_android_sdk.Card.Connection.{Worker}
use ausweisapp2_android_sdk.Card.Detection.{new_card_info}

module _ {S K : Type 0} where
  -- An eID card with its EF.CardAccess, or a card of which nothing is known.
  unfoldable pub IsDetected : Bool → Worker S K → Type 0
  IsDetected true w =
      (w.reader_info.card_info.card_type ≡ eid_card)
      × ((access : List ℕ × List ℕ) × (w.counter_reference ≡ some access))
  IsDetected false w =
      (w.reader_info.card_info ≡ new_card_info unknown_card) × (w.counter_reference ≡ none)
