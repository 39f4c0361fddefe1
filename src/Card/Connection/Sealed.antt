-- ===== src/Card/Connection/Sealed.antt =====
-- src/card/base/CardConnectionWorker.cpp: `transmit` and `readFile` over a secure channel, against the
-- same calls without one.
use mathlib.Core.Option
use ausweisapp2_android_sdk.Base.{ℕ, ◌≡◌, false, Option, some, List, is_empty}
use ausweisapp2_android_sdk.Card.Connection.{Worker, Device, Answer}

-- The card of the first device opens what the channel seals, answers as the card of the second, and
-- seals its answer, as long as channel and card are in step.
pub record Opens {T K S L : Type 0} (d : Device T K) (e : Device S L) (in_step : T → K → S → Type 0)
    : Type 0 where
  pub seals :
      (t : T) (k : K) (s : S) (apdu : List ℕ)
      → in_step t k s
      → is_empty (d.encrypt k apdu).1 ≡ false
  pub answers :
      (t : T) (k : K) (s : S) (apdu : List ℕ)
      → in_step t k s
      → let sealed = d.encrypt k apdu in
        let r = d.card_transmit t sealed.1 in
        let opened = d.decrypt sealed.0 r.1.1 in
        ((r.1.0, opened.1) ≡ (e.card_transmit s apdu).1)
        × (is_empty opened.1 ≡ false)
        × in_step r.0 opened.0 (e.card_transmit s apdu).0

-- What a call says, without the connection that it leaves.
abbrev pub said : {X Y : Type 0} → Option (Worker X Y × Answer) → Option Answer
said = Option.map (λ r. r.1)

-- A connection with a secure channel.
unfoldable pub sealed : {T K : Type 0} → Worker T K → T → K → Worker T K
sealed w t k = record w { card = some t; secure_messaging = some k }
