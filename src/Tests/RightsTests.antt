-- ===== src/Tests/RightsTests.antt =====
-- The rights of an authentication: the service asks for the given names and for the age, and gives no
-- date for the age.
use ausweisapp2_android_sdk.Base.{
  ◌≡◌, ◌<◌, get_or, refl, ◌⊎◌, true, false, not, ◌&&◌, ◌||◌, some, none, List, [], ◌∷◌, ℕ, zero,
  suc, arith,
}
use ausweisapp2_android_sdk.Card.AccessRight.{same_right, read_dg01, age_verification, can_allowed}
use ausweisapp2_android_sdk.Card.Chat.{Template, get_access_role, has_access_right, is_masked}
use ausweisapp2_android_sdk.Card.Chat.Fields.{IsFull}
use ausweisapp2_android_sdk.Workflow.Rights.{
  Rights, add_effective_access_right, remove_effective_access_right, encode_effective_chat,
}
use ausweisapp2_android_sdk.Workflow.Rights.Granted.{is_allowed}
use ausweisapp2_android_sdk.Workflow.Rights.Limited.{RightsCall, add_right, remove_right, set_all}
use ausweisapp2_android_sdk.Workflow.Rights.Sent.{
  rights_after, sent_chat-is_allowed, sent_chat-required, sent_chat_answered,
}

abbrev terminal : Template
terminal = 0x00 ∷ 0x00 ∷ 0x00 ∷ 0x01 ∷ 0x11 ∷ []

terminal-IsFull : IsFull terminal
terminal-IsFull = record { size = refl; bytes = small }
  where
    small : (i : ℕ) → get_or terminal i 0 < 256
    small zero = omega arith
    small (suc zero) = omega arith
    small (suc (suc zero)) = omega arith
    small (suc (suc (suc zero))) = omega arith
    small (suc (suc (suc (suc zero)))) = omega arith
    small (suc (suc (suc (suc (suc i))))) = omega arith

abbrev names : Template
names = 0x00 ∷ 0x00 ∷ 0x00 ∷ 0x01 ∷ 0x00 ∷ []

abbrev asked : Rights
asked = record {
  terminal_chat = none;
  eac1 = record {
    required_chat = some names;
    optional_chat = some (0x00 ∷ 0x00 ∷ 0x00 ∷ 0x00 ∷ 0x01 ∷ []);
    has_age_verification_date = false;
    has_community_id = false;
  };
  can_allowed_mode = false;
  required = [];
  optional = [];
  effective = [];
}

abbrev calls : List RightsCall
calls = add_right age_verification ∷ remove_right read_dg01 ∷ set_all (age_verification ∷ []) ∷ []

sent :
    encode_effective_chat terminal (rights_after terminal calls asked)
    ≡ 0x00 ∷ 0x00 ∷ 0x00 ∷ 0x01 ∷ 0x10 ∷ []
unfolding encode_effective_chat rights_after is_masked
sent = refl

granted :
    has_access_right read_dg01 (encode_effective_chat terminal (rights_after terminal calls asked))
    ≡ true
unfolding encode_effective_chat rights_after has_access_right is_masked
granted = refl

sent_chat-is_allowed_example :
    (has_access_right read_dg01 terminal ≡ true)
    × ((is_allowed terminal asked.eac1 read_dg01 ≡ true)
        ⊎ (same_right can_allowed read_dg01 ≡ true))
sent_chat-is_allowed_example =
    sent_chat-is_allowed terminal terminal-IsFull asked calls read_dg01 granted

names_asked : has_access_right read_dg01 names ≡ true
unfolding has_access_right is_masked same_right
names_asked = refl

names_allowed : is_allowed terminal asked.eac1 read_dg01 ≡ true
unfolding is_allowed is_masked
names_allowed = refl

sent_chat-required_example :
    (has_access_right read_dg01 (encode_effective_chat terminal (rights_after terminal calls asked))
      ≡ true)
    × (get_access_role (encode_effective_chat terminal (rights_after terminal calls asked))
        ≡ get_access_role terminal)
sent_chat-required_example =
    sent_chat-required terminal terminal-IsFull asked calls names read_dg01 refl names_asked
      names_allowed

sent_chat_answered_example :
    let after = rights_after terminal calls asked in
    let can = has_access_right can_allowed terminal && same_right can_allowed read_dg01 in
    let (taken, added) = add_effective_access_right read_dg01 after in
    let (left, removed) = remove_effective_access_right read_dg01 after in
    (has_access_right read_dg01 (encode_effective_chat terminal added) ≡ taken || can)
    × (has_access_right read_dg01 (encode_effective_chat terminal removed) ≡ not left || can)
sent_chat_answered_example = sent_chat_answered terminal terminal-IsFull asked calls read_dg01
