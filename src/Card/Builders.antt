-- ===== src/Card/Builders.antt =====
-- src/card/base/SelectBuilder, ReadBinaryBuilder, ResetRetryCounterBuilder, MSEBuilder and FileRef:
-- the commands that the program builds itself. Bytes are numbers below 256.
use ausweisapp2_android_sdk.Base.{ℕ, ◌/◌, ◌%◌, Option, none, some, List, [], ◌∷◌, ◌++◌}
use ausweisapp2_android_sdk.Card.CommandApdu.{command_apdu}

-- A file on a card: how it is selected, and its name.
pub record FileRef : Type 0 where
  pub type : ℕ
  pub path : List ℕ

-- SelectBuilder::P1 and P2, as far as the program uses them.
abbrev pub child_ef : ℕ
child_ef = 0x02

abbrev pub select_mf : ℕ
select_mf = 0x00

abbrev pub application_id : ℕ
application_id = 0x04

abbrev pub no_answer : ℕ
no_answer = 0x0c

abbrev pub ef_dir : FileRef
ef_dir = record { type = child_ef; path = 0x2f ∷ 0x00 ∷ [] }

abbrev pub master_file : FileRef
master_file = record { type = select_mf; path = 0x3f ∷ 0x00 ∷ [] }

abbrev pub ef_card_access : FileRef
ef_card_access = record { type = child_ef; path = 0x01 ∷ 0x1c ∷ [] }

abbrev pub app_passport : FileRef
app_passport = record {
  type = application_id;
  path = 0xa0 ∷ 0x00 ∷ 0x00 ∷ 0x02 ∷ 0x47 ∷ 0x10 ∷ 0x01 ∷ [];
}

unfoldable pub build_select : FileRef → List ℕ
unfolding command_apdu
build_select file = command_apdu 0x00 0xa4 file.type no_answer file.path 0

-- `(x & 0xff00) >> 8` and `x & 0xff` of the offset, an unsigned int.
unfoldable pub build_read_binary : ℕ → ℕ → List ℕ
unfolding command_apdu
build_read_binary offset le = command_apdu 0x00 0xb0 (offset / 256 % 256) (offset % 256) [] le

-- A null byte array, without a new PIN, is `none`.
unfoldable pub build_reset_retry_counter : Option (List ℕ) → List ℕ
unfolding command_apdu
build_reset_retry_counter none = command_apdu 0x00 0x2c 3 3 [] 0
build_reset_retry_counter (some pin) = command_apdu 0x00 0x2c 2 3 pin 0

-- MSEBuilder with no data object set.
abbrev pub erase : ℕ
erase = 0xf4

abbrev pub default_channel : ℕ
default_channel = 0x01

abbrev pub perform_security_operation : ℕ
perform_security_operation = 0xc1

abbrev pub set_at : ℕ
set_at = 0xa4

-- The data objects in the order in which they are sent.
pub record MseData : Type 0 where
  pub oid : List ℕ
  pub public_key : List ℕ
  pub private_key : List ℕ
  pub auxiliary_data : List ℕ
  pub ephemeral_public_key : List ℕ
  pub chat : List ℕ

abbrev pub no_data : MseData
no_data = record {
  oid = [];
  public_key = [];
  private_key = [];
  auxiliary_data = [];
  ephemeral_public_key = [];
  chat = [];
}

unfoldable pub build_mse : ℕ → ℕ → MseData → List ℕ
unfolding command_apdu
build_mse p1 p2 d =
    command_apdu 0x00 0x22 p1 p2
      (d.oid
        ++ (d.public_key
            ++ (d.private_key ++ (d.auxiliary_data ++ (d.ephemeral_public_key ++ d.chat)))))
      0
