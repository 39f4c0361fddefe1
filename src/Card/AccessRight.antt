-- ===== src/Card/AccessRight.antt =====
-- The access rights of src/card/base/asn1/AccessRoleAndRight.h and AccessRoleAndRight.cpp.
use ausweisapp2_android_sdk.Base.{ℕ, Bool, List, [], ◌∷◌, ◌==◌}

pub data AccessRight : Type 0 where
  write_dg17 write_dg18 write_dg19 write_dg20 write_dg21 rfu_32 rfu_31 rfu_30 : AccessRight
  rfu_29 read_dg21 read_dg20 read_dg19 read_dg18 read_dg17 read_dg16 read_dg15 : AccessRight
  read_dg14 read_dg13 read_dg12 read_dg11 read_dg10 read_dg09 read_dg08 : AccessRight
  read_dg07 read_dg06 read_dg05 read_dg04 read_dg03 read_dg02 read_dg01 : AccessRight
  install_qual_cert install_cert pin_management can_allowed privileged_terminal : AccessRight
  restricted_identification community_id_verification age_verification : AccessRight

unfoldable pub right_value : AccessRight → ℕ
right_value write_dg17 = 37
right_value write_dg18 = 36
right_value write_dg19 = 35
right_value write_dg20 = 34
right_value write_dg21 = 33
right_value rfu_32 = 32
right_value rfu_31 = 31
right_value rfu_30 = 30
right_value rfu_29 = 29
right_value read_dg21 = 28
right_value read_dg20 = 27
right_value read_dg19 = 26
right_value read_dg18 = 25
right_value read_dg17 = 24
right_value read_dg16 = 23
right_value read_dg15 = 22
right_value read_dg14 = 21
right_value read_dg13 = 20
right_value read_dg12 = 19
right_value read_dg11 = 18
right_value read_dg10 = 17
right_value read_dg09 = 16
right_value read_dg08 = 15
right_value read_dg07 = 14
right_value read_dg06 = 13
right_value read_dg05 = 12
right_value read_dg04 = 11
right_value read_dg03 = 10
right_value read_dg02 = 9
right_value read_dg01 = 8
right_value install_qual_cert = 7
right_value install_cert = 6
right_value pin_management = 5
right_value can_allowed = 4
right_value privileged_terminal = 3
right_value restricted_identification = 2
right_value community_id_verification = 1
right_value age_verification = 0

-- `==` of the enumeration.
unfoldable pub same_right : AccessRight → AccessRight → Bool
unfolding right_value
same_right a b = right_value a == right_value b

unfoldable pub all_rights : List AccessRight
all_rights =
    write_dg17 ∷ write_dg18 ∷ write_dg19 ∷ write_dg20 ∷ write_dg21 ∷ rfu_32 ∷ rfu_31 ∷ rfu_30
    ∷ rfu_29 ∷ read_dg21 ∷ read_dg20 ∷ read_dg19 ∷ read_dg18 ∷ read_dg17 ∷ read_dg16 ∷ read_dg15
    ∷ read_dg14 ∷ read_dg13 ∷ read_dg12 ∷ read_dg11 ∷ read_dg10 ∷ read_dg09 ∷ read_dg08 ∷ read_dg07
    ∷ read_dg06 ∷ read_dg05 ∷ read_dg04 ∷ read_dg03 ∷ read_dg02 ∷ read_dg01 ∷ install_qual_cert
    ∷ install_cert ∷ pin_management ∷ can_allowed ∷ privileged_terminal ∷ restricted_identification
    ∷ community_id_verification ∷ age_verification ∷ []
