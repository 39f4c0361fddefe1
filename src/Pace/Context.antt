-- ===== src/Pace/Context.antt =====
-- src/core/context/WorkflowContext.cpp, as far as PACE needs it, and
-- src/card/base/CardConnection.h. Texts are lists of code units. The signals to the user interface,
-- the approval apart, carry no state and are left out. The time of a timer is the number of
-- milliseconds since some start.
use ausweisapp2_android_sdk.Base.{
  ℕ, ◌+◌, ◌-◌, Bool, true, false, ◌&&◌, ◌||◌, List, [], ◌∷◌, Option, none, some, ltb, leb, ◌==◌,
  if◌then◌else◌,
}
use ausweisapp2_android_sdk.Status.{
  Code, CardReturnCode, is_error, is_no_error, ok, no_error, card_cancellation_by_user,
}

abbrev pub Text : Type 0
Text = List ℕ

unfoldable pub same_text : Text → Text → Bool
same_text [] [] = true
same_text (a ∷ s) (b ∷ t) = a == b && same_text s t
same_text _ _ = false

-- A retry counter; `none` is the undefined counter -1.
abbrev pub Counter : Type 0
Counter = Option ℕ

abbrev pub same_counter : Counter → Counter → Bool
same_counter none none = true
same_counter (some a) (some b) = a == b
same_counter _ _ = false

pub data PacePasswordId : Type 0 where
  unknown_id pace_mrz pace_can pace_pin pace_puk : PacePasswordId

-- CardConnection, with what the states read of its reader info.
pub record Connection : Type 0 where
  pub retry_counter : Counter
  pub basic_reader : Bool
  pub pace_can_successful : Bool
  pub pace_pin_successful : Bool

pub record Context : Type 0 where
  pub state_approved : Bool
  pub workflow_killed : Bool
  pub reader_name : Text
  pub card_connection : Option Connection
  pub vanished_count : ℕ
  pub vanished_timer : Option ℕ
  pub can : Text
  pub pin : Text
  pub puk : Text
  pub new_pin : Option Text
  pub channel_type : PacePasswordId
  pub expected_reader_name : Text
  pub expected_retry_counter : Counter
  pub last_pace_result : CardReturnCode
  pub status : Code
  pub error_reported : Bool
  pub pace_result_reported : Bool
  pub workflow_cancelled : Bool
  pub can_allowed_mode : Bool
  pub insufficient_apdu_length : Bool
  pub pace_output : Bool

-- The constructor.
unfoldable pub new_context : Context
new_context = record {
  state_approved = false;
  workflow_killed = false;
  reader_name = [];
  card_connection = none;
  vanished_count = 0;
  vanished_timer = none;
  can = [];
  pin = [];
  puk = [];
  new_pin = none;
  channel_type = unknown_id;
  expected_reader_name = [];
  expected_retry_counter = none;
  last_pace_result = ok;
  status = no_error;
  error_reported = true;
  pace_result_reported = false;
  workflow_cancelled = false;
  can_allowed_mode = false;
  insufficient_apdu_length = false;
  pace_output = false;
}

unfoldable pub is_error_reported_to_user : Context → Bool
is_error_reported_to_user c = c.error_reported || c.workflow_killed

unfoldable pub set_status : Code → Context → Context
set_status s c = record c { status = s; error_reported = false }

unfoldable pub set_last_pace_result : CardReturnCode → Context → Context
set_last_pace_result r c = record c { last_pace_result = r; pace_result_reported = false }

unfoldable pub reset_last_pace_result : Context → Context
unfolding set_last_pace_result
reset_last_pace_result c = set_last_pace_result ok c

-- With the override in ChangePinContext; `new_pin` is `none` in the other contexts.
unfoldable pub reset_pace_passwords : Context → Context
reset_pace_passwords c = record c {
  can = [];
  pin = [];
  puk = [];
  new_pin = elim c.new_pin [ none ↦ none | some t ↦ some [] ];
}

unfoldable pub reset_card_connection : Context → Context
reset_card_connection c = record c { card_connection = none }

-- `isNpaRepositioningRequired`, at the time `now`.
unfoldable pub is_npa_repositioning_required : ℕ → Context → Bool
is_npa_repositioning_required now c =
    leb 10 c.vanished_count
    || (elim c.vanished_timer [ none ↦ false | some start ↦ ltb 4000 (now - start) ])

unfoldable pub set_npa_position_verified : Context → Context
set_npa_position_verified c = record c { vanished_count = 0; vanished_timer = none }

abbrev pub started : ℕ → ℕ → Option ℕ → Option ℕ
started now count none = if ltb 0 count then some now else none
started now count (some start) = some start

unfoldable pub handle_wrong_npa_position : ℕ → Context → Context
unfolding reset_card_connection
handle_wrong_npa_position now c = reset_card_connection (record c {
  vanished_timer = started now c.vanished_count c.vanished_timer;
  vanished_count = c.vanished_count + 1;
})

unfoldable pub is_pin_blocked : Context → Bool
is_pin_blocked c = elim c.card_connection [
  | none ↦ false
  | some k ↦ same_counter k.retry_counter (some 0)
]

unfoldable pub is_expected_reader : Context → Bool
unfolding same_text
is_expected_reader c = same_text c.expected_reader_name c.reader_name

unfoldable pub remember_reader : Context → Context
remember_reader c = record c { expected_reader_name = c.reader_name }

-- `killWorkflow`, before the approval and the signal `fireCancelWorkflow`.
unfoldable pub kill_workflow : Context → Context
kill_workflow c = record c { workflow_killed = true; status = card_cancellation_by_user }

-- AbstractState::updateStatus: the first error stays.
unfoldable pub update_status : Code → Context → Context
unfolding is_error is_no_error set_status
update_status s c = if is_error s && is_no_error c.status then set_status s c else c
