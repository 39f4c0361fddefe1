-- ===== src/Workflow/TrustedChannel/Run.antt =====
-- The run of src/core/states/CompositeStateTrustedChannel.cpp: the machine of PACE inside, the answers of
-- the server, and which objects of src/core/context/AuthContext.h there are. The work of the states that
-- neither send nor belong to PACE is an event with the signal that it ends with; none of those before
-- StateUpdateRetryCounter touches the card connection.
use ausweisapp2_android_sdk.Base.{
  Bool, true, false, not, ◌&&◌, ◌||◌, List, [], ◌∷◌, Option, none, some, if◌then◌else◌,
}
use ausweisapp2_android_sdk.Pace.Context.{Context}
use ausweisapp2_android_sdk.Pace.Reader.{ReaderInfo}
use ausweisapp2_android_sdk.Pace.Machine
use ausweisapp2_android_sdk.Pace.Machine.{Machine, established, start}
use ausweisapp2_android_sdk.Pace.Events.{Event, step}
use ausweisapp2_android_sdk.Workflow.TrustedChannel.{
  TrustedState, TrustedSignal, trusted_transition, s_get_tc_token, s_send_start_paos,
  s_send_initialize_framework_response, s_did_list, s_initialize_framework,
  s_send_did_list_response, s_extract_cvcs_from_eac1_input_type, s_state_pace,
  s_did_authenticate_eac1, s_send_did_authenticate_response_eac1, s_eac_additional_input_type,
  s_send_did_authenticate_response_eac_additional_input, s_process_certificates_from_eac2,
  s_did_authenticate_eac2, s_send_did_authenticate_response_eac2, s_transmit,
  s_send_transmit_response, s_send_disconnect_response, s_start_paos_response, fire_abort,
  fire_pace_channel_established,
}
use ausweisapp2_android_sdk.Workflow.TrustedChannel.Receive.{
  PaosType, startpaos_response, initialize_framework, did_list, did_authenticate_eac1,
  did_authenticate_eac2, transmit, disconnect, Reply, network_failed, received, on_reply_finished,
}
use ausweisapp2_android_sdk.Workflow.TrustedChannel.Receive.Handled.{is_answer}
pub mod Kept
pub mod Defined
pub mod Missing

-- Which messages have been received; a message's response is created with it.
pub record Objects : Type 0 where
  pub start_paos_result : Bool
  pub framework : Bool
  pub dids : Bool
  pub eac1 : Bool
  pub eac2 : Bool
  pub transmits : Bool
  pub disconnected : Bool

unfoldable pub set_received_message : PaosType → Objects → Objects
set_received_message startpaos_response o = record o { start_paos_result = true }
set_received_message initialize_framework o = record o { framework = true }
set_received_message did_list o = record o { dids = true }
set_received_message did_authenticate_eac1 o = record o { eac1 = true }
set_received_message did_authenticate_eac2 o = record o { eac2 = true }
set_received_message transmit o = record o { transmits = true }
set_received_message disconnect o = record o { disconnected = true }
set_received_message _ o = o

unfoldable pub has_card : Context → Bool
has_card c = elim c.card_connection [ none ↦ false | some k ↦ true ]

-- Whether each pointer that the state's `run` and its slots follow is none to nothing.
unfoldable pub has_objects : TrustedState → Context → Objects → Bool
unfolding has_card
has_objects s_send_initialize_framework_response c o = o.framework
has_objects s_send_did_list_response c o = o.dids
has_objects s_extract_cvcs_from_eac1_input_type c o = o.eac1
has_objects s_did_authenticate_eac1 c o = o.eac1 && (has_card c && c.pace_output)
has_objects s_send_did_authenticate_response_eac1 c o = o.eac1
has_objects s_eac_additional_input_type c o = o.eac1 && o.eac2
has_objects s_send_did_authenticate_response_eac_additional_input c o = o.eac2
has_objects s_process_certificates_from_eac2 c o = o.eac2 && c.pace_output
has_objects s_did_authenticate_eac2 c o = (o.eac1 && o.eac2) && (has_card c && c.pace_output)
has_objects s_send_did_authenticate_response_eac2 c o = o.eac2
has_objects s_transmit c o = o.transmits && has_card c
has_objects s_send_transmit_response c o = o.transmits
has_objects s_send_disconnect_response c o = o.disconnected
has_objects s_start_paos_response c o = o.start_paos_result
has_objects _ c o = true

pub record Channel : Type 0 where
  pub state : TrustedState
  pub pace : Machine
  pub objects : Objects

abbrev nothing : Objects
nothing = record {
  start_paos_result = false;
  framework = false;
  dids = false;
  eac1 = false;
  eac2 = false;
  transmits = false;
  disconnected = false;
}

unfoldable pub begin_channel : Context → List ReaderInfo → Channel
unfolding start
begin_channel c readers = record {
  state = s_get_tc_token;
  pace = start c readers;
  objects = nothing;
}

-- The machine of PACE starts anew.
unfoldable pub enter_state : TrustedState → Machine → Objects → Channel
unfolding start
enter_state s_state_pace m o = record {
  state = s_state_pace;
  pace = start m.context m.readers;
  objects = o;
}
enter_state s m o = record { state = s; pace = m; objects = o }

unfoldable pub move : TrustedState → TrustedSignal → Machine → Objects → Channel
unfolding trusted_transition enter_state
move s g m o = elim (trusted_transition s g) [
  | none ↦ record { state = s; pace = m; objects = o }
  | some t ↦ enter_state t m o
]

unfoldable pub leave_state_pace : Machine → Objects → Channel
unfolding move
leave_state_pace m o = elim m.state [
  | established ↦ move s_state_pace fire_pace_channel_established m o
  | Machine.aborted ↦ move s_state_pace fire_abort m o
  | _ ↦ record { state = s_state_pace; pace = m; objects = o }
]

pub data ChannelEvent : Type 0 where
  in_pace : Event → ChannelEvent
  replied : Reply → ChannelEvent
  fired : TrustedSignal → ChannelEvent

-- A state that sends may also be aborted without an answer, by the user, the card or TLS.
abbrev pub is_abort : TrustedSignal → Bool
is_abort fire_abort = true
is_abort _ = false

abbrev pub is_pace : TrustedState → Bool
is_pace s_state_pace = true
is_pace _ = false

abbrev pub sends : TrustedState → Bool
sends s_send_start_paos = true
sends s_send_initialize_framework_response = true
sends s_send_did_list_response = true
sends s_send_did_authenticate_response_eac1 = true
sends s_send_did_authenticate_response_eac_additional_input = true
sends s_send_did_authenticate_response_eac2 = true
sends s_send_transmit_response = true
sends s_send_disconnect_response = true
sends _ = false

unfoldable pub note_message : TrustedState → Reply → Objects → Objects
unfolding is_answer set_received_message
note_message s (network_failed code) o = o
note_message s (received n t) o = if is_answer s (received n t) then set_received_message t o else o

unfoldable pub channel_step : ChannelEvent → Channel → Channel
unfolding leave_state_pace move note_message on_reply_finished step
channel_step (in_pace e) w = elim w.state [
  | s_state_pace ↦ leave_state_pace (step e w.pace) w.objects
  | _ ↦ w
]
channel_step (replied reply) w =
    if sends w.state
    then (let (c, g) = on_reply_finished w.state reply w.pace.context in
        move w.state g (record w.pace { context = c }) (note_message w.state reply w.objects))
    else w
channel_step (fired g) w =
    if is_pace w.state || (sends w.state && not (is_abort g))
    then w
    else move w.state g w.pace w.objects

unfoldable pub channel_run : List ChannelEvent → Channel → Channel
unfolding channel_step
channel_run [] w = w
channel_run (e ∷ events) w = channel_run events (channel_step e w)
