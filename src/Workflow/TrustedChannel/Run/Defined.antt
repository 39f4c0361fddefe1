-- ===== src/Workflow/TrustedChannel/Run/Defined.antt =====
-- No state of src/core/states/CompositeStateTrustedChannel.cpp follows a null pointer.
use ausweisapp2_android_sdk.Base.{Bool, true, ◌&&◌, List, [], ◌∷◌}
use ausweisapp2_android_sdk.Pace.Context.{Context}
use ausweisapp2_android_sdk.Pace.Machine.{Machine}
use ausweisapp2_android_sdk.Pace.Faults.Sound.{is_fresh}
use ausweisapp2_android_sdk.Workflow.TrustedChannel.{TrustedState}
use ausweisapp2_android_sdk.Workflow.TrustedChannel.Receive.{Reply, on_reply_finished}
use ausweisapp2_android_sdk.Workflow.TrustedChannel.Receive.Handled.{is_reply}
use ausweisapp2_android_sdk.Workflow.TrustedChannel.Run.{
  Objects, has_card, Channel, ChannelEvent, in_pace, replied, fired, channel_step,
}
use ausweisapp2_android_sdk.Workflow.TrustedChannel.Run.Kept.{asks_rightly}

-- The server asks for EAC2 over an established channel only, the network says no success of a request
-- that has failed, and a new connection has no channel.
unfoldable pub is_right : ChannelEvent → Channel → Bool
unfolding is_fresh is_reply asks_rightly has_card
is_right (in_pace e) w = is_fresh e
is_right (replied reply) w =
    is_reply reply && asks_rightly (has_card w.pace.context && w.pace.context.pace_output) reply
is_right (fired g) w = true

unfoldable pub are_right : List ChannelEvent → Channel → Bool
unfolding is_right channel_step
are_right [] w = true
are_right (e ∷ events) w = is_right e w && are_right events (channel_step e w)

abbrev at : TrustedState → Machine → Objects → Channel
at s m o = record { state = s; pace = m; objects = o }

abbrev after : TrustedState → Reply → Machine → Machine
after s reply m = record m { context = (on_reply_finished s reply m.context).0 }
