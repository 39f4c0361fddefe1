-- ===== src/Pace/Faults/Sound.antt =====
-- What keeps the states of src/core/states from undefined behaviour.
use ausweisapp2_android_sdk.Base.{◌≡◌, Bool, true, false, not, ◌&&◌, none, some}
use ausweisapp2_android_sdk.Pace.Context.{Context}
use ausweisapp2_android_sdk.Pace.States.{Reaction}
use ausweisapp2_android_sdk.Pace.Machine.{
  StateName, enter_pace_password, establish_pace_channel, clear_pace_passwords_before_destroy,
  destroy_pace, aborted, established, faulted,
}
use ausweisapp2_android_sdk.Pace.Events.{Event, command_done}
use ausweisapp2_android_sdk.Pace.Invariant.{leads, after, leads-after}

-- The PIN has opened a channel on the present connection.
unfoldable pub is_pin_done : Context → Bool
is_pin_done c = elim c.card_connection [ none ↦ false | some k ↦ k.pace_pin_successful ]

unfoldable pub has_connection : Context → Bool
has_connection c = elim c.card_connection [ none ↦ false | some k ↦ true ]

-- Undefined behaviour cannot follow from here: `a` tells that there is a connection, `d` that the
-- PIN is done.
unfoldable pub keeps_sound : StateName → Bool → Bool → Bool → Bool
keeps_sound faulted a d o = false
keeps_sound established a d o = a && o
keeps_sound aborted a d o = true
keeps_sound enter_pace_password a d o = a && not d
keeps_sound establish_pace_channel a d o = a && not d
keeps_sound clear_pace_passwords_before_destroy a d o = a && not d
keeps_sound destroy_pace a d o = a && not d
keeps_sound _ a d o = not d

unfoldable pub is_sound : StateName → Context → Bool
unfolding keeps_sound has_connection is_pin_done
is_sound s c = keeps_sound s (has_connection c) (is_pin_done c) c.pace_output

unfoldable pub is_sound_answer : StateName → Reaction → Bool
unfolding is_sound after
is_sound_answer s r = is_sound (after s r.1) r.0

pub leads-is_sound :
    (s : StateName) (r : Reaction) → is_sound_answer s r ≡ true → leads is_sound s r ≡ true
unfolding is_sound_answer
leads-is_sound s r h =
    leads-after is_sound (λ s c k. unfold is_sound has_connection is_pin_done in k) s r h

-- A new connection has no channel yet.
unfoldable pub is_fresh : Event → Bool
is_fresh (command_done (some k)) = not k.pace_pin_successful
is_fresh _ = true
