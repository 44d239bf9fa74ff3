-- ===== src/Mgmt/Tunnel/Examples.antt =====
-- A tunnel that comes up, reconnects and fails.
use thisconnect.Prelude.{◌+◌, ◌≡◌, refl, false, none, List, [], ◌∷◌, map, arith}
use thisconnect.Prelude.Text.{Text, codes}
use thisconnect.Mgmt.Event
use thisconnect.Mgmt.Event.{Event}
use thisconnect.Mgmt.Tunnel.{TunnelState, idle, fold_updown, collect}
use thisconnect.Mgmt.Tunnel.Published.{
  Shows, observe_all, rises, tracker_of, observe_all-Shows, generation-observe_all,
}

abbrev nothing : TunnelState
nothing = record { connected = false; identity = none; generation = 0 }

-- The lines as openvpn writes them.
abbrev wire : List Text
wire =
    codes ">UPDOWN:UP"
    ∷ codes ">UPDOWN:ENV,dev=utun4"
    ∷ codes ">UPDOWN:ENV,END"
    ∷ codes ">STATE:1,CONNECTED,SUCCESS,10.8.0.2"
    ∷ codes ">STATE:2,RECONNECTING"
    ∷ codes ">STATE:3,CONNECTED,SUCCESS,10.8.0.2"
    ∷ []

abbrev story : List Event
story = map Event.parse wire

nothing-Shows : Shows nothing idle
nothing-Shows = record { connected = refl; identity = refl }

observe_all-Shows_example :
    Shows (observe_all idle nothing story).1 (tracker_of (observe_all idle nothing story).0)
observe_all-Shows_example = observe_all-Shows story idle nothing nothing-Shows

generation-observe_all_example :
    (observe_all idle nothing story).1.generation ≡ 0 + rises idle nothing story
generation-observe_all_example =
    generation-observe_all story idle nothing nothing-Shows (omega arith)

two_sessions : rises idle nothing story ≡ 2
unfolding rises Event.parse fold_updown collect Event.is_connected
two_sessions = refl
