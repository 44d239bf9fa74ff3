-- ===== src/Mgmt/Tunnel.antt =====
-- daemon/src/mgmt/tunnel.rs, and `UpDownCollector` of daemon/src/mgmt/event.rs: whether openvpn is
-- connected, which tunnel it has, and the state that the rest of the daemon watches.
pub mod Published
mod Examples
use thisconnect.Prelude.{
  ℕ, ◌+◌, Bool, true, false, not, ◌&&◌, Option, none, some, List, [], ◌∷◌, ◌++◌, ltb, if◌then◌else◌,
  Result, ok, err, is_empty,
}
use thisconnect.Prelude.Text.{Text, codes, text_eq}
use thisconnect.Prelude.Split.{u64_max}
use thisconnect.Mgmt.Escape.{MgmtError, missing_dev}
use thisconnect.Mgmt.Event.{
  Event, state, fatal, updown, UpDown, up, down, env_begin, env_end, env, is_connected,
}

pub record TunnelIdentity : Type 0 where
  pub dev : Text
  pub dev_type : Option Text
  pub ifconfig_local : Option Text
  pub ifconfig_ipv6_local : Option Text

pub record UpDownCollector : Type 0 where
  pub in_up_block : Bool
  pub vars : List (Text × Text)

abbrev pub no_block : UpDownCollector
no_block = record { in_up_block = false; vars = [] }

pub data UpDownOutcome : Type 0 where
  came_up : TunnelIdentity → UpDownOutcome
  went_down : UpDownOutcome

-- `env.iter().find(|(key, _)| key == wanted)`
unfoldable pub find_var : Text → List (Text × Text) → Option Text
unfolding text_eq
find_var wanted [] = none
find_var wanted ((key, value) ∷ rest) =
    let later = find_var wanted rest in if text_eq key wanted then some value else later

-- the closure `get`
unfoldable pub get_var : List (Text × Text) → Text → Option Text
unfolding find_var
get_var vars wanted = elim (find_var wanted vars) [
  | none ↦ none
  | some value ↦ if is_empty value then none else some value
]

unfoldable pub finish : UpDownCollector → Result MgmtError UpDownOutcome
unfolding get_var
finish c = elim (get_var c.vars (codes "dev")) [
  | none ↦ err missing_dev
  | some dev ↦ ok (
      came_up (record {
        dev = dev;
        dev_type = get_var c.vars (codes "dev_type");
        ifconfig_local = get_var c.vars (codes "ifconfig_local");
        ifconfig_ipv6_local = get_var c.vars (codes "ifconfig_ipv6_local");
      }))
]

-- `UpDownCollector::observe`
unfoldable pub collect :
    UpDownCollector → UpDown → UpDownCollector × Option (Result MgmtError UpDownOutcome)
unfolding finish
collect c up = (record { in_up_block = true; vars = [] }, none)
collect c down = (no_block, some (ok went_down))
collect c env_begin = (c, none)
collect c (env key value) = (record c { vars = c.vars ++ (key, value) ∷ [] }, none)
collect c env_end = if c.in_up_block then (no_block, some (finish c)) else (no_block, none)
collect c (UpDown.other text) = (no_block, none)

pub record TunnelTracker : Type 0 where
  pub connected : Bool
  pub collector : UpDownCollector
  pub identity : Option TunnelIdentity

abbrev pub idle : TunnelTracker
idle = record { connected = false; collector = no_block; identity = none }

pub data TunnelEvent : Type 0 where
  now_connected now_disconnected identity_lost : TunnelEvent
  identity_learned : TunnelIdentity → TunnelEvent

abbrev Observed : Type 0
Observed = Result MgmtError (TunnelTracker × Option TunnelEvent)

abbrev same_bool : Bool → Bool → Bool
same_bool true b = b
same_bool false b = not b

unfoldable pub transition : TunnelTracker → Bool → TunnelTracker × Option TunnelEvent
transition t connected = if same_bool connected t.connected then (t, none) else (
  record t { connected = connected; identity = if connected then t.identity else none },
  some (if connected then now_connected else now_disconnected),
)

-- the `match outcome` of `fold_updown`
unfoldable pub fold_outcome :
    TunnelTracker → UpDownCollector → Option (Result MgmtError UpDownOutcome) → Observed
fold_outcome t c none = ok (record t { collector = c }, none)
fold_outcome t c (some (ok (came_up identity))) =
    ok (record t { collector = c; identity = some identity }, some (identity_learned identity))
fold_outcome t c (some (ok went_down)) =
    ok (record t { collector = c; identity = none }, some identity_lost)
fold_outcome t c (some (err e)) = err e

unfoldable pub fold_updown : TunnelTracker → UpDown → Observed
unfolding fold_outcome
fold_updown t line = let (c, outcome) = collect t.collector line in fold_outcome t c outcome

-- `TunnelTracker::observe`
unfoldable pub observe : TunnelTracker → Event → Observed
unfolding transition
observe t (state s) = ok (transition t (is_connected s))
observe t (fatal text) = ok (transition t false)
observe t (updown line) = fold_updown t line
observe t _ = ok (t, none)

pub record TunnelState : Type 0 where
  pub connected : Bool
  pub identity : Option TunnelIdentity
  pub generation : ℕ

-- `self.generation.saturating_add(1)`
abbrev pub saturating_suc : ℕ → ℕ
saturating_suc n = if ltb n u64_max then n + 1 else u64_max

unfoldable pub advanced_to : TunnelState → TunnelTracker → TunnelState
advanced_to s t = record {
  connected = t.connected;
  identity = t.identity;
  generation = if t.connected && not s.connected then saturating_suc s.generation else s.generation;
}

-- `publish`: what the watch holds then. Whether the value differs decides only who is woken.
unfoldable pub publish : TunnelState → TunnelTracker → TunnelState
unfolding advanced_to
publish s t = advanced_to s t

unfoldable pub publish_disconnected : TunnelState → TunnelState
unfolding publish
publish_disconnected s = publish s idle

abbrev after_observe : TunnelState → Observed → Result MgmtError TunnelTracker × TunnelState
after_observe s (ok (next, none)) = (ok next, s)
after_observe s (ok (next, some _)) = (ok next, publish s next)
after_observe s (err e) = (err e, publish_disconnected s)

unfoldable pub observe_and_publish :
    TunnelTracker → Event → TunnelState → Result MgmtError TunnelTracker × TunnelState
unfolding publish publish_disconnected observe
observe_and_publish t e s = after_observe s (observe t e)
