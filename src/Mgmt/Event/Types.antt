-- ===== src/Mgmt/Event/Types.antt =====
-- The notifications of daemon/src/mgmt/event.rs.
use thisconnect.Prelude.{ℕ, Bool, Option}
use thisconnect.Prelude.Text.{Text}
use thisconnect.Prelude.Split.{ℤ}
use thisconnect.Mgmt.Challenge.{StaticChallenge, DynamicChallenge}

pub record StateEvent : Type 0 where
  pub time : Option ℤ
  pub name : Text
  pub description : Option Text
  pub local_v4 : Option Text
  pub remote_addr : Option Text
  pub remote_port : Option Text
  pub local_addr : Option Text
  pub local_port : Option Text
  pub local_v6 : Option Text

pub record LogEvent : Type 0 where
  pub time : Option ℤ
  pub flags : Text
  pub text : Text

pub data PasswordEvent : Type 0 where
  need : Text → Bool → Bool → Option StaticChallenge → PasswordEvent
  verification_failed : Text → Option Text → Option DynamicChallenge → PasswordEvent
  auth_token : PasswordEvent
  other : Text → PasswordEvent

pub data InfoMsg : Type 0 where
  cr_text other : Text → InfoMsg

pub data UpDown : Type 0 where
  up down env_begin env_end : UpDown
  env : Text → Text → UpDown
  other : Text → UpDown

pub data Event : Type 0 where
  info fatal : Text → Event
  state : StateEvent → Event
  hold : Text → Option ℕ → Event
  password : PasswordEvent → Event
  log : LogEvent → Event
  byte_count : ℕ → ℕ → Event
  updown : UpDown → Event
  info_msg : InfoMsg → Event
  need_ok need_str unknown : Text → Text → Event
