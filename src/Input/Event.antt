-- ===== src/Input/Event.antt =====
-- The input events of browser/core.go, and the messages of browser/input_gateway.go.
use deepwork_browser.Prelude.{ℕ, String, List, []}

-- A float64 or int64 that the code only copies or compares with 0 is kept as its 64-bit pattern;
-- the pattern of 0 is 0.
abbrev pub Word : Type 0
Word = ℕ

pub record TouchPoint : Type 0 where
  pub x : Word
  pub y : Word
  pub id : Word

pub record InputEvent : Type 0 where
  pub type : String
  pub event : String
  pub x : Word
  pub y : Word
  pub button : String
  pub click_count : Word
  pub delta_x : Word
  pub delta_y : Word
  pub key : String
  pub code : String
  pub text : String
  pub modifiers : Word
  pub touch_points : List TouchPoint

-- The composite literal `InputEvent{}`.
abbrev pub zero_event : InputEvent
zero_event = record {
  type = "";
  event = "";
  x = 0;
  y = 0;
  button = "";
  click_count = 0;
  delta_x = 0;
  delta_y = 0;
  key = "";
  code = "";
  text = "";
  modifiers = 0;
  touch_points = [];
}

pub record InputMessage : Type 0 where
  pub seq : Word
  pub lease : String
  pub event : InputEvent

pub data Status : Type 0 where
  accepted rejected error : Status

pub record InputAck : Type 0 where
  pub seq : Word
  pub status : Status
  pub reason : String
