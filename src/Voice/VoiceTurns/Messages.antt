-- ===== src/Voice/VoiceTurns/Messages.antt =====
-- voiceTurns.js: what the model's provider and the tools send, and what the turns send back.
-- A field that the provider may leave out is an `Option`; a tool may return undefined.
use communications_service.Prelude.{
  String, Bool, false, ◌&&◌, ◌||◌, Option, none, some, List, [], ◌∷◌, any,
}
use communications_service.Prelude.Text.{same, has_text}

pub record Part : Type 0 where
  pub kind : String
  pub transcript : Option String

pub record Call : Type 0 where
  pub name : String
  pub arguments : String

pub data Item : Type 0 where
  message : (role : String) → List Part → Item
  function_call : Call → Item
  other_item : Item

pub record Response : Type 0 where
  pub id : Option String
  pub status : String
  pub voice_farewell : Option String
  pub output : List Item

pub record ToolResult : Type 0 where
  pub name : String
  pub error : Bool
  pub reason : Option String
  pub continue_after_interruption : Bool

pub data Effect : Type 0 where
  send_response : Effect
  send_farewell : (token : String) → Effect
  end_after_playback : (reason : String) → Effect
  run_tool : Call → Effect

abbrev spoken : Option String → Bool
spoken none = false
spoken (some s) = has_text s

pub is_speech : Part → Bool
is_speech p = (same p.kind "audio" || same p.kind "output_audio") && spoken p.transcript

pub says : Item → Bool
unfolding is_speech any
says (message role parts) = same role "assistant" && any is_speech parts
says (function_call c) = false
says other_item = false

unfoldable pub has_speech : Response → Bool
unfolding says any has_text
has_speech r = any says r.output

unfoldable pub completed : Response → Bool
completed r = same r.status "completed"

unfoldable pub calls_of : List Item → List Call
calls_of [] = []
calls_of (function_call c ∷ items) = c ∷ calls_of items
calls_of (message role parts ∷ items) = calls_of items
calls_of (other_item ∷ items) = calls_of items
