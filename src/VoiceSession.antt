-- ===== src/VoiceSession.antt =====
-- apps/web/src/features/voice/voice-session-state.ts: the state machine of the voice session's page.
-- A transcript is its UTF-16 code units; what the page never looks into (the result of processing a
-- line, and a tool's trace but for its call) is a parameter.
pub mod Lines
pub mod Invariant
pub mod Live
use funes_vault.Common.{
  ℕ, suc, ◌-◌, String, Bool, true, false, not, ◌==◌, Option, none, some, List, [], ◌∷◌, ◌++◌,
  if◌then◌else◌, filter, find, map, length, drop,
}
use funes_vault.Vault.Store.{Text}

pub data Status : Type 0 where
  idle requesting_mic connecting live ended error : Status

pub data Role : Type 0 where
  user assistant : Role

-- `voiceSessionEndReasonSchema`
pub data EndReason : Type 0 where
  user_ended max_duration idle_timeout connection_lost failed : EndReason

-- `VoiceTranscriptLine`
pub record Line (Processing : Type 0) : Type 0 where
  pub id : String
  pub role : Role
  pub text : Text
  pub final : Bool
  pub processing : Option Processing

pub record ToolTrace (Trace : Type 0) : Type 0 where
  pub tool_call_id : String
  pub details : Trace

-- `VoiceUiState`
pub record State (Processing Trace : Type 0) : Type 0 where
  pub status : Status
  pub is_user_speaking : Bool
  pub is_assistant_responding : Bool
  pub lines : List (Line Processing)
  pub tool_activity : List (ToolTrace Trace)
  pub queued_suggestion_count : ℕ
  pub error : Option String
  pub end_reason : Option EndReason

-- `VoiceUiAction`
pub data Action (Processing Trace : Type 0) : Type 0 where
  memory_processing : String → Processing → Action Processing Trace
  start_requested mic_granted connected session_ready suggestion_queued : Action Processing Trace
  user_speech_started user_speech_stopped response_started response_done : Action Processing Trace
  mic_denied connection_failed provider_error : String → Action Processing Trace
  tool_trace : ToolTrace Trace → Action Processing Trace
  session_ended : EndReason → Action Processing Trace
  user_transcript_delta user_transcript_done : String → Text → Action Processing Trace
  assistant_transcript_delta assistant_transcript_done : String → Text → Action Processing Trace
  function_call : String → Option String → String → Action Processing Trace
  function_call_named : String → String → Action Processing Trace

-- `initialVoiceUiState`
abbrev pub initial : {P T : Type 0} → State P T
initial = record {
  status = idle;
  is_user_speaking = false;
  is_assistant_responding = false;
  lines = [];
  tool_activity = [];
  queued_suggestion_count = 0;
  error = none;
  end_reason = none;
}

pub data Mode : Type 0 where
  append_delta replace : Mode

abbrev pub merged : {P : Type 0} → Mode → Line P → Line P → Line P
merged append_delta line candidate = record candidate {
  text = candidate.text ++ line.text;
  final = line.final;
}
merged replace line candidate = record candidate { text = line.text; final = line.final }

abbrev pub merge_line : {P : Type 0} → Mode → Line P → Line P → Line P
merge_line mode line candidate =
    if candidate.id == line.id then merged mode line candidate else candidate

abbrev upsert_found : {P : Type 0} → Option (Line P) → List (Line P) → Line P → Mode → List (Line P)
upsert_found none lines line mode = lines ++ line ∷ []
upsert_found (some existing) lines line mode = map (merge_line mode line) lines

-- `upsertLine`
pub upsert_line : {P : Type 0} → List (Line P) → Line P → Mode → List (Line P)
upsert_line lines line mode = upsert_found (find (λ c. c.id == line.id) lines) lines line mode

-- `[...others, trace].slice(-6)`
abbrev pub max_tool_activity : ℕ
max_tool_activity = 6

abbrev pub last {ℓ} : {A : Type ℓ} → ℕ → List A → List A
last n xs = drop (length xs - n) xs

pub add_trace : {T : Type 0} → List (ToolTrace T) → ToolTrace T → List (ToolTrace T)
add_trace traces trace =
    last max_tool_activity
      (filter (λ t. not (t.tool_call_id == trace.tool_call_id)) traces ++ trace ∷ [])

abbrev pub new_line : {P : Type 0} → String → Role → Text → Bool → Line P
new_line id role text final = record {
  id = id;
  role = role;
  text = text;
  final = final;
  processing = none;
}

-- A connection counts only while the session is connecting.
abbrev pub connect : {P T : Type 0} → Status → State P T → State P T
connect connecting s = record s { status = live }
connect _ s = s

abbrev pub processed : {P : Type 0} → String → P → Line P → Line P
processed id result line = if line.id == id then record line { processing = some result } else line

-- `voiceSessionReducer`
unfoldable pub reduce : {P T : Type 0} → State P T → Action P T → State P T
reduce s (memory_processing id result) = record s { lines = map (processed id result) s.lines }
reduce s start_requested = record initial { status = requesting_mic }
reduce s mic_granted = record s { status = connecting }
reduce s (mic_denied message) = record s { status = Status.error; error = some message }
reduce s connected = connect s.status s
reduce s session_ready = connect s.status s
reduce s (connection_failed message) = record s { status = Status.error; error = some message }
reduce s user_speech_started = record s { is_user_speaking = true }
reduce s user_speech_stopped = record s { is_user_speaking = false }
reduce s (user_transcript_delta id delta) = record s {
  lines = upsert_line s.lines (new_line id user delta false) append_delta;
}
reduce s (user_transcript_done id text) = record s {
  lines = upsert_line s.lines (new_line id user text true) replace;
}
reduce s (assistant_transcript_delta id delta) = record s {
  is_assistant_responding = true;
  lines = upsert_line s.lines (new_line id assistant delta false) append_delta;
}
reduce s (assistant_transcript_done id text) = record s {
  lines = upsert_line s.lines (new_line id assistant text true) replace;
}
reduce s response_started = record s { is_assistant_responding = true }
reduce s response_done = record s { is_assistant_responding = false }
reduce s (tool_trace trace) = record s { tool_activity = add_trace s.tool_activity trace }
reduce s suggestion_queued = record s { queued_suggestion_count = suc s.queued_suggestion_count }
reduce s (provider_error message) = record s { status = Status.error; error = some message }
reduce s (session_ended reason) = record s {
  status = ended;
  is_user_speaking = false;
  is_assistant_responding = false;
  end_reason = some reason;
}
reduce s (function_call call_id name arguments) = s
reduce s (function_call_named call_id name) = s

-- The state after a session's actions.
unfoldable pub run : {P T : Type 0} → State P T → List (Action P T) → State P T
run s [] = s
run s (action ∷ rest) = run (reduce s action) rest

-- `voiceStatusLabel`
abbrev end_label : Option EndReason → String
end_label (some max_duration) = "Session ended: time limit reached."
end_label (some idle_timeout) = "Session ended after inactivity."
end_label (some connection_lost) = "Session ended: connection lost."
end_label (some failed) = "Session ended after an error."
end_label _ = "Session ended."

abbrev error_label : Option String → String
error_label none = "Voice session failed."
error_label (some message) = message

pub status_label : {P T : Type 0} → State P T → String
status_label s = elim s.status [
  | requesting_mic ↦ "Waiting for microphone access..."
  | connecting ↦ "Connecting to your vault's voice..."
  | live ↦
      if s.is_user_speaking
      then "Listening..."
      else if s.is_assistant_responding
      then "Funes is speaking..."
      else "Live — speak when ready"
  | ended ↦ end_label s.end_reason
  | Status.error ↦ error_label s.error
  | idle ↦ ""
]
