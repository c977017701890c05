-- ===== src/VoiceSession/Live.antt =====
-- How a session comes to be live.
use funes_vault.Common.{
  ◌≡◌, refl, sym, ap, ◌⊎◌, inl, inr, Bool, true, false, List, [], ◌∷◌, In, here, there,
}
use funes_vault.VoiceSession.{
  Status, State, Action, initial, reduce, run, connect, mic_granted, mic_denied, start_requested,
  connected, session_ready, connection_failed, user_speech_started, user_speech_stopped,
  user_transcript_delta, user_transcript_done, assistant_transcript_delta,
  assistant_transcript_done, response_started, response_done, suggestion_queued, provider_error,
  session_ended, function_call, function_call_named, memory_processing, tool_trace, connecting,
  idle, live, ended, requesting_mic,
}

-- The microphone is in use: the session connects or is live.
abbrev listens : Status → Bool
listens connecting = true
listens live = true
listens _ = false

module _ {P T : Type 0} where
  connect-listens :
      (t : Status) (s : State P T)
      → s.status ≡ t
      → listens (connect t s).status ≡ true
      → listens s.status ≡ true
  connect-listens connecting s e h = ap listens e
  connect-listens idle s e h = h
  connect-listens requesting_mic s e h = h
  connect-listens live s e h = h
  connect-listens ended s e h = h
  connect-listens Status.error s e h = h

  reduce-listens :
      (s : State P T) (a : Action P T)
      → listens (reduce s a).status ≡ true
      → (listens s.status ≡ true) ⊎ (a ≡ mic_granted)
  unfolding reduce
  reduce-listens s (memory_processing id result) h = inl h
  reduce-listens s start_requested h = cc h
  reduce-listens s mic_granted h = inr refl
  reduce-listens s (mic_denied message) h = cc h
  reduce-listens s connected h = inl (connect-listens s.status s refl h)
  reduce-listens s session_ready h = inl (connect-listens s.status s refl h)
  reduce-listens s (connection_failed message) h = cc h
  reduce-listens s user_speech_started h = inl h
  reduce-listens s user_speech_stopped h = inl h
  reduce-listens s (user_transcript_delta id delta) h = inl h
  reduce-listens s (user_transcript_done id text) h = inl h
  reduce-listens s (assistant_transcript_delta id delta) h = inl h
  reduce-listens s (assistant_transcript_done id text) h = inl h
  reduce-listens s response_started h = inl h
  reduce-listens s response_done h = inl h
  reduce-listens s (tool_trace trace) h = inl h
  reduce-listens s suggestion_queued h = inl h
  reduce-listens s (provider_error message) h = cc h
  reduce-listens s (session_ended reason) h = cc h
  reduce-listens s (function_call call_id name arguments) h = inl h
  reduce-listens s (function_call_named call_id name) h = inl h

  run-listens :
      (s : State P T) (actions : List (Action P T))
      → listens (run s actions).status ≡ true
      → (listens s.status ≡ true) ⊎ In mic_granted actions
  unfolding run
  run-listens s [] h = inl h
  run-listens s (a ∷ rest) h = elim (run-listens (reduce s a) rest h) [
    | inr l ↦ inr (there l)
    | inl k ↦ elim (reduce-listens s a k) [ inl q ↦ inl q | inr e ↦ inr (here (sym e)) ]
  ]

  -- A session that started afresh is live only after the microphone was granted.
  pub live_needs_microphone :
      (actions : List (Action P T)) → (run initial actions).status ≡ live → In mic_granted actions
  live_needs_microphone actions h = elim (run-listens initial actions (ap listens h)) [
    | inl e ↦ cc e
    | inr l ↦ l
  ]
