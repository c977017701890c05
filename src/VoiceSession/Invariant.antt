-- ===== src/VoiceSession/Invariant.antt =====
-- What holds of the page's state throughout a session.
use funes_vault.Common.{
  subst, ◌≤◌, ◌-◌, String, ◌≡◌, refl, sym, not, List, [], ◌∷◌, ◌++◌, In-filter, arith, Option-cases,
  inl, inr, ◌==◌, eq_iff, find, filter, length, IsDistinct, nobody, IsDistinct-append,
  IsDistinct-filter, IsDistinct-drop, IsDistinct-map, find_complete, length-drop,
}
use funes_vault.VoiceSession.{
  Status, processed, connect, mic_granted, mic_denied, start_requested, connected, session_ready,
  connection_failed, user_speech_started, user_speech_stopped, user_transcript_delta,
  user_transcript_done, assistant_transcript_delta, assistant_transcript_done, response_started,
  response_done, suggestion_queued, provider_error, session_ended, function_call,
  function_call_named, connecting, idle, live, ended, requesting_mic, Line, ToolTrace, State,
  Action, Mode, append_delta, replace, merge_line, upsert_line, max_tool_activity, add_trace,
  reduce, run, memory_processing, tool_trace,
}

-- Lines and traces are keyed by their ids, and no more than six traces are kept.
pub record IsWell {P T : Type 0} (s : State P T) : Type 0 where
  pub lines : IsDistinct (λ (l : Line P). l.id) s.lines
  pub traces : IsDistinct (λ (t : ToolTrace T). t.tool_call_id) s.tool_activity
  pub bounded : length s.tool_activity ≤ max_tool_activity

module _ {P : Type 0} where
  merge_line_keeps : (mode : Mode) (line c : Line P) → (merge_line mode line c).id ≡ c.id
  merge_line_keeps append_delta line c = ground arith
  merge_line_keeps replace line c = ground arith

  upsert_line-IsDistinct :
      (lines : List (Line P)) (line : Line P) (mode : Mode)
      → IsDistinct (λ (l : Line P). l.id) lines
      → IsDistinct (λ (l : Line P). l.id) (upsert_line lines line mode)
  unfolding upsert_line
  upsert_line-IsDistinct lines line mode d =
      elim (Option-cases (find (λ (c : Line P). c.id == line.id) lines)) [
        | inl n ↦ rw n (
            IsDistinct-append (λ (l : Line P). l.id) d
              λ y l q.
                let f = find_complete (λ (c : Line P). c.id == line.id) n l in
                cc (f, (eq_iff y.id line.id).1 q))
        | inr (c, n) ↦ rw n (
            IsDistinct-map (λ (l : Line P). l.id) (merge_line mode line)
              (merge_line_keeps mode line) d)
      ]

  processed_keeps : (id : String) (result : P) (l : Line P) → (processed id result l).id ≡ l.id
  processed_keeps id result l = ground arith

module _ {T : Type 0} where
  add_trace-IsDistinct :
      (traces : List (ToolTrace T)) (trace : ToolTrace T)
      → IsDistinct (λ (t : ToolTrace T). t.tool_call_id) traces
      → IsDistinct (λ (t : ToolTrace T). t.tool_call_id) (add_trace traces trace)
  unfolding add_trace
  add_trace-IsDistinct traces trace d =
      IsDistinct-drop (λ (t : ToolTrace T). t.tool_call_id) _
        (IsDistinct-append (λ (t : ToolTrace T). t.tool_call_id)
          (IsDistinct-filter (λ (t : ToolTrace T). t.tool_call_id) _ d)
          λ y l q.
            let (k, t) =
              In-filter (λ (t : ToolTrace T). not (t.tool_call_id == trace.tool_call_id)) traces
                l in
            cc (t, (eq_iff y.tool_call_id trace.tool_call_id).1 q))

  add_trace_bounded :
      (traces : List (ToolTrace T)) (trace : ToolTrace T)
      → length (add_trace traces trace) ≤ max_tool_activity
  unfolding add_trace
  add_trace_bounded traces trace =
      let all =
        filter (λ (t : ToolTrace T). not (t.tool_call_id == trace.tool_call_id)) traces
        ++ trace ∷ [] in
      omega (arith, length-drop (length all - max_tool_activity) all)

module _ {P T : Type 0} where
  with_line :
      (s : State P T) (line : Line P) (mode : Mode) (s' : State P T)
      → IsWell s
      → s'.lines ≡ upsert_line s.lines line mode
      → s'.tool_activity ≡ s.tool_activity
      → IsWell s'
  with_line s line mode s' w e q = record {
    lines =
        subst (IsDistinct (λ (l : Line P). l.id)) (sym e)
          (upsert_line-IsDistinct s.lines line mode w.lines);
    traces = subst (IsDistinct (λ (t : ToolTrace T). t.tool_call_id)) (sym q) w.traces;
    bounded = subst (λ ts. length ts ≤ max_tool_activity) (sym q) w.bounded;
  }

  unchanged :
      (s s' : State P T)
      → IsWell s
      → s'.lines ≡ s.lines
      → s'.tool_activity ≡ s.tool_activity
      → IsWell s'
  unchanged s s' w e q = record {
    lines = subst (IsDistinct (λ (l : Line P). l.id)) (sym e) w.lines;
    traces = subst (IsDistinct (λ (t : ToolTrace T). t.tool_call_id)) (sym q) w.traces;
    bounded = subst (λ ts. length ts ≤ max_tool_activity) (sym q) w.bounded;
  }

  pub initial-IsWell : (s : State P T) → s.lines ≡ [] → s.tool_activity ≡ [] → IsWell s
  initial-IsWell s e q = record {
    lines = subst (IsDistinct (λ (l : Line P). l.id)) (sym e) nobody;
    traces = subst (IsDistinct (λ (t : ToolTrace T). t.tool_call_id)) (sym q) nobody;
    bounded = rw q (omega arith);
  }

  connect-IsWell : (t : Status) (s : State P T) → IsWell s → IsWell (connect t s)
  connect-IsWell connecting s w = unchanged s (record s { status = live }) w refl refl
  connect-IsWell idle s w = w
  connect-IsWell requesting_mic s w = w
  connect-IsWell live s w = w
  connect-IsWell ended s w = w
  connect-IsWell Status.error s w = w

  reduce-IsWell : (s : State P T) (a : Action P T) → IsWell s → IsWell (reduce s a)
  unfolding reduce
  reduce-IsWell s (memory_processing id result) w = record {
    lines = IsDistinct-map (λ (l : Line P). l.id) _ (processed_keeps id result) w.lines;
    traces = w.traces;
    bounded = w.bounded;
  }
  reduce-IsWell s start_requested w = initial-IsWell _ refl refl
  reduce-IsWell s mic_granted w = unchanged s _ w refl refl
  reduce-IsWell s (mic_denied message) w = unchanged s _ w refl refl
  reduce-IsWell s connected w = connect-IsWell s.status s w
  reduce-IsWell s session_ready w = connect-IsWell s.status s w
  reduce-IsWell s (connection_failed message) w = unchanged s _ w refl refl
  reduce-IsWell s user_speech_started w = unchanged s _ w refl refl
  reduce-IsWell s user_speech_stopped w = unchanged s _ w refl refl
  reduce-IsWell s (user_transcript_delta id delta) w = with_line s _ _ _ w refl refl
  reduce-IsWell s (user_transcript_done id text) w = with_line s _ _ _ w refl refl
  reduce-IsWell s (assistant_transcript_delta id delta) w = with_line s _ _ _ w refl refl
  reduce-IsWell s (assistant_transcript_done id text) w = with_line s _ _ _ w refl refl
  reduce-IsWell s response_started w = unchanged s _ w refl refl
  reduce-IsWell s response_done w = unchanged s _ w refl refl
  reduce-IsWell s (tool_trace trace) w = record {
    lines = w.lines;
    traces = add_trace-IsDistinct s.tool_activity trace w.traces;
    bounded = add_trace_bounded s.tool_activity trace;
  }
  reduce-IsWell s suggestion_queued w = unchanged s _ w refl refl
  reduce-IsWell s (provider_error message) w = unchanged s _ w refl refl
  reduce-IsWell s (session_ended reason) w = unchanged s _ w refl refl
  reduce-IsWell s (function_call call_id name arguments) w = w
  reduce-IsWell s (function_call_named call_id name) w = w

  -- Whatever happens in a session, in any order: no two lines of the transcript have one id, no two
  -- traces belong to one tool call, and no more than six traces are kept.
  pub run-IsWell : (s : State P T) (actions : List (Action P T)) → IsWell s → IsWell (run s actions)
  unfolding run
  run-IsWell s [] w = w
  run-IsWell s (a ∷ rest) w = run-IsWell (reduce s a) rest (reduce-IsWell s a w)
