-- ===== src/Client/Ending.antt =====
-- src/client/client.c: how the two threads end when `running` is 0.
use ai_chatbot.Base.{
  if_elim, ℕ, suc, ◌-◌, ◌≤◌, ◌≡◌, refl, ◌∙◌, false, List, [], ◌∷◌, Option, some, arith,
  Option-cases, inl, inr,
}
use ai_chatbot.Text.{Bytes}
use ai_chatbot.Text.Trim.{trim_newline}
use ai_chatbot.Status.{Status, max_line_len}
use ai_chatbot.Protocol.Server.{ServerResp, ParsedResp, parse_server_line}
use ai_chatbot.Client.State.{Terminal, ChatClient, client_set_running, client_is_running}
use ai_chatbot.Client.Input.{handle_input, fgets}
use ai_chatbot.Client.Display.{display_server_message, display_as}
use ai_chatbot.Client.Sent.{sent_by-client_print, sent_by}
use ai_chatbot.Client.Stopped.{IsStopped, IsStopped-IsInvariant}
use ai_chatbot.Client.Invariant.{handle_input-kept, received-kept, leave_loop-kept}
use ai_chatbot.Client.Threads.{
  Threads, Turn, MainPlace, ReceiverPlace, take_turn, run_turns, main_turn, receiver_turn, received,
  typed, leave_loop,
}

-- How many turns of its own a thread takes at most before it is behind its loop.
abbrev pub main_rank : MainPlace → ℕ
main_rank MainPlace.reading = 2
main_rank MainPlace.testing = 1
main_rank _ = 0

abbrev pub receiver_rank : ReceiverPlace → ℕ
receiver_rank ReceiverPlace.receiving = 2
receiver_rank ReceiverPlace.testing = 1
receiver_rank ReceiverPlace.returned = 0

abbrev pub keyboard_turns : List Turn → ℕ
keyboard_turns [] = 0
keyboard_turns (Turn.keyboard ∷ turns) = suc (keyboard_turns turns)
keyboard_turns (Turn.socket _ ∷ turns) = keyboard_turns turns

abbrev pub socket_turns : List Turn → ℕ
socket_turns [] = 0
socket_turns (Turn.keyboard ∷ turns) = socket_turns turns
socket_turns (Turn.socket _ ∷ turns) = suc (socket_turns turns)

-- A stopped client, and bounds on the turns that are left.
record IsEnding (sent : List (ℕ × Bytes)) (m r : ℕ) (s : Threads) : Type 0 where
  is_stopped : IsStopped sent s.client
  main_left : main_rank s.main ≤ m
  receiver_left : receiver_rank s.receiver ≤ r

module _ {sent : List (ℕ × Bytes)} {m r : ℕ} where
  leave_loop-IsEnding :
      (t : Terminal) (s : Threads)
      → IsStopped sent s.client
      → receiver_rank s.receiver ≤ r
      → IsEnding sent m r (leave_loop s)
  unfolding leave_loop
  leave_loop-IsEnding t s h k = record {
    is_stopped = leave_loop-kept t (IsStopped sent) (IsStopped-IsInvariant sent t) s h;
    main_left = omega arith;
    receiver_left = k;
  }

  typed-IsEnding :
      (t : Terminal) (s : Threads)
      → IsStopped sent s.client
      → receiver_rank s.receiver ≤ r
      → 1 ≤ m
      → IsEnding sent m r (typed t s)
  unfolding typed
  typed-IsEnding t s h k l = elim (Option-cases (fgets max_line_len s.client.stdin)) [
    | inl end ↦ rw (end, typed) (leave_loop-IsEnding t s h k)
    | inr ((input, rest), found) ↦
        rw (found, typed)
          (let cli : ChatClient = record s.client { stdin = rest } in
            let stopped : IsStopped sent cli = record {
              not_running = h.not_running;
              has_sent = h.has_sent;
            } in
            let handled =
              handle_input-kept t (IsStopped sent) (IsStopped-IsInvariant sent t)
                (trim_newline input) cli stopped in
            if_elim (IsEnding sent m r) (handle_input t (trim_newline input) cli).0
              (λ _. record { is_stopped = handled; main_left = l; receiver_left = k })
              (λ _.
                leave_loop-IsEnding t
                  (record s { client = (handle_input t (trim_newline input) cli).1 }) handled k))
  ]

module _ {sent : List (ℕ × Bytes)} {m r : ℕ} where
  main_turn-IsEnding :
      (t : Terminal) (s : Threads) → IsEnding sent m r s → IsEnding sent (m - 1) r (main_turn t s)
  unfolding main_turn client_is_running
  main_turn-IsEnding t s h =
      let left : IsEnding sent (m - 1) r (leave_loop s) =
        leave_loop-IsEnding t s h.is_stopped h.receiver_left in
      let read : 1 ≤ m - 1 → IsEnding sent (m - 1) r (typed t s) =
        typed-IsEnding t s h.is_stopped h.receiver_left in
      ground (arith, left, read)

  receiver_turn-IsEnding :
      (t : Terminal) (line : Option Bytes) (s : Threads)
      → IsEnding sent m r s
      → IsEnding sent m (r - 1) (receiver_turn t line s)
  unfolding receiver_turn client_is_running
  receiver_turn-IsEnding t line s h = ground (
    arith,
    received-kept t (IsStopped sent) (IsStopped-IsInvariant sent t) line s.client h.is_stopped,
  )

run_turns-IsEnding :
    (t : Terminal) (turns : List Turn) {sent : List (ℕ × Bytes)} {m r : ℕ} (s : Threads)
    → IsEnding sent m r s
    → IsEnding sent (m - keyboard_turns turns) (r - socket_turns turns) (run_turns t turns s)
unfolding run_turns take_turn
run_turns-IsEnding t [] s h = record {
  is_stopped = h.is_stopped;
  main_left = omega (arith, h.main_left);
  receiver_left = omega (arith, h.receiver_left);
}
run_turns-IsEnding t (Turn.keyboard ∷ turns) {m} {r} s h =
    let rest = run_turns-IsEnding t turns (main_turn t s) (main_turn-IsEnding t s h) in
    record {
      is_stopped = rest.is_stopped;
      main_left = omega (arith, rest.main_left);
      receiver_left = omega (arith, rest.receiver_left);
    }
run_turns-IsEnding t (Turn.socket line ∷ turns) {m} {r} s h =
    let rest =
      run_turns-IsEnding t turns (receiver_turn t line s) (receiver_turn-IsEnding t line s h) in
    record {
      is_stopped = rest.is_stopped;
      main_left = omega (arith, rest.main_left);
      receiver_left = omega (arith, rest.receiver_left);
    }

pub main_rank-le : (p : MainPlace) → main_rank p ≤ 2
main_rank-le p = ground arith

pub receiver_rank-le : (p : ReceiverPlace) → receiver_rank p ≤ 2
receiver_rank-le p = ground arith

-- Both threads have returned from their functions.
abbrev pub HasEnded : Threads → Type 0
HasEnded s = (s.main ≡ MainPlace.returned) × (s.receiver ≡ ReceiverPlace.returned)

join-HasEnded :
    (t : Terminal) (s : Threads)
    → main_rank s.main ≤ 0
    → receiver_rank s.receiver ≤ 0
    → HasEnded (main_turn t s)
unfolding main_turn
join-HasEnded t s h k = ground arith

-- When the client has stopped running, it sends no further line, whatever is typed and received and in
-- whatever order its threads take their turns; and once each thread has had two turns, the next turn of the
-- main thread returns from `client_run`, with the receiver ended and joined.
pub stopped_lem :
    (t : Terminal) (turns : List Turn) (s : Threads)
    → s.client.running ≡ false
    → (sent_by (run_turns t turns s).client ≡ sent_by s.client)
      × (2 ≤ keyboard_turns turns
          → 2 ≤ socket_turns turns
          → HasEnded (main_turn t (run_turns t turns s)))
stopped_lem t turns s h =
    let start : IsEnding (sent_by s.client) 2 2 s = record {
      is_stopped = record { not_running = h; has_sent = refl };
      main_left = main_rank-le s.main;
      receiver_left = receiver_rank-le s.receiver;
    } in
    let end = run_turns-IsEnding t turns s start in
    (
      end.is_stopped.has_sent,
      λ k l. join-HasEnded t _ (omega (arith, end.main_left)) (omega (arith, end.receiver_left)),
    )

received-kicked :
    (t : Terminal) (line : Bytes) (cli : ChatClient) {resp : ParsedResp}
    → parse_server_line line ≡ (Status.ok, resp)
    → resp.type ≡ ServerResp.kicked
    → IsStopped (sent_by cli) (received t (some line) cli)
unfolding received display_server_message display_as client_set_running
received-kicked t line cli {resp} parsed kind =
    rw (parsed, received)
      (rw (kind, display_as) (record { not_running = refl; has_sent = sent_by-client_print _ cli }))

receiver_turn-kicked :
    (t : Terminal) (line : Bytes) (s : Threads) {resp : ParsedResp}
    → s.receiver ≡ ReceiverPlace.receiving
    → parse_server_line line ≡ (Status.ok, resp)
    → resp.type ≡ ServerResp.kicked
    → IsStopped (sent_by s.client) (receiver_turn t (some line) s).client
unfolding receiver_turn
receiver_turn-kicked t line s at_recv parsed kind =
    ground (arith, received-kicked t line s.client parsed kind)

-- A line that the receiver reads as a kick ends the client: from then on it sends no further line, and once
-- each thread has had two more turns, the next turn of the main thread returns from `client_run`.
pub kicked_lem :
    (t : Terminal) (turns : List Turn) (line : Bytes) (s : Threads) {resp : ParsedResp}
    → s.receiver ≡ ReceiverPlace.receiving
    → parse_server_line line ≡ (Status.ok, resp)
    → resp.type ≡ ServerResp.kicked
    → (sent_by (run_turns t (Turn.socket (some line) ∷ turns) s).client ≡ sent_by s.client)
      × (2 ≤ keyboard_turns turns
          → 2 ≤ socket_turns turns
          → HasEnded (main_turn t (run_turns t (Turn.socket (some line) ∷ turns) s)))
unfolding run_turns take_turn
kicked_lem t turns line s at_recv parsed kind =
    let stopped = receiver_turn-kicked t line s at_recv parsed kind in
    let after = stopped_lem t turns (receiver_turn t (some line) s) stopped.not_running in
    (after.0 ∙ stopped.has_sent, after.1)
