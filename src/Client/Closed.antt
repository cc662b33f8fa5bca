-- ===== src/Client/Closed.antt =====
-- src/client/client.c: the sockets that the client has closed, and that no step of its threads opens or closes one.
use mathlib.Core.List.{append-nil}
use ai_chatbot.Base.{
  ℕ, ◌≡◌, refl, ap, ◌∙◌, List, [], ◌∷◌, ◌++◌, Option, none, some, arith, Option-cases, inl, inr,
  if◌then◌else◌, suc,
}
use ai_chatbot.Text.{Bytes}
use ai_chatbot.Client.State.{
  Event, Terminal, ChatClient, add_event, client_send_line, client_print, client_set_running,
}
use ai_chatbot.Client.Invariant.{IsInvariant}
use ai_chatbot.Client.Start.{IsStartInvariant}
use ai_chatbot.Client.Life.{Address}

abbrev pub closed_in : List Event → List ℕ
closed_in [] = []
closed_in (Event.closed fd ∷ events) = fd ∷ closed_in events
closed_in (_ ∷ events) = closed_in events

pub closed_in-append : (a b : List Event) → closed_in (a ++ b) ≡ closed_in a ++ closed_in b
closed_in-append [] b = refl
closed_in-append (Event.closed fd ∷ a) b = ap (λ fds. fd ∷ fds) (closed_in-append a b)
closed_in-append (Event.printed _ ∷ a) b = closed_in-append a b
closed_in-append (Event.reported _ ∷ a) b = closed_in-append a b
closed_in-append (Event.lost _ _ ∷ a) b = closed_in-append a b
closed_in-append (Event.shut _ ∷ a) b = closed_in-append a b
closed_in-append (Event.sent _ _ ∷ a) b = closed_in-append a b

-- The sockets that the loop over the addresses makes, up to the one that connects.
abbrev pub opened : List Address → List ℕ
opened [] = []
opened (rp ∷ res) = elim rp.socket [
  | none ↦ opened res
  | some fd ↦ fd ∷ (if rp.connects then [] else opened res)
]

-- The client has closed the sockets of the list, and has the given one open.
pub record HasSockets (closed : List ℕ) (now : Option ℕ) (cli : ChatClient) : Type 0 where
  pub has_closed : closed_in cli.events ≡ closed
  pub has_open : cli.sockfd ≡ now

module _ (closed : List ℕ) (now : Option ℕ) where
  -- An event that closes nothing.
  pub other_event :
      (e : Event) (cli : ChatClient)
      → closed_in (e ∷ []) ≡ []
      → HasSockets closed now cli
      → HasSockets closed now (add_event e cli)
  other_event e cli quiet h = record {
    has_closed =
        closed_in-append cli.events (e ∷ [])
        ∙ ap (λ l. closed_in cli.events ++ l) quiet
        ∙ append-nil (closed_in cli.events)
        ∙ h.has_closed;
    has_open = h.has_open;
  }

  client_send_line-HasSockets :
      (t : Terminal) (line : Bytes) (cli : ChatClient)
      → HasSockets closed now cli
      → HasSockets closed now (client_send_line t line cli).1
  unfolding client_send_line
  client_send_line-HasSockets t line cli h = elim (Option-cases cli.sockfd) [
    | inl e ↦ ground arith
    | inr (fd, found) ↦
        let next : ChatClient = record cli { tick = suc cli.tick } in
        let same : HasSockets closed now next = record {
          has_closed = h.has_closed;
          has_open = h.has_open;
        } in
        let sent = other_event (Event.sent fd line) next refl same in
        let lost = other_event (Event.lost fd line) next refl same in ground arith
  ]

  HasSockets-IsInvariant : (t : Terminal) → IsInvariant t (HasSockets closed now)
  unfolding client_print client_set_running
  HasSockets-IsInvariant t = record {
    on_print = λ text cli h. other_event (Event.printed text) cli refl h;
    on_stop = λ cli h. record { has_closed = h.has_closed; has_open = h.has_open };
    on_send = client_send_line-HasSockets t;
    on_welcome = λ name cli h. record { has_closed = h.has_closed; has_open = h.has_open };
    on_room = λ room cli h. record { has_closed = h.has_closed; has_open = h.has_open };
    on_read = λ rest cli h. record { has_closed = h.has_closed; has_open = h.has_open };
    on_shut = λ fd cli h. other_event (Event.shut fd) cli refl h;
    on_join = λ cli h. record { has_closed = h.has_closed; has_open = h.has_open };
  }

  pub HasSockets-IsStartInvariant : (t : Terminal) → IsStartInvariant t (HasSockets closed now)
  HasSockets-IsStartInvariant t = record {
    on_turns = HasSockets-IsInvariant t;
    on_report = λ text cli h. other_event (Event.reported text) cli refl h;
    on_username = λ name rest cli _ h. record { has_closed = h.has_closed; has_open = h.has_open };
    on_password = λ word rest cli _ h. record { has_closed = h.has_closed; has_open = h.has_open };
    on_start = λ cli h. record { has_closed = h.has_closed; has_open = h.has_open };
  }
