-- ===== src/Server/Accept/Turns.antt =====
-- The turns of the thread of a client in src/server/server.c keep the registry in step with the threads.
use ai_chatbot.Base.{
  some_inj, ℕ, ◌≡◌, refl, sym, ap, ◌∙◌, Bool, true, false, List, Option, none, some, arith, ◌==◌,
  if◌then◌else◌, Bool-cases, Option-cases, inl, inr, if_elim, ==_iff,
}
use ai_chatbot.Text.{Bytes, is_empty}
use ai_chatbot.Server.State.{Env, Server}
use ai_chatbot.Server.Session.{session_step, disconnect_client}
use ai_chatbot.Server.Accept.{Host, Thread, update_thread, leave, handle_line, thread_turn}
use ai_chatbot.Server.Accept.Sockets.{
  sockets, member, without, Enters, session_step-Step, disconnect_sockets,
}
use ai_chatbot.Server.Accept.Threads.{
  logged_in, Found, logged_in-update, OnePerSocket-update, AllNamed-update, logged_in-end,
  OnePerSocket-end, AllNamed-end,
}
use ai_chatbot.Server.Accept.Roster.{IsListed, IsListed-server, member-without, AllDistinct-without}

-- What is known of one descriptor need not be written for it.
pub logged_in-if :
    (own k : ℕ) (ts : List Thread) {b : Bool}
    → logged_in own ts ≡ b
    → (if own == k then b else logged_in k ts) ≡ logged_in k ts
logged_in-if own k ts {b} e = elim (Bool-cases (own == k)) [
  | inl eq ↦ rw eq (sym e ∙ ap (λ fd. logged_in fd ts) ((==_iff own k).0 eq))
  | inr ne ↦ rw ne
]

module _ (env : Env) where
  leave-IsListed :
      (fd : ℕ) (t : Thread) (h : Host)
      → Found fd t h.threads
      → IsListed h
      → IsListed (leave env t h)
  unfolding leave
  leave-IsListed fd t h f c =
      let (on, off) = disconnect_sockets env t.client_fd t.session h.server in
      let s : Server = (disconnect_client env t.client_fd t.session h.server).1 in
      elim (Bool-cases t.session.authenticated) [
        | inl in_ ↦
            let e : sockets s ≡ without t.client_fd (sockets h.server) =
              on in_ (f.named c.all_named in_) in
            record {
              exact = λ k. rw e (
                  member-without k t.client_fd (sockets h.server) c.listed_once
                  ∙ rw (c.exact k) (sym (logged_in-end k t.client_fd h.threads c.one_thread)));
              listed_once = rw e (AllDistinct-without t.client_fd (sockets h.server) c.listed_once);
              one_thread = OnePerSocket-end t.client_fd h.threads c.one_thread;
              all_named = AllNamed-end t.client_fd h.threads c.all_named;
            }
        | inr out ↦
            let e : sockets s ≡ sockets h.server = off out in
            record {
              exact = λ k. rw e (
                  c.exact k
                  ∙ sym (
                      logged_in-end k t.client_fd h.threads c.one_thread
                      ∙ logged_in-if t.client_fd k h.threads (rw f.own (f.same ∙ out))));
              listed_once = rw e c.listed_once;
              one_thread = OnePerSocket-end t.client_fd h.threads c.one_thread;
              all_named = AllNamed-end t.client_fd h.threads c.all_named;
            }
      ]

  -- New variables of a thread that say the same of its log-in.
  update-IsListed :
      (fd : ℕ) (t new : Thread) (h : Host)
      → Found fd t h.threads
      → new.client_fd ≡ fd
      → new.session ≡ t.session
      → IsListed h
      → IsListed (record h { threads = update_thread new h.threads })
  update-IsListed fd t new h f own same c = record {
    exact = λ k.
        c.exact k
        ∙ sym (
            logged_in-update k new h.threads (rw own f.present)
            ∙ logged_in-if new.client_fd k h.threads (rw (own, same) f.same));
    listed_once = c.listed_once;
    one_thread = OnePerSocket-update new h.threads c.one_thread;
    all_named = AllNamed-update new h.threads (rw same (f.named c.all_named)) c.all_named;
  }

  -- The thread that has logged in.
  enter-IsListed :
      (fd : ℕ) (t new : Thread) (h : Host) (s : Server)
      → Found fd t h.threads
      → new.client_fd ≡ fd
      → Enters fd t.session (some new.session) h.server s
      → IsListed h
      → IsListed (record h { server = s; threads = update_thread new h.threads })
  enter-IsListed fd t new h s f own e c =
      let absent : member fd (sockets h.server) ≡ false = c.exact fd ∙ f.same ∙ e.was_out in
      let is_new : e.session' ≡ new.session = some_inj (sym e.goes_on) in
      let is_in : new.session.authenticated ≡ true = rw is_new at e.is_in in
      let has_name : is_empty new.session.username ≡ false = rw is_new at e.has_name in
      record {
        exact = λ k.
            rw (e.new_socket, logged_in-update k new h.threads (rw own f.present), is_in, own)
              (rw (c.exact k) (ground arith));
        listed_once = rw (e.new_socket) (absent, c.listed_once);
        one_thread = OnePerSocket-update new h.threads c.one_thread;
        all_named = AllNamed-update new h.threads (λ _. has_name) c.all_named;
      }

  handle_line-IsListed :
      (fd : ℕ) (t : Thread) (line : Option Bytes) (h : Host)
      → Found fd t h.threads
      → IsListed h
      → IsListed (handle_line env t line h)
  unfolding handle_line
  handle_line-IsListed fd t none h f c = leave-IsListed fd t h f c
  handle_line-IsListed fd t (some line) h f c =
      let s : Server = (session_step env t.client_fd t.session line h.server).1 in
      let step = session_step-Step env t.client_fd t.session line h.server in
      elim (Option-cases (session_step env t.client_fd t.session line h.server).0) [
        | inl over ↦
            rw (over, handle_line)
              (elim step [
                | inl stays ↦
                    leave-IsListed fd t (record h { server = s }) f
                      (IsListed-server h s stays.same_sockets c)
                | inr enters ↦ cc (enters.goes_on, over)
              ])
        | inr (session, more) ↦
            rw (more, handle_line)
              (let new : Thread = record t { session = session; receiving = false } in
                elim step [
                  | inl stays ↦
                      update-IsListed fd t new (record h { server = s }) f f.own
                        (stays.same_session session more) (IsListed-server h s stays.same_sockets c)
                  | inr enters ↦
                      let own : Found t.client_fd t h.threads = record {
                        own = refl;
                        present = rw f.own f.present;
                        same = rw f.own f.same;
                        named = f.named;
                      } in
                      enter-IsListed t.client_fd t new h s own refl (rw more at enters) c
                ])
      ]

  pub thread_turn-IsListed :
      (fd : ℕ) (t : Thread) (line : Option Bytes) (h : Host)
      → Found fd t h.threads
      → IsListed h
      → IsListed (thread_turn env t line h)
  unfolding thread_turn
  thread_turn-IsListed fd t line h f c =
      if_elim IsListed t.receiving (λ _. handle_line-IsListed fd t line h f c)
        (λ _.
          if_elim IsListed h.running
            (λ _. update-IsListed fd t (record t { receiving = true }) h f f.own refl c)
            (λ _. leave-IsListed fd t h f c))
