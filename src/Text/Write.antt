-- ===== src/Text/Write.antt =====
-- Loops that append texts to a buffer with `snprintf(buf + used, buflen - used, ...)` and stop with
-- CHAT_ERR where a text does not fit: client_registry.c and room_manager.c under src/server.
use ai_chatbot.Base.{ℕ, ◌-◌, ◌<◌, ◌≡◌, true, ◌++◌, length, arith, leb, length-append, ◌↔◌, leb→le}
use ai_chatbot.Text.{Bytes}
use ai_chatbot.Status.{Status}

-- What a writer of `text` into `buflen` bytes has returned: CHAT_OK exactly when the text and its
-- NUL fit, and then the whole text.
abbrev pub Wrote : ℕ → Bytes → Status × Bytes → Type 0
Wrote buflen text (s, out) =
    ((s ≡ Status.ok) ↔ (length text < buflen)) × (s ≡ Status.ok → out ≡ text)

pub cut-Wrote :
    (buflen : ℕ) (buf piece rest out : Bytes)
    → leb (buflen - length buf) (length piece) ≡ true
    → Wrote buflen (buf ++ (piece ++ rest)) (Status.err, out)
cut-Wrote buflen buf piece rest out cut = (
  (
    (λ e. cc),
    (λ fits. absurd (
        omega
          (arith, leb→le _ _ cut, length-append buf (piece ++ rest), length-append piece rest))),
  ),
  (λ e. cc),
)
