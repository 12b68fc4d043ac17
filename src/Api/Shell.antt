-- ===== src/Api/Shell.antt =====
-- What a request to the process manager runs and answers.
use juno_agent.Base.{◌≡◌, ◌⊎◌, Option, none, some, false, List, []}
use juno_agent.Base.Text.{Bytes}
use juno_agent.Commands.{CommandError, no_shell, no_op, bad_app, shell_of, op_of, is_app}
use juno_agent.Api.{PmtShell, Handled, reply200, reply400, message}

-- Why a request is refused.
abbrev pub Refusal : PmtShell → CommandError → Type 0
Refusal req e =
    ((e ≡ no_shell) × (shell_of req.pmt ≡ none))
    ⊎ (((e ≡ no_op) × ((s : Bytes) × (shell_of req.pmt ≡ some s) × (op_of req.op ≡ none)))
        ⊎ ((e ≡ bad_app) × (is_app req.app_name ≡ false)))

module _ {World : Type 0} (bash : List Bytes → World → Option Bytes × Bytes × World) where
  -- The reply by what bash gives, without its output.
  abbrev pub shell_reply : Option Bytes × Bytes × World → Handled Bytes × World
  shell_reply (e, output, w) =
      (elim e [ some text ↦ reply400 (message text) | none ↦ reply200 [] ], w)
