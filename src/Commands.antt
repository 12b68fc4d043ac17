-- ===== src/Commands.antt =====
-- GenCommand of pkg/pmt/exec.go.
use juno_agent.Base.{
  Option, none, some, Bool, true, ◌||◌, List, [], ◌∷◌, ◌≡◌, refl, if◌then◌else◌, arith, ◌==◌, not,
  ◌&&◌, Bool-cases, inl, inr,
}
use juno_agent.Base.Text.{Bytes, codes, text_eq, is_empty, contains_byte, trim_space}
use juno_agent.Base.Int.{ℤ, pos, negsuc}

pub data CommandError : Type 0 where
  no_shell no_op bad_app : CommandError

pub data Generated : Type 0 where
  args : List Bytes → Generated
  refused : CommandError → Generated

-- The manager's program, and the name of an operation.
unfoldable pub shell_of : Bytes → Option Bytes
shell_of pmt =
    if text_eq pmt (codes "systemd")
    then some (codes "systemctl")
    else if text_eq pmt (codes "supervisor")
    then some (codes "supervisorctl")
    else none

unfoldable pub op_of : ℤ → Option Bytes
op_of (negsuc n) = none
op_of (pos n) =
    if n == 0
    then some (codes "start")
    else if n == 1
    then some (codes "stop")
    else if n == 2
    then some (codes "restart")
    else none

abbrev pub is_app : Bytes → Bool
is_app app = not (contains_byte b'|' app) && not (is_empty (trim_space app))

-- The rest of the command behind the switches.
abbrev pub generate : Option Bytes → Option Bytes → Bytes → Generated
generate none name app = refused no_shell
generate (some shell) none app = refused no_op
generate (some shell) (some name) app =
    if contains_byte b'|' app || is_empty (trim_space app)
    then refused bad_app
    else args (codes "-c" ∷ shell ∷ name ∷ trim_space app ∷ [])

unfoldable pub gen_command : Bytes → Bytes → ℤ → Generated
unfolding shell_of op_of
gen_command pmt app op = generate (shell_of pmt) (op_of op) app

args_inj : (xs ys : List Bytes) → args xs ≡ args ys → xs ≡ ys
args_inj xs ys h = cc h

generate-args :
    (shell name : Option Bytes) (app : Bytes) (ys : List Bytes)
    → generate shell name app ≡ args ys
    → (s : Bytes) × (n : Bytes) × (shell ≡ some s)
      × (name ≡ some n)
      × (is_app app ≡ true)
      × (ys ≡ codes "-c" ∷ s ∷ n ∷ trim_space app ∷ [])
generate-args none n app ys h = cc h
generate-args (some s) none app ys h = cc h
generate-args (some s) (some n) app ys h = elim (Bool-cases (is_app app)) [
  | inl e ↦ (s, n, refl, refl, e, ground (arith, h, e))
  | inr e ↦ absurd (ground (arith, h, e))
]

-- A command is generated only for a known manager, a known operation and an application whose name
-- is not blank and holds no `|`; it is the manager's program, the operation and the trimmed name.
pub gen_command-args :
    (pmt app : Bytes) (op : ℤ) (ys : List Bytes)
    → gen_command pmt app op ≡ args ys
    → (s : Bytes) × (n : Bytes) × (shell_of pmt ≡ some s)
      × (op_of op ≡ some n)
      × (is_app app ≡ true)
      × (ys ≡ codes "-c" ∷ s ∷ n ∷ trim_space app ∷ [])
gen_command-args pmt app op ys h =
    unfold gen_command in generate-args (shell_of pmt) (op_of op) app ys h
