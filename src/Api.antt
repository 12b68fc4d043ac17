-- ===== src/Api.antt =====
-- The HTTP interface: the handlers of pkg/core/api.go, with ReadFile of pkg/file/file.go, Exec of
-- pkg/pmt/exec.go and EncryptAPIResp of util/encrypt.go that they call. The reading of a request
-- (ctx.Bind, ctx.QueryParam), the files and bash are parameters.
pub mod Listen
pub mod Shell
pub mod Download
use mathlib.Core.Option
use juno_agent.Base.{
  ℕ, zero, suc, ◌+◌, ◌*◌, ◌^◌, ◌%◌, ◌-◌, Option, none, some, Bool, true, false, ◌||◌, List, [], ◌∷◌,
  ◌++◌, ◌==◌, ltb, if◌then◌else◌, length, not,
}
use juno_agent.Base.Text.{Bytes, codes, text_eq, is_empty}
use juno_agent.Base.Dict.{Dict}
use juno_agent.Base.Int.{ℤ}
use juno_agent.Base.Outcome.{ok, err, panics, hangs}
use juno_agent.Job.Keys.{parse_uint}
use juno_agent.ConfProxy.Listen.{Reader}
use juno_agent.ConfProxy.Values.{ReadError, Source, Read, gives, fails, get_values, get_raw_values}
use juno_agent.ConfProxy.Watch
use juno_agent.ConfProxy.Watch.{listen_app_config, listen_raw_key_app_config}
use juno_agent.Engine.{get_config_status}
use juno_agent.Health.{Checks, ResHealthCheck, Gathered, returned, spinning, health_check}
use juno_agent.Processes.{ProcessStatus}
use juno_agent.Processes
use juno_agent.Commands.{CommandError, args, refused, gen_command}
use juno_agent.Padding.{Crypto, aes_cbc_encrypt}

-- What a message of a failure tells: a fixed text, or the text of an error.
pub data Problem : Type 0 where
  message : Bytes → Problem
  not_read : ReadError → Problem
  not_generated : CommandError → Problem

-- The JSON of a reply: the data of a success or the message of a failure, both with a code, or a text.
pub data Body (A : Type 0) : Type 0 where
  success : A → Body A
  failure : Problem → Body A
  plain : Problem → Body A

pub record HttpReply (A : Type 0) : Type 0 where
  pub status : ℕ
  pub body : Body A

-- What becomes of a request: a reply, a wait, or a panic of the handler.
pub data Handled (A : Type 0) : Type 0 where
  replied : HttpReply A → Handled A
  waits : Handled A
  crashes : Handled A

-- What ctx.Bind gives.
pub data Bound (A : Type 0) : Type 0 where
  bound : A → Bound A
  unbound : Bytes → Bound A

module _ {A : Type 0} where
  unfoldable pub reply200 : A → Handled A
  reply200 data_ = replied (record { status = 200; body = success data_ })

  -- The code 400 is in the body only.
  unfoldable pub reply400 : Problem → Handled A
  reply400 msg = replied (record { status = 200; body = failure msg })

-- confStatus
unfoldable pub conf_status {ℓ} : {V : Type ℓ} → Bound Bytes → Dict V → Handled (Bool × Bool)
unfolding reply200 reply400 get_config_status
conf_status (unbound e) programs = reply400 (message e)
conf_status (bound config) programs =
    if is_empty config
    then reply400 (message (codes "input parameter is empty"))
    else reply200 (get_config_status config programs)

-- strconv.ParseBool, false behind an error.
unfoldable pub parse_bool : Bytes → Bool
parse_bool text =
    text_eq text (codes "1")
    || (text_eq text (codes "t")
        || (text_eq text (codes "T")
            || (text_eq text (codes "TRUE")
                || (text_eq text (codes "true") || text_eq text (codes "True")))))

unfoldable pub clamp : ℕ → ℕ
clamp n = if ltb n (2 ^ 63) then n else 2 ^ 63 - 1

-- The seconds that a listener asks for, 60 unless they are above 0. The error of strconv.Atoi is not
-- read: its value is 0 behind a wrong byte, and the largest number behind digits that do not fit.
unfoldable pub listen_internal : Bytes → ℕ
unfolding parse_uint clamp
listen_internal [] = 60
listen_internal (c ∷ s) =
    if c == b'-'
    then 60
    else (let n = clamp (parse_uint (if c == b'+' then s else c ∷ s)) in if n == 0 then 60 else n)

-- time.Second * time.Duration(internal) in 64 bits, of which time.After waits the positive ones.
unfoldable pub wait_nanoseconds : ℕ → ℕ
wait_nanoseconds internal = let d = (internal * 10 ^ 9) % 2 ^ 64 in if ltb d (2 ^ 63) then d else 0

-- structs.ContentNode
pub record ContentNode : Type 0 where
  pub content : Bytes
  pub version : ℤ

-- What a listener is answered by its handler, with the content and, as its version, the Unix time at
-- which the proxy makes the answer; every error reads the same.
unfoldable pub listened : ℤ → Watch.Reply → Handled ContentNode
unfolding reply200 reply400
listened now (Watch.content c) = reply200 (record { content = c; version = now })
listened now Watch.get_failed = reply400 (message (codes "no data change"))
listened now Watch.config_nil = reply400 (message (codes "no data change"))
listened now Watch.no_change = reply400 (message (codes "no data change"))
listened now Watch.pending = waits
listened now Watch.crashes = crashes

unfoldable pub read : Read Bytes → Handled Bytes
unfolding reply200 reply400
read (gives c) = reply200 c
read (fails e) = reply400 (not_read e)

-- The handlers on configurations: `query` is ctx.QueryParam, `target` ctx.Param, and `reader` where the
-- reader of the request's own channel stands once it waits for the seconds of its query, `now` being the
-- time then.
module _ (S : Source) (host : Bytes) (query : Bytes → Bytes) where
  unfoldable pub get_app_config : Bytes → Handled Bytes
  unfolding read get_values
  get_app_config target =
      read (
        get_values S host (query (codes "name")) (query (codes "env")) target
          (query (codes "port")))

  unfoldable pub get_raw_app_config : Handled Bytes
  unfolding read reply400 get_raw_values
  get_raw_app_config =
      let raw_key = query (codes "rawKey") in
      if is_empty raw_key
      then reply400 (message (codes "get raw app config, the raw key is null"))
      else read (get_raw_values S raw_key)

  unfoldable pub listen_config : ℤ → Reader → Handled ContentNode
  unfolding listened parse_bool listen_app_config
  listen_config now reader = listened now (
      listen_app_config S host (parse_bool (query (codes "watch"))) reader (query (codes "name"))
        (query (codes "env")) (query (codes "target")) (query (codes "port")))

  unfoldable pub listen_raw_key_config : ℤ → Reader → Handled ContentNode
  unfolding listened reply400 parse_bool listen_raw_key_app_config
  listen_raw_key_config now reader =
      let raw_key = query (codes "rawKey") in
      if is_empty raw_key
      then reply400 (message (codes "listen config, raw key is null"))
      else listened now
          (listen_raw_key_app_config S (parse_bool (query (codes "watch"))) reader raw_key)

-- processStatus, behind the scan.
unfoldable pub process_status : Bytes → Option (List ProcessStatus) → Handled (List ProcessStatus)
unfolding reply200 reply400
process_status e none = reply400 (message (codes "process list parser err:" ++ e))
process_status e (some processes) = reply200 processes

-- agentCheck, with the results that arrive.
unfoldable pub agent_check :
    Bound (List (Bytes × Bytes)) → List ResHealthCheck → Handled (List ResHealthCheck)
unfolding reply200 health_check
agent_check (unbound e) arriving = replied (record { status = 400; body = plain (message e) })
agent_check (bound check_datas) arriving = elim (health_check check_datas arriving) [
  | returned results left ↦ reply200 results
  | spinning results ↦ waits
]

pub record PmtShell : Type 0 where
  pub pmt : Bytes
  pub app_name : Bytes
  pub op : ℤ

-- The reply by the error and the text of Exec.
unfoldable pub exec_reply : Option Bytes × Bytes → Handled Bytes
unfolding reply200 reply400
exec_reply (some text, reply) = reply400 (message text)
exec_reply (none, reply) = reply200 reply

-- exec.Cmd, with what the buffer holds that its standard output goes to, if it has one.
pub record Cmd : Type 0 where
  pub arguments : List Bytes
  pub stdout : Option Bytes

-- What bash does with its arguments: the text of the error, if there is one, its output, and the world
-- behind.
module _ {World : Type 0} (bash : List Bytes → World → Option Bytes × Bytes × World) where
  -- cmd.Run, which drops the output of a command without a buffer.
  unfoldable pub run : Cmd → World → Option Bytes × Cmd × World
  run cmd w =
      let (e, output, w') = bash cmd.arguments w in
      (e, record cmd { stdout = Option.map (λ out. out ++ output) cmd.stdout }, w')

  -- Exec: the buffer is set behind the run. The text is what it holds.
  unfoldable pub exec : List Bytes → World → (Option Bytes × Bytes) × World
  unfolding run
  exec command w =
      let cmd : Cmd = record { arguments = command; stdout = none } in
      let (e, cmd', w') = run cmd w in
      let cmd2 : Cmd = record cmd' { stdout = some [] } in
      (
        elim e [
          | some text ↦ (some text, [])
          | none ↦ (none, elim cmd2.stdout [ none ↦ [] | some out ↦ out ])
        ],
        w',
      )

  unfoldable pub pmt_shell : Bound PmtShell → World → Handled Bytes × World
  unfolding exec_reply reply400 gen_command exec
  pmt_shell (unbound e) w = (reply400 (message e), w)
  pmt_shell (bound req) w = elim (gen_command req.pmt req.app_name req.op) [
    | refused e ↦ (reply400 (not_generated e), w)
    | args command ↦ let (result, w') = exec command w in (exec_reply result, w')
  ]

-- os.Stat of a path, and ioutil.ReadFile: the text of the error or the result.
pub data Stat : Type 0 where
  no_stat : Bytes → Stat
  directory : Stat
  plain_file : Stat

pub data FileText : Type 0 where
  file_text : Bytes → FileText
  no_file : Bytes → FileText

pub record FileSystem : Type 0 where
  pub stat : Bytes → Stat
  pub contents : Bytes → FileText

unfoldable pub read_file_text : FileSystem → Bytes → FileText
read_file_text F path = elim (F.stat path) [
  | no_stat e ↦ no_file e
  | directory ↦ no_file (path ++ codes " is directory, not file")
  | plain_file ↦ F.contents path
]

-- EncryptAPIResp: the error of a key of another length than 32 is dropped.
unfoldable pub encrypt_api_resp : Crypto → Bytes → Bytes → Bytes
unfolding aes_cbc_encrypt
encrypt_api_resp lib secret text = elim (aes_cbc_encrypt lib text secret) [
  | ok cipher_text ↦ cipher_text
  | err e ↦ []
  | panics ↦ []
  | hangs ↦ []
]

unfoldable pub read_file : FileSystem → Crypto → Bytes → Bound Bytes → Handled Bytes
unfolding reply200 reply400 read_file_text encrypt_api_resp
read_file F lib secret (unbound e) = reply400 (message e)
read_file F lib secret (bound file_name) = elim (read_file_text F file_name) [
  | no_file e ↦ reply400 (message e)
  | file_text content ↦ reply200 (encrypt_api_resp lib secret content)
]
