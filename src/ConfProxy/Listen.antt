-- ===== src/ConfProxy/Listen.antt =====
-- The registry of the applications that wait for a change: ListenAppConfig and StoreAppChanInfo of
-- pkg/proxy/confProxy/etcd/etcd.go with their channels, and the select of ConfProxy.ListenAppConfig
-- and ListenRawKeyAppConfig of pkg/proxy/confProxy/proxy.go.
use juno_agent.Base.{
  ℕ, ◌+◌, Option, none, some, Bool, true, false, ◌||◌, List, [], ◌∷◌, ◌++◌, ◌==◌, if◌then◌else◌,
}
use juno_agent.Base.Text.{Bytes, text_eq}
use juno_agent.ConfProxy.{ConfNode}

-- Where the one reader of a channel stands: before its select, in it, or behind it with what it got;
-- `none` is the nil of a closed channel.
pub data Reader : Type 0 where
  before : Reader
  waiting : Reader
  received : Option ConfNode → Reader
  timed_out : Reader

pub record Chan : Type 0 where
  pub reader : Reader
  pub closed : Bool

-- The list jm of keys and channels, and the channels that were made, by number.
pub record Registry : Type 0 where
  pub jm : List (Bytes × ℕ)
  pub chans : ℕ → Chan
  pub made : ℕ

abbrev pub new_chan : Chan
new_chan = record { reader = before; closed = false }

abbrev pub no_listener : Registry
no_listener = record { jm = []; chans = λ i. new_chan; made = 0 }

abbrev pub set_chan : ℕ → Chan → (ℕ → Chan) → ℕ → Chan
set_chan i c chans j = if i == j then c else chans j

-- DataSource.ListenAppConfig
unfoldable pub listen : Bytes → Registry → Registry
listen key r = record {
  jm = r.jm ++ ((key, r.made) ∷ []);
  chans = set_chan r.made new_chan r.chans;
  made = r.made + 1;
}

-- The select of a reader begins: it waits, unless its channel is closed already.
abbrev pub begin_reader : Bool → Reader → Reader
begin_reader true before = received none
begin_reader false before = waiting
begin_reader c waiting = waiting
begin_reader c (received v) = received v
begin_reader c timed_out = timed_out

unfoldable pub begin : ℕ → Registry → Registry
begin i r = record r {
  chans =
      set_chan i
        (record (r.chans i) { reader = begin_reader (r.chans i).closed (r.chans i).reader })
        r.chans;
}

-- time.After fires first.
abbrev pub expire_reader : Reader → Reader
expire_reader waiting = timed_out
expire_reader before = before
expire_reader (received v) = received v
expire_reader timed_out = timed_out

unfoldable pub expire : ℕ → Registry → Registry
expire i r = record r {
  chans = set_chan i (record (r.chans i) { reader = expire_reader (r.chans i).reader }) r.chans;
}

-- The send with a default: only a reader that waits gets the value.
abbrev pub send_reader : ConfNode → Reader → Reader
send_reader val waiting = received (some val)
send_reader val before = before
send_reader val (received v) = received v
send_reader val timed_out = timed_out

-- close(node.ch), which panics on a closed channel. A reader that waits gets nil.
abbrev pub close_reader : Reader → Reader
close_reader waiting = received none
close_reader before = before
close_reader (received v) = received v
close_reader timed_out = timed_out

unfoldable pub send_and_close : ConfNode → Chan → Option Chan
send_and_close val c =
    if c.closed
    then none
    else some (record { reader = close_reader (send_reader val c.reader); closed = true })

-- The loop of StoreAppChanInfo; `none` is its panic.
unfoldable pub notify :
    Bytes
    → Bytes
    → ConfNode
    → List (Bytes × ℕ)
    → (ℕ → Chan)
    → Option (List (Bytes × ℕ) × (ℕ → Chan))
unfolding send_and_close
notify key raw_key val [] chans = some ([], chans)
notify key raw_key val ((k, i) ∷ jm) chans = elim (text_eq k key || text_eq k raw_key) [
  | true ↦ elim (send_and_close val (chans i)) [
    | none ↦ none
    | some c ↦ notify key raw_key val jm (set_chan i c chans)
  ]
  | false ↦ elim (notify key raw_key val jm chans) [
    | none ↦ none
    | some (jm', chans') ↦ some ((k, i) ∷ jm', chans')
  ]
]

-- DataSource.StoreAppChanInfo
unfoldable pub store_app_chan_info : Bytes → Bytes → ConfNode → Registry → Option Registry
unfolding notify
store_app_chan_info key raw_key val r = elim (notify key raw_key val r.jm r.chans) [
  | none ↦ none
  | some (jm, chans) ↦ some (record r { jm = jm; chans = chans })
]
