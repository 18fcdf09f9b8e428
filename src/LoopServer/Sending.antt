-- ===== src/LoopServer/Sending.antt =====
-- The goroutines of a client of chat/with-loop-per-client/server.go, writeMsgLoop, readMsgLoop and
-- initPing, and the sendMsg goroutines that write to the channels of clients. Every client that ever
-- connected stays in `conns`, under its ID. An event that has to wait is not taken.
pub mod Stopped
mod Tests
use go_api_practice.Prelude.{
  ℕ, ◌+◌, Bool, true, false, not, Option, none, some, List, [], ◌∷◌, ◌++◌, ◌&&◌, ◌||◌, String,
  string_key, if◌then◌else◌, ltb, length, get_elem?, set,
}
use go_api_practice.Prelude.Int.{ℤ, pos, suc_ℤ, pred_ℤ, ltb_ℤ}
use go_api_practice.Prelude.Assoc.{Assoc, lookup, insert}
use go_api_practice.Prelude.Run.{Run, done, waits, panics, ◌>>=◌}
use go_api_practice.Ring.{RespMsg}

-- The capacity of msgCH.
abbrev pub channel_size : ℕ
channel_size = 64

-- `writing` tells whether writeMsgLoop runs, and `left` whether `done` is closed.
pub record Conn : Type 0 where
  pub msg_ch : List RespMsg
  pub queue_size : ℤ
  pub pong_counter : ℤ
  pub writing : Bool
  pub left : Bool

-- A goroutine of sendMsg with the clients that it still has to write to.
pub record Sender : Type 0 where
  pub clients : List String
  pub resp : RespMsg

pub record Net : Type 0 where
  pub conns : Assoc String Conn
  pub senders : List Sender

-- NewClient
abbrev pub new_conn : Conn
new_conn = record {
  msg_ch = [];
  queue_size = pos 0;
  pong_counter = pos 0;
  writing = true;
  left = false;
}

-- What a goroutine does to a client.
pub data Act : Type 0 where
  writes : Bool → Act
  ticks pongs leaves stops : Act

pub data SendEvent : Type 0 where
  connects : String → SendEvent
  acts : String → Act → SendEvent
  pings : String → RespMsg → SendEvent
  send_starts : List String → RespMsg → SendEvent
  send_goes : ℕ → SendEvent

-- `c.msgCH <- resp`
abbrev pub put : RespMsg → Conn → Run Conn
put resp c =
    if ltb (length c.msg_ch) channel_size
    then done (record c { msg_ch = c.msg_ch ++ (resp ∷ []) })
    else waits

-- The test at the head of the loop of writeMsgLoop.
abbrev pub goes_on : Conn → Bool
goes_on c = c.writing && not (ltb_ℤ (pos 2) c.pong_counter)

-- The case of writeMsgLoop that receives; the flag says whether WriteJSON succeeds.
abbrev pub write_next : Bool → Conn → List RespMsg → Run (Conn × List RespMsg)
write_next ok c [] = waits
write_next ok c (msg ∷ msgs) = done (
  record c { msg_ch = msgs; queue_size = pred_ℤ c.queue_size; writing = ok },
  if ok then msg ∷ [] else [],
)

-- What is written to the connection comes with the client.
unfoldable pub run_act : Act → Conn → Run (Conn × List RespMsg)
run_act (writes ok) c = if goes_on c then write_next ok c c.msg_ch else waits
run_act ticks c =
    if goes_on c then done (record c { pong_counter = suc_ℤ c.pong_counter }, []) else waits
run_act pongs c =
    if c.left then waits else done (record c { pong_counter = pred_ℤ c.pong_counter }, [])
run_act leaves c = if c.left then waits else done (record c { left = true }, [])
run_act stops c =
    if c.writing && (c.left || ltb_ℤ (pos 2) c.pong_counter)
    then done (record c { writing = false }, [])
    else waits

abbrev pub conn_of : Option Conn → Run Conn
conn_of none = waits
conn_of (some c) = done c

abbrev pub connected : Net → String → Option Conn → Run Net
connected net id none = done (record net { conns = insert id new_conn net.conns })
connected net id (some c) = waits

-- A round of the loop of sendMsg.
abbrev pub send_next : Net → ℕ → Sender → List String → Run Net
send_next net k s [] = waits
send_next net k s (id ∷ ids) = do
  c ← conn_of (lookup id net.conns)
  c' ← put s.resp c
  done (record {
    conns = insert id c' net.conns;
    senders = set net.senders k (record s { clients = ids });
  })

abbrev pub send_one : Net → ℕ → Option Sender → Run Net
send_one net k none = waits
send_one net k (some s) = send_next net k s s.clients

abbrev pub labelled : String → List RespMsg → List (String × RespMsg)
labelled id [] = []
labelled id (msg ∷ msgs) = (id, msg) ∷ labelled id msgs

unfoldable pub send_step : Net → SendEvent → Run (Net × List (String × RespMsg))
send_step net (connects id) = do net' ← connected net id (lookup id net.conns); done (net', [])
send_step net (acts id act) = do
  c ← conn_of (lookup id net.conns)
  (c', written) ← run_act act c
  done (record net { conns = insert id c' net.conns }, labelled id written)
send_step net (pings id resp) = do
  c ← conn_of (lookup id net.conns)
  c' ← put resp c
  done (record net { conns = insert id c' net.conns }, [])
send_step net (send_starts ids resp) =
    done (record net { senders = net.senders ++ (record { clients = ids; resp = resp } ∷ []) }, [])
send_step net (send_goes k) = do net' ← send_one net k (get_elem? net.senders k); done (net', [])

-- Any interleaving, with what is written to the connections.
unfoldable pub send_steps : Net → List SendEvent → Run (Net × List (String × RespMsg))
send_steps net [] = done (net, [])
send_steps net (e ∷ es) = do
  (net', written) ← send_step net e
  (net'', log) ← send_steps net' es
  done (net'', written ++ log)
