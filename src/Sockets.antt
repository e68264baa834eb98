-- ===== src/Sockets.antt =====
-- src/lib/socketbase.cpp: the settings that CreateEtwork accepts, and class Socket of a reliable
-- connection. What recv and send come to is a parameter of the step that calls them; the messages to
-- the debugger are left out.
pub mod Stream
pub mod Drain
pub mod Manager
mod Tests
use etwork.Common.{
  ℕ, ◌-◌, ◌%◌, ◌^◌, Bool, true, false, ◌||◌, ◌&&◌, Option, none, some, List, [], ◌∷◌, length, drop,
  ltb, ◌==◌, if◌then◌else◌,
}
use etwork.Common.Bytes.{add_size, sub_size}
use etwork.Buffer.{Impl, new_impl, put_message, get_message, message_count, space_used}
use etwork.Buffer.Run.{Run, done, ◌>>=◌}
use etwork.Buffer.PutData.{put_data}
use etwork.Buffer.GetData.{get_data}

-- The fields that the code here reads; times are counted in ticks of the timer.
pub record EtworkSettings : Type 0 where
  pub etwork_version : ℕ
  pub max_message_count : ℕ
  pub max_message_size : ℕ
  pub queue_size : ℕ
  pub port : ℕ
  pub reliable : Bool
  pub accepting : Bool
  pub debug : Bool
  pub keepalive : ℕ
  pub timeout : ℕ

pub data Verdict : Type 0 where
  unsupported_version : Verdict
  too_large : Verdict
  accepted : EtworkSettings → Verdict

-- The defaults for what is 0.
unfoldable pub fill_defaults : EtworkSettings → EtworkSettings
fill_defaults s = record s {
  max_message_count = if s.max_message_count == 0 then 50 else s.max_message_count;
  max_message_size = if s.max_message_size == 0 then 1400 else s.max_message_size;
  queue_size = if s.queue_size == 0 then 4000 else s.queue_size;
}

-- CreateEtwork up to WSAStartup. The supported version is 0x1300.
unfoldable pub check_settings : EtworkSettings → Verdict
check_settings s =
    let filled = fill_defaults s in
    if ltb 4864 (s.etwork_version % 2 ^ 16)
    then unsupported_version
    else if ltb 65536 (add_size filled.queue_size filled.max_message_size)
    then too_large
    else accepted filled

-- `writebuf` is the writebufData_ bytes of writebuf_ that wait for the system.
pub record Socket : Type 0 where
  pub settings : EtworkSettings
  pub closed : Bool
  pub buf_in : Impl
  pub buf_out : Impl
  pub writebuf : List ℕ
  pub last_active : ℕ
  pub last_keepalive : ℕ

unfoldable pub new_socket : (ℕ → ℕ) → EtworkSettings → ℕ → Socket
new_socket fill s cur_time =
    let buffer = new_impl fill s.max_message_size s.queue_size s.max_message_count in
    record {
      settings = s;
      closed = false;
      buf_in = buffer;
      buf_out = buffer;
      writebuf = [];
      last_active = cur_time;
      last_keepalive = 0;
    }

unfoldable pub read : Socket → ℕ → Socket × List ℕ × Option ℕ
read s max_size =
    let (im, bytes, n) = get_message s.buf_in max_size in (record s { buf_in = im }, bytes, n)

unfoldable pub write : Socket → List ℕ → Socket × Option ℕ
write s bytes = let (im, n) = put_message s.buf_out bytes in (record s { buf_out = im }, n)

unfoldable pub wants_to_write : Socket → Bool
wants_to_write s = ltb 0 (length s.writebuf) || ltb 0 (message_count s.buf_out)

-- The test reads the buffer for output.
unfoldable pub wants_to_read : Socket → Bool
wants_to_read s =
    ltb (space_used s.buf_out) (sub_size s.settings.queue_size s.settings.max_message_size)
    && ltb (message_count s.buf_out) s.settings.max_message_count

-- close_socket, but for the manager's sets and the system's handle.
unfoldable pub close_socket : Socket → Socket
close_socket s = record s { closed = true }

-- What a call of the system came to: some bytes moved, no room or data now, or another error.
pub data Outcome : Type 0 where
  moved : ℕ → Outcome
  would_block failed : Outcome

-- What recv came to: the bytes that it wrote to tmpBuffer_.
pub data Received : Type 0 where
  received : List ℕ → Received
  nothing_yet broken : Received

unfoldable pub do_read : Bool → ℕ → Socket → Received → Run (Socket × Bool)
do_read debug cur_time s nothing_yet = done (s, false)
do_read debug cur_time s broken = done (close_socket s, false)
do_read debug cur_time s (received []) = done (close_socket s, true)
do_read debug cur_time s (received (b ∷ bs)) = put_data debug s.buf_in (b ∷ bs) >>= λ r.
    done (record s { buf_in = r.0; last_active = cur_time }, true)

-- After the label send_success.
unfoldable pub send_success : ℕ → Socket → ℕ → Socket × Bool
send_success cur_time s w =
    (record s { writebuf = drop w s.writebuf; last_keepalive = cur_time }, true)

unfoldable pub send_pending : ℕ → Socket → Outcome → Socket × Bool
send_pending cur_time s (moved w) = send_success cur_time s w
send_pending cur_time s would_block = send_success cur_time s 0
send_pending cur_time s failed = (close_socket s, false)

-- The bytes that wait, or else what get_data takes out of the buffer.
unfoldable pub fill_writebuf : Socket → Run (Socket × Option ℕ)
fill_writebuf s =
    if length s.writebuf == 0
    then (get_data s.buf_out s.settings.queue_size >>= λ r.
        done (record s { buf_out = r.0; writebuf = r.1 }, r.2))
    else done (s, some (length s.writebuf))

unfoldable pub write_or_wait : ℕ → Outcome → Socket × Option ℕ → Socket × Bool
write_or_wait cur_time outcome (s, none) = (s, false)
write_or_wait cur_time outcome (s, some n) =
    let sent = send_pending cur_time s outcome in if n == 0 then (s, true) else sent

unfoldable pub do_write : ℕ → Socket → Outcome → Run (Socket × Bool)
do_write cur_time s outcome = fill_writebuf s >>= λ r. done (write_or_wait cur_time outcome r)
