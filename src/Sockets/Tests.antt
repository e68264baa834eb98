-- ===== src/Sockets/Tests.antt =====
-- src/lib/socketbase.cpp at concrete input: a socket with two messages to send.
use etwork.Common.{none, inl, true, false, [], ◌∷◌, ◌≡◌, refl, arith}
use etwork.Buffer.{Impl, Message, no_size}
use etwork.Buffer.Run.{done}
use etwork.Buffer.Invariant.{IsValid}
use etwork.Sockets.{EtworkSettings, accepted, check_settings, fill_defaults, Socket}
use etwork.Sockets.Drain.{IsSending, send_each, send_each_drains}
use etwork.Sockets.Stream.{pending, MakesValid, check_settings-MakesValid, check_settings_wraps}

abbrev usual : EtworkSettings
usual = record {
  etwork_version = 318771968;
  max_message_count = 0;
  max_message_size = 0;
  queue_size = 0;
  port = 0;
  reliable = true;
  accepting = false;
  debug = false;
  keepalive = 0;
  timeout = 0;
}

check_settings-MakesValid_example : MakesValid (λ i. 0) (check_settings usual)
check_settings-MakesValid_example =
    check_settings-MakesValid (λ i. 0) usual (omega arith) (omega arith)

-- A queue of almost 2^32 bytes.
abbrev huge : EtworkSettings
huge = record {
  etwork_version = 318771968;
  max_message_count = 50;
  max_message_size = 1400;
  queue_size = 4294967196;
  port = 0;
  reliable = true;
  accepting = false;
  debug = false;
  keepalive = 0;
  timeout = 0;
}

check_settings_wraps_example : check_settings huge ≡ accepted (fill_defaults huge)
check_settings_wraps_example =
    check_settings_wraps huge (omega arith) (omega arith) (omega arith) (omega arith) (omega arith)
      (omega arith) (omega arith)

abbrev first : Message
first = record { offset = 0; size = 2; payload = 8 ∷ 9 ∷ [] }

abbrev queueing : Impl
queueing = record {
  max_msg_size = 10;
  queue_size = 20;
  max_num_messages = 5;
  fill = λ i. 0;
  queue = first ∷ [];
  cur_target = none;
  written = 2;
  to_skip = 0;
  tmp_size = no_size;
}

queueing-IsValid : IsValid queueing
queueing-IsValid = record {
  counted = refl;
  few = omega arith;
  bounded = omega arith;
  whole = (record { at_start = refl; sized = refl; short = omega arith }, tt);
  room = tt;
  limits = omega arith;
  shorts = omega arith;
  half = inl refl;
}

abbrev waiting : Socket
waiting = record {
  settings = record {
    etwork_version = 318771968;
    max_message_count = 5;
    max_message_size = 10;
    queue_size = 20;
    port = 0;
    reliable = true;
    accepting = false;
    debug = false;
    keepalive = 0;
    timeout = 0;
  };
  closed = false;
  buf_in = queueing;
  buf_out = queueing;
  writebuf = [];
  last_active = 0;
  last_keepalive = 0;
}

waiting-IsSending : IsSending waiting
waiting-IsSending = record {
  valid = queueing-IsValid;
  three = omega arith;
  small = omega arith;
  fits = omega arith;
}

send_each_drains_example :
    (s' : Socket) × (send_each 1 (1 ∷ 1 ∷ 1 ∷ 1 ∷ []) waiting ≡ done s') × (pending s' ≡ [])
send_each_drains_example =
    send_each_drains 1 (1 ∷ 1 ∷ 1 ∷ 1 ∷ []) waiting waiting-IsSending
      (omega arith, (omega arith, (omega arith, (omega arith, tt)))) (omega arith)
