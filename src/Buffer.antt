-- ===== src/Buffer.antt =====
-- src/lib/buffer.cpp and src/etwork/buffer.h: the queue of messages behind etwork::Buffer, with
-- both framings. A byte is a number and a block of memory a list of bytes; a result of -1 is `none`.
pub mod Run
pub mod PutData
pub mod GetData
pub mod Frames
pub mod Invariant
pub mod Filling
pub mod Receive
pub mod Wire
pub mod Mailbox
pub mod Pieces
pub mod Skipping
pub mod Split
mod Tests
use etwork.Common.{
  ℕ, zero, suc, ◌+◌, ◌*◌, ◌/◌, ◌%◌, ◌^◌, ◌-◌, Bool, true, false, not, ◌||◌, ◌&&◌, List, [], ◌∷◌,
  ◌++◌, Option, none, some, min, length, take, drop, memcpy, ltb, leb, ◌==◌, if◌then◌else◌,
}
use etwork.Common.Bytes.{add_size, sub_size, fresh_bytes}

-- struct Message with the bytes that follow it; both counters are unsigned short.
pub record Message : Type 0 where
  pub offset : ℕ
  pub size : ℕ
  pub payload : List ℕ

-- class Impl. `fill` is what operator new leaves in memory; `tmp_size` holds (size_t)-1 when no
-- half of a length waits.
pub record Impl : Type 0 where
  pub max_msg_size : ℕ
  pub queue_size : ℕ
  pub max_num_messages : ℕ
  pub queue : List Message
  pub cur_target : Option Message
  pub written : ℕ
  pub to_skip : ℕ
  pub tmp_size : ℕ
  pub fill : ℕ → ℕ

abbrev pub no_size : ℕ
no_size = 2 ^ 32 - 1

-- if( towrite > mSize ) towrite = mSize;
unfoldable pub clip : ℕ → ℕ → ℕ
clip count room = if ltb room count then room else count

unfoldable pub new_impl : (ℕ → ℕ) → ℕ → ℕ → ℕ → Impl
new_impl fill max_msg_size queue_size max_num_messages = record {
  max_msg_size = max_msg_size;
  queue_size = queue_size;
  max_num_messages = max_num_messages;
  queue = [];
  cur_target = none;
  written = 0;
  to_skip = 0;
  tmp_size = no_size;
  fill = fill;
}

-- A null pointer is `none`.
unfoldable pub new_message : Impl → ℕ → Option Message
new_message im size =
    if ltb im.max_msg_size size
    then none
    else if leb im.max_num_messages (length im.queue)
    then none
    else if ltb im.queue_size (add_size im.written size)
    then none
    else some (record { offset = 0; size = size % 2 ^ 16; payload = fresh_bytes im.fill size })

-- queue_.push_back( w ); written_ += size;
abbrev pub push_back : Impl → Message → ℕ → Impl
push_back im w size = record im { queue = im.queue ++ (w ∷ []); written = add_size im.written size }

unfoldable pub put_message : Impl → List ℕ → Impl × Option ℕ
put_message im msg = elim (new_message im (length msg)) [
  | none ↦ (im, none)
  | some w ↦
      (push_back im (record w { payload = memcpy w.payload msg }) (length msg), some (length msg))
]

-- The new state, the bytes written to the caller's memory and the result, by the queue.
unfoldable pub take_front : Impl → ℕ → List Message → Impl × List ℕ × Option ℕ
take_front im m_size [] = (im, [], none)
take_front im m_size (msg ∷ rest) = if ltb m_size msg.size then (im, [], none) else (
  record im { queue = rest; written = sub_size im.written msg.size },
  take msg.size msg.payload,
  some msg.size,
)

unfoldable pub get_message : Impl → ℕ → Impl × List ℕ × Option ℕ
unfolding take_front
get_message im m_size = take_front im m_size im.queue

unfoldable pub space_used : Impl → ℕ
space_used im = im.written

unfoldable pub message_count : Impl → ℕ
message_count im = length im.queue
