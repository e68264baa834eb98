-- ===== src/Buffer/Invariant.antt =====
-- The bookkeeping of src/lib/buffer.cpp: what is true of the counters and the queue between calls.
use etwork.Common.{
  ℕ, suc, ◌+◌, ◌-◌, ◌^◌, ◌≤◌, ◌<◌, List, [], ◌∷◌, ◌++◌, Option, none, some, map, ◌≡◌, refl, ◌⊎◌,
  inl, inr, arith, length, take, memcpy, memcpy_all, length-append, sum, All, Option-cases,
  List-cases, Bool-cases, ltb→lt, take_all, subst, sym, ap, ◌∙◌, ltb,
}
use etwork.Common.Bytes.{sub_size, fresh_bytes, length-fresh_bytes}
use etwork.Buffer.{
  Message, Impl, no_size, new_impl, new_message, push_back, put_message, take_front, get_message,
}

-- The bytes of a queue of messages.
abbrev pub sizes : List Message → ℕ
sizes ms = sum (map (λ w. w.size) ms)

-- A message at its start, with as many bytes behind it as it says.
pub record IsWhole (w : Message) : Type 0 where
  pub at_start : w.offset ≡ 0
  pub sized : w.size ≡ length w.payload
  pub short : w.size < 2 ^ 16

-- The message that is being received: it fits beside the queue when it ends.
abbrev pub HasRoom : Impl → Option Message → Type 0
HasRoom im none = Unit {0}
HasRoom im (some w) =
    (length im.queue < im.max_num_messages)
    × (im.written + w.size ≤ im.queue_size)
    × (w.offset < w.size)
    × (w.size ≡ length w.payload)
    × (w.size ≤ im.max_msg_size)

pub record IsValid (im : Impl) : Type 0 where
  pub counted : im.written ≡ sizes im.queue
  pub few : length im.queue ≤ im.max_num_messages
  pub bounded : im.written ≤ im.queue_size
  pub whole : All IsWhole im.queue
  pub room : HasRoom im im.cur_target
  -- What CreateEtwork checks of the settings.
  pub limits : im.queue_size + im.max_msg_size ≤ 2 ^ 16
  pub shorts : im.max_msg_size < 2 ^ 16
  -- Half a size is the high byte of one, and waits only between messages.
  pub half : (im.tmp_size ≡ no_size) ⊎ ((im.tmp_size + 256 ≤ 2 ^ 16) × (im.cur_target ≡ none))

pub new_impl-IsValid :
    (fill : ℕ → ℕ) (max_msg_size queue_size max_num_messages : ℕ)
    → queue_size + max_msg_size ≤ 2 ^ 16
    → max_msg_size < 2 ^ 16
    → IsValid (new_impl fill max_msg_size queue_size max_num_messages)
unfolding new_impl
new_impl-IsValid fill max_msg_size queue_size max_num_messages h k = record {
  counted = refl;
  few = omega arith;
  bounded = omega arith;
  whole = tt;
  room = tt;
  limits = h;
  shorts = k;
  half = inl refl;
}

pub sizes-push : (ms : List Message) (w : Message) → sizes (ms ++ (w ∷ [])) ≡ sizes ms + w.size
sizes-push [] w = omega arith
sizes-push (m ∷ ms) w = omega (arith, sizes-push ms w)

pub All-push :
    (ms : List Message) (w : Message) → All IsWhole ms → IsWhole w → All IsWhole (ms ++ (w ∷ []))
All-push [] w h k = (k, tt)
All-push (m ∷ ms) w h k = (h.0, All-push ms w h.1 k)

-- When there is a message to be had: the three limits, as numbers.
pub record Fits (im : Impl) (n : ℕ) : Type 0 where
  pub message : n ≤ im.max_msg_size
  pub messages : length im.queue < im.max_num_messages
  pub total : im.written + n ≤ im.queue_size

-- The message that new_message makes.
abbrev pub fresh : Impl → ℕ → Message
fresh im n = record { offset = 0; size = n; payload = fresh_bytes im.fill n }

pub new_message-Fits :
    (im : Impl) (n : ℕ) → IsValid im → Fits im n → new_message im n ≡ some (fresh im n)
unfolding new_message
new_message-Fits im n v h = let f : im.written + n < 2 ^ 17 = omega arith in ground arith

new_message-some-Fits :
    (im : Impl) (n : ℕ) (w : Message) → IsValid im → new_message im n ≡ some w → Fits im n
unfolding new_message
new_message-some-Fits im n w v e = ground arith

-- new_message gives a fresh message of the size when it is within the three limits, and none when
-- it is not.
pub new_message_cases :
    (im : Impl) (n : ℕ)
    → IsValid im
    → (Fits im n × (new_message im n ≡ some (fresh im n)))
      ⊎ ((¬ Fits im n) × (new_message im n ≡ none))
new_message_cases im n v = elim (Option-cases (new_message im n)) [
  | inl e ↦ inr (λ f. cc (new_message-Fits im n v f), e)
  | inr (w, e) ↦
      let f : Fits im n = new_message-some-Fits im n w v e in inl (f, new_message-Fits im n v f)
]

-- A message of the given bytes at the end of the queue.
abbrev pub appended : Impl → List ℕ → Impl
appended im msg = record im {
  queue = im.queue ++ (record { offset = 0; size = length msg; payload = msg } ∷ []);
  written = im.written + length msg;
}

put-appended :
    (im : Impl) (msg : List ℕ)
    → IsValid im
    → Fits im (length msg)
    → push_back im
        (record (fresh im (length msg)) { payload = memcpy (fresh_bytes im.fill (length msg)) msg })
        (length msg)
      ≡ appended im msg
put-appended im msg v f =
    let all : memcpy (fresh_bytes im.fill (length msg)) msg ≡ msg =
      memcpy_all _ msg (omega (arith, length-fresh_bytes im.fill (length msg))) in
    let small : im.written + length msg < 2 ^ 17 = omega arith in rw all (ground arith)

-- put_message queues the bytes that it is given at the end, and returns their count, if they are
-- within the three limits; it changes nothing and returns -1 if they are not.
pub put_message_cases :
    (im : Impl) (msg : List ℕ)
    → IsValid im
    → (Fits im (length msg) × (put_message im msg ≡ (appended im msg, some (length msg))))
      ⊎ ((¬ Fits im (length msg)) × (put_message im msg ≡ (im, none)))
unfolding put_message
put_message_cases im msg v = elim (new_message_cases im (length msg) v) [
  | inl (f, e) ↦
      inl (f, rw (e, put_message) (ap (λ j. (j, some (length msg))) (put-appended im msg v f)))
  | inr (f, e) ↦ inr (f, rw (e, put_message) refl)
]

-- What the queue is after its first message left.
abbrev pub popped : Impl → Message → List Message → Impl
popped im w rest = record im { queue = rest; written = im.written - w.size }

popped-sub :
    (im : Impl) (w : Message) (rest : List Message)
    → IsValid im
    → im.queue ≡ w ∷ rest
    → (w.size ≤ im.written) × (sub_size im.written w.size ≡ im.written - w.size) × IsWhole w
popped-sub im w rest v e =
    let whole : All IsWhole (w ∷ rest) = subst (All IsWhole) e v.whole in
    let sum : im.written ≡ w.size + sizes rest = v.counted ∙ ap sizes e in
    (omega arith, omega arith, whole.0)

-- get_message on an empty queue, on a message that is larger than the caller's memory, and else.
pub get_message_cases :
    (im : Impl) (m_size : ℕ)
    → IsValid im
    → ((im.queue ≡ []) × (get_message im m_size ≡ (im, [], none)))
      ⊎ ((w : Message) × (rest : List Message) × (im.queue ≡ w ∷ rest)
          × IsWhole w
          × (((m_size < w.size) × (get_message im m_size ≡ (im, [], none)))
              ⊎ ((w.size ≤ m_size)
                  × (get_message im m_size ≡ (popped im w rest, w.payload, some w.size)))))
unfolding get_message
get_message_cases im m_size v = elim (List-cases im.queue) [
  | inl e ↦ inl (e, ap (take_front im m_size) e)
  | inr (w, rest, e) ↦
      let (fits, sub, whole) = popped-sub im w rest v e in
      let all : take w.size w.payload ≡ w.payload = take_all w.size w.payload (omega arith) in
      inr (
        w,
        rest,
        e,
        whole,
        elim (Bool-cases (ltb m_size w.size)) [
          | inl t ↦ inl (ltb→lt m_size w.size t, ap (take_front im m_size) e ∙ rw t refl)
          | inr f ↦ inr (ground arith, ap (take_front im m_size) e ∙ rw (f, sub, all) refl)
        ],
      )
]

HasRoom-mono :
    (im j : Impl) (c : Option Message)
    → length j.queue ≤ length im.queue
    → j.written ≤ im.written
    → (j.max_num_messages ≡ im.max_num_messages)
      × (j.queue_size ≡ im.queue_size)
      × (j.max_msg_size ≡ im.max_msg_size)
    → HasRoom im c
    → HasRoom j c
HasRoom-mono im j none h k e r = tt
HasRoom-mono im j (some w) h k e r = omega arith

popped-IsValid :
    (im : Impl) (w : Message) (rest : List Message)
    → IsValid im
    → im.queue ≡ w ∷ rest
    → IsValid (popped im w rest)
popped-IsValid im w rest v e =
    let whole : All IsWhole (w ∷ rest) = subst (All IsWhole) e v.whole in
    let sum : im.written ≡ w.size + sizes rest = v.counted ∙ ap sizes e in
    let len : length im.queue ≡ suc (length rest) = ap length e in
    record {
      counted = omega arith;
      few = omega arith;
      bounded = omega arith;
      whole = whole.1;
      room =
          HasRoom-mono im (popped im w rest) im.cur_target (omega arith) (omega arith)
            (refl, refl, refl) v.room;
      limits = v.limits;
      shorts = v.shorts;
      half = v.half;
    }

-- get_message keeps the bookkeeping.
pub get_message-IsValid : (im : Impl) (m_size : ℕ) → IsValid im → IsValid (get_message im m_size).0
get_message-IsValid im m_size v = elim (get_message_cases im m_size v) [
  | inl (_, e) ↦ rw e v
  | inr (w, rest, q, _, inl (_, e)) ↦ rw e v
  | inr (w, rest, q, _, inr (_, e)) ↦ rw e (popped-IsValid im w rest v q)
]

appended-IsValid :
    (im : Impl) (msg : List ℕ)
    → IsValid im
    → im.cur_target ≡ none
    → Fits im (length msg)
    → IsValid (appended im msg)
appended-IsValid im msg v free f =
    let w : Message = record { offset = 0; size = length msg; payload = msg } in
    record {
      counted = omega (arith, sizes-push im.queue w);
      few = omega (arith, length-append im.queue (w ∷ []));
      bounded = f.total;
      whole =
          All-push im.queue w v.whole
            (record { at_start = refl; sized = refl; short = omega arith });
      room = subst (HasRoom (appended im msg)) (sym free) tt;
      limits = v.limits;
      shorts = v.shorts;
      half = v.half;
    }

-- put_message keeps the bookkeeping of a buffer that is not in the middle of receiving a message.
pub put_message-IsValid :
    (im : Impl) (msg : List ℕ) → IsValid im → im.cur_target ≡ none → IsValid (put_message im msg).0
put_message-IsValid im msg v free = elim (put_message_cases im msg v) [
  | inl (f, e) ↦ rw e (appended-IsValid im msg v free f)
  | inr (_, e) ↦ rw e v
]
