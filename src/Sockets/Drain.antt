-- ===== src/Sockets/Drain.antt =====
-- src/lib/socketbase.cpp, Socket::do_write: what comes of calling it again and again while the
-- system takes some bytes each time.
use etwork.Common.{
  ℕ, suc, ◌-◌, ◌^◌, ◌≤◌, ◌<◌, Bool, true, false, Option, none, some, List, [], ◌∷◌, ◌++◌, ◌≡◌, refl,
  ap, sym, ◌∙◌, arith, length, drop, All, ◌==◌, if◌then◌else◌, inl, inr, List-cases, length-append,
  length-drop, append-nil,
}
use etwork.Buffer.{Impl, Message}
use etwork.Buffer.GetData.{get_data}
use etwork.Buffer.Run.{Run, done, ◌>>=◌}
use etwork.Buffer.Frames.{frames}
use etwork.Buffer.Invariant.{IsValid, HasRoom}
use etwork.Buffer.Wire.{contents, emptied, get_data-frames}
use etwork.Sockets.{
  Socket, moved, send_success, send_pending, fill_writebuf, write_or_wait, do_write,
}
use etwork.Sockets.Stream.{pending}

-- do_write for each count of bytes that ::send takes.
abbrev pub send_each : ℕ → List ℕ → Socket → Run Socket
send_each now [] s = done s
send_each now (w ∷ ws) s = do_write now s (moved w) >>= λ r. send_each now ws r.0

-- What do_write-pending asks of a socket.
pub record IsSending (s : Socket) : Type 0 where
  pub valid : IsValid s.buf_out
  pub three : 3 ≤ s.settings.queue_size
  pub small : s.settings.queue_size < 2 ^ 32
  pub fits : length (frames (contents s.buf_out)) < s.settings.queue_size

emptied-HasRoom : (im : Impl) (c : Option Message) → HasRoom im c → HasRoom (emptied im) c
emptied-HasRoom im none h = tt
emptied-HasRoom im (some w) (few, fits, part, whole, short) =
    (omega arith, omega arith, part, whole, short)

emptied-IsValid : (im : Impl) → IsValid im → IsValid (emptied im)
emptied-IsValid im v = record {
  counted = refl;
  few = omega arith;
  bounded = omega arith;
  whole = tt;
  room = emptied-HasRoom im im.cur_target v.room;
  limits = v.limits;
  shorts = v.shorts;
  half = v.half;
}

emptied-IsSending :
    (s : Socket) (bytes : List ℕ)
    → IsSending s
    → IsSending (record s { buf_out = emptied s.buf_out; writebuf = bytes })
emptied-IsSending s bytes k = record {
  valid = emptied-IsValid s.buf_out k.valid;
  three = k.three;
  small = k.small;
  fits = (let three = k.three in omega arith);
}

-- A socket that has bytes in writebuf_, and what send leaves of it.
sends :
    (now w : ℕ) (s : Socket) (b : ℕ) (bs : List ℕ)
    → s.writebuf ≡ b ∷ bs
    → write_or_wait now (moved w) (s, some (length s.writebuf)) ≡ send_success now s w
unfolding write_or_wait send_pending
sends now w s b bs e =
    let n : (length s.writebuf == 0) ≡ false = ap (λ t. length t == 0) e ∙ positive (length bs) in
    ap (λ t. if t then (s, true) else send_success now s w) n
  where
    positive : (n : ℕ) → (suc n == 0) ≡ false
    positive n = ground arith

-- What send took is gone from what waits.
fewer :
    (now w : ℕ) (s : Socket) (b : ℕ) (bs : List ℕ)
    → 0 < w
    → s.writebuf ≡ b ∷ bs
    → length (pending (send_success now s w).0) ≤ length (pending s) - 1
unfolding send_success
fewer now w s b bs some_bytes e =
    let rest = frames (contents s.buf_out) in
    let size = ap length e in
    omega (
      arith,
      length-append (drop w s.writebuf) rest,
      length-append s.writebuf rest,
      length-drop w s.writebuf,
    )

sent-IsSending : (now w : ℕ) (s : Socket) → IsSending s → IsSending (send_success now s w).0
unfolding send_success
sent-IsSending now w s k = record {
  valid = k.valid;
  three = k.three;
  small = k.small;
  fits = k.fits;
}

-- do_write on what waits, and on an empty writebuf_.
writes_on :
    (now w : ℕ) (s : Socket) (b : ℕ) (bs : List ℕ)
    → s.writebuf ≡ b ∷ bs
    → do_write now s (moved w) ≡ done (send_success now s w)
unfolding do_write fill_writebuf
writes_on now w s b bs e =
    let n : (length s.writebuf == 0) ≡ false = ap (λ t. length t == 0) e ∙ positive (length bs) in
    ap
      (λ t.
        (if t
          then (get_data s.buf_out s.settings.queue_size >>= λ r.
              done (record s { buf_out = r.0; writebuf = r.1 }, r.2))
          else done (s, some (length s.writebuf)))
        >>= λ r. done (write_or_wait now (moved w) r))
      n
    ∙ ap done (sends now w s b bs e)
  where
    positive : (n : ℕ) → (suc n == 0) ≡ false
    positive n = ground arith

abbrev loaded_socket : Socket → Socket
loaded_socket s = record s { buf_out = emptied s.buf_out; writebuf = frames (contents s.buf_out) }

writes_loaded :
    (now w : ℕ) (s : Socket)
    → IsSending s
    → s.writebuf ≡ []
    → do_write now s (moved w)
      ≡ done (
          write_or_wait now
            (moved w)
            (loaded_socket s, some (length (frames (contents s.buf_out)))))
unfolding do_write fill_writebuf
writes_loaded now w s k e =
    let n : (length s.writebuf == 0) ≡ true = ap (λ t. length t == 0) e in
    rw (n, get_data-frames s.buf_out s.settings.queue_size k.valid k.three k.small k.fits) refl

abbrev Progress : ℕ → ℕ → Socket → Type 0
Progress now w s =
    (s' : Socket) × (go_on : Bool) × (do_write now s (moved w) ≡ done (s', go_on))
    × IsSending s'
    × (length (pending s') ≤ length (pending s) - 1)

waits_with :
    (now w : ℕ) (s : Socket) (all : List ℕ)
    → frames (contents s.buf_out) ≡ all
    → IsSending s
    → 0 < w
    → s.writebuf ≡ []
    → Progress now w s
unfolding write_or_wait
waits_with now w s [] none_left k some_bytes e = (
  loaded_socket s,
  true,
  writes_loaded now w s k e ∙ ap (λ t. done (waiting t)) none_left,
  emptied-IsSending s (frames (contents s.buf_out)) k,
  (let nothing = ap length (ap (λ t. t ++ []) none_left) in omega arith),
)
  where
    waiting : List ℕ → Socket × Bool
    waiting all = write_or_wait now (moved w) (loaded_socket s, some (length all))
waits_with now w s (b ∷ bs) all k some_bytes e =
    let sent = send_success now (loaded_socket s) w in
    let less = fewer now w (loaded_socket s) b bs some_bytes all in
    let same : pending (loaded_socket s) ≡ pending s =
      append-nil (frames (contents s.buf_out))
      ∙ ap (λ t. t ++ frames (contents s.buf_out)) (sym e) in
    let size = ap length same in
    (
      sent.0,
      sent.1,
      writes_loaded now w s k e ∙ ap done (sends now w (loaded_socket s) b bs all),
      sent-IsSending now w (loaded_socket s) (emptied-IsSending s (frames (contents s.buf_out)) k),
      omega arith,
    )

-- One call: fewer bytes wait, unless none waited.
send_one : (now w : ℕ) (s : Socket) → IsSending s → 0 < w → Progress now w s
send_one now w s k some_bytes = elim (List-cases s.writebuf) [
  | inr (b, bs, e) ↦ (
    (send_success now s w).0,
    (send_success now s w).1,
    writes_on now w s b bs e,
    sent-IsSending now w s k,
    fewer now w s b bs some_bytes e,
  )
  | inl e ↦ waits_with now w s (frames (contents s.buf_out)) refl k some_bytes e
]

no_bytes : (bs : List ℕ) → length bs ≤ 0 → bs ≡ []
no_bytes [] h = refl
no_bytes (b ∷ bs) h = absurd (omega arith)

-- Of a socket that do_write can load: where send takes some bytes in each of as many calls as bytes
-- wait, do_write comes to an end each time, and after the last call nothing waits any more.
pub send_each_drains :
    (now : ℕ) (ws : List ℕ) (s : Socket)
    → IsSending s
    → All (λ w. 0 < w) ws
    → length (pending s) ≤ length ws
    → (s' : Socket) × (send_each now ws s ≡ done s') × (pending s' ≡ [])
send_each_drains now [] s k all enough = (s, refl, no_bytes (pending s) enough)
send_each_drains now (w ∷ ws) s k (some_bytes, all) enough =
    let (s1, go_on, e, k1, less) = send_one now w s k some_bytes in
    let (s', rest, nothing) = send_each_drains now ws s1 k1 all (omega arith) in
    (s', ap (λ r. r >>= λ t. send_each now ws t.0) e ∙ rest, nothing)
