-- ===== src/Buffer/GetData.antt =====
-- Buffer::get_data of src/lib/buffer.cpp: the queue written out as framed bytes, in pieces.
use etwork.Common.{
  ℕ, zero, suc, ◌+◌, ◌/◌, ◌%◌, ◌^◌, List, [], ◌∷◌, ◌++◌, Option, none, some, length, take, ltb,
  ◌==◌, if◌then◌else◌,
}
use etwork.Common.Bytes.{sub_size}
use etwork.Buffer.{Message, Impl, clip}
use etwork.Buffer.Run.{Run, done, bad_access, no_fuel}

-- The caller's memory is what has been written to it so far; `m_size` is what room is left in it.
pub record Output : Type 0 where
  pub impl : Impl
  pub bytes : List ℕ
  pub m_size : ℕ
  pub total : ℕ

-- data[0] = w->size_ >> 8; data[1] = w->size_;
unfoldable pub write_size : Message → Output → Output
write_size w o =
    if w.offset == 0
    then record o {
      bytes = o.bytes ++ (w.size / 2 ^ 8 % 2 ^ 8 ∷ w.size % 2 ^ 8 ∷ []);
      m_size = sub_size o.m_size 2;
      total = o.total + 2;
    }
    else o

-- size_t towrite: what is left of the message, or the room there is.
unfoldable pub to_write : Message → ℕ → ℕ
unfolding clip
to_write w m_size = clip (sub_size w.size w.offset) m_size

-- The memcpy of n bytes out of the message and what follows it. The copy comes from &w[1], which
-- is the start of the message.
unfoldable pub write_bytes : Message → List Message → ℕ → Output → Output
write_bytes w rest n o =
    let offset = (w.offset + n) % 2 ^ 16 in
    let im = o.impl in
    record {
      impl =
          if offset == w.size
          then record im { queue = rest; written = sub_size im.written w.size }
          else record im { queue = record w { offset = offset } ∷ rest };
      bytes = o.bytes ++ take n w.payload;
      m_size = sub_size o.m_size n;
      total = o.total + n;
    }

unfoldable pub write_message : Message → List Message → Output → Output
write_message w rest o = write_bytes w rest (to_write w o.m_size) o

unfoldable pub get_data_loop : ℕ → Output → Run Output
get_data_loop zero o = no_fuel
get_data_loop (suc fuel) o = elim o.impl.queue [
  | [] ↦ done o
  | w ∷ rest ↦
      let next = write_message w rest (write_size w o) in
      let others = get_data_loop fuel next in if ltb next.m_size 3 then done next else others
]

-- Each round takes at least one byte of the room, or empties the queue by a message.
unfoldable pub get_data : Impl → ℕ → Run (Impl × List ℕ × Option ℕ)
get_data im m_size =
    if ltb m_size 3
    then done (im, [], none)
    else elim (get_data_loop (suc (length im.queue + m_size))
        (record { impl = im; bytes = []; m_size = m_size; total = 0 })) [
          | done o ↦ done (o.impl, o.bytes, some o.total)
          | Run.assert_failed ↦ Run.assert_failed
          | bad_access ↦ bad_access
          | no_fuel ↦ no_fuel
        ]
