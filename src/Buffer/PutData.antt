-- ===== src/Buffer/PutData.antt =====
-- Buffer::put_data of src/lib/buffer.cpp: the state machine that takes framed bytes in pieces.
-- One round of its `goto more` loop is a function for each of its steps.
use etwork.Common.{
  ℕ, zero, suc, ◌+◌, ◌*◌, ◌%◌, ◌^◌, Bool, true, false, List, [], ◌∷◌, Option, none, some, length,
  take, drop, memcpy, ltb, ◌==◌, if◌then◌else◌,
}
use etwork.Common.Bytes.{add_size, sub_size}
use etwork.Buffer.{Message, Impl, no_size, clip, new_message, push_back}
use etwork.Buffer.Run.{Run, done, no_fuel, ◌>>=◌, ◌>>◌, assert}

abbrev pub is_null {ℓ} : {A : Type ℓ} → Option A → Bool
is_null none = true
is_null (some a) = false

-- What a step leaves: the state, the bytes not yet taken and their count so far, or a return.
pub data Step : Type 0 where
  return : Impl → ℕ → Step
  go_on : Impl → List ℕ → ℕ → Step

-- First, a half-received size; second, if there is no target, a size for one.
unfoldable pub read_size : Bool → Impl → List ℕ → ℕ → Run Step
read_size debug im [] total = done (return im total)
read_size debug im (b ∷ bs) total =
    if im.tmp_size == no_size
    then elim im.cur_target [
      | some w ↦ done (go_on im (b ∷ bs) total)
      | none ↦ elim bs [
        | [] ↦ done (return (record im { tmp_size = b * 256 }) (total + 1))
        | c ∷ cs ↦ done (go_on (record im { tmp_size = b * 256 + c }) cs (total + 2))
      ]
    ]
    else do
      assert debug (is_null im.cur_target)
      assert debug (im.to_skip == 0)
      done (go_on (record im { tmp_size = add_size im.tmp_size b }) bs (total + 1))

-- If it is time to allocate a target, do it; one that is refused is to be skipped.
unfoldable pub allocate : Bool → Impl → Run Impl
allocate debug im = if im.tmp_size == no_size then done im else do
  assert debug (is_null im.cur_target)
  elim (new_message im im.tmp_size) [
    | none ↦ done (record im { cur_target = none; to_skip = im.tmp_size; tmp_size = no_size })
    | some w ↦ done (record im { cur_target = some w; tmp_size = no_size })
  ]

-- Skip what belongs to a refused message.
unfoldable pub skip_data : Bool → Impl → List ℕ → ℕ → Run Step
skip_data debug im bytes total = do
  assert debug (ltb 0 im.to_skip)
  let skip = clip im.to_skip (length bytes)
  done (go_on (record im { to_skip = sub_size im.to_skip skip }) (drop skip bytes) (total + skip))

-- size_t toread: what the target still wants, or all there is.
unfoldable pub to_read : Message → ℕ → ℕ
unfolding clip
to_read w size = clip (sub_size w.size w.offset) size

-- The memcpy of n bytes into the target and what follows it. The copy goes to &curTarget_[1],
-- which is the start of the message.
unfoldable pub copy_bytes : Impl → Message → ℕ → List ℕ → Impl
copy_bytes im w n bytes =
    let offset = (w.offset + n) % 2 ^ 16 in
    let payload = memcpy w.payload (take n bytes) in
    if w.size == offset
    then record (push_back im (record { offset = 0; size = w.size; payload = payload }) w.size) {
      cur_target = none;
    }
    else record im {
      cur_target = some (record { offset = offset; size = w.size; payload = payload });
    }

-- Now, keep filling the target.
unfoldable pub fill_target : Bool → Impl → Message → List ℕ → ℕ → Run Step
fill_target debug im w bytes total = do
  assert debug (im.tmp_size == no_size)
  assert debug (im.to_skip == 0)
  let n = to_read w (length bytes)
  done (go_on (copy_bytes im w n bytes) (drop n bytes) (total + n))

unfoldable pub take_data : Bool → Impl → List ℕ → ℕ → Run Step
take_data debug im bytes total = elim im.cur_target [
  | none ↦ skip_data debug im bytes total
  | some w ↦ fill_target debug im w bytes total
]

-- From the label `more` to the next `goto more` or return, on at least one byte.
unfoldable pub round : Bool → Impl → List ℕ → ℕ → Run Step
round debug im bytes total = read_size debug im bytes total >>= λ s. elim s [
  | return im' total' ↦ done (return im' total')
  | go_on im' bytes' total' ↦ do im'' ← allocate debug im'; take_data debug im'' bytes' total'
]

unfoldable pub put_data_loop : ℕ → Bool → Impl → List ℕ → ℕ → Run (Impl × ℕ)
put_data_loop zero debug im bytes total = no_fuel
put_data_loop (suc fuel) debug im [] total = done (im, total)
put_data_loop (suc fuel) debug im (b ∷ bs) total = round debug im (b ∷ bs) total >>= λ s. elim s [
  | return im' total' ↦ done (im', total')
  | go_on im' bytes' total' ↦ put_data_loop fuel debug im' bytes' total'
]

-- Each round takes a byte at least.
unfoldable pub put_data : Bool → Impl → List ℕ → Run (Impl × ℕ)
put_data debug im bytes = put_data_loop (suc (length bytes)) debug im bytes 0
