-- ===== src/Buffer/Tests.antt =====
-- src/lib/buffer.cpp run on concrete input, and its theorems at such input. `small` is the buffer of
-- TestEtworkBufferEvil in src/tester/main.cpp.
use etwork.Common.{ℕ, true, false, List, [], ◌∷◌, ◌++◌, some, ◌≡◌, ◌≢◌, refl, arith, length}
use etwork.Buffer.{Impl, new_impl, put_message, get_message}
use etwork.Buffer.Run.{done}
use etwork.Buffer.PutData.{put_data}
use etwork.Buffer.GetData.{get_data}
use etwork.Buffer.Frames.{IsIdle, frame, frames, put_messages, put_data-frames, skipping}
use etwork.Buffer.Invariant.{IsValid, Fits, new_impl-IsValid}
use etwork.Buffer.Receive.{TakesAll, put_data-TakesAll}
use etwork.Buffer.Wire.{contents, emptied, get_data-frames}
use etwork.Buffer.Mailbox.{
  view, post, collect, put_message-post, get_message-collect, put_messages-Took, wire_round_trip,
}
use etwork.Buffer.Pieces.{put_data-split_message, begun, ended, overwritten}
use etwork.Buffer.Skipping.{put_data-split_refused, appended_skipping}
use etwork.Buffer.Split.{get_data-split, queueing, partly, message, drained}

abbrev small : Impl
small = new_impl (λ i. 0) 10 20 5

small-IsValid : IsValid small
small-IsValid = new_impl-IsValid (λ i. 0) 10 20 5 (omega arith) (omega arith)

small-IsIdle : IsIdle small
unfolding new_impl
small-IsIdle = record { no_target = refl; no_half = refl; no_skip = refl }

abbrev two_messages : List (List ℕ)
two_messages = (1 ∷ 2 ∷ 3 ∷ []) ∷ (4 ∷ []) ∷ []

put_data-frames_example :
    put_data true small (frames two_messages) ≡ done (put_messages small two_messages, 8)
put_data-frames_example = put_data-frames true small two_messages small-IsIdle (omega arith)

put_data-TakesAll_example : TakesAll 5 (put_data false small (9 ∷ 9 ∷ 9 ∷ 0 ∷ 0 ∷ []))
put_data-TakesAll_example =
    put_data-TakesAll small (9 ∷ 9 ∷ 9 ∷ 0 ∷ 0 ∷ []) small-IsValid (omega arith)

put_message-post_example :
    (view (put_message small (7 ∷ [])).0, (put_message small (7 ∷ [])).1)
    ≡ post (view small) (7 ∷ [])
put_message-post_example = put_message-post small (7 ∷ []) small-IsValid

-- The buffer with two messages in its queue.
abbrev loaded : Impl
loaded = put_messages small two_messages

loaded-IsValid : IsValid loaded
unfolding new_impl
loaded-IsValid = (put_messages-Took small two_messages small-IsValid small-IsIdle (omega arith)).0

loaded-contents : contents loaded ≡ two_messages
unfolding new_impl
loaded-contents = (put_messages-Took small two_messages small-IsValid small-IsIdle (omega arith)).1

get_message-collect_example :
    (view (get_message loaded 3).0, (get_message loaded 3).1, (get_message loaded 3).2)
    ≡ collect (view loaded) 3
get_message-collect_example = get_message-collect loaded 3 loaded-IsValid

get_data-frames_example :
    get_data loaded 100
    ≡ done (emptied loaded, frames (contents loaded), some (length (frames (contents loaded))))
get_data-frames_example =
    get_data-frames loaded 100 loaded-IsValid (omega arith) (omega arith)
      (rw loaded-contents (omega arith))

wire_round_trip_example :
    (bytes : List ℕ) × (b' : Impl) × (get_data loaded 100
      ≡ done (emptied loaded, bytes, some (length bytes)))
    × (put_data true small bytes ≡ done (b', length bytes))
    × (contents b' ≡ contents small ++ contents loaded)
unfolding new_impl
wire_round_trip_example =
    wire_round_trip loaded small 100 loaded-IsValid small-IsValid small-IsIdle (omega arith)
      (omega arith) (rw loaded-contents (omega arith)) (rw loaded-contents (omega arith))
      (rw loaded-contents (omega arith))

-- A buffer that queues no message.
abbrev full : Impl
full = new_impl (λ i. 0) 10 20 0

full-no_Fits : ¬ Fits full 0
unfolding new_impl
full-no_Fits f = omega arith

full-IsIdle : IsIdle full
unfolding new_impl
full-IsIdle = record { no_target = refl; no_half = refl; no_skip = refl }

small-Fits : Fits small 3
unfolding new_impl
small-Fits = omega arith

put_data-split_message_example :
    (put_data true small (0 ∷ 3 ∷ 1 ∷ 2 ∷ []) ≡ done (begun small 3 (1 ∷ 2 ∷ []), 4))
    × (put_data true (begun small 3 (1 ∷ 2 ∷ [])) (3 ∷ [])
        ≡ done (ended small (1 ∷ 2 ∷ []) (3 ∷ []), 1))
    × (contents (ended small (1 ∷ 2 ∷ []) (3 ∷ []))
        ≡ contents small ++ (overwritten small (1 ∷ 2 ∷ []) (3 ∷ []) ∷ []))
    × (contents (ended small (1 ∷ 2 ∷ []) (3 ∷ [])) ≢ contents small ++ ((1 ∷ 2 ∷ 3 ∷ []) ∷ []))
put_data-split_message_example =
    put_data-split_message true small 1 3 (2 ∷ []) [] small-IsValid small-IsIdle small-Fits
      (omega arith)

small-no_Fits : ¬ Fits small 14
unfolding new_impl
small-no_Fits f = omega arith

put_data-split_refused_example :
    (put_data false small (0 ∷ 14 ∷ 9 ∷ 9 ∷ 9 ∷ 9 ∷ 9 ∷ 9 ∷ 9 ∷ 9 ∷ 9 ∷ [])
      ≡ done (skipping small 5, 11))
    × (put_data false (skipping small 5) (frame (6 ∷ 6 ∷ 6 ∷ []))
        ≡ done (appended_skipping small (6 ∷ 6 ∷ 6 ∷ []) 5, 5))
    × (contents (appended_skipping small (6 ∷ 6 ∷ 6 ∷ []) 5)
        ≡ contents small ++ ((6 ∷ 6 ∷ 6 ∷ []) ∷ []))
put_data-split_refused_example =
    put_data-split_refused small 14 (9 ∷ 9 ∷ 9 ∷ 9 ∷ 9 ∷ 9 ∷ 9 ∷ 9 ∷ 9 ∷ []) (6 ∷ 6 ∷ 6 ∷ [])
      small-IsValid small-IsIdle (omega arith) small-no_Fits (omega arith) small-Fits

abbrev three : List ℕ
three = 1 ∷ 2 ∷ 3 ∷ []

get_data-split_example :
    (get_data (queueing small (message three)) 4
      ≡ done (queueing small (partly (message three) 2), 0 ∷ 3 ∷ 1 ∷ 2 ∷ [], some 4))
    × (get_data (queueing small (partly (message three) 2)) 10
        ≡ done (drained small (message three), 1 ∷ [], some 1))
    × ((0 ∷ 3 ∷ 1 ∷ 2 ∷ []) ++ (1 ∷ []) ≢ frame three)
get_data-split_example =
    get_data-split small 1 3 (2 ∷ []) [] 10 (omega arith) (omega arith) (omega arith) (omega arith)
