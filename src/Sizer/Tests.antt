-- ===== src/Sizer/Tests.antt =====
-- Runs of the message sizer, and its theorems at concrete inputs.
use mathlib.Core.List.{Perm}
use pointsub.Base.{
  ℕ, ◌≡◌, ◌≢◌, ◌<◌, ◌≤◌, refl, true, none, some, List, [], ◌∷◌, ◌++◌, length, length-replicate,
  replicate, take, arith, ◌&&◌, ltb, false,
}
use pointsub.Base.Bytes.{Bytes}
use pointsub.Base.Samples.{hello, sum32, sum32-lt}
use pointsub.Transporter.Sending.{Admits, open_sink}
use pointsub.Sizer.Medium.{medium_send, medium_receive}
use pointsub.Sizer.MediumTrip.{medium_receive-optimize_params, medium_receive-medium_send}
use pointsub.Sizer.Huge.{huge_send, huge_receive}
use pointsub.Sizer.HugeTrip.{huge_receive-huge_send, huge_receive-optimize_params}
use pointsub.Errors.{checksum_mismatch, frame_too_big}
use pointsub.Frame.{ok, err, flag_fragmented}
use pointsub.Sizer.{
  Strategy, replace, register_strategy, optimize_params, estimate_size, small_message_strategy,
  medium_message_strategy, small_message_size,
}
use pointsub.Sizer.Sorting.{IsSorted, register_strategy-IsSorted}
use pointsub.Sizer.Small.{
  small_send, small_header, small_receive, small_receive-small_send, small_receive-one_byte,
}
use pointsub.Frame.Writing.{frame_of}

abbrev page : Strategy
page = record { name = "Page"; low = 4096; high = 8192 }

abbrev two : List Strategy
two = small_message_strategy ∷ medium_message_strategy ∷ []

page_new : replace page two ≡ none
unfolding replace
page_new = refl

register_strategy-IsSorted_example :
    IsSorted (register_strategy two page) × Perm (two ++ page ∷ []) (register_strategy two page)
register_strategy-IsSorted_example = register_strategy-IsSorted two page page_new

abbrev wide : Strategy
wide = record { name = "MediumMessageStrategy"; low = 0; high = 0 }

wide_new : replace wide (small_message_strategy ∷ []) ≡ none
unfolding replace
wide_new = refl

some_hello : 0 < length hello
some_hello = omega arith

hello_fits : length hello < small_message_size
hello_fits = omega arith

small_receive-small_send_example :
    small_receive true ((small_send (record { sent = []; room = none }) hello).1.sent ++ 1 ∷ [])
    ≡ (ok hello, 1 ∷ [])
small_receive-small_send_example =
    small_receive-small_send true hello (1 ∷ []) some_hello hello_fits

differ : ◌≢◌ {A = ℕ} 5 6
differ e = ground arith

five_byte : 5 < 256
five_byte = omega arith

six_byte : 6 < 256
six_byte = omega arith

short : length (hello ++ 5 ∷ []) < small_message_size
short = omega arith

small_receive-one_byte_example :
    small_receive true (small_header (hello ++ 5 ∷ []) ++ ((hello ++ 6 ∷ []) ++ []))
    ≡ (err checksum_mismatch, [])
small_receive-one_byte_example =
    small_receive-one_byte hello [] [] 5 6 five_byte six_byte differ short

estimate_size_runs : estimate_size hello 0 ≡ 50
unfolding estimate_size
estimate_size_runs = refl

no_limit : Admits 0 65536
no_limit size small = refl

some_chunk : 0 < 2
some_chunk = omega arith

small_chunk : 2 ≤ 65536
small_chunk = omega arith

hello_range : length hello < 9223372036854775808
hello_range = omega arith

four_bytes : 4 ≤ length hello
four_bytes = omega arith

huge_receive-huge_send_example :
    (stream : Bytes) × (huge_send sum32 0 2 (open_sink (9 ∷ [])) hello
      ≡ some (none, open_sink ((9 ∷ []) ++ stream)))
    × ((rest : Bytes) → huge_receive sum32 0 0 (stream ++ rest) ≡ some (ok hello, rest))
huge_receive-huge_send_example =
    huge_receive-huge_send sum32 0 sum32-lt no_limit 2 hello (9 ∷ []) some_chunk small_chunk
      some_hello hello_range

huge_receive-optimize_params_example :
    (stream left : Bytes) × (huge_send sum32 0 2 (open_sink (9 ∷ [])) hello
      ≡ some (none, open_sink ((9 ∷ []) ++ stream)))
    × ((rest : Bytes)
        → huge_receive sum32 0 (optimize_params (length hello)).max_retries (stream ++ rest)
          ≡ some (err frame_too_big, left ++ rest))
huge_receive-optimize_params_example =
    huge_receive-optimize_params sum32 0 sum32-lt no_limit 2 hello (9 ∷ []) some_chunk small_chunk
      four_bytes hello_range

medium_limit : Admits 131072 65536
medium_limit size small = ground arith

abbrev three_hellos : Bytes
three_hellos = hello ++ (hello ++ hello)

hellos_long : 12 ≤ length three_hellos
hellos_long = omega arith

hellos_fit : length three_hellos ≤ 65536
hellos_fit = omega arith

zeros : ℕ → Bytes
zeros n = replicate n 0

length-zeros : (n : ℕ) → length (zeros n) ≡ n
unfolding zeros
length-zeros n = length-replicate n 0

medium_receive-optimize_params_example :
    (stream left : Bytes) × (medium_send sum32 131072
        (optimize_params (length (zeros 20000))).use_chunking
        (optimize_params (length (zeros 20000))).chunk_size
        (open_sink [])
        (zeros 20000)
      ≡ some (none, open_sink ([] ++ stream)))
    × ((rest : Bytes)
        → medium_receive sum32 131072 (stream ++ rest)
          ≡ some (ok (take 4096 (zeros 20000)), left ++ rest))
    × (stream ≡ frame_of sum32 (take 4096 (zeros 20000)) flag_fragmented ++ left)
    × (0 < length left)
medium_receive-optimize_params_example =
    medium_receive-optimize_params sum32 131072 sum32-lt medium_limit (zeros 20000) []
      (omega (arith, length-zeros 20000)) (omega (arith, length-zeros 20000))

hellos_whole : (true && ltb 4096 (length three_hellos)) ≡ false
hellos_whole = refl

medium_receive-medium_send_example :
    (stream : Bytes) × (medium_send sum32 131072 true 4096 (open_sink []) three_hellos
      ≡ some (none, open_sink ([] ++ stream)))
    × ((rest : Bytes) → medium_receive sum32 131072 (stream ++ rest) ≡ some (ok three_hellos, rest))
medium_receive-medium_send_example =
    medium_receive-medium_send sum32 131072 sum32-lt medium_limit true 4096 three_hellos []
      hellos_whole hellos_long hellos_fit
