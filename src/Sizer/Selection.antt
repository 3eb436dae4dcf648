-- ===== src/Sizer/Selection.antt =====
-- message_sizer.go: SelectStrategy, and OptimizeParams beside it.
use pointsub.Base.{ℕ, ◌≡◌, refl, true, [], ◌∷◌, ◌&&◌, ltb, leb, if◌then◌else◌, arith}
use pointsub.Base.ExchangeSort.{sort_from, pass, exchange}
use pointsub.Sizer.{
  covers, first_covering, select_strategy, optimize_params, new_default_message_sizer,
  register_strategy, replace, follows, tiny_message_strategy, small_message_strategy,
  medium_message_strategy, large_message_strategy, huge_message_strategy, validate_chunk_size,
}

-- The five strategies of the default sizer, in the order of their sizes.
pub new_default_message_sizer_order :
    new_default_message_sizer
    ≡ tiny_message_strategy ∷ small_message_strategy ∷ medium_message_strategy
      ∷ large_message_strategy ∷ huge_message_strategy ∷ []
unfolding new_default_message_sizer register_strategy replace follows sort_from pass exchange
new_default_message_sizer_order = refl

-- The default sizer gives each size the strategy of its range: tiny below 1024 bytes, small below
-- 16384, medium below 131072, large below 1048576, and huge from there on.
pub select_strategy-new_default :
    (size : ℕ)
    → select_strategy new_default_message_sizer size ≡ (
        if ltb size 1024
        then tiny_message_strategy
        else if ltb size 16384
        then small_message_strategy
        else if ltb size 131072
        then medium_message_strategy
        else if ltb size 1048576
        then large_message_strategy
        else huge_message_strategy)
unfolding select_strategy first_covering covers
select_strategy-new_default size = rw new_default_message_sizer_order (ground arith)

-- The parameters fit the strategy that the default sizer selects: chunks are used exactly by the
-- strategies from medium on, and the chunk size is a valid one and, where chunks are used, no larger
-- than either buffer.
optimize_params-select_strategy :
    (size : ℕ)
    → let p = optimize_params size in
      (p.use_chunking ≡ leb 16384 (select_strategy new_default_message_sizer size).low)
      × (validate_chunk_size p.chunk_size ≡ true)
      × ((if p.use_chunking
            then leb p.chunk_size p.write_buffer_size && leb p.chunk_size p.read_buffer_size
            else true)
          ≡ true)
unfolding optimize_params validate_chunk_size
optimize_params-select_strategy size = rw (select_strategy-new_default size) (ground arith)
