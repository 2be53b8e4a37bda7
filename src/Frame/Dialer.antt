-- ===== src/Frame/Dialer.antt =====
-- `FrameDialer` of crates/spl-core/src/frame.rs over many allocations.
use spl_rust.Base.{ℕ, zero, suc, ◌+◌, ◌*◌, ◌%◌, ◌^◌, ◌<◌, ◌≡◌, ◌≢◌, arith}
use spl_rust.Frame.{FrameDialer, new_dialer, allocate}

-- The state after `n` allocations.
unfoldable pub after_allocations : ℕ → FrameDialer → FrameDialer
after_allocations zero d = d
after_allocations (suc n) d = (allocate (after_allocations n d)).1

-- The id that the allocation after `n` others returns.
unfoldable pub nth_id : ℕ → ℕ
unfolding after_allocations
nth_id n = (allocate (after_allocations n new_dialer)).0

next_after : (n : ℕ) → (after_allocations n new_dialer).next ≡ (1 + 2 * n) % 2 ^ 32
unfolding after_allocations allocate
next_after zero = omega arith
next_after (suc n) = omega (arith, next_after n)

-- The allocator hands out 1, 3, 5, …, modulo 2^32, so every id is odd.
pub allocate_sequence : (n : ℕ) → (nth_id n ≡ (1 + 2 * n) % 2 ^ 32) × (nth_id n % 2 ≡ 1)
unfolding nth_id allocate
allocate_sequence n = (next_after n, omega (arith, next_after n))

-- No stream id is handed out twice among the first 2^31 allocations.
pub allocate_distinct : (i j : ℕ) → i < j → j < 2 ^ 31 → nth_id i ≢ nth_id j
allocate_distinct i j h k = omega (arith, (allocate_sequence i).0, (allocate_sequence j).0)
