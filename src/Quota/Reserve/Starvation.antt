-- ===== src/Quota/Reserve/Starvation.antt =====
-- Calls of low priority cannot use up the reserve.
use inc_trade.Prelude.{ℕ, ◌≤◌, ◌≡◌, false, arith}
use inc_trade.Quota.Reserve.{
  PriorityClass, is_critical, ReservedBucket, limit, reserved_tokens, try_acquire,
}

pub try_acquire-reserved :
    (now : ℕ) (priority : PriorityClass) (b : ReservedBucket)
    → is_critical priority ≡ false
    → reserved_tokens b ≤ b.tokens
    → reserved_tokens b ≤ limit b
    → let after = (try_acquire now priority b).0 in
      (reserved_tokens b ≤ after.tokens)
      × (after.capacity ≡ b.capacity)
      × (after.reserved_headroom ≡ b.reserved_headroom)
unfolding try_acquire
try_acquire-reserved now priority b low kept fits = ground arith

pub reserved-le-limit :
    (b : ReservedBucket) → b.reserved_headroom ≤ 100 → reserved_tokens b ≤ limit b
reserved-le-limit b h = grind arith
