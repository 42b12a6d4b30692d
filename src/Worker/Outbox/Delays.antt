-- ===== src/Worker/Outbox/Delays.antt =====
-- The delay before the next attempt, and the time that an operation under a lease is given.
use solitaire_matchmaking.Base.{
  ℕ, zero, suc, ◌+◌, ◌-◌, ◌*◌, ◌/◌, ◌^◌, ◌≤◌, ◌<◌, ◌≡◌, sym, ap, ◌∙◌, ◌||◌, ltb, inl, inr, arith,
  Bool-cases, ok, fail_if-ok,
}
use solitaire_matchmaking.Base.Int.{
  ℤ, pos, negsuc, pos_part, ltb_ℤ, leb_ℤ, ◌≤ℤ◌, ◌<ℤ◌, quot, wrap_int64, ◌+ℤ◌, ◌-ℤ◌, max_int64,
}
use solitaire_matchmaking.Base.Time.{Duration}
use solitaire_matchmaking.Worker.Outbox.{
  retry_delays, batch_size, concurrency, lease_duration, poll_interval, minute,
  max_outbox_batch_size, min_ℤ, retry_loop, retry_delay, OutboxRunnerOptions, validate_options,
  lease_margin, lease_bounded_timeout, second, hour,
}

pow_grows : (k n : ℕ) → k ≤ k * 2 ^ n
pow_grows k zero = grind arith
pow_grows k (suc n) = grind (arith, pow_grows k n)

capped : (x m : ℕ) → m ≤ x → min_ℤ (pos x) (pos m) ≡ pos m
capped x m h = ground arith

doubled : (d n : ℕ) → d * 2 ^ suc n ≡ (d + d) * 2 ^ n
doubled d n = grind arith

half_below : (m d : ℕ) → m / 2 < d → m ≤ d + d
half_below m d h = omega arith

half_above : (m d : ℕ) → d ≤ m / 2 → d + d ≤ m
half_above m d h = omega arith

wrap_double : (d : ℕ) → d + d ≤ max_int64 → wrap_int64 (pos d +ℤ pos d) ≡ pos (d + d)
unfolding wrap_int64 ◌+ℤ◌
wrap_double d h = ground arith

-- The capped exponential backoff.
loop_lem :
    (m n d : ℕ)
    → m ≤ max_int64
    → 0 < d
    → retry_loop (pos m) n (pos d) ≡ min_ℤ (pos (d * 2 ^ n)) (pos m)
unfolding retry_loop quot
loop_lem m zero d h k = ap (λ x. min_ℤ (pos x) (pos m)) (omega arith)
loop_lem m (suc n) d h k =
    let large = pow_grows (d + d) n in
    let same = doubled d n in
    elim (Bool-cases (ltb (d + 0) (m + 0))) [
      | inr high ↦ rw high (
          capped d m (ground (arith, high))
          ∙ sym (capped (d * 2 ^ suc n) m (ground (arith, high, large, same))))
      | inl low ↦ rw low (elim (Bool-cases (ltb (m / 2 + 0) (d + 0))) [
        | inl over ↦ rw over (
            sym (
              capped (d * 2 ^ suc n) m
                (omega (arith, half_below m d (ground (arith, over)), large, same))))
        | inr under ↦
            let fits = half_above m d (ground (arith, under)) in
            rw under (
              ap (retry_loop (pos m) n) (wrap_double d (omega (arith, fits)))
              ∙ loop_lem m n (d + d) h (omega arith)
              ∙ ap (λ x. min_ℤ (pos x) (pos m)) (sym same))
      ])
    ]

option_bounds :
    (o : OutboxRunnerOptions)
    → validate_options o ≡ ok tt
    → (pos 0 <ℤ o.retry_base_delay)
      × (o.retry_base_delay ≤ℤ o.retry_max_delay)
      × (o.retry_max_delay ≤ℤ pos hour)
unfolding validate_options
option_bounds o h =
    let (_, h₁) =
      fail_if-ok (leb_ℤ o.batch_size (pos 0) || ltb_ℤ (pos max_outbox_batch_size) o.batch_size)
        batch_size _ h in
    let (_, h₂) =
      fail_if-ok (leb_ℤ o.concurrency (pos 0) || ltb_ℤ o.batch_size o.concurrency) concurrency _
        h₁ in
    let (_, h₃) =
      fail_if-ok (leb_ℤ o.lease_duration (pos 0) || ltb_ℤ (pos 300000000000) o.lease_duration)
        lease_duration _ h₂ in
    let (_, h₄) =
      fail_if-ok (leb_ℤ o.poll_interval (pos 0) || ltb_ℤ (pos minute) o.poll_interval) poll_interval
        _ h₃ in
    let (clear, _) =
      fail_if-ok
        (leb_ℤ o.retry_base_delay (pos 0)
          || ltb_ℤ o.retry_max_delay o.retry_base_delay
          || ltb_ℤ (pos hour) o.retry_max_delay)
        retry_delays (ok tt) h₄ in
    ground (arith, clear)

delay_lem :
    (b m : ℤ) (n : ℕ)
    → pos 0 <ℤ b
    → b ≤ℤ m
    → m ≤ℤ pos hour
    → retry_loop m n b ≡ min_ℤ (pos (pos_part b * 2 ^ n)) m
delay_lem (pos b) (pos m) n h k l = loop_lem m n b (omega arith) (omega arith)
delay_lem (pos b) (negsuc m) n h k l = absurd (omega arith)
delay_lem (negsuc b) m n h k l = absurd (omega arith)

-- With options that are valid, the delay before the next attempt is the base delay, doubled for each
-- attempt after the first, or the largest delay where that is less: no doubling in the loop
-- overflows, and the early return changes nothing.
pub retry_delay_capped :
    (o : OutboxRunnerOptions) (attempt : ℕ)
    → validate_options o ≡ ok tt
    → retry_delay o attempt
      ≡ min_ℤ (pos (pos_part o.retry_base_delay * 2 ^ (attempt - 1))) o.retry_max_delay
unfolding retry_delay
retry_delay_capped o attempt h =
    let (low, order, high) = option_bounds o h in
    delay_lem o.retry_base_delay o.retry_max_delay (attempt - 1) low order high

-- Under a lease of positive length an operation is given a positive time that is at least nine tenths
-- of the lease, leaves at most one second of it, and does not outlast it.
pub lease_bounded_timeout_bounds :
    (lease : Duration)
    → pos 0 <ℤ lease
    → (pos 0 <ℤ lease_bounded_timeout lease)
      × (lease_bounded_timeout lease ≤ℤ lease)
      × (lease ≤ℤ lease_bounded_timeout lease +ℤ pos second)
      × (9 * pos_part lease ≤ 10 * pos_part (lease_bounded_timeout lease))
unfolding lease_bounded_timeout lease_margin quot ◌-ℤ◌ ◌+ℤ◌
lease_bounded_timeout_bounds (pos n) h = ground arith
lease_bounded_timeout_bounds (negsuc n) h = absurd (omega arith)
