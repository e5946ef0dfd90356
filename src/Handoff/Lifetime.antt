-- ===== src/Handoff/Lifetime.antt =====
-- How long the replay record of internal/auth/handoff/handoff.go lasts.
use accessgate.Base.{
  ℕ, suc, ◌-◌, ◌+◌, ◌*◌, ◌/◌, ◌≤◌, ◌<◌, ◌≡◌, ap, ◌∙◌, false, arith, if◌then◌else◌,
}
use accessgate.Base.Int.{
  ℤ, pos, negsuc, pos_part, leb_ℤ, neg_part, ltb_ℤ, -ℤ_parts, ◌-ℤ◌, ◌+ℤ◌, wrap64,
  wrap64-eq_of_IsInt64,
}
use accessgate.Handoff.{Ticket, second, once_ttl, ttl_until, at_second, saturate, max_duration}

-- The ticket expires within 9,000,000,000 seconds (285 years), so its lifetime is a Duration.
abbrev pub IsNear : ℕ → Ticket → Type 0
IsNear now t = pos_part t.expires_at * second ≤ now + 9_000_000_000 * second

saturate-eq : (d : ℤ) → pos_part d ≤ max_duration → neg_part d ≤ max_duration → saturate d ≡ d
unfolding saturate
saturate-eq (pos n) above below = ground arith
saturate-eq (negsuc n) above below = ground arith

short_sum : (n : ℕ) → pos n +ℤ pos second ≡ pos (n + second)
unfolding ◌+ℤ◌
short_sum n = ground arith

late_sum : (n : ℕ) → suc n ≤ second → negsuc n +ℤ pos second ≡ pos (second - suc n)
unfolding ◌+ℤ◌
late_sum n h = ground arith

-- The lifetime of a difference that is a Duration, with one second more.
lifetime-pos :
    (n : ℕ)
    → n ≤ 9_000_000_000 * second
    → wrap64 (saturate (pos n) +ℤ pos second) ≡ pos (n + second)
lifetime-pos n h =
    ap (λ d. wrap64 (d +ℤ pos second)) (saturate-eq (pos n) (omega arith) (omega arith))
    ∙ ap wrap64 (short_sum n)
    ∙ wrap64-eq_of_IsInt64 (pos (n + second)) (record { above = omega arith; below = omega arith })

lifetime-negsuc :
    (n : ℕ) → suc n ≤ second → wrap64 (saturate (negsuc n) +ℤ pos second) ≡ pos (second - suc n)
lifetime-negsuc n h =
    ap (λ d. wrap64 (d +ℤ pos second)) (saturate-eq (negsuc n) (omega arith) (omega arith))
    ∙ ap wrap64 (late_sum n h)
    ∙ wrap64-eq_of_IsInt64 (pos (second - suc n))
        (record { above = omega arith; below = omega arith })

abbrev ttl_of : ℤ → ℤ
ttl_of d =
    if leb_ℤ (wrap64 (saturate d +ℤ pos second)) (pos 0)
    then pos second
    else wrap64 (saturate d +ℤ pos second)

ttl_of-outlasts :
    (d : ℤ) (now later e : ℕ)
    → pos_part d + now ≡ neg_part d + e * second
    → later / second ≤ e
    → now ≤ later
    → e * second ≤ now + 9_000_000_000 * second
    → later < now + pos_part (ttl_of d)
ttl_of-outlasts (pos n) now later e parts unexpired order near =
    rw (lifetime-pos n (omega arith)) (ground arith)
ttl_of-outlasts (negsuc n) now later e parts unexpired order near =
    rw (lifetime-negsuc n (omega arith)) (ground arith)

-- A record that is made while the ticket verifies lasts as long as the ticket verifies.
ttl_until-outlasts :
    (now later e : ℕ)
    → later / second ≤ e
    → now ≤ later
    → e * second ≤ now + 9_000_000_000 * second
    → later < now + pos_part (ttl_until now (pos e))
unfolding ttl_until
ttl_until-outlasts now later e unexpired order near =
    let left = at_second (pos e) -ℤ pos now in
    ttl_of-outlasts left now later e
      (omega (
        arith,
        -ℤ_parts (pos (e * second)) (pos (0 * second)),
        -ℤ_parts (at_second (pos e)) (pos now),
      ))
      unexpired order near

stamp_outlasts :
    (now later : ℕ) (expires_at : ℤ)
    → ltb_ℤ expires_at (pos (later / second)) ≡ false
    → now ≤ later
    → pos_part expires_at * second ≤ now + 9_000_000_000 * second
    → later < now + pos_part (ttl_until now expires_at)
stamp_outlasts now later (pos e) unexpired order near =
    ttl_until-outlasts now later e (ground arith) order near
stamp_outlasts now later (negsuc n) unexpired order near = ground arith

pub record_outlasts :
    (now later : ℕ) (t : Ticket)
    → ltb_ℤ t.expires_at (pos (later / second)) ≡ false
    → now ≤ later
    → IsNear now t
    → later < now + pos_part (once_ttl now t)
unfolding once_ttl
record_outlasts now later t unexpired order near =
    stamp_outlasts now later t.expires_at unexpired order near
