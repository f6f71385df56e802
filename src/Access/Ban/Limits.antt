-- ===== src/Access/Ban/Limits.antt =====
-- src/ban.cpp, Ban::acceptConnection: when an attempt is refused, and what bounds the counters.
use otxlinux.Prelude.{
  ℕ, ◌+◌, ◌≤◌, ◌<◌, ◌^◌, ◌≡◌, refl, ◌↔◌, ◌⊎◌, inl, inr, Bool, true, false, Option, none, some, List,
  [], ◌∷◌, ◌==◌, if◌then◌else◌, arith, Option-cases,
}
use otxlinux.Prelude.Maps.{find, find-assign}
use otxlinux.Access.Ban.{ConnectBlock, IpConnectMap, attempt, reconnect, accept_connection}

-- A known address is refused exactly while its block lasts, or when its attempt is the sixth that
-- was counted and comes within half a second of the last one.
pub reconnect_refused_iff :
    (now : ℕ) (b : ConnectBlock)
    → b.count < 2 ^ 31
    → ((reconnect now b).0 ≡ false)
      ↔ ((now < b.block_time) ⊎ ((5 ≤ b.count) × (now ≤ b.last_attempt + 500)))
unfolding reconnect attempt
reconnect_refused_iff now b h = (λ e. ground arith, λ e. ground arith)

-- The counter of every address is at most five.
abbrev pub IsCounted : IpConnectMap → Type 0
IsCounted m = (ip : ℕ) (b : ConnectBlock) → find m ip ≡ some b → b.count ≤ 5

reconnect-count : (now : ℕ) (b : ConnectBlock) → b.count ≤ 5 → (reconnect now b).1.count ≤ 5
unfolding reconnect attempt
reconnect-count now b h = ground arith

-- What is known of an address after an attempt, by what was known before.
pub after : ℕ → Option ConnectBlock → ConnectBlock
after now none = record { last_attempt = now; block_time = 0; count = 1 }
after now (some b) = (reconnect now b).1

pub find-accept_connection :
    (ip other now : ℕ) (m : IpConnectMap)
    → find (accept_connection ip now m).1 other
      ≡ (if other == ip then some (after now (find m ip)) else find m other)
unfolding accept_connection after
find-accept_connection ip other now m = elim (Option-cases (find m ip)) [
  | inl e ↦ rw (e, accept_connection, after, find-assign)
  | inr (b, e) ↦ rw (e, accept_connection, after, find-assign)
]

-- Every attempt keeps the counters at five or less.
pub accept_connection-IsCounted :
    (ip now : ℕ) (m : IpConnectMap) → IsCounted m → IsCounted (accept_connection ip now m).1
unfolding after
accept_connection-IsCounted ip now m h j b e = elim (Option-cases (find m ip)) [
  | inl new ↦ ground (arith, find-accept_connection ip j now m, h j b)
  | inr (c, old) ↦
      ground (arith, find-accept_connection ip j now m, h j b, h ip c old, reconnect-count now c)
]

-- Attempts of one address, one after the other, and their answers.
unfoldable pub attempts : ℕ → List ℕ → IpConnectMap → List Bool × IpConnectMap
attempts ip [] m = ([], m)
attempts ip (t ∷ ts) m =
    let (ok, m1) = accept_connection ip t m in let (oks, m2) = attempts ip ts m1 in (ok ∷ oks, m2)

-- The block after `n` counted attempts.
counted : ℕ → ℕ → ConnectBlock
counted n t = record { last_attempt = t; block_time = 0; count = n }

counted_step :
    (n s t : ℕ)
    → n < 5
    → s ≤ t
    → t ≤ s + 500
    → reconnect t (counted n s) ≡ (true, counted (n + 1) t)
unfolding reconnect attempt counted
counted_step n s t small p q = ground arith

counted_last :
    (s t : ℕ)
    → s ≤ t
    → t ≤ s + 500
    → t < 2 ^ 63
    → reconnect t (counted 5 s)
      ≡ (false, record { last_attempt = t; block_time = t + 3000; count = 0 })
unfolding reconnect attempt counted
counted_last s t p q r = ground arith

step :
    (ip t : ℕ) (m : IpConnectMap) (b c : ConnectBlock) (ok : Bool)
    → find m ip ≡ some b
    → reconnect t b ≡ (ok, c)
    → (accept_connection ip t m).0 ≡ ok × (find (accept_connection ip t m).1 ip ≡ some c)
unfolding accept_connection
step ip t m b c ok known e =
    rw (known, accept_connection, e) (refl, ground (arith, find-assign m ip ip c))

first_step :
    (ip t : ℕ) (m : IpConnectMap)
    → find m ip ≡ none
    → (accept_connection ip t m).0 ≡ true
      × (find (accept_connection ip t m).1 ip ≡ some (counted 1 t))
unfolding accept_connection counted
first_step ip t m new =
    rw (new, accept_connection)
      (
        refl,
        ground
            (arith, find-assign m ip ip (record { last_attempt = t; block_time = 0; count = 1 })),
      )

-- Of six attempts of a new address, each within half a second of the one before, the first five are
-- accepted and the sixth is refused, and it blocks the address for three seconds.
pub flood :
    (ip t1 t2 t3 t4 t5 t6 : ℕ) (m : IpConnectMap)
    → find m ip ≡ none
    → (t1 ≤ t2) × (t2 ≤ t1 + 500)
    → (t2 ≤ t3) × (t3 ≤ t2 + 500)
    → (t3 ≤ t4) × (t4 ≤ t3 + 500)
    → (t4 ≤ t5) × (t5 ≤ t4 + 500)
    → (t5 ≤ t6) × (t6 ≤ t5 + 500)
    → t6 < 2 ^ 63
    → let r = attempts ip (t1 ∷ t2 ∷ t3 ∷ t4 ∷ t5 ∷ t6 ∷ []) m in
      (r.0 ≡ true ∷ true ∷ true ∷ true ∷ true ∷ false ∷ [])
      × (find r.1 ip ≡ some (record { last_attempt = t6; block_time = t6 + 3000; count = 0 }))
unfolding attempts
flood ip t1 t2 t3 t4 t5 t6 m new h2 h3 h4 h5 h6 small =
    let s1 = first_step ip t1 m new in
    let s2 = step ip t2 _ _ _ _ s1.1 (counted_step 1 t1 t2 (omega arith) h2.0 h2.1) in
    let s3 = step ip t3 _ _ _ _ s2.1 (counted_step 2 t2 t3 (omega arith) h3.0 h3.1) in
    let s4 = step ip t4 _ _ _ _ s3.1 (counted_step 3 t3 t4 (omega arith) h4.0 h4.1) in
    let s5 = step ip t5 _ _ _ _ s4.1 (counted_step 4 t4 t5 (omega arith) h5.0 h5.1) in
    let s6 = step ip t6 _ _ _ _ s5.1 (counted_last t5 t6 h6.0 h6.1 small) in
    (rw (s1.0, s2.0, s3.0, s4.0, s5.0, s6.0), s6.1)

-- While the block lasts every attempt is refused, and puts its end off by a quarter of a second.
pub blocked :
    (ip now : ℕ) (b : ConnectBlock) (m : IpConnectMap)
    → find m ip ≡ some b
    → now < b.block_time
    → b.block_time + 250 < 2 ^ 64
    → let r = accept_connection ip now m in
      (r.0 ≡ false) × (find r.1 ip ≡ some (record b { block_time = b.block_time + 250 }))
unfolding accept_connection reconnect
blocked ip now b m known early small =
    rw (known, accept_connection)
      (ground (arith, find-assign m ip ip (record b { block_time = b.block_time + 250 })))
